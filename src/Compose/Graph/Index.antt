-- ===== src/Compose/Graph/Index.antt =====
-- The nodes of the graph of mounts, as an index by their identities.
use docker_map.Common.{
  ◌≡◌, refl, inl, inr, true, List, [], ◌∷◌, ◌++◌, Bool-cases, Occurs, Occurs-left, All, All-append,
  Text, text_eq_refl, arith,
}
use docker_map.Common.Maps.{contains_key, insert, get-insert, IsSorted, insert-IsSorted, text_Ord}
use docker_map.Models.Compose.{ComposeGraphNode, ComposeGraphEdge}
use docker_map.Compose.Graph.{NodesById, or_insert}

-- Each node stands under its identity.
abbrev pub IsKeyed : NodesById → Type 0
IsKeyed nodes = All (λ p. p.1.id ≡ p.0) nodes

insert-IsKeyed :
    (node : ComposeGraphNode) (nodes : NodesById)
    → IsKeyed nodes
    → IsKeyed (insert node.id node nodes)
unfolding insert
insert-IsKeyed node [] k = (refl, tt)
insert-IsKeyed node ((id, other) ∷ nodes) k = ground (arith, insert-IsKeyed node nodes k.1)

-- What the loops keep: the nodes in ascending order under their identities.
abbrev pub IsIndex : NodesById → Type 0
IsIndex nodes = IsSorted nodes × IsKeyed nodes

pub or_insert-IsIndex :
    (node : ComposeGraphNode) (nodes : NodesById) → IsIndex nodes → IsIndex (or_insert node nodes)
or_insert-IsIndex node nodes k = elim (Bool-cases (contains_key node.id nodes)) [
  | inl there ↦ rw there k
  | inr fresh ↦ rw fresh (insert-IsSorted node.id node nodes k.0, insert-IsKeyed node nodes k.1)
]

-- Nothing that is there is lost.
abbrev pub Keeps : NodesById → NodesById → Type 0
Keeps before after = (id : Text) → contains_key id before ≡ true → contains_key id after ≡ true

pub or_insert-Keeps :
    (node : ComposeGraphNode) (nodes : NodesById) → Keeps nodes (or_insert node nodes)
or_insert-Keeps node nodes id h = ground (arith, get-insert node.id id node nodes)

pub or_insert-holds :
    (node : ComposeGraphNode) (nodes : NodesById)
    → contains_key node.id (or_insert node nodes) ≡ true
or_insert-holds node nodes =
    ground (arith, get-insert node.id node.id node nodes, text_eq_refl node.id)

abbrev pub IsHeld : NodesById → ComposeGraphEdge → Type 0
IsHeld nodes e = (contains_key e.source nodes ≡ true) × (contains_key e.target nodes ≡ true)

pub All-Keeps :
    (before after : NodesById) (edges : List ComposeGraphEdge)
    → Keeps before after
    → All (IsHeld before) edges
    → All (IsHeld after) edges
All-Keeps before after [] k h = tt
All-Keeps before after (e ∷ edges) k h =
    ((k e.source h.0.0, k e.target h.0.1), All-Keeps before after edges k h.1)

abbrev pub Graph : Type 0
Graph = NodesById × List ComposeGraphEdge

-- The ends of the edges are there.
abbrev pub IsGraph : Graph → Type 0
IsGraph (nodes, edges) = IsIndex nodes × All (IsHeld nodes) edges

abbrev pub Grows : Graph → Graph → Type 0
Grows before after =
    Keeps before.0 after.0 × ((e : ComposeGraphEdge) → Occurs e before.1 → Occurs e after.1)

pub Grows-trans : (a b c : Graph) → Grows a b → Grows b c → Grows a c
Grows-trans a b c g h = (λ id k. h.0 id (g.0 id k), λ e o. h.1 e (g.1 e o))

-- A node goes in, with an edge between nodes that are there then.
pub joined_in :
    (node : ComposeGraphNode) (e : ComposeGraphEdge) (nodes : NodesById)
    (edges : List ComposeGraphEdge)
    → IsGraph (nodes, edges)
    → IsHeld (or_insert node nodes) e
    → IsGraph (or_insert node nodes, edges ++ e ∷ [])
      × Grows (nodes, edges) (or_insert node nodes, edges ++ e ∷ [])
joined_in node e nodes edges g h = (
  (
    or_insert-IsIndex node nodes g.0,
    All-append (IsHeld (or_insert node nodes)) edges (e ∷ [])
        (All-Keeps nodes (or_insert node nodes) edges (or_insert-Keeps node nodes) g.1) (h, tt),
  ),
  (or_insert-Keeps node nodes, λ a o. Occurs-left a edges (e ∷ []) o),
)
