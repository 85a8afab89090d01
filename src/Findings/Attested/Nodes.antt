-- ===== src/Findings/Attested/Nodes.antt =====
-- `unique_nodes` holds the nodes whose identity no other node has.
use docker_map.Common.{
  ℕ, ◌≡◌, inl, inr, subst, sym, ◌∙◌, Bool, true, List, [], ◌∷◌, arith, ==_iff, is_some, filter,
  Text, Bool-cases, text_eq, text_eq_iff,
}
use docker_map.Common.Maps.{get, insert, get-insert, text_Ord}
use docker_map.Common.Counts.{count_at, is_one-counts_by}
use docker_map.Models.Runtime.{RuntimeMapNode}
use docker_map.Findings.Shapes.{Nodes}
use docker_map.Findings.Survey.{collect_nodes, unique_nodes}

-- How many nodes have an identity.
abbrev pub count_id : Text → List RuntimeMapNode → ℕ
count_id id nodes = count_at (λ n. n.id) (λ n. true) id nodes

-- A property of the identities that come in holds of those that are found.
get-collect :
    (P : Text → Type 0) (k : Text) (nodes : Nodes) (keep : RuntimeMapNode → Bool)
    (kept : (n : RuntimeMapNode) → keep n ≡ true → P n.id) (ns : List RuntimeMapNode)
    → (is_some (get k nodes) ≡ true → P k)
    → is_some (get k (collect_nodes nodes (filter keep ns))) ≡ true
    → P k
unfolding collect_nodes
get-collect P k nodes keep kept [] known h = known h
get-collect P k nodes keep kept (n ∷ ns) known h = elim (Bool-cases (keep n)) [
  | inl in_ ↦
      get-collect P k (insert n.id n nodes) keep kept ns
        (λ found. elim (Bool-cases (text_eq k n.id)) [
          | inl same ↦ subst P (sym ((text_eq_iff k n.id).0 same)) (kept n in_)
          | inr other ↦ known (ground (arith, get-insert n.id k n nodes))
        ])
        (ground arith)
  | inr out ↦ get-collect P k nodes keep kept ns known (ground arith)
]

pub unique_nodes-count_id :
    (k : Text) (ns : List RuntimeMapNode)
    → is_some (get k (unique_nodes ns)) ≡ true
    → count_id k ns ≡ 1
unfolding unique_nodes get
unique_nodes-count_id k ns h =
    get-collect (λ id. count_id id ns ≡ 1) k [] _
      (λ n one. (==_iff _ _).0 (sym (is_one-counts_by (λ m. m.id) (λ m. true) n.id ns) ∙ one)) ns
      (λ nothing. absurd (cc)) h
