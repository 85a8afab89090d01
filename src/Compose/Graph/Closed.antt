-- ===== src/Compose/Graph/Closed.antt =====
-- `derive_compose_graph` (crates/dockermap-core/src/compose.rs) as a whole.
use docker_map.Common.{
  ◌≡◌, refl, sym, ◌∙◌, subst, inl, inr, true, List, [], ◌∷◌, ◌++◌, Option, none, some, Bool-cases,
  Occurs, Occurs-right, All, Text, text_eq, text_eq_sound, text_lt, arith,
}
use docker_map.Common.Maps.{get, contains_key, text_Ord}
use docker_map.Models.Compose.{
  ComposeMount, ComposeService, ComposeScan, ComposeGraphNode, ComposeGraphEdge,
}
use docker_map.Compose.Graph.{
  NodesById, or_insert, values, compose_service_node_id, service_node, service_nodes, target_node,
  source_node_for, declares, mounted, with_source, add_mount, add_mounts, derive_compose_graph,
}
use docker_map.Compose.Graph.Index.{
  IsKeyed, IsIndex, or_insert-IsIndex, Keeps, or_insert-Keeps, or_insert-holds, IsHeld, All-Keeps,
  Graph, IsGraph, Grows, Grows-trans, joined_in,
}

module _ (digest : Text → Text) where
  with_source-IsGraph :
      (source : Option ComposeGraphNode) (mount : ComposeMount) (g : Graph)
      → IsGraph g
      → contains_key (target_node digest mount).id g.0 ≡ true
      → IsGraph (with_source digest source mount g) × Grows g (with_source digest source mount g)
  with_source-IsGraph none mount (nodes, edges) g h = (g, (λ id k. k, λ e o. o))
  with_source-IsGraph (some source) mount (nodes, edges) g h =
      joined_in source (mounted digest source mount) nodes edges g
        (or_insert-holds source nodes, or_insert-Keeps source nodes _ h)

  add_mount-IsGraph :
      (mount : ComposeMount) (g : Graph)
      → IsGraph g
      → IsGraph (add_mount digest mount g)
        × Grows g (add_mount digest mount g)
        × Occurs (declares digest mount) (add_mount digest mount g).1
  unfolding add_mount
  add_mount-IsGraph mount (nodes, edges) g =
      let service = service_node digest mount.service in
      let target = target_node digest mount in
      let with_service = or_insert service nodes in
      let first_step : IsGraph (with_service, edges) = (
        or_insert-IsIndex service nodes g.0,
        All-Keeps nodes with_service edges (or_insert-Keeps service nodes) g.1,
      ) in
      let (second, grown) = joined_in target (declares digest mount) with_service edges first_step (
        or_insert-Keeps target with_service service.id (or_insert-holds service nodes),
        or_insert-holds target with_service,
      ) in
      let middle : Graph = (or_insert target with_service, edges ++ declares digest mount ∷ []) in
      let (third, grown') =
        with_source-IsGraph (source_node_for digest mount.kind mount) mount middle second
          (or_insert-holds target with_service) in
      (
        third,
        Grows-trans (nodes, edges) middle _
            (λ id k. grown.0 id (or_insert-Keeps service nodes id k), grown.1) grown',
        grown'.1 (declares digest mount)
            (Occurs-right (declares digest mount) edges (declares digest mount ∷ []) (inl refl)),
      )

  add_mounts-IsGraph :
      (g : Graph) (mounts : List ComposeMount)
      → IsGraph g
      → IsGraph (add_mounts digest g mounts)
        × Grows g (add_mounts digest g mounts)
        × All (λ m. Occurs (declares digest m) (add_mounts digest g mounts).1) mounts
  unfolding add_mounts
  add_mounts-IsGraph g [] k = (k, (λ id h. h, λ e o. o), tt)
  add_mounts-IsGraph g (mount ∷ mounts) k =
      let (step, grown, here) = add_mount-IsGraph mount g k in
      let (done, grown', later) = add_mounts-IsGraph (add_mount digest mount g) mounts step in
      (
        done,
        Grows-trans g (add_mount digest mount g) _ grown grown',
        (grown'.1 (declares digest mount) here, later),
      )

  service_nodes-IsIndex :
      (nodes : NodesById) (services : List ComposeService)
      → IsIndex nodes
      → IsIndex (service_nodes digest nodes services)
        × Keeps nodes (service_nodes digest nodes services)
        × All
            (λ s.
              contains_key
                (compose_service_node_id digest s.name)
                (service_nodes digest nodes services)
              ≡ true)
            services
  unfolding service_nodes
  service_nodes-IsIndex nodes [] k = (k, λ id h. h, tt)
  service_nodes-IsIndex nodes (service ∷ services) k =
      let node = service_node digest service.name in
      let (done, kept, later) =
        service_nodes-IsIndex (or_insert node nodes) services (or_insert-IsIndex node nodes k) in
      (
        done,
        λ id h. kept id (or_insert-Keeps node nodes id h),
        (kept node.id (or_insert-holds node nodes), later),
      )

-- Some node has the identity.
abbrev pub HasNode : List ComposeGraphNode → Text → Type 0
HasNode nodes id = (node : ComposeGraphNode) × Occurs node nodes × (node.id ≡ id)

-- Each identity is below all that follow, so that none is there twice.
abbrev pub IsAscending : List ComposeGraphNode → Type 0
IsAscending [] = Unit
IsAscending (node ∷ nodes) =
    All (λ other. text_lt node.id other.id ≡ true) nodes × IsAscending nodes

contains_key-HasNode :
    (id : Text) (nodes : NodesById)
    → IsKeyed nodes
    → contains_key id nodes ≡ true
    → HasNode (values nodes) id
unfolding get
contains_key-HasNode id [] k h = absurd (cc)
contains_key-HasNode id ((other, node) ∷ nodes) k h = elim (Bool-cases (text_eq id other)) [
  | inl same ↦ (node, inl refl, k.0 ∙ sym (text_eq_sound id other same))
  | inr apart ↦
      let (found, o, e) = contains_key-HasNode id nodes k.1 (ground arith) in (found, inr o, e)
]

All-values :
    (id : Text) (nodes : NodesById)
    → IsKeyed nodes
    → All (λ p. text_lt id p.0 ≡ true) nodes
    → All (λ node. text_lt id node.id ≡ true) (values nodes)
All-values id [] k h = tt
All-values id ((other, node) ∷ nodes) k h =
    (subst (λ x. text_lt id x ≡ true) (sym k.0) h.0, All-values id nodes k.1 h.1)

values-IsAscending : (nodes : NodesById) → IsIndex nodes → IsAscending (values nodes)
values-IsAscending [] k = tt
values-IsAscending ((id, node) ∷ nodes) (d, k) = (
  subst (λ x. All (λ other. text_lt x other.id ≡ true) (values nodes)) (sym k.0)
      (All-values id nodes k.1 d.0),
  values-IsAscending nodes (d.1, k.1),
)

held_ends :
    (nodes : NodesById) (edges : List ComposeGraphEdge)
    → IsKeyed nodes
    → All (IsHeld nodes) edges
    → All (λ e. HasNode (values nodes) e.source × HasNode (values nodes) e.target) edges
held_ends nodes [] k h = tt
held_ends nodes (e ∷ edges) k h = (
  (contains_key-HasNode e.source nodes k h.0.0, contains_key-HasNode e.target nodes k h.0.1),
  held_ends nodes edges k h.1,
)

All-services :
    (digest : Text → Text) (before after : NodesById) (services : List ComposeService)
    → Keeps before after
    → IsKeyed after
    → All (λ s. contains_key (compose_service_node_id digest s.name) before ≡ true) services
    → All (λ s. HasNode (values after) (compose_service_node_id digest s.name)) services
All-services digest before after [] g k h = tt
All-services digest before after (s ∷ services) g k h =
    (contains_key-HasNode _ after k (g _ h.0), All-services digest before after services g k h.1)

-- The graph has no identity twice, its nodes are in ascending order, every edge leads between two of
-- its nodes, every service has its node, and every mount has the edge that declares it.
pub derive_compose_graph-IsClosed :
    (digest : Text → Text) (scan : ComposeScan)
    → IsAscending (derive_compose_graph digest scan).nodes
      × All
          (λ e.
            HasNode (derive_compose_graph digest scan).nodes e.source
            × HasNode (derive_compose_graph digest scan).nodes e.target)
          (derive_compose_graph digest scan).edges
      × All
          (λ s.
            HasNode
              (derive_compose_graph digest scan).nodes
              (compose_service_node_id digest s.name))
          scan.services
      × All (λ m. Occurs (declares digest m) (derive_compose_graph digest scan).edges) scan.mounts
unfolding derive_compose_graph
derive_compose_graph-IsClosed digest scan =
    let (start, _, services) = service_nodes-IsIndex digest [] scan.services (tt, tt) in
    let (done, grown, declared) =
      add_mounts-IsGraph digest (service_nodes digest [] scan.services, []) scan.mounts
        (start, tt) in
    (
      values-IsAscending _ done.0,
      held_ends _ _ done.0.1 done.1,
      All-services digest _ _ scan.services grown.0 done.0.1 services,
      declared,
    )
