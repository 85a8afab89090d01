-- ===== src/Publication/Topology/Closed.antt =====
-- `redact_runtime_map` of publication.rs as a whole.
use docker_map.Common.{
  ◌≡◌, ◌⊎◌, inl, inr, true, List, [], ◌∷◌, map, filter, All, Text, text_eq, text_eq_iff, arith,
  Bool-cases,
}
use docker_map.Common.Maps.{contains_key, text_Ord, get, get-insert}
use docker_map.Common.Sort.{
  sort_by_key, All-sort_by_key, IsOrdered, sort_by_key-IsOrdered, sort_by_key-perm,
}
use mathlib.Core.List.{Perm}
use docker_map.Models.Runtime.{RuntimeMapNode, RuntimeEvidenceRef, RuntimeMapEdge, RuntimeMap}
use docker_map.Models.Evidence.{has_valid_evidence_refs}
use docker_map.Publication.Entities.{redact_runtime_node, redact_runtime_edge}
use docker_map.Publication.Sensitive.{redact_runtime_display_text}
use docker_map.Publication.Told.{node_texts, value_texts}
use docker_map.Models.Kinds.{runtime_relationship_kind_Enum}
use docker_map.Common.Members.{All-self, filter_complete, map_complete}
use docker_map.Common.{Occurs, sym, subst, ◌∙◌}
use docker_map.Common.Sort.{Occurs-sort_by_key}
use mathlib.Core.List.Perm
use docker_map.Publication.Topology.{
  dedup, node_ids, leads, normalize_runtime_map_topology, redact_runtime_map,
}
use docker_map.Publication.Topology.Ordered.{
  All-dedup, dedup-IsOrdered, All-map, All-filter, redact_runtime_edge-valid, All-weaken,
}
use docker_map.Publication.Topology.Shown.{
  IsClean, said, shown_of, nodes-said, node-IsClean, diagnosed, diagnosed_shown, diagnostics-said,
  IsShownEdge, dedup-Stays, redact_runtime_edge-IsShownEdge, redact_runtime_edge-IsClean,
}

-- The identity is one of the nodes'.
abbrev pub Names : Text → List RuntimeMapNode → Type 0
Names id [] = ⊥
Names id (node ∷ nodes) = (id ≡ node.id) ⊎ Names id nodes

node_ids-Names :
    (id : Text) (nodes : List RuntimeMapNode)
    → contains_key id (node_ids nodes) ≡ true
    → Names id nodes
unfolding node_ids get
node_ids-Names id [] h = absurd (cc)
node_ids-Names id (node ∷ nodes) h = elim (Bool-cases (text_eq id node.id)) [
  | inl same ↦ inl ((text_eq_iff id node.id).0 same)
  | inr other ↦
      inr (node_ids-Names id nodes (ground (arith, get-insert node.id id tt (node_ids nodes))))
]

-- An edge of the published map: both ends are published nodes, and its evidence attests it.
abbrev pub IsPublishedEdge : List RuntimeMapNode → RuntimeMapEdge → Type 0
IsPublishedEdge nodes edge =
    Names edge.source nodes × Names edge.target nodes × (has_valid_evidence_refs edge ≡ true)

Names-node_ids :
    (id : Text) (nodes : List RuntimeMapNode)
    → Names id nodes
    → contains_key id (node_ids nodes) ≡ true
unfolding node_ids get
Names-node_ids id [] n = absurd n
Names-node_ids id (node ∷ nodes) (inl e) =
    let here : text_eq id node.id ≡ true = (text_eq_iff id node.id).1 e in
    ground (arith, get-insert node.id id tt (node_ids nodes))
Names-node_ids id (node ∷ nodes) (inr n) =
    ground (arith, get-insert node.id id tt (node_ids nodes), Names-node_ids id nodes n)

-- Of an edge that still has both its ends, an edge is published.
abbrev pub IsKept : List RuntimeMapNode → List RuntimeMapEdge → RuntimeMapEdge → Type 0
IsKept nodes edges e =
    Names (redact_runtime_display_text e.source) nodes
    → Names (redact_runtime_display_text e.target) nodes
    → (e' : RuntimeMapEdge) × Occurs e' edges × IsShownEdge e e'

module _ (node_key : RuntimeMapNode → Text) (edge_key : RuntimeMapEdge → Text)
    (evidence_key : RuntimeEvidenceRef → Text) (runtime_map : RuntimeMap) where
  abbrev pub published : RuntimeMap
  published = redact_runtime_map node_key edge_key evidence_key runtime_map

  abbrev shown_nodes : List RuntimeMapNode
  shown_nodes = sort_by_key node_key (map redact_runtime_node runtime_map.nodes)

  abbrev shown_edges : List RuntimeMapEdge
  shown_edges = map (redact_runtime_edge evidence_key) runtime_map.edges

  abbrev kept_edges : List RuntimeMapEdge
  kept_edges = filter (leads (node_ids shown_nodes)) shown_edges

  kept :
      (e : RuntimeMapEdge)
      → Occurs e runtime_map.edges
      → IsKept shown_nodes (dedup (sort_by_key edge_key kept_edges)) e
  kept e o from to =
      let f = redact_runtime_edge evidence_key e in
      let shown = redact_runtime_edge-IsShownEdge evidence_key e in
      let source =
        Names-node_ids f.source shown_nodes (subst (λ t. Names t shown_nodes) (sym shown.0) from) in
      let target =
        Names-node_ids f.target shown_nodes (subst (λ t. Names t shown_nodes) (sym shown.1) to) in
      let within = Occurs-sort_by_key edge_key f kept_edges (
        filter_complete (leads (node_ids shown_nodes)) f shown_edges
          (map_complete (redact_runtime_edge evidence_key) e runtime_map.edges o) (ground arith)) in
      let (e', o', same) = dedup-Stays f (sort_by_key edge_key kept_edges) within in
      (e', o', (same.0 ∙ shown.0, same.1 ∙ shown.1, same.2 ∙ shown.2))

  good : All (λ e. IsPublishedEdge shown_nodes e × All IsClean (value_texts e.metadata)) kept_edges
  good =
      All-weaken _ _
        (λ e h. (
          (
            node_ids-Names e.source shown_nodes (ground arith),
            node_ids-Names e.target shown_nodes (ground arith),
            h.0.0,
          ),
          h.0.1,
        ))
        kept_edges
        (All-filter (λ e. (has_valid_evidence_refs e ≡ true) × All IsClean (value_texts e.metadata))
          (leads (node_ids shown_nodes)) shown_edges
          (All-map (λ e. (has_valid_evidence_refs e ≡ true) × All IsClean (value_texts e.metadata))
            (redact_runtime_edge evidence_key)
            (λ e. (
              redact_runtime_edge-valid evidence_key e,
              redact_runtime_edge-IsClean evidence_key e,
            ))
            runtime_map.edges))

  -- The published map has every node, with each of its texts passed through the boundary and its
  -- provider, kind and layer as they were, so that no text of a node looks like a secret or holds an
  -- unsafe character. Each of its edges leads between published nodes, carries only evidence that
  -- attests it, and has clean metadata; and every edge whose ends are both published has one there
  -- between the same ends and of the same relationship. The diagnostics are as they were, with the
  -- message passed through the boundary; nodes and edges are in the order of their texts.
  pub redact_runtime_map_closed :
      Perm (map said published.nodes) (map shown_of runtime_map.nodes)
      × All (λ n. All IsClean (node_texts n)) published.nodes
      × IsOrdered node_key published.nodes
      × All
          (λ e. IsPublishedEdge published.nodes e × All IsClean (value_texts e.metadata))
          published.edges
      × All (IsKept published.nodes published.edges) runtime_map.edges
      × IsOrdered edge_key published.edges
      × (map diagnosed published.diagnostics ≡ map diagnosed_shown runtime_map.diagnostics)
  unfolding redact_runtime_map normalize_runtime_map_topology
  redact_runtime_map_closed = (
    subst (Perm (map said shown_nodes)) (nodes-said runtime_map.nodes)
        (Perm.map said (sort_by_key-perm node_key (map redact_runtime_node runtime_map.nodes))),
    All-sort_by_key node_key (λ n. All IsClean (node_texts n)) _
        (All-map (λ n. All IsClean (node_texts n)) redact_runtime_node node-IsClean
          runtime_map.nodes),
    sort_by_key-IsOrdered node_key (map redact_runtime_node runtime_map.nodes),
    All-dedup (λ e. IsPublishedEdge shown_nodes e × All IsClean (value_texts e.metadata))
        (sort_by_key edge_key kept_edges)
        (All-sort_by_key edge_key
          (λ e. IsPublishedEdge shown_nodes e × All IsClean (value_texts e.metadata)) kept_edges
          good),
    All-self (IsKept shown_nodes (dedup (sort_by_key edge_key kept_edges))) runtime_map.edges kept,
    dedup-IsOrdered edge_key (sort_by_key edge_key kept_edges)
        (sort_by_key-IsOrdered edge_key kept_edges),
    diagnostics-said runtime_map.diagnostics,
  )
