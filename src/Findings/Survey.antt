-- ===== src/Findings/Survey.antt =====
-- What `derive_findings` counts before its loops: the unambiguous nodes, and the edges of each shape
-- between two ends or at one source.
use docker_map.Common.{ℕ, Bool, true, ◌&&◌, List, [], ◌∷◌, filter, length, Text, text_eq}
use docker_map.Common.Enums.{◌=?◌}
use docker_map.Common.Maps.{Map, get, insert, text_Ord}
use docker_map.Common.Pairs.{pair_Ord}
use docker_map.Common.Counts.{counts_by, is_one}
use docker_map.Models.Kinds.{
  RuntimeRelationshipKind, runtime_provider_kind_Enum, runtime_node_kind_Enum,
  runtime_relationship_kind_Enum,
}
use docker_map.Models.Runtime.{RuntimeMapNode, RuntimeMapEdge, RuntimeMap}
use docker_map.Findings.Shapes.{
  runtime_integrity_scope_id, runtime_identity_collision_risk_id, Nodes,
  is_docker_daemon_state_pair_shape, is_docker_daemon_state_shape, is_docker_membership_shape,
}
use docker_map.Findings.Candidates.{
  is_unspecified_address_port_shape, is_docker_port_publication_pair_shape, is_candidate_requires,
  is_candidate_part_of, is_candidate_non_current_declared_relationship,
  is_candidate_compose_dependency,
}

-- `nodes`: the nodes whose identity no other node has.
unfoldable pub collect_nodes : Nodes → List RuntimeMapNode → Nodes
collect_nodes nodes [] = nodes
collect_nodes nodes (node ∷ rest) = collect_nodes (insert node.id node nodes) rest

unfoldable pub unique_nodes : List RuntimeMapNode → Nodes
unfolding collect_nodes
unique_nodes ns =
    collect_nodes []
      (filter (λ node. is_one (get node.id (counts_by (λ n. n.id) (λ n. true) ns))) ns)

abbrev pub ends_of : RuntimeMapEdge → Text × Text
ends_of edge = (edge.source, edge.target)

abbrev pub PairCounts : Type 0
PairCounts = Map (Text × Text) ℕ

-- The counters that the rules read.
pub record Survey : Type 0 where
  pub edges : List RuntimeMapEdge
  pub nodes : Nodes
  pub candidate_counts : PairCounts
  pub part_of_candidate_counts : PairCounts
  pub non_current_declared_relationship_counts : PairCounts
  pub daemon_state_counts : PairCounts
  pub daemon_state_source_counts : Map Text ℕ
  pub daemon_state_port_source_counts : Map Text ℕ
  pub membership_counts : PairCounts
  pub port_counts : PairCounts
  pub unspecified_address_port_counts : Map Text ℕ
  pub compose_dependency_counts : PairCounts
  pub compose_dependency_edge_counts : PairCounts
  pub integrity_edge_count : ℕ

abbrev pub count_pairs : (RuntimeMapEdge → Bool) → List RuntimeMapEdge → PairCounts
count_pairs p edges = counts_by ends_of p edges

abbrev pub count_sources : (RuntimeMapEdge → Bool) → List RuntimeMapEdge → Map Text ℕ
count_sources p edges = counts_by (λ e. e.source) p edges

abbrev pub is_integrity_edge : RuntimeMapEdge → Bool
is_integrity_edge e =
    text_eq e.source runtime_integrity_scope_id
    && text_eq e.target runtime_identity_collision_risk_id

unfoldable pub survey : RuntimeMap → Survey
survey runtime_map =
    let edges = runtime_map.edges in
    let nodes = unique_nodes runtime_map.nodes in
    record {
      edges = edges;
      nodes = nodes;
      candidate_counts = count_pairs is_candidate_requires edges;
      part_of_candidate_counts = count_pairs is_candidate_part_of edges;
      non_current_declared_relationship_counts =
          count_pairs is_candidate_non_current_declared_relationship edges;
      daemon_state_counts = count_pairs (λ e. is_docker_daemon_state_shape e nodes) edges;
      daemon_state_source_counts =
          count_sources (λ e. is_docker_daemon_state_pair_shape e nodes) edges;
      daemon_state_port_source_counts =
          count_sources (λ e. is_docker_port_publication_pair_shape e nodes) edges;
      membership_counts = count_pairs (λ e. is_docker_membership_shape e nodes) edges;
      port_counts = count_pairs (λ e. is_docker_port_publication_pair_shape e nodes) edges;
      unspecified_address_port_counts =
          count_sources (λ e. is_unspecified_address_port_shape e nodes) edges;
      compose_dependency_counts = count_pairs (λ e. is_candidate_compose_dependency e nodes) edges;
      compose_dependency_edge_counts =
          count_pairs (λ e. e.relationship =? RuntimeRelationshipKind.depends_on) edges;
      integrity_edge_count = length (filter is_integrity_edge edges);
    }
