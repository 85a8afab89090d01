-- ===== src/Findings/Rules.antt =====
-- The rules of `derive_findings`, each the body of a loop over the edges. `none` is a panic of an
-- index out of range; `digest` is the hash of the identifiers.
use Prim.Native.String.{String}
use docker_map.Common.{
  Bool, true, ◌&&◌, List, [], ◌∷◌, ◌++◌, Option, none, some, ◌==◌, if◌then◌else◌, ◌>>=◌, filter,
  Text, codes, text_eq, text_lt,
}
use docker_map.Common.Maps.{get, text_Ord}
use docker_map.Common.Pairs.{pair_Ord}
use docker_map.Common.Counts.{is_one}
use docker_map.TopologyId.{collision_resistant_id_component}
use docker_map.Models.Kinds.{
  runtime_provider_kind_Enum, runtime_node_kind_Enum, runtime_relationship_kind_Enum,
}
use docker_map.Models.Runtime.{RuntimeMapEdge, FindingSeverity, FindingRule, Finding}
use docker_map.Findings.Shapes.{first, is_candidate_docker_daemon_state_bind_mount}
use docker_map.Findings.Candidates.{
  is_candidate_runtime_identity_collision, is_candidate_unspecified_address_port,
  is_candidate_internal_network_membership, is_candidate_port_publication,
  is_candidate_docker_daemon_state_port_publication, is_candidate_requires, is_candidate_part_of,
  is_candidate_non_current_declared_relationship, is_candidate_compose_dependency,
}
use docker_map.Findings.Texts.{
  requires_summary, requires_recommendation, part_of_summary, part_of_recommendation,
  declared_relationship_evidence_not_current_summary,
  declared_relationship_evidence_not_current_recommendation, internal_network_port_summary,
  internal_network_port_recommendation, unspecified_address_port_summary,
  unspecified_address_port_recommendation, docker_daemon_state_summary,
  docker_daemon_state_recommendation, docker_daemon_state_published_port_summary,
  docker_daemon_state_published_port_recommendation, compose_declared_target_not_active_summary,
  compose_declared_target_not_active_recommendation, compose_mutual_dependency_summary,
  compose_mutual_dependency_recommendation, runtime_identity_collision_summary,
  runtime_identity_collision_recommendation,
}
use docker_map.Findings.Survey.{Survey, ends_of}
use docker_map.Findings.Ends.{
  for_each, systemd_ends, target_not_active, compose_ends, joined, same_observation, about,
}
use docker_map.Common.Members.{find}

module _ (digest : Text → Text) where
  abbrev pub pair_id : String → RuntimeMapEdge → Text
  pair_id prefix edge =
      codes prefix ++ collision_resistant_id_component digest (joined edge.source edge.target)

  unfoldable pub not_current : Survey → RuntimeMapEdge → Option (List Finding)
  not_current s edge =
      if is_one (get (ends_of edge) s.non_current_declared_relationship_counts)
        && (is_candidate_non_current_declared_relationship edge
            && systemd_ends (λ source target. true) edge s.nodes)
      then (do
        evidence ← first edge.evidence_refs
        some (
            about edge (pair_id "finding_runtime_declared_relationship_evidence_not_current_" edge)
              FindingRule.runtime_declared_relationship_evidence_not_current
              FindingSeverity.advisory declared_relationship_evidence_not_current_summary
              declared_relationship_evidence_not_current_recommendation (evidence ∷ [])
            ∷ []))
      else some []

  unfoldable pub identity_collision : Survey → RuntimeMapEdge → Option (List Finding)
  identity_collision s edge =
      if (s.integrity_edge_count == 1) && is_candidate_runtime_identity_collision edge s.nodes
      then (do
        evidence ← first edge.evidence_refs
        some (
            about edge (codes "finding_runtime_identity_collision_detected")
              FindingRule.runtime_identity_collision_detected FindingSeverity.advisory
              runtime_identity_collision_summary runtime_identity_collision_recommendation
              (evidence ∷ [])
            ∷ []))
      else some []

  unfoldable pub unspecified_address : Survey → RuntimeMapEdge → Option (List Finding)
  unspecified_address s edge =
      if is_one (get edge.source s.unspecified_address_port_counts)
        && is_candidate_unspecified_address_port edge s.nodes
      then (do
        evidence ← first edge.evidence_refs
        some (
            about edge (pair_id "finding_docker_port_published_on_unspecified_address_" edge)
              FindingRule.docker_port_published_on_unspecified_address FindingSeverity.advisory
              unspecified_address_port_summary unspecified_address_port_recommendation
              (evidence ∷ [])
            ∷ []))
      else some []

  unfoldable pub requires_not_active : Survey → RuntimeMapEdge → Option (List Finding)
  requires_not_active s edge =
      if is_one (get (ends_of edge) s.candidate_counts) && is_candidate_requires edge
      then (do
        evidence ← first edge.evidence_refs
        some (
            if systemd_ends target_not_active edge s.nodes
            then about edge (pair_id "finding_systemd_requires_target_not_active_" edge)
                FindingRule.systemd_requires_target_not_active FindingSeverity.warning
                requires_summary requires_recommendation (evidence ∷ [])
              ∷ []
            else []))
      else some []

  unfoldable pub part_of_not_active : Survey → RuntimeMapEdge → Option (List Finding)
  part_of_not_active s edge =
      if is_one (get (ends_of edge) s.part_of_candidate_counts) && is_candidate_part_of edge
      then (do
        evidence ← first edge.evidence_refs
        some (
            if systemd_ends target_not_active edge s.nodes
            then about edge (pair_id "finding_systemd_part_of_target_not_active_" edge)
                FindingRule.systemd_part_of_target_not_active FindingSeverity.advisory
                part_of_summary part_of_recommendation (evidence ∷ [])
              ∷ []
            else []))
      else some []

  unfoldable pub daemon_state_publishes_port : Survey → RuntimeMapEdge → Option (List Finding)
  daemon_state_publishes_port s edge =
      if is_one (get edge.source s.daemon_state_source_counts)
        && (is_one (get edge.source s.daemon_state_port_source_counts)
            && is_candidate_docker_daemon_state_bind_mount edge s.nodes)
      then elim (find
          (λ candidate.
            text_eq candidate.source edge.source
            && is_candidate_docker_daemon_state_port_publication candidate s.nodes)
          s.edges) [
            | none ↦ some []
            | some other ↦ do
              evidence ← first edge.evidence_refs
              other_evidence ← first other.evidence_refs
              some (
                  if same_observation evidence other_evidence
                  then about edge
                      (pair_id "finding_docker_daemon_state_bind_mount_publishes_port_" edge)
                      FindingRule.docker_daemon_state_bind_mount_publishes_port
                      FindingSeverity.warning docker_daemon_state_published_port_summary
                      docker_daemon_state_published_port_recommendation
                      (evidence ∷ other_evidence ∷ [])
                    ∷ []
                  else [])
          ]
      else some []

  unfoldable pub mutual_dependency : Survey → RuntimeMapEdge → Option (List Finding)
  mutual_dependency s edge =
      if text_lt edge.source edge.target
        && (is_one (get (ends_of edge) s.compose_dependency_edge_counts)
            && (is_one (get (ends_of edge) s.compose_dependency_counts)
                && (is_candidate_compose_dependency edge s.nodes
                    && (is_one (get (edge.target, edge.source) s.compose_dependency_edge_counts)
                        && is_one (get (edge.target, edge.source) s.compose_dependency_counts)))))
      then elim (find
          (λ candidate.
            text_eq candidate.source edge.target
            && (text_eq candidate.target edge.source
                && is_candidate_compose_dependency candidate s.nodes))
          s.edges) [
            | none ↦ some []
            | some other ↦ do
              evidence ← first edge.evidence_refs
              other_evidence ← first other.evidence_refs
              some (
                  if same_observation evidence other_evidence
                  then about edge (pair_id "finding_docker_compose_mutual_dependency_" edge)
                      FindingRule.docker_compose_mutual_dependency FindingSeverity.advisory
                      compose_mutual_dependency_summary compose_mutual_dependency_recommendation
                      (evidence ∷ other_evidence ∷ [])
                    ∷ []
                  else [])
          ]
      else some []

  unfoldable pub compose_target_not_active : Survey → RuntimeMapEdge → Option (List Finding)
  compose_target_not_active s edge =
      if is_one (get (ends_of edge) s.compose_dependency_edge_counts)
        && (is_one (get (ends_of edge) s.compose_dependency_counts)
            && (is_candidate_compose_dependency edge s.nodes && compose_ends edge s.nodes))
      then (do
        evidence ← first edge.evidence_refs
        some (
            about edge (pair_id "finding_docker_compose_declared_target_not_active_" edge)
              FindingRule.docker_compose_declared_target_not_active FindingSeverity.advisory
              compose_declared_target_not_active_summary
              compose_declared_target_not_active_recommendation (evidence ∷ [])
            ∷ []))
      else some []

  unfoldable pub daemon_state : Survey → RuntimeMapEdge → Option (List Finding)
  daemon_state s edge =
      if is_one (get (ends_of edge) s.daemon_state_counts)
        && is_candidate_docker_daemon_state_bind_mount edge s.nodes
      then (do
        evidence ← first edge.evidence_refs
        some (
            about edge (pair_id "finding_docker_daemon_state_bind_mount_" edge)
              FindingRule.docker_daemon_state_bind_mount FindingSeverity.warning
              docker_daemon_state_summary docker_daemon_state_recommendation (evidence ∷ [])
            ∷ []))
      else some []

  unfoldable pub member_publishes : RuntimeMapEdge → RuntimeMapEdge → Option (List Finding)
  member_publishes edge port_edge = do
    network_evidence ← first edge.evidence_refs
    port_evidence ← first port_edge.evidence_refs
    some (
        about edge
          (codes "finding_docker_internal_network_member_publishes_port_"
            ++ collision_resistant_id_component digest
                (joined edge.source (joined edge.target port_edge.target)))
          FindingRule.docker_internal_network_member_publishes_port FindingSeverity.advisory
          internal_network_port_summary internal_network_port_recommendation
          (network_evidence ∷ port_evidence ∷ [])
        ∷ [])

  abbrev pub is_sole_port : Survey → RuntimeMapEdge → RuntimeMapEdge → Bool
  is_sole_port s edge candidate =
      text_eq candidate.source edge.source
      && (is_one (get (ends_of candidate) s.port_counts)
          && is_candidate_port_publication candidate s.nodes)

  unfoldable pub internal_network : Survey → RuntimeMapEdge → Option (List Finding)
  unfolding member_publishes for_each
  internal_network s edge =
      if is_one (get (ends_of edge) s.membership_counts)
        && is_candidate_internal_network_membership edge s.nodes
      then for_each (member_publishes edge) (filter (is_sole_port s edge) s.edges)
      else some []
