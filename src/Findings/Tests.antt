-- ===== src/Findings/Tests.antt =====
-- The findings and the evidence at small maps.
use docker_map.Common.{
  is_empty, ◌≤◌, ◌≡◌, refl, true, List, [], ◌∷◌, map, some, none, inl, length, All, Occurs, Text,
  codes, text_eq, starts_with, Option,
}
use docker_map.Common.Pairs.{pair_Ord}
use docker_map.Common.Maps.{text_Ord}
use docker_map.Common.Sort.{IsOrdered}
use docker_map.Models.Runtime.{
  Finding, FindingRule, FindingSeverity, RuntimeMapNode, RuntimeMapEdge,
}
use docker_map.Models.Evidence.{
  evidence_ref_matches_edge, row_matches_edge, versioned_shape, is_evidence_text,
  has_valid_evidence_refs,
}
use docker_map.Models.Evidence.Attests.{
  evidence_ref_matches_edge_sound, IsTmuxListing, compose_evidence-IsTmuxListing,
}
use docker_map.Models.Kinds.{RuntimeRelationshipKind}
use docker_map.Publication.Topology.{scope_id, risk_id, append_runtime_identity_collision_fact}
use docker_map.Findings.Samples.{declared, requires_edge, failing, doubled, borrowed, listing_edge}
use docker_map.Common.{text_lt}
use docker_map.Common.Counts.{counts_by}
use docker_map.Common.Sort.{sort_by_key}
use docker_map.Findings.Shapes.{
  unspecified_address_port_evidence_summary, unspecified_address_port_risk_id,
  docker_daemon_state_risk_id, docker_daemon_state_evidence_summary,
  compose_dependency_evidence_summary, runtime_identity_collision_evidence_summary,
  runtime_integrity_scope_id, runtime_identity_collision_risk_id, is_docker_container,
  is_docker_daemon_state_risk, is_docker_daemon_state_pair_shape, is_docker_daemon_state_shape,
  is_fresh_docker_evidence, is_candidate_docker_daemon_state_bind_mount, is_docker_network,
  is_docker_listener, is_docker_membership_shape, is_docker_port_shape,
}
use docker_map.Findings.Candidates.{
  is_runtime_integrity_scope, is_runtime_identity_collision_risk, is_identity_collision_evidence,
  is_candidate_runtime_identity_collision, is_unspecified_address_port_risk,
  is_unspecified_address_port_shape, is_candidate_unspecified_address_port,
  is_docker_port_publication_pair_shape, is_candidate_internal_network_membership,
  is_candidate_port_publication, is_candidate_docker_daemon_state_port_publication,
  is_candidate_requires, is_candidate_part_of, is_declared_pair,
  is_candidate_non_current_declared_relationship, is_candidate_compose_dependency,
}
use docker_map.Findings.Ends.{for_each}
use docker_map.Findings.Rules.{
  not_current, identity_collision, unspecified_address, requires_not_active, part_of_not_active,
  daemon_state_publishes_port, mutual_dependency, compose_target_not_active, daemon_state,
  member_publishes, internal_network,
}
use docker_map.Findings.Survey.{survey, unique_nodes}
use docker_map.Findings.Derive.{finding_key, derive_findings}
use docker_map.Findings.Summary.{from_findings, nothing_counted, Counts, from_findings_lem}
use docker_map.Findings.Attested.Sound.{IsAttested}
use docker_map.Findings.Attested.All.{derive_findings_sound}
use docker_map.Common.Decimal.{to_string}
use docker_map.Findings.Reported.Fact.{IsRevision, appended_fact_reported}

abbrev plain : Text → Text
plain s = codes "0f"

derive_findings_sound_example :
    (findings : List Finding) × (derive_findings plain failing ≡ some findings)
    × All (IsAttested failing) findings
    × IsOrdered finding_key findings
derive_findings_sound_example = derive_findings_sound plain failing

abbrev rules_of : Option (List Finding) → List FindingRule
rules_of none = []
rules_of (some findings) = map (λ f. f.rule_id) findings

failing_found :
    rules_of (derive_findings plain failing) ≡ FindingRule.systemd_requires_target_not_active ∷ []
unfolding derive_findings survey unique_nodes counts_by has_valid_evidence_refs
    evidence_ref_matches_edge row_matches_edge versioned_shape is_evidence_text text_eq text_lt
    starts_with sort_by_key for_each not_current identity_collision unspecified_address
    requires_not_active part_of_not_active daemon_state_publishes_port mutual_dependency
    compose_target_not_active daemon_state member_publishes internal_network
    unspecified_address_port_evidence_summary unspecified_address_port_risk_id
    docker_daemon_state_risk_id docker_daemon_state_evidence_summary
    compose_dependency_evidence_summary runtime_identity_collision_evidence_summary
    runtime_integrity_scope_id runtime_identity_collision_risk_id is_docker_container
    is_docker_daemon_state_risk is_docker_daemon_state_pair_shape is_docker_daemon_state_shape
    is_fresh_docker_evidence is_candidate_docker_daemon_state_bind_mount is_docker_network
    is_docker_listener is_docker_membership_shape is_docker_port_shape is_runtime_integrity_scope
    is_runtime_identity_collision_risk is_identity_collision_evidence
    is_candidate_runtime_identity_collision is_unspecified_address_port_risk
    is_unspecified_address_port_shape is_candidate_unspecified_address_port
    is_docker_port_publication_pair_shape is_candidate_internal_network_membership
    is_candidate_port_publication is_candidate_docker_daemon_state_port_publication
    is_candidate_requires is_candidate_part_of is_declared_pair
    is_candidate_non_current_declared_relationship is_candidate_compose_dependency
failing_found = refl

evidence_ref_matches_edge_accepts : evidence_ref_matches_edge requires_edge declared ≡ true
unfolding evidence_ref_matches_edge row_matches_edge versioned_shape is_evidence_text text_eq
    starts_with
evidence_ref_matches_edge_accepts = refl

evidence_ref_matches_edge_sound_example :
    (requires_edge.relationship ≡ RuntimeRelationshipKind.requires)
    × (declared.subject_ref ≡ requires_edge.source)
    × ((1 ≤ length declared.id) × (length declared.id ≤ 259))
    × ((1 ≤ length declared.summary) × (length declared.summary ≤ 259))
    × ((1 ≤ length declared.provider_revision) × (length declared.provider_revision ≤ 259))
evidence_ref_matches_edge_sound_example =
    evidence_ref_matches_edge_sound requires_edge declared RuntimeRelationshipKind.requires refl
      evidence_ref_matches_edge_accepts

borrowed_accepted : evidence_ref_matches_edge listing_edge borrowed ≡ true
unfolding evidence_ref_matches_edge row_matches_edge versioned_shape is_evidence_text text_eq
    starts_with
borrowed_accepted = refl

compose_evidence-IsTmuxListing_example : IsTmuxListing listing_edge
compose_evidence-IsTmuxListing_example =
    compose_evidence-IsTmuxListing listing_edge borrowed (inl refl) borrowed_accepted

abbrev sample_finding : FindingRule → FindingSeverity → Finding
sample_finding rule_id severity = record {
  id = codes "finding";
  rule_id = rule_id;
  severity = severity;
  summary = codes "summary";
  recommendation = codes "recommendation";
  subject_ref = codes "subject";
  target_ref = codes "target";
  evidence_refs = declared ∷ [];
}

abbrev three_findings : List Finding
three_findings =
    sample_finding FindingRule.docker_daemon_state_bind_mount FindingSeverity.warning
    ∷ sample_finding FindingRule.runtime_identity_collision_detected FindingSeverity.advisory
    ∷ sample_finding FindingRule.docker_compose_mutual_dependency FindingSeverity.advisory
    ∷ []

from_findings_lem_example : Counts nothing_counted three_findings (from_findings three_findings)
from_findings_lem_example = from_findings_lem three_findings

abbrev node_id : RuntimeMapNode → Text
node_id n = n.id

abbrev edge_source : RuntimeMapEdge → Text
edge_source e = e.source

abbrev revision : Text
revision = codes "integrity-1"

revision-IsRevision : IsRevision revision 7
unfolding is_evidence_text text_eq to_string
revision-IsRevision = (refl, refl)

doubled_appended :
    (append_runtime_identity_collision_fact node_id edge_source doubled revision 7).1 ≡ true
unfolding append_runtime_identity_collision_fact scope_id risk_id text_eq is_empty
doubled_appended = refl

appended_fact_reported_example :
    (findings : List Finding) × (f : Finding) × (derive_findings plain
        (append_runtime_identity_collision_fact node_id edge_source doubled revision 7).0
      ≡ some findings)
    × Occurs f findings
    × (f.rule_id ≡ FindingRule.runtime_identity_collision_detected)
    × (f.subject_ref ≡ scope_id)
    × (f.target_ref ≡ risk_id)
appended_fact_reported_example =
    appended_fact_reported plain node_id edge_source doubled revision 7 (λ e. absurd (cc e)) tt
      revision-IsRevision doubled_appended
