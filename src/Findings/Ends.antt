-- ===== src/Findings/Ends.antt =====
-- What the rules of findings.rs ask of the ends of an edge, and the finding that they write about it.
use docker_map.Common.{
  Bool, ◌&&◌, ◌||◌, List, [], ◌∷◌, ◌++◌, Option, some, ◌==◌, ◌>>=◌, is_some_and, Text, codes,
  text_eq,
}
use docker_map.Common.Enums.{◌=?◌}
use docker_map.Common.Maps.{get, text_Ord}
use docker_map.Common.Pairs.{pair_Ord}
use docker_map.Models.Kinds.{
  RuntimeProviderKind, RuntimeNodeKind, runtime_provider_kind_Enum, runtime_node_kind_Enum,
  runtime_relationship_kind_Enum,
}
use docker_map.Models.Runtime.{
  RuntimeMapNode, RuntimeEvidenceRef, RuntimeMapEdge, FindingSeverity, FindingRule, Finding,
}
use docker_map.Findings.Shapes.{Nodes, is_docker_container}
use docker_map.Findings.Status.{is_running, is_stopped_or_failed, from_status_text}

-- A loop that collects, and stops at a panic.
unfoldable pub for_each :
    {A : Type 0} → (A → Option (List Finding)) → List A → Option (List Finding)
for_each rule [] = some []
for_each rule (x ∷ xs) = do found ← rule x; rest ← for_each rule xs; some (found ++ rest)

-- Both ends are systemd services of one identity each, and their states pass a test.
abbrev pub systemd_ends : (RuntimeMapNode → RuntimeMapNode → Bool) → RuntimeMapEdge → Nodes → Bool
systemd_ends test edge nodes =
    is_some_and
      (λ source.
        is_some_and
          (λ target.
            (source.provider =? RuntimeProviderKind.systemd)
            && ((target.provider =? RuntimeProviderKind.systemd)
                && ((source.kind =? RuntimeNodeKind.systemd_service)
                    && ((target.kind =? RuntimeNodeKind.systemd_service) && test source target))))
          (get edge.target nodes))
      (get edge.source nodes)

abbrev pub target_not_active : RuntimeMapNode → RuntimeMapNode → Bool
target_not_active source target =
    is_some_and (λ s. text_eq s (codes "active")) source.status
    && is_some_and (λ s. text_eq s (codes "inactive") || text_eq s (codes "failed")) target.status

abbrev pub compose_states : RuntimeMapNode → RuntimeMapNode → Bool
compose_states source target =
    is_docker_container source
    && (is_docker_container target
        && (is_some_and (λ s. is_running (from_status_text s)) source.status
            && is_some_and (λ s. is_stopped_or_failed (from_status_text s)) target.status))

abbrev pub compose_ends : RuntimeMapEdge → Nodes → Bool
compose_ends edge nodes =
    is_some_and (λ source. is_some_and (compose_states source) (get edge.target nodes))
      (get edge.source nodes)

-- `U+001F` stands between the parts of an identity.
abbrev pub joined : Text → Text → Text
joined a b = a ++ 0x1f ∷ b

abbrev pub same_observation : RuntimeEvidenceRef → RuntimeEvidenceRef → Bool
same_observation a b =
    (a.collected_at == b.collected_at) && text_eq a.provider_revision b.provider_revision

-- A finding about an edge.
abbrev pub about :
    RuntimeMapEdge
    → Text
    → FindingRule
    → FindingSeverity
    → Text
    → Text
    → List RuntimeEvidenceRef
    → Finding
about edge id rule_id severity summary recommendation evidence_refs = record {
  id = id;
  rule_id = rule_id;
  severity = severity;
  summary = summary;
  recommendation = recommendation;
  subject_ref = edge.source;
  target_ref = edge.target;
  evidence_refs = evidence_refs;
}
