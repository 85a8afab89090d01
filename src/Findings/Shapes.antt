-- ===== src/Findings/Shapes.antt =====
-- The shapes of nodes, edges and evidence that the rules of findings.rs accept.
use docker_map.Common.{
  Bool, true, false, not, ◌&&◌, List, [], ◌∷◌, Option, none, some, ◌==◌, length, is_some,
  is_some_and, Text, codes, text_eq,
}
use docker_map.Common.Enums.{◌=?◌}
use docker_map.Common.Maps.{Map, get, text_Ord}
use docker_map.Graph.Ports.{is_host_published_docker_port}
use docker_map.Models.Kinds.{
  RuntimeProviderKind, RuntimeNodeKind, RuntimeRelationshipKind, runtime_provider_kind_Enum,
  runtime_node_kind_Enum, runtime_relationship_kind_Enum, runtime_node_layer_Enum,
}
use docker_map.Models.EvidenceKinds.{
  RuntimeEvidenceProvider, RuntimeEvidenceAssertionKind, RuntimeEvidenceKind,
  RuntimeEvidenceFreshness, runtime_evidence_provider_Enum, runtime_evidence_assertion_kind_Enum,
  runtime_evidence_kind_Enum, runtime_evidence_freshness_Enum,
}
use docker_map.Models.Runtime.{RuntimeMapNode, RuntimeMapEdge}
use docker_map.Models.Evidence.{has_valid_evidence_refs}

unfoldable pub unspecified_address_port_evidence_summary : Text
unspecified_address_port_evidence_summary =
    codes "Docker reported a container port published on an unspecified host address"

unfoldable pub unspecified_address_port_risk_id : Text
unspecified_address_port_risk_id = codes "host_risk_docker_unspecified_address_port"

unfoldable pub docker_daemon_state_risk_id : Text
docker_daemon_state_risk_id = codes "host_risk_docker_daemon_state"

unfoldable pub docker_daemon_state_evidence_summary : Text
docker_daemon_state_evidence_summary =
    codes "Docker reported a bind mount exposing Docker daemon state"

unfoldable pub compose_dependency_evidence_summary : Text
compose_dependency_evidence_summary = codes "Docker recorded Compose dependency declaration"

unfoldable pub runtime_identity_collision_evidence_summary : Text
runtime_identity_collision_evidence_summary =
    codes "DockerMap detected duplicate runtime identities after publication normalization"

unfoldable pub runtime_integrity_scope_id : Text
runtime_integrity_scope_id = codes "runtime_integrity_scope"

unfoldable pub runtime_identity_collision_risk_id : Text
runtime_identity_collision_risk_id = codes "runtime_integrity_risk_identity_collision"

abbrev pub is_nil {ℓ} : {A : Type ℓ} → List A → Bool
is_nil [] = true
is_nil (x ∷ xs) = false

-- `evidence_refs.first()`, with a test on it.
abbrev pub first {ℓ} : {A : Type ℓ} → List A → Option A
first [] = none
first (x ∷ xs) = some x

abbrev pub Nodes : Type 0
Nodes = Map Text RuntimeMapNode

-- Both ends are nodes of one identity each, and they pass a test.
abbrev pub both_ends : (RuntimeMapNode → RuntimeMapNode → Bool) → RuntimeMapEdge → Nodes → Bool
both_ends test edge nodes =
    is_some_and (λ source. is_some_and (test source) (get edge.target nodes))
      (get edge.source nodes)

unfoldable pub is_docker_container : RuntimeMapNode → Bool
is_docker_container node =
    (node.provider =? RuntimeProviderKind.docker) && ((node.kind =? RuntimeNodeKind.container))

unfoldable pub is_docker_daemon_state_risk : RuntimeMapNode → Bool
is_docker_daemon_state_risk node =
    (node.provider =? RuntimeProviderKind.docker)
    && ((node.kind =? RuntimeNodeKind.host_risk)
        && (text_eq node.id docker_daemon_state_risk_id && (is_nil node.metadata)))

unfoldable pub is_docker_daemon_state_pair_shape : RuntimeMapEdge → Nodes → Bool
is_docker_daemon_state_pair_shape edge nodes =
    (edge.relationship =? RuntimeRelationshipKind.exposes_daemon_state)
    && (both_ends
        (λ source target. is_docker_container source && is_docker_daemon_state_risk target) edge
        nodes)

unfoldable pub is_docker_daemon_state_shape : RuntimeMapEdge → Nodes → Bool
is_docker_daemon_state_shape edge nodes =
    is_nil edge.metadata
    && ((edge.relationship =? RuntimeRelationshipKind.exposes_daemon_state)
        && (both_ends
            (λ source target. is_docker_container source && is_docker_daemon_state_risk target) edge
            nodes))

unfoldable pub is_fresh_docker_evidence : RuntimeMapEdge → RuntimeEvidenceKind → Bool
is_fresh_docker_evidence edge kind =
    has_valid_evidence_refs edge
    && ((length edge.evidence_refs == 1)
        && (is_some_and
            (λ evidence.
              (evidence.version == 1)
              && ((evidence.provider =? RuntimeEvidenceProvider.docker)
                  && ((evidence.kind =? kind)
                      && ((evidence.assertion_kind =? RuntimeEvidenceAssertionKind.observed)
                          && ((evidence.freshness =? RuntimeEvidenceFreshness.fresh)
                              && (text_eq evidence.subject_ref edge.source
                                  && (not (is_some evidence.provider_slot))))))))
            (first edge.evidence_refs)))

unfoldable pub is_candidate_docker_daemon_state_bind_mount : RuntimeMapEdge → Nodes → Bool
is_candidate_docker_daemon_state_bind_mount edge nodes =
    is_docker_daemon_state_shape edge nodes
    && (is_fresh_docker_evidence edge RuntimeEvidenceKind.docker_daemon_state_bind_mount
        && (is_some_and (λ evidence. text_eq evidence.summary docker_daemon_state_evidence_summary)
            (first edge.evidence_refs)))

unfoldable pub is_docker_network : RuntimeMapNode → Bool
is_docker_network node =
    (node.provider =? RuntimeProviderKind.docker)
    && ((node.kind =? RuntimeNodeKind.docker_network)
        && (is_some_and (λ v. text_eq v (codes "true")) (get (codes "internal") node.metadata)))

unfoldable pub is_docker_listener : RuntimeMapNode → Bool
is_docker_listener node =
    (node.provider =? RuntimeProviderKind.network)
    && ((node.kind =? RuntimeNodeKind.network_listener)
        && (is_some_and is_host_published_docker_port (get (codes "port") node.metadata)))

unfoldable pub is_docker_membership_shape : RuntimeMapEdge → Nodes → Bool
is_docker_membership_shape edge nodes =
    (edge.relationship =? RuntimeRelationshipKind.connected_to)
    && (both_ends (λ source target. is_docker_container source && is_docker_network target) edge
        nodes)

unfoldable pub is_docker_port_shape : RuntimeMapEdge → Nodes → Bool
is_docker_port_shape edge nodes =
    (edge.relationship =? RuntimeRelationshipKind.exposes)
    && (both_ends (λ source target. is_docker_container source && is_docker_listener target) edge
        nodes)
