-- ===== src/Findings/Candidates.antt =====
-- The shapes of the edges that the rules on colliding identities, open ports and declared relationships
-- of findings.rs accept.
use docker_map.Common.{
  Bool, not, ◌&&◌, ◌||◌, ◌==◌, length, is_some, is_some_and, codes, text_eq, is_empty,
}
use docker_map.Common.Decimal.{to_string}
use docker_map.Common.Enums.{◌=?◌}
use docker_map.Common.Maps.{get, text_Ord}
use docker_map.Slots.Slot.{slot_eq}
use docker_map.Slots.Slot.{ProviderSlot}
use docker_map.Graph.Ports.{is_host_published_docker_port}
use docker_map.Models.Kinds.{
  RuntimeProviderKind, RuntimeNodeKind, RuntimeRelationshipKind, RuntimeNodeLayer,
  runtime_provider_kind_Enum, runtime_node_kind_Enum, runtime_relationship_kind_Enum,
  runtime_node_layer_Enum,
}
use docker_map.Models.EvidenceKinds.{
  RuntimeEvidenceProvider, RuntimeEvidenceAssertionKind, RuntimeEvidenceKind,
  RuntimeEvidenceFreshness, runtime_evidence_provider_Enum, runtime_evidence_assertion_kind_Enum,
  runtime_evidence_kind_Enum, runtime_evidence_freshness_Enum,
}
use docker_map.Models.Runtime.{RuntimeMapNode, RuntimeEvidenceRef, RuntimeMapEdge}
use docker_map.Models.Evidence.{has_valid_evidence_refs}
use docker_map.Findings.Shapes.{
  unspecified_address_port_evidence_summary, unspecified_address_port_risk_id,
  compose_dependency_evidence_summary, runtime_identity_collision_evidence_summary,
  runtime_integrity_scope_id, runtime_identity_collision_risk_id, is_nil, first, Nodes, both_ends,
  is_docker_container, is_fresh_docker_evidence, is_docker_membership_shape, is_docker_port_shape,
}

unfoldable pub is_runtime_integrity_scope : RuntimeMapNode → Bool
is_runtime_integrity_scope node =
    text_eq node.id runtime_integrity_scope_id
    && ((node.provider =? RuntimeProviderKind.other)
        && ((node.kind =? RuntimeNodeKind.integrity_scope)
            && (text_eq node.label (codes "Runtime identity integrity")
                && (not (is_some node.status)
                    && (is_some_and (λ layer. layer =? RuntimeNodeLayer.advisory) node.layer
                        && (is_nil node.metadata
                            && (not (is_some node.service)
                                && (not (is_some node.package_entity)))))))))

unfoldable pub is_runtime_identity_collision_risk : RuntimeMapNode → Bool
is_runtime_identity_collision_risk node =
    text_eq node.id runtime_identity_collision_risk_id
    && ((node.provider =? RuntimeProviderKind.other)
        && ((node.kind =? RuntimeNodeKind.host_risk)
            && (text_eq node.label (codes "Duplicate runtime topology identity")
                && (not (is_some node.status)
                    && (is_some_and (λ layer. layer =? RuntimeNodeLayer.advisory) node.layer
                        && (is_nil node.metadata
                            && (not (is_some node.service)
                                && (not (is_some node.package_entity)))))))))

unfoldable pub is_identity_collision_evidence : RuntimeMapEdge → RuntimeEvidenceRef → Bool
is_identity_collision_evidence edge evidence =
    (evidence.version == 7)
    && (text_eq evidence.id (codes "dockermap_evidence_runtime_identity_collision")
        && ((evidence.provider =? RuntimeEvidenceProvider.dockermap)
            && ((evidence.kind =? RuntimeEvidenceKind.runtime_identity_collision)
                && ((evidence.assertion_kind =? RuntimeEvidenceAssertionKind.observed)
                    && (text_eq evidence.summary runtime_identity_collision_evidence_summary
                        && (text_eq evidence.subject_ref edge.source
                            && ((evidence.freshness =? RuntimeEvidenceFreshness.fresh)
                                && (not (is_some evidence.provider_slot)
                                    && (not (is_empty evidence.provider_revision)
                                        && (not (
                                            text_eq evidence.provider_revision
                                              (to_string evidence.collected_at))))))))))))

unfoldable pub is_candidate_runtime_identity_collision : RuntimeMapEdge → Nodes → Bool
is_candidate_runtime_identity_collision edge nodes =
    is_nil edge.metadata
    && ((edge.relationship =? RuntimeRelationshipKind.related_to)
        && (both_ends
              (λ source target.
                is_runtime_integrity_scope source && is_runtime_identity_collision_risk target)
              edge nodes
            && (has_valid_evidence_refs edge
                && ((length edge.evidence_refs == 1)
                    && (is_some_and (is_identity_collision_evidence edge)
                        (first edge.evidence_refs))))))

unfoldable pub is_unspecified_address_port_risk : RuntimeMapNode → Bool
is_unspecified_address_port_risk node =
    text_eq node.id unspecified_address_port_risk_id
    && ((node.provider =? RuntimeProviderKind.docker)
        && ((node.kind =? RuntimeNodeKind.host_risk)
            && (text_eq node.label (codes "Unspecified-address Docker port publication")
                && (not (is_some node.status)
                    && (is_some_and (λ layer. layer =? RuntimeNodeLayer.host) node.layer
                        && (is_nil node.metadata
                            && (not (is_some node.service)
                                && (not (is_some node.package_entity)))))))))

unfoldable pub is_unspecified_address_port_shape : RuntimeMapEdge → Nodes → Bool
is_unspecified_address_port_shape edge nodes =
    (edge.relationship =? RuntimeRelationshipKind.exposes)
    && (both_ends
        (λ source target. is_docker_container source && is_unspecified_address_port_risk target)
        edge nodes)

unfoldable pub is_candidate_unspecified_address_port : RuntimeMapEdge → Nodes → Bool
is_candidate_unspecified_address_port edge nodes =
    is_nil edge.metadata
    && (is_unspecified_address_port_shape edge nodes
        && (is_fresh_docker_evidence edge
              RuntimeEvidenceKind.docker_unspecified_address_port_publication
            && (is_some_and
                (λ evidence. text_eq evidence.summary unspecified_address_port_evidence_summary)
                (first edge.evidence_refs))))

unfoldable pub is_docker_port_publication_pair_shape : RuntimeMapEdge → Nodes → Bool
is_docker_port_publication_pair_shape edge nodes =
    (edge.relationship =? RuntimeRelationshipKind.exposes)
    && (both_ends
        (λ source target.
          is_docker_container source
          && ((target.provider =? RuntimeProviderKind.network)
              && (target.kind =? RuntimeNodeKind.network_listener)))
        edge nodes)

unfoldable pub is_candidate_internal_network_membership : RuntimeMapEdge → Nodes → Bool
is_candidate_internal_network_membership edge nodes =
    is_docker_membership_shape edge nodes
    && (is_fresh_docker_evidence edge RuntimeEvidenceKind.docker_network_membership)

unfoldable pub is_candidate_port_publication : RuntimeMapEdge → Nodes → Bool
is_candidate_port_publication edge nodes =
    is_docker_port_shape edge nodes
    && (is_fresh_docker_evidence edge RuntimeEvidenceKind.docker_port_publication)

unfoldable pub is_candidate_docker_daemon_state_port_publication : RuntimeMapEdge → Nodes → Bool
is_candidate_docker_daemon_state_port_publication edge nodes =
    is_nil edge.metadata
    && (is_docker_port_publication_pair_shape edge nodes
        && (is_some_and
              (λ target.
                is_some_and is_host_published_docker_port (get (codes "port") target.metadata))
              (get edge.target nodes)
            && (is_fresh_docker_evidence edge RuntimeEvidenceKind.docker_port_publication)))

unfoldable pub is_candidate_requires : RuntimeMapEdge → Bool
is_candidate_requires edge =
    has_valid_evidence_refs edge
    && ((edge.relationship =? RuntimeRelationshipKind.requires)
        && (not (text_eq edge.source edge.target)
            && ((length edge.evidence_refs == 1)
                && (is_some_and
                    (λ evidence.
                      (evidence.version == 2)
                      && ((evidence.provider =? RuntimeEvidenceProvider.systemd)
                          && ((evidence.kind =? RuntimeEvidenceKind.systemd_requires)
                              && ((evidence.assertion_kind =? RuntimeEvidenceAssertionKind.declared)
                                  && ((evidence.freshness =? RuntimeEvidenceFreshness.fresh)
                                      && (text_eq evidence.subject_ref edge.source
                                          && (is_some_and (slot_eq ProviderSlot.systemd)
                                              evidence.provider_slot)))))))
                    (first edge.evidence_refs)))))

unfoldable pub is_candidate_part_of : RuntimeMapEdge → Bool
is_candidate_part_of edge =
    has_valid_evidence_refs edge
    && ((edge.relationship =? RuntimeRelationshipKind.part_of)
        && (not (text_eq edge.source edge.target)
            && ((length edge.evidence_refs == 1)
                && (is_some_and
                    (λ evidence.
                      (evidence.version == 2)
                      && ((evidence.provider =? RuntimeEvidenceProvider.systemd)
                          && ((evidence.kind =? RuntimeEvidenceKind.systemd_part_of)
                              && ((evidence.assertion_kind =? RuntimeEvidenceAssertionKind.declared)
                                  && ((evidence.freshness =? RuntimeEvidenceFreshness.fresh)
                                      && (text_eq evidence.subject_ref edge.source
                                          && (is_some_and (slot_eq ProviderSlot.systemd)
                                              evidence.provider_slot)))))))
                    (first edge.evidence_refs)))))

unfoldable pub is_declared_pair : RuntimeRelationshipKind → RuntimeEvidenceKind → Bool
is_declared_pair relationship kind =
    ((relationship =? RuntimeRelationshipKind.requires)
      && (kind =? RuntimeEvidenceKind.systemd_requires))
    || (((relationship =? RuntimeRelationshipKind.wants)
          && (kind =? RuntimeEvidenceKind.systemd_wants))
        || ((relationship =? RuntimeRelationshipKind.part_of)
            && (kind =? RuntimeEvidenceKind.systemd_part_of)))

unfoldable pub is_candidate_non_current_declared_relationship : RuntimeMapEdge → Bool
is_candidate_non_current_declared_relationship edge =
    has_valid_evidence_refs edge
    && (not (text_eq edge.source edge.target)
        && ((length edge.evidence_refs == 1)
            && (is_some_and (λ evidence. is_declared_pair edge.relationship evidence.kind)
                  (first edge.evidence_refs)
                && (is_some_and
                    (λ evidence.
                      (evidence.version == 2)
                      && ((evidence.provider =? RuntimeEvidenceProvider.systemd)
                          && ((evidence.assertion_kind =? RuntimeEvidenceAssertionKind.declared)
                              && (((evidence.freshness =? RuntimeEvidenceFreshness.stale)
                                    || (evidence.freshness =? RuntimeEvidenceFreshness.timed_out))
                                  && (text_eq evidence.subject_ref edge.source
                                      && (is_some_and (slot_eq ProviderSlot.systemd)
                                          evidence.provider_slot))))))
                    (first edge.evidence_refs)))))

unfoldable pub is_candidate_compose_dependency : RuntimeMapEdge → Nodes → Bool
is_candidate_compose_dependency edge nodes =
    is_nil edge.metadata
    && ((edge.relationship =? RuntimeRelationshipKind.depends_on)
        && (not (text_eq edge.source edge.target)
            && (both_ends
                  (λ source target. is_docker_container source && is_docker_container target) edge
                  nodes
                && (is_fresh_docker_evidence edge RuntimeEvidenceKind.docker_compose_depends_on
                    && (is_some_and
                        (λ evidence. text_eq evidence.summary compose_dependency_evidence_summary)
                        (first edge.evidence_refs))))))
