-- ===== src/Models/Evidence.antt =====
-- crates/dockermap-core/src/models.rs: the versioned shapes of an evidence reference, and which
-- edge a reference may attest (`has_valid_versioned_shape`, `evidence_ref_matches_edge` and
-- `has_valid_evidence_refs`).
pub mod Attests
use docker_map.Common.{
  ℕ, Bool, true, false, not, ◌&&◌, ◌||◌, none, some, if◌then◌else◌, ltb, ◌==◌, all, length, Option,
  Text, codes, text_eq, is_empty, starts_with,
}
use docker_map.Common.Enums.{◌=?◌}
use docker_map.Slots.Slot.{ProviderSlot, systemd, project_npm, cron, tmux}
use docker_map.Models.Kinds.{RuntimeRelationshipKind, runtime_relationship_kind_Enum}
use docker_map.Models.EvidenceKinds.{
  RuntimeEvidenceProvider, RuntimeEvidenceAssertionKind, observed, declared, RuntimeEvidenceKind,
  docker_network_membership, docker_volume_mount, docker_port_publication,
  docker_unspecified_address_port_publication, docker_compose_depends_on,
  docker_daemon_state_bind_mount, systemd_requires, systemd_wants, systemd_part_of,
  npm_package_manifest_dependency, cron_schedule_declaration, tmux_session_listing,
  compose_declared_mount, docker_compose_runtime_binding, runtime_identity_collision,
  RuntimeEvidenceFreshness, fresh,
}
use docker_map.Models.Runtime.{RuntimeEvidenceRef, RuntimeMapEdge}

-- The rows of the table, by kind. A row of a host provider leaves the freshness open.
unfoldable pub versioned_shape :
    RuntimeEvidenceKind
    → RuntimeEvidenceProvider
    → RuntimeEvidenceAssertionKind
    → RuntimeEvidenceFreshness
    → Option ProviderSlot
    → ℕ
    → Bool
versioned_shape docker_network_membership RuntimeEvidenceProvider.docker observed fresh none
      version =
    version == 1
versioned_shape docker_volume_mount RuntimeEvidenceProvider.docker observed fresh none version =
    version == 1
versioned_shape docker_port_publication RuntimeEvidenceProvider.docker observed fresh none version =
    version == 1
versioned_shape docker_unspecified_address_port_publication RuntimeEvidenceProvider.docker observed
      fresh none version =
    version == 1
versioned_shape docker_compose_depends_on RuntimeEvidenceProvider.docker observed fresh none
      version =
    version == 1
versioned_shape docker_daemon_state_bind_mount RuntimeEvidenceProvider.docker observed fresh none
      version =
    version == 1
versioned_shape systemd_requires RuntimeEvidenceProvider.systemd declared _ (some systemd) version =
    version == 2
versioned_shape systemd_wants RuntimeEvidenceProvider.systemd declared _ (some systemd) version =
    version == 2
versioned_shape systemd_part_of RuntimeEvidenceProvider.systemd declared _ (some systemd) version =
    version == 2
versioned_shape npm_package_manifest_dependency RuntimeEvidenceProvider.npm declared _
      (some project_npm) version =
    version == 3
versioned_shape cron_schedule_declaration RuntimeEvidenceProvider.cron declared _ (some cron)
      version =
    version == 4
versioned_shape tmux_session_listing RuntimeEvidenceProvider.tmux observed _ (some tmux) version =
    version == 5
versioned_shape compose_declared_mount RuntimeEvidenceProvider.compose declared fresh none version =
    version == 6
versioned_shape docker_compose_runtime_binding RuntimeEvidenceProvider.docker observed fresh none
      version =
    version == 6
versioned_shape runtime_identity_collision RuntimeEvidenceProvider.dockermap observed fresh none
      version =
    version == 7
versioned_shape _ _ _ _ _ version = false

abbrev pub has_valid_versioned_shape : RuntimeEvidenceRef → Bool
has_valid_versioned_shape evidence =
    versioned_shape evidence.kind evidence.provider evidence.assertion_kind evidence.freshness
      evidence.provider_slot evidence.version

-- The second table: what the edge of each row is.
unfoldable pub row_matches_edge :
    RuntimeMapEdge
    → RuntimeEvidenceKind
    → RuntimeEvidenceProvider
    → RuntimeEvidenceAssertionKind
    → RuntimeEvidenceFreshness
    → Option ProviderSlot
    → ℕ
    → Bool
row_matches_edge edge docker_network_membership RuntimeEvidenceProvider.docker observed fresh none
      version =
    version == 1
    && ((edge.relationship =? RuntimeRelationshipKind.connected_to)
        && (starts_with (codes "docker_container_") edge.source
            && starts_with (codes "docker_network_") edge.target))
row_matches_edge edge docker_volume_mount RuntimeEvidenceProvider.docker observed fresh none
      version =
    version == 1
    && ((edge.relationship =? RuntimeRelationshipKind.mounts)
        && (starts_with (codes "docker_container_") edge.source
            && starts_with (codes "docker_volume_") edge.target))
row_matches_edge edge docker_port_publication RuntimeEvidenceProvider.docker observed fresh none
      version =
    version == 1
    && ((edge.relationship =? RuntimeRelationshipKind.exposes)
        && (starts_with (codes "docker_container_") edge.source
            && starts_with (codes "network_listener_") edge.target))
row_matches_edge edge docker_unspecified_address_port_publication RuntimeEvidenceProvider.docker
      observed fresh none version =
    version == 1
    && ((edge.relationship =? RuntimeRelationshipKind.exposes)
        && (starts_with (codes "docker_container_") edge.source
            && text_eq edge.target (codes "host_risk_docker_unspecified_address_port")))
row_matches_edge edge docker_compose_depends_on RuntimeEvidenceProvider.docker observed fresh none
      version =
    version == 1
    && ((edge.relationship =? RuntimeRelationshipKind.depends_on)
        && (starts_with (codes "docker_container_") edge.source
            && (starts_with (codes "docker_container_") edge.target
                && not (text_eq edge.source edge.target))))
row_matches_edge edge docker_daemon_state_bind_mount RuntimeEvidenceProvider.docker observed fresh
      none version =
    version == 1
    && ((edge.relationship =? RuntimeRelationshipKind.exposes_daemon_state)
        && (starts_with (codes "docker_container_") edge.source
            && text_eq edge.target (codes "host_risk_docker_daemon_state")))
row_matches_edge edge systemd_requires RuntimeEvidenceProvider.systemd declared _ (some systemd)
      version =
    version == 2
    && ((edge.relationship =? RuntimeRelationshipKind.requires)
        && (starts_with (codes "systemd_service_") edge.source
            && (starts_with (codes "systemd_service_") edge.target
                && not (text_eq edge.source edge.target))))
row_matches_edge edge systemd_wants RuntimeEvidenceProvider.systemd declared _ (some systemd)
      version =
    version == 2
    && ((edge.relationship =? RuntimeRelationshipKind.wants)
        && (starts_with (codes "systemd_service_") edge.source
            && (starts_with (codes "systemd_service_") edge.target
                && not (text_eq edge.source edge.target))))
row_matches_edge edge systemd_part_of RuntimeEvidenceProvider.systemd declared _ (some systemd)
      version =
    version == 2
    && ((edge.relationship =? RuntimeRelationshipKind.part_of)
        && (starts_with (codes "systemd_service_") edge.source
            && (starts_with (codes "systemd_service_") edge.target
                && not (text_eq edge.source edge.target))))
row_matches_edge edge npm_package_manifest_dependency RuntimeEvidenceProvider.npm declared _
      (some project_npm) version =
    version == 3
    && ((edge.relationship =? RuntimeRelationshipKind.depends_on)
        && (starts_with (codes "npm_project_") edge.source
            && (starts_with (codes "npm_package_") edge.target
                && not (text_eq edge.source edge.target))))
row_matches_edge edge cron_schedule_declaration RuntimeEvidenceProvider.cron declared _ (some cron)
      version =
    version == 4
    && ((edge.relationship =? RuntimeRelationshipKind.runs_on)
        && (starts_with (codes "scheduled_job_") edge.source
            && (text_eq edge.target (codes "host_local") && not (text_eq edge.source edge.target))))
row_matches_edge edge tmux_session_listing RuntimeEvidenceProvider.tmux observed _ (some tmux)
      version =
    version == 5
    && ((edge.relationship =? RuntimeRelationshipKind.runs_on)
        && (starts_with (codes "tmux_session_") edge.source
            && (text_eq edge.target (codes "host_local") && not (text_eq edge.source edge.target))))
row_matches_edge edge compose_declared_mount RuntimeEvidenceProvider.compose declared fresh none
      version =
    version == 6
    && ((edge.relationship =? RuntimeRelationshipKind.runs_on)
        && (starts_with (codes "tmux_session_") edge.source
            && (text_eq edge.target (codes "host_local") && not (text_eq edge.source edge.target))))
row_matches_edge edge docker_compose_runtime_binding RuntimeEvidenceProvider.docker observed fresh
      none version =
    version == 6
    && ((edge.relationship =? RuntimeRelationshipKind.runs_on)
        && (starts_with (codes "tmux_session_") edge.source
            && (text_eq edge.target (codes "host_local") && not (text_eq edge.source edge.target))))
row_matches_edge edge runtime_identity_collision RuntimeEvidenceProvider.dockermap observed fresh
      none version =
    version == 7
    && ((edge.relationship =? RuntimeRelationshipKind.related_to)
        && (text_eq edge.source (codes "runtime_integrity_scope")
            && text_eq edge.target (codes "runtime_integrity_risk_identity_collision")))
row_matches_edge edge _ _ _ _ _ version = false

abbrev pub max_evidence_text_chars : ℕ
max_evidence_text_chars = 259

unfoldable pub is_evidence_text : Text → Bool
unfolding is_empty
is_evidence_text text = not (is_empty text || ltb max_evidence_text_chars (length text))

unfoldable pub evidence_ref_matches_edge : RuntimeMapEdge → RuntimeEvidenceRef → Bool
evidence_ref_matches_edge edge evidence =
    if not (
      is_evidence_text evidence.id
      && (is_evidence_text evidence.summary
          && (is_evidence_text evidence.provider_revision
              && text_eq evidence.subject_ref edge.source)))
    then false
    else if not (has_valid_versioned_shape evidence)
    then false
    else row_matches_edge edge evidence.kind evidence.provider evidence.assertion_kind
        evidence.freshness evidence.provider_slot evidence.version

unfoldable pub has_valid_evidence_refs : RuntimeMapEdge → Bool
has_valid_evidence_refs edge = all (evidence_ref_matches_edge edge) edge.evidence_refs
