-- ===== src/Models/EvidenceKinds.antt =====
-- crates/dockermap-core/src/models.rs: the closed vocabularies of the evidence.
use docker_map.Common.{ℕ, ◌≡◌, refl, List, [], ◌∷◌, some, get_elem?}
use docker_map.Common.Enums.{Enum}

pub data RuntimeEvidenceProvider : Type 0 where
  docker compose systemd npm cron tmux dockermap : RuntimeEvidenceProvider

abbrev pub runtime_evidence_provider_variants : List RuntimeEvidenceProvider
runtime_evidence_provider_variants =
    RuntimeEvidenceProvider.docker ∷ RuntimeEvidenceProvider.compose
    ∷ RuntimeEvidenceProvider.systemd ∷ RuntimeEvidenceProvider.npm ∷ RuntimeEvidenceProvider.cron
    ∷ RuntimeEvidenceProvider.tmux ∷ RuntimeEvidenceProvider.dockermap ∷ []

abbrev pub runtime_evidence_provider_disc : RuntimeEvidenceProvider → ℕ
runtime_evidence_provider_disc RuntimeEvidenceProvider.docker = 0
runtime_evidence_provider_disc RuntimeEvidenceProvider.compose = 1
runtime_evidence_provider_disc RuntimeEvidenceProvider.systemd = 2
runtime_evidence_provider_disc RuntimeEvidenceProvider.npm = 3
runtime_evidence_provider_disc RuntimeEvidenceProvider.cron = 4
runtime_evidence_provider_disc RuntimeEvidenceProvider.tmux = 5
runtime_evidence_provider_disc RuntimeEvidenceProvider.dockermap = 6

pub runtime_evidence_provider_variants-disc :
    (a : RuntimeEvidenceProvider)
    → get_elem? runtime_evidence_provider_variants (runtime_evidence_provider_disc a) ≡ some a
runtime_evidence_provider_variants-disc RuntimeEvidenceProvider.docker = refl
runtime_evidence_provider_variants-disc _ = refl

instance abbrev pub runtime_evidence_provider_Enum : Enum RuntimeEvidenceProvider
runtime_evidence_provider_Enum = record {
  variants = runtime_evidence_provider_variants;
  disc = runtime_evidence_provider_disc;
  variants-disc = runtime_evidence_provider_variants-disc;
}

pub data RuntimeEvidenceAssertionKind : Type 0 where
  observed declared : RuntimeEvidenceAssertionKind

abbrev pub runtime_evidence_assertion_kind_variants : List RuntimeEvidenceAssertionKind
runtime_evidence_assertion_kind_variants =
    RuntimeEvidenceAssertionKind.observed ∷ RuntimeEvidenceAssertionKind.declared ∷ []

abbrev pub runtime_evidence_assertion_kind_disc : RuntimeEvidenceAssertionKind → ℕ
runtime_evidence_assertion_kind_disc RuntimeEvidenceAssertionKind.observed = 0
runtime_evidence_assertion_kind_disc RuntimeEvidenceAssertionKind.declared = 1

pub runtime_evidence_assertion_kind_variants-disc :
    (a : RuntimeEvidenceAssertionKind)
    → get_elem? runtime_evidence_assertion_kind_variants (runtime_evidence_assertion_kind_disc a)
      ≡ some a
runtime_evidence_assertion_kind_variants-disc RuntimeEvidenceAssertionKind.observed = refl
runtime_evidence_assertion_kind_variants-disc _ = refl

instance abbrev pub runtime_evidence_assertion_kind_Enum : Enum RuntimeEvidenceAssertionKind
runtime_evidence_assertion_kind_Enum = record {
  variants = runtime_evidence_assertion_kind_variants;
  disc = runtime_evidence_assertion_kind_disc;
  variants-disc = runtime_evidence_assertion_kind_variants-disc;
}

pub data RuntimeEvidenceKind : Type 0 where
  docker_network_membership docker_volume_mount docker_port_publication
        docker_unspecified_address_port_publication docker_compose_depends_on
        docker_daemon_state_bind_mount systemd_requires systemd_wants systemd_part_of
        npm_package_manifest_dependency cron_schedule_declaration tmux_session_listing
        compose_declared_mount docker_compose_runtime_binding runtime_identity_collision :
      RuntimeEvidenceKind

abbrev pub runtime_evidence_kind_variants : List RuntimeEvidenceKind
runtime_evidence_kind_variants =
    RuntimeEvidenceKind.docker_network_membership ∷ RuntimeEvidenceKind.docker_volume_mount
    ∷ RuntimeEvidenceKind.docker_port_publication
    ∷ RuntimeEvidenceKind.docker_unspecified_address_port_publication
    ∷ RuntimeEvidenceKind.docker_compose_depends_on
    ∷ RuntimeEvidenceKind.docker_daemon_state_bind_mount ∷ RuntimeEvidenceKind.systemd_requires
    ∷ RuntimeEvidenceKind.systemd_wants ∷ RuntimeEvidenceKind.systemd_part_of
    ∷ RuntimeEvidenceKind.npm_package_manifest_dependency
    ∷ RuntimeEvidenceKind.cron_schedule_declaration ∷ RuntimeEvidenceKind.tmux_session_listing
    ∷ RuntimeEvidenceKind.compose_declared_mount
    ∷ RuntimeEvidenceKind.docker_compose_runtime_binding
    ∷ RuntimeEvidenceKind.runtime_identity_collision ∷ []

abbrev pub runtime_evidence_kind_disc : RuntimeEvidenceKind → ℕ
runtime_evidence_kind_disc RuntimeEvidenceKind.docker_network_membership = 0
runtime_evidence_kind_disc RuntimeEvidenceKind.docker_volume_mount = 1
runtime_evidence_kind_disc RuntimeEvidenceKind.docker_port_publication = 2
runtime_evidence_kind_disc RuntimeEvidenceKind.docker_unspecified_address_port_publication = 3
runtime_evidence_kind_disc RuntimeEvidenceKind.docker_compose_depends_on = 4
runtime_evidence_kind_disc RuntimeEvidenceKind.docker_daemon_state_bind_mount = 5
runtime_evidence_kind_disc RuntimeEvidenceKind.systemd_requires = 6
runtime_evidence_kind_disc RuntimeEvidenceKind.systemd_wants = 7
runtime_evidence_kind_disc RuntimeEvidenceKind.systemd_part_of = 8
runtime_evidence_kind_disc RuntimeEvidenceKind.npm_package_manifest_dependency = 9
runtime_evidence_kind_disc RuntimeEvidenceKind.cron_schedule_declaration = 10
runtime_evidence_kind_disc RuntimeEvidenceKind.tmux_session_listing = 11
runtime_evidence_kind_disc RuntimeEvidenceKind.compose_declared_mount = 12
runtime_evidence_kind_disc RuntimeEvidenceKind.docker_compose_runtime_binding = 13
runtime_evidence_kind_disc RuntimeEvidenceKind.runtime_identity_collision = 14

pub runtime_evidence_kind_variants-disc :
    (a : RuntimeEvidenceKind)
    → get_elem? runtime_evidence_kind_variants (runtime_evidence_kind_disc a) ≡ some a
runtime_evidence_kind_variants-disc RuntimeEvidenceKind.docker_network_membership = refl
runtime_evidence_kind_variants-disc _ = refl

instance abbrev pub runtime_evidence_kind_Enum : Enum RuntimeEvidenceKind
runtime_evidence_kind_Enum = record {
  variants = runtime_evidence_kind_variants;
  disc = runtime_evidence_kind_disc;
  variants-disc = runtime_evidence_kind_variants-disc;
}

pub data RuntimeEvidenceFreshness : Type 0 where
  fresh stale timed_out : RuntimeEvidenceFreshness

abbrev pub runtime_evidence_freshness_variants : List RuntimeEvidenceFreshness
runtime_evidence_freshness_variants =
    RuntimeEvidenceFreshness.fresh ∷ RuntimeEvidenceFreshness.stale
    ∷ RuntimeEvidenceFreshness.timed_out ∷ []

abbrev pub runtime_evidence_freshness_disc : RuntimeEvidenceFreshness → ℕ
runtime_evidence_freshness_disc RuntimeEvidenceFreshness.fresh = 0
runtime_evidence_freshness_disc RuntimeEvidenceFreshness.stale = 1
runtime_evidence_freshness_disc RuntimeEvidenceFreshness.timed_out = 2

pub runtime_evidence_freshness_variants-disc :
    (a : RuntimeEvidenceFreshness)
    → get_elem? runtime_evidence_freshness_variants (runtime_evidence_freshness_disc a) ≡ some a
runtime_evidence_freshness_variants-disc RuntimeEvidenceFreshness.fresh = refl
runtime_evidence_freshness_variants-disc _ = refl

instance abbrev pub runtime_evidence_freshness_Enum : Enum RuntimeEvidenceFreshness
runtime_evidence_freshness_Enum = record {
  variants = runtime_evidence_freshness_variants;
  disc = runtime_evidence_freshness_disc;
  variants-disc = runtime_evidence_freshness_variants-disc;
}
