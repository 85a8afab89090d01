-- ===== src/Models/Evidence/Attests.antt =====
-- What a valid reference attests: the relationship of its kind, on the edge of its subject.
use docker_map.Common.{
  ◌⊎◌, inl, inr, ℕ, ◌≤◌, ◌≡◌, subst, true, not, Option, [], ◌∷◌, some, none, arith, ◌==◌, length,
  Text, codes, text_eq, text_eq_sound, is_empty, starts_with, ◌&&◌,
}
use docker_map.Common.Enums.{◌=?◌, =?_sound}
use docker_map.Slots.Slot.{ProviderSlot, systemd, project_npm, cron, tmux}
use docker_map.Models.Kinds.{RuntimeRelationshipKind, runtime_relationship_kind_Enum}
use docker_map.Models.EvidenceKinds.{
  RuntimeEvidenceProvider, RuntimeEvidenceAssertionKind, observed, declared, RuntimeEvidenceKind,
  docker_network_membership, docker_volume_mount, docker_port_publication,
  docker_unspecified_address_port_publication, docker_compose_depends_on,
  docker_daemon_state_bind_mount, systemd_requires, systemd_wants, systemd_part_of,
  npm_package_manifest_dependency, cron_schedule_declaration, tmux_session_listing,
  compose_declared_mount, docker_compose_runtime_binding, runtime_identity_collision,
  RuntimeEvidenceFreshness, fresh,
}
use docker_map.Models.Runtime.{RuntimeEvidenceRef, RuntimeMapEdge}
use docker_map.Models.Evidence.{
  has_valid_versioned_shape, row_matches_edge, is_evidence_text, evidence_ref_matches_edge,
}

-- The one relationship that a kind of evidence speaks about, for each kind but the two of Compose,
-- whose facts are about mounts and bindings.
abbrev pub attested : RuntimeEvidenceKind → Option RuntimeRelationshipKind
attested docker_network_membership = some RuntimeRelationshipKind.connected_to
attested docker_volume_mount = some RuntimeRelationshipKind.mounts
attested docker_port_publication = some RuntimeRelationshipKind.exposes
attested docker_unspecified_address_port_publication = some RuntimeRelationshipKind.exposes
attested docker_compose_depends_on = some RuntimeRelationshipKind.depends_on
attested docker_daemon_state_bind_mount = some RuntimeRelationshipKind.exposes_daemon_state
attested systemd_requires = some RuntimeRelationshipKind.requires
attested systemd_wants = some RuntimeRelationshipKind.wants
attested systemd_part_of = some RuntimeRelationshipKind.part_of
attested npm_package_manifest_dependency = some RuntimeRelationshipKind.depends_on
attested cron_schedule_declaration = some RuntimeRelationshipKind.runs_on
attested tmux_session_listing = some RuntimeRelationshipKind.runs_on
attested compose_declared_mount = none
attested docker_compose_runtime_binding = none
attested runtime_identity_collision = some RuntimeRelationshipKind.related_to

abbrev Fits : Option RuntimeRelationshipKind → RuntimeRelationshipKind → Type 0
Fits none relationship = Unit
Fits (some only) relationship = relationship ≡ only

row-relationship :
    (edge : RuntimeMapEdge) (kind : RuntimeEvidenceKind) (provider : RuntimeEvidenceProvider)
    (assertion : RuntimeEvidenceAssertionKind) (freshness : RuntimeEvidenceFreshness)
    (slot : Option ProviderSlot) (version : ℕ)
    → row_matches_edge edge kind provider assertion freshness slot version ≡ true
    → Fits (attested kind) edge.relationship
unfolding row_matches_edge
row-relationship edge docker_network_membership RuntimeEvidenceProvider.docker observed fresh none
      version h =
    =?_sound _ _ (ground arith)
row-relationship edge docker_volume_mount RuntimeEvidenceProvider.docker observed fresh none version
      h =
    =?_sound _ _ (ground arith)
row-relationship edge docker_port_publication RuntimeEvidenceProvider.docker observed fresh none
      version h =
    =?_sound _ _ (ground arith)
row-relationship edge docker_unspecified_address_port_publication RuntimeEvidenceProvider.docker
      observed fresh none version h =
    =?_sound _ _ (ground arith)
row-relationship edge docker_compose_depends_on RuntimeEvidenceProvider.docker observed fresh none
      version h =
    =?_sound _ _ (ground arith)
row-relationship edge docker_daemon_state_bind_mount RuntimeEvidenceProvider.docker observed fresh
      none version h =
    =?_sound _ _ (ground arith)
row-relationship edge systemd_requires RuntimeEvidenceProvider.systemd declared freshness
      (some systemd) version h =
    =?_sound _ _ (ground arith)
row-relationship edge systemd_wants RuntimeEvidenceProvider.systemd declared freshness
      (some systemd) version h =
    =?_sound _ _ (ground arith)
row-relationship edge systemd_part_of RuntimeEvidenceProvider.systemd declared freshness
      (some systemd) version h =
    =?_sound _ _ (ground arith)
row-relationship edge npm_package_manifest_dependency RuntimeEvidenceProvider.npm declared freshness
      (some project_npm) version h =
    =?_sound _ _ (ground arith)
row-relationship edge cron_schedule_declaration RuntimeEvidenceProvider.cron declared freshness
      (some cron) version h =
    =?_sound _ _ (ground arith)
row-relationship edge tmux_session_listing RuntimeEvidenceProvider.tmux observed freshness
      (some tmux) version h =
    =?_sound _ _ (ground arith)
row-relationship edge compose_declared_mount RuntimeEvidenceProvider.compose declared fresh none
      version h =
    tt
row-relationship edge docker_compose_runtime_binding RuntimeEvidenceProvider.docker observed fresh
      none version h =
    tt
row-relationship edge runtime_identity_collision RuntimeEvidenceProvider.dockermap observed fresh
      none version h =
    =?_sound _ _ (ground arith)
row-relationship edge _ _ _ _ _ version h = absurd (cc)

row-shape :
    (edge : RuntimeMapEdge) (evidence : RuntimeEvidenceRef)
    → evidence_ref_matches_edge edge evidence ≡ true
    → (row_matches_edge edge evidence.kind evidence.provider evidence.assertion_kind
          evidence.freshness evidence.provider_slot evidence.version
        ≡ true)
      × (has_valid_versioned_shape evidence ≡ true)
      × (is_evidence_text evidence.id ≡ true)
      × (is_evidence_text evidence.summary ≡ true)
      × (is_evidence_text evidence.provider_revision ≡ true)
      × (text_eq evidence.subject_ref edge.source ≡ true)
unfolding evidence_ref_matches_edge
row-shape edge evidence h = ground arith

is_evidence_text-length :
    (text : Text) → is_evidence_text text ≡ true → (1 ≤ length text) × (length text ≤ 259)
unfolding is_evidence_text is_empty
is_evidence_text-length [] h = absurd (cc)
is_evidence_text-length (c ∷ text) h = ground arith

-- A reference whose kind speaks of one relationship, as every kind but the two of Compose does, is
-- accepted only on edges of that relationship, and only where the edge's source is its subject and
-- each of its three texts holds from 1 to 259 characters.
pub evidence_ref_matches_edge_sound :
    (edge : RuntimeMapEdge) (evidence : RuntimeEvidenceRef) (only : RuntimeRelationshipKind)
    → attested evidence.kind ≡ some only
    → evidence_ref_matches_edge edge evidence ≡ true
    → (edge.relationship ≡ only)
      × (evidence.subject_ref ≡ edge.source)
      × ((1 ≤ length evidence.id) × (length evidence.id ≤ 259))
      × ((1 ≤ length evidence.summary) × (length evidence.summary ≤ 259))
      × ((1 ≤ length evidence.provider_revision) × (length evidence.provider_revision ≤ 259))
evidence_ref_matches_edge_sound edge evidence only e h =
    let parts = row-shape edge evidence h in
    (
      subst (λ r. Fits r edge.relationship) e (row-relationship edge _ _ _ _ _ _ parts.0),
      text_eq_sound _ _ parts.5,
      is_evidence_text-length _ parts.2,
      is_evidence_text-length _ parts.3,
      is_evidence_text-length _ parts.4,
    )

-- The edges on which tmux listings stand.
abbrev pub IsTmuxListing : RuntimeMapEdge → Type 0
IsTmuxListing edge =
    (edge.relationship ≡ RuntimeRelationshipKind.runs_on)
    × (starts_with (codes "tmux_session_") edge.source ≡ true)
    × (edge.target ≡ codes "host_local")

tmux-listing :
    (edge : RuntimeMapEdge) (version n : ℕ)
    → (version == n
        && ((edge.relationship =? RuntimeRelationshipKind.runs_on)
            && (starts_with (codes "tmux_session_") edge.source
                && (text_eq edge.target (codes "host_local")
                    && not (text_eq edge.source edge.target)))))
      ≡ true
    → IsTmuxListing edge
tmux-listing edge version n h =
    (=?_sound _ _ (ground arith), ground arith, text_eq_sound _ _ (ground arith))

row-declared_mount :
    (edge : RuntimeMapEdge) (provider : RuntimeEvidenceProvider)
    (assertion : RuntimeEvidenceAssertionKind) (freshness : RuntimeEvidenceFreshness)
    (slot : Option ProviderSlot) (version : ℕ)
    → row_matches_edge edge compose_declared_mount provider assertion freshness slot version ≡ true
    → IsTmuxListing edge
unfolding row_matches_edge
row-declared_mount edge RuntimeEvidenceProvider.compose declared fresh none version h =
    tmux-listing edge version 6 h
row-declared_mount edge _ _ _ _ version h = absurd (cc)

row-runtime_binding :
    (edge : RuntimeMapEdge) (provider : RuntimeEvidenceProvider)
    (assertion : RuntimeEvidenceAssertionKind) (freshness : RuntimeEvidenceFreshness)
    (slot : Option ProviderSlot) (version : ℕ)
    → row_matches_edge edge docker_compose_runtime_binding provider assertion freshness slot version
      ≡ true
    → IsTmuxListing edge
unfolding row_matches_edge
row-runtime_binding edge RuntimeEvidenceProvider.docker observed fresh none version h =
    tmux-listing edge version 6 h
row-runtime_binding edge _ _ _ _ version h = absurd (cc)

-- Evidence about a Compose declaration or a Compose binding is accepted on no edge but those
-- from a tmux session to the local host.
pub compose_evidence-IsTmuxListing :
    (edge : RuntimeMapEdge) (evidence : RuntimeEvidenceRef)
    → (evidence.kind ≡ compose_declared_mount) ⊎ (evidence.kind ≡ docker_compose_runtime_binding)
    → evidence_ref_matches_edge edge evidence ≡ true
    → IsTmuxListing edge
compose_evidence-IsTmuxListing edge evidence (inl e) h =
    row-declared_mount edge evidence.provider evidence.assertion_kind evidence.freshness
      evidence.provider_slot evidence.version
      (subst
        (λ k.
          row_matches_edge edge k evidence.provider evidence.assertion_kind evidence.freshness
            evidence.provider_slot evidence.version
          ≡ true)
        e (row-shape edge evidence h).0)
compose_evidence-IsTmuxListing edge evidence (inr e) h =
    row-runtime_binding edge evidence.provider evidence.assertion_kind evidence.freshness
      evidence.provider_slot evidence.version
      (subst
        (λ k.
          row_matches_edge edge k evidence.provider evidence.assertion_kind evidence.freshness
            evidence.provider_slot evidence.version
          ≡ true)
        e (row-shape edge evidence h).0)
