-- ===== src/Compose/Missing.antt =====
-- The body of the loop of compose_runtime_binding.rs over the declared mounts.
use Prim.Native.String.{String}
use docker_map.Common.{
  ℕ, ◌+◌, ◌≡◌, ◌↔◌, refl, sym, ap, ◌∙◌, inl, inr, true, false, ◌&&◌, List, [], ◌∷◌, ◌++◌, Option,
  none, some, any, get_elem?, Occurs, Bool-cases, if◌then◌else◌, Text, codes, text_eq, is_empty,
}
use docker_map.Common.Decimal.{to_string}
use docker_map.Common.Maps.{text_Ord}
use docker_map.Models.EvidenceKinds.{
  RuntimeEvidenceProvider, RuntimeEvidenceAssertionKind, observed, declared, RuntimeEvidenceKind,
  compose_declared_mount, docker_compose_runtime_binding, fresh,
}
use docker_map.Models.Runtime.{RuntimeEvidenceRef, FindingRule, FindingSeverity, Finding}
use docker_map.Models.Compose.{ComposeMount}
use docker_map.Findings.Ends.{joined}
use docker_map.Compose.Binding.{
  ComposeRuntimeContainer, ComposeRuntimeBinding, mounts_match, belongs, is_candidate,
  is_declared_mount_kind, evidence_summary, evidence, missing_mount, mount_findings,
  missing_mount_summary, missing_mount_recommendation,
}
use docker_map.Compose.Bound.{
  sole, declared_kind, kind_declared, IsMissing, candidate_sound, candidate_complete, passes,
}
use docker_map.Common.Members.{find, find-none, find_sound}

module _ (digest : Text → Text) where
  -- All that a finding tells: constants, the digests of the container's identity and of the place of
  -- the mount, the time and the revision.
  abbrev pub disclosed : ComposeRuntimeBinding → ℕ → Text → Finding
  disclosed binding ordinal container_id =
      let subject = codes "compose_runtime_binding_" ++ digest container_id in
      let seed = joined container_id (to_string ordinal) in
      let evidence_at : String
          → RuntimeEvidenceProvider
          → RuntimeEvidenceKind
          → RuntimeEvidenceAssertionKind
          → String
          → RuntimeEvidenceRef =
        λ prefix provider kind assertion_kind summary. record {
          version = 6;
          id = codes prefix ++ codes "_" ++ digest seed;
          provider = provider;
          kind = kind;
          assertion_kind = assertion_kind;
          summary = codes summary;
          subject_ref = subject;
          collected_at = binding.collected_at;
          provider_revision = binding.provider_revision;
          provider_slot = none;
          freshness = fresh;
        } in
      record {
        id = codes "finding_compose_declared_mount_missing_at_bound_container_" ++ digest seed;
        rule_id = FindingRule.compose_declared_mount_missing_at_bound_container;
        severity = FindingSeverity.warning;
        summary = missing_mount_summary;
        recommendation = missing_mount_recommendation;
        subject_ref = subject;
        target_ref = subject;
        evidence_refs =
            evidence_at "compose_declared_mount" RuntimeEvidenceProvider.compose
              compose_declared_mount declared "Compose declared a mount for the bound service"
            ∷ evidence_at "docker_compose_runtime_binding" RuntimeEvidenceProvider.docker
                docker_compose_runtime_binding observed
                "Docker confirmed an exact Compose project, service, and config binding"
            ∷ [];
      }

  missing_mount-disclosed :
      (binding : ComposeRuntimeBinding) (ordinal : ℕ) (c : ComposeRuntimeContainer)
      → missing_mount digest binding ordinal c
        ≡ some (disclosed binding ordinal c.container_id ∷ [])
  unfolding missing_mount evidence evidence_summary
  missing_mount-disclosed binding ordinal c = refl

  -- What the body of the loop reports about a mount.
  abbrev pub Tells : ComposeRuntimeBinding → ℕ → ComposeMount → Finding → Type 0
  Tells binding ordinal mount f =
      (c : ComposeRuntimeContainer) × IsMissing binding mount c
      × (f ≡ disclosed binding ordinal c.container_id)

  -- What the loop reports, from a place on.
  abbrev pub TellsFrom : ComposeRuntimeBinding → ℕ → List ComposeMount → Finding → Type 0
  TellsFrom binding ordinal mounts f =
      (i : ℕ) × (mount : ComposeMount) × (get_elem? mounts i ≡ some mount)
      × Tells binding (ordinal + i) mount f

  module _ (binding : ComposeRuntimeBinding)
      (named : (c : ComposeRuntimeContainer)
        → Occurs c binding.containers
        → is_empty c.container_id ≡ false) where
    abbrev pub Says : ℕ → ComposeMount → Option (List Finding) → Type 0
    Says ordinal mount found =
        (fs : List Finding) × (found ≡ some fs)
        × ((f : Finding) → Occurs f fs ↔ Tells binding ordinal mount f)

    -- The container that is found is the only one that can miss the mount.
    unrivalled :
        (mount : ComposeMount) (c d : ComposeRuntimeContainer)
        → Occurs c binding.containers
        → is_candidate binding mount c ≡ true
        → IsMissing binding mount d
        → c ≡ d
    unrivalled mount c d o h m =
        let (bound, serves) = candidate_sound binding mount c o h in
        sole (λ a. belongs binding a && text_eq a.service c.service) c d binding.containers bound.4
          o m.1.0 (passes binding c.service c bound refl)
          (passes binding c.service d m.1 (m.2 ∙ sym serves))

    one :
        (ordinal : ℕ) (mount : ComposeMount) (c : ComposeRuntimeContainer)
        → IsMissing binding mount c
        → ((d : ComposeRuntimeContainer) → IsMissing binding mount d → c ≡ d)
        → (f : Finding)
        → Occurs f (disclosed binding ordinal c.container_id ∷ []) ↔ Tells binding ordinal mount f
    one ordinal mount c m only f = (
      λ o. elim o [ inl e ↦ (c, m, e) | inr o' ↦ absurd o' ],
      λ t. inl (t.2 ∙ ap (λ d. disclosed binding ordinal d.container_id) (sym (only t.0 t.1))),
    )

    nothing :
        (ordinal : ℕ) (mount : ComposeMount)
        → ((c : ComposeRuntimeContainer) → IsMissing binding mount c → ⊥)
        → Says ordinal mount (some [])
    nothing ordinal mount h = ([], refl, λ f. (λ o. absurd o, λ t. h t.0 t.1))

    pub mount_findings-Says :
        (ordinal : ℕ) (mount : ComposeMount)
        → Says ordinal mount (mount_findings digest binding ordinal mount)
    unfolding mount_findings
    mount_findings-Says ordinal mount = elim (Bool-cases (is_declared_mount_kind mount.kind)) [
      | inr other ↦
          rw other
            (nothing ordinal mount (λ c m. absurd (cc (kind_declared mount.kind m.0, other))))
      | inl declares ↦
          rw declares (found declares (find (is_candidate binding mount) binding.containers) refl)
    ]
      where
        found :
            is_declared_mount_kind mount.kind ≡ true
            → (o : Option ComposeRuntimeContainer)
            → find (is_candidate binding mount) binding.containers ≡ o
            → Says ordinal mount (elim o [
              | none ↦ some []
              | some container ↦
                  if any (mounts_match mount) container.mounts
                  then some []
                  else missing_mount digest binding ordinal container
            ])
        found declares none e = nothing ordinal mount (λ c m. absurd (
            cc (
              candidate_complete binding mount c m.1 m.2 (named c m.1.0),
              find-none (is_candidate binding mount) c binding.containers e m.1.0,
            )))
        found declares (some c) e =
            let (o, h) = find_sound (is_candidate binding mount) binding.containers e in
            let (bound, serves) = candidate_sound binding mount c o h in
            elim (Bool-cases (any (mounts_match mount) c.mounts)) [
              | inl matched ↦ rw matched (
                  nothing ordinal mount (λ d m. absurd (
                    cc (
                      matched,
                      m.3,
                      ap (λ x. any (mounts_match mount) x.mounts) (unrivalled mount c d o h m),
                    ))))
              | inr missed ↦ rw missed (
                disclosed binding ordinal c.container_id ∷ [],
                missing_mount-disclosed binding ordinal c,
                one ordinal mount c (declared_kind mount.kind declares, bound, serves, missed)
                    (λ d m. unrivalled mount c d o h m),
              )
            ]
