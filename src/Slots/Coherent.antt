-- ===== src/Slots/Coherent.antt =====
-- What each operation of the cache keeps: sound slots, and no history with mock data.
use docker_map.Common.{
  ℕ, ◌+◌, ◌∷◌, ◌≡◌, refl, sym, ap, ◌∙◌, Bool, true, false, not, ◌&&◌, List, [], Option, none, some,
  arith, ltb, if◌then◌else◌, Bool-cases, Option-cases, inl, inr, Text, subst,
}
use docker_map.Common.Decimal.{max_u64}
use docker_map.Common.Maps.{insert}
use docker_map.Models.{RuntimeMode, docker, mock}
use docker_map.History.{ObservedHistoryCache, new, observe_published_snapshot}
use docker_map.Slots.Slot.{ProviderSlot, slot_Ord}
use docker_map.Slots.{
  max_concurrent_provider_slots, Collections, Slots, source_reset_provider_slots,
  unavailable_provider_slots,
}
use docker_map.Slots.Claim.{claim_due_slots_with_active_workers}
use docker_map.Slots.Settle.{settle, mark_network_observation_stale}
use docker_map.Slots.Republished.{
  IsRepublished, IsRepublished-trans, first_step, republish_lem,
  assign_docker_observation_revision_lem, assign_revision_lem,
}
use docker_map.Slots.Cache.{
  Outside, DaemonCache, with_slots, with_time, clear_revision, mode_eq, Completion, is_other_source,
  mock_cache, same_collection_evidence, claim_due_provider_slots, apply_provider_slot_outcome,
  publish_docker_snapshot_cache, observe_publication, republish, assign_docker_observation_revision,
  assign_revision,
}
use docker_map.Slots.Run.{
  IsSound, unavailable-IsSound, reset-IsSound, insert-IsSound, settle_idle, stale-IsSound,
  claim-IsSound,
}

module _ (c : Collections) (o : Outside c) where
  -- Sound slots; and with mock data no baseline and no event.
  pub record IsCoherent (cache : DaemonCache c o) : Type 0 where
    pub slots : IsSound c cache.runtime_providers
    pub mock_history :
        cache.mode ≡ mock
        → (cache.observed_history.baseline ≡ none) × (cache.observed_history.events ≡ [])

  republished-IsCoherent :
      (cache cache' : DaemonCache c o)
      → IsRepublished c o cache cache'
      → IsCoherent cache
      → IsCoherent cache'
  republished-IsCoherent cache cache' same w = record {
    slots = subst (IsSound c) (sym same.slots) w.slots;
    mock_history = λ m.
        let (no_baseline, no_event) = w.mock_history (sym same.source.0 ∙ m) in
        (
          ap (λ h. h.baseline) same.history ∙ no_baseline,
          ap (λ h. h.events) same.history ∙ no_event,
        );
  }

  claimed-IsCoherent :
      (claimed : List ProviderSlot) (cache cache' : DaemonCache c o)
      → (elim claimed [ [] ↦ some cache | (_ ∷ _) ↦ republish c o cache ]) ≡ some cache'
      → IsCoherent cache
      → IsCoherent cache'
  claimed-IsCoherent [] cache cache' e w =
      let same : cache ≡ cache' = cc e in subst IsCoherent same w
  claimed-IsCoherent (slot ∷ slots) cache cache' e w =
      republished-IsCoherent cache cache' (republish_lem c o cache cache' e) w

  pub claims-IsCoherent :
      (now active_workers : ℕ) (wall : ProviderSlot → Option ℕ) (claimed : List ProviderSlot)
      (cache cache' : DaemonCache c o)
      → claim_due_provider_slots c o now active_workers wall cache ≡ some (cache', claimed)
      → IsCoherent cache
      → IsCoherent cache'
  unfolding claim_due_provider_slots
  claims-IsCoherent now active_workers wall claimed cache cache' e w =
      let ((slots, l), f, g) =
        first_step c o
          (claim_due_slots_with_active_workers c cache.runtime_providers now
            max_concurrent_provider_slots active_workers wall)
          _ e in
      let (after, h, i) =
        first_step c o
          (elim l [
            | [] ↦ some (with_slots c o slots cache)
            | (_ ∷ _) ↦ republish c o (with_slots c o slots cache)
          ])
          _ g in
      let same : after ≡ cache' = cc i in
      subst IsCoherent same (
        claimed-IsCoherent l (with_slots c o slots cache) after h (record {
          slots = claim-IsSound c now active_workers wall cache.runtime_providers slots l f w.slots;
          mock_history = w.mock_history;
        }))

  pub completes-IsCoherent :
      (k : Completion c o) (cache cache' : DaemonCache c o)
      → apply_provider_slot_outcome c o k cache ≡ some cache'
      → IsCoherent cache
      → IsCoherent cache'
  unfolding apply_provider_slot_outcome
  completes-IsCoherent k cache cache' e w = elim (Bool-cases (is_other_source c o k cache)) [
    | inl other ↦ let same : cache ≡ cache' = ground arith in subst IsCoherent same w
    | inr this ↦
        let (s, there) = w.slots.fixed k.slot in
        let same = same_collection_evidence c o cache.snapshot k.observed_snapshot in
        elim (Option-cases (settle c o.boot same k.wall k.completed_at k.outcome s)) [
          | inl n ↦ absurd (ground arith)
          | inr (s', f) ↦
              let v = with_slots c o (insert k.slot s' cache.runtime_providers) cache in
              let published : republish c o v ≡ some cache' = ground (arith, e) in
              republished-IsCoherent v cache' (republish_lem c o v cache' published) (record {
                slots =
                    insert-IsSound c k.slot s' cache.runtime_providers
                      (settle_idle c o.boot same k.wall k.completed_at k.outcome s s' f) w.slots;
                mock_history = w.mock_history;
              })
        ]
  ]

  abbrev next_generation : Bool → ℕ → Option ℕ
  next_generation same generation =
      if same
      then some generation
      else if ltb max_u64 (generation + 1)
      then none
      else some (generation + 1)

  -- The slots of a publication: kept, kept with a stale network slot, or reset.
  slots-IsSound :
      (same other : Bool) (slots slots' : Slots c)
      → (if other
          then mark_network_observation_stale c slots
          else some (if same then slots else source_reset_provider_slots c))
        ≡ some slots'
      → IsSound c slots
      → IsSound c slots'
  slots-IsSound same true slots slots' e w = stale-IsSound c slots slots' e w
  slots-IsSound true false slots slots' e w =
      let kept : slots ≡ slots' = cc e in subst (IsSound c) kept w
  slots-IsSound false false slots slots' e w =
      let reset : source_reset_provider_slots c ≡ slots' = cc e in
      subst (IsSound c) reset (reset-IsSound c)

  abbrev IsBlank : ObservedHistoryCache → Type 0
  IsBlank h = (h.baseline ≡ none) × (h.events ≡ [])

  new-IsBlank : (boot : Text) → IsBlank (new boot)
  unfolding new
  new-IsBlank boot = (refl, refl)

  -- The history before a publication of mock data.
  before-IsBlank :
      (old mode : RuntimeMode) (h : ObservedHistoryCache) (boot : Text)
      → (old ≡ mock → IsBlank h)
      → mode ≡ mock
      → IsBlank (if mode_eq old mode then h else new boot)
  before-IsBlank old docker h boot w m = absurd (cc m)
  before-IsBlank docker mock h boot w m = new-IsBlank boot
  before-IsBlank mock mock h boot w m = w refl

  observe_publication-IsCoherent :
      (fresh_boot : Text) (cache cache' : DaemonCache c o)
      → observe_publication c o fresh_boot cache ≡ some cache'
      → IsCoherent cache
      → IsCoherent cache'
  unfolding observe_publication
  observe_publication-IsCoherent fresh_boot cache cache' e w =
      elim (Bool-cases (mode_eq cache.mode docker)) [
        | inr not_docker ↦ let same : cache ≡ cache' = ground arith in subst IsCoherent same w
        | inl is_docker ↦
            let observed =
              observe_published_snapshot o.sha256 fresh_boot
                (with_time cache.snapshot.last_updated
                  (clear_revision (o.publish_docker_snapshot cache.snapshot)))
                cache.observed_history in
            elim (Option-cases observed) [
              | inl n ↦ absurd (ground arith)
              | inr (history, f) ↦
                  let same : record cache { observed_history = history } ≡ cache' = ground arith in
                  subst IsCoherent same (record {
                    slots = w.slots;
                    mock_history = λ m. absurd (
                        let here : mode_eq mock docker ≡ true =
                          ap (λ mode. mode_eq mode docker) (sym m) ∙ is_docker in
                        cc here);
                  })
            ]
      ]

  pub publishes-IsCoherent :
      (reset_boot fresh_boot : Text) (updated cache cache' : DaemonCache c o)
      → publish_docker_snapshot_cache c o reset_boot fresh_boot updated cache ≡ some cache'
      → IsCoherent cache
      → IsCoherent cache'
  unfolding publish_docker_snapshot_cache
  publishes-IsCoherent reset_boot fresh_boot updated cache cache' e w =
      let same = mode_eq cache.mode updated.mode in
      let other_evidence =
        same && not (same_collection_evidence c o cache.snapshot updated.snapshot) in
      let slots_of : Option (Slots c) =
        if other_evidence
        then mark_network_observation_stale c cache.runtime_providers
        else some (if same then cache.runtime_providers else source_reset_provider_slots c) in
      let (generation, _, f) = first_step c o (next_generation same cache.source_generation) _ e in
      let (slots, s, g) = first_step c o slots_of _ f in
      let taken : DaemonCache c o = record updated {
        runtime_providers = slots;
        source_generation = generation;
        docker_observation_revision = cache.docker_observation_revision;
        integrity_observation_revision =
            if same
            then cache.integrity_observation_revision
            else updated.integrity_observation_revision;
        revision = cache.revision;
        observed_history = if same then cache.observed_history else new reset_boot;
      } in
      let (published, p, h) =
        first_step c o (republish c o taken) (observe_publication c o fresh_boot) g in
      observe_publication-IsCoherent fresh_boot published cache' h (
        republished-IsCoherent taken published (republish_lem c o taken published p) (record {
          slots = slots-IsSound same other_evidence cache.runtime_providers slots s w.slots;
          mock_history =
              before-IsBlank cache.mode updated.mode cache.observed_history reset_boot
                w.mock_history;
        }))

  pub mock_cache-IsCoherent :
      (built start : DaemonCache c o) (boot : Text)
      → mock_cache c o built boot ≡ some start
      → IsCoherent start
  unfolding mock_cache
  mock_cache-IsCoherent built start boot e =
      let first : DaemonCache c o = record built {
        mode = mock;
        runtime_providers = unavailable_provider_slots c;
        source_generation = 0;
        observed_history = new boot;
      } in
      let (observed, f, g) =
        first_step c o (assign_docker_observation_revision c o first) (assign_revision c o) e in
      republished-IsCoherent first start
        (IsRepublished-trans c o first observed start
          (assign_docker_observation_revision_lem c o first observed f)
          (assign_revision_lem c o observed start g))
        (record { slots = unavailable-IsSound c; mock_history = λ m. new-IsBlank boot })
