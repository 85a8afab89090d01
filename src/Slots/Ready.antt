-- ===== src/Slots/Ready.antt =====
-- The claim of due slots (cache_refresh.rs), told slot by slot.
use docker_map.Common.{
  ℕ, ◌+◌, ◌-◌, ◌≤◌, ◌<◌, ◌≡◌, ◌≢◌, ◌⊎◌, inl, inr, refl, ap, sym, ◌∙◌, Bool, true, false, ◌&&◌, List,
  [], ◌∷◌, Option, none, some, Option-cases, arith, max, leb, any, length, filter, All, Bool-cases,
}
use docker_map.Common.Maps.{get, IsSorted}
use docker_map.Slots.Slot.{
  ProviderSlot, static_provider_slots, slot_interval, slot_eq, slot_eq_iff, slot_Ord,
}
use docker_map.Slots.{
  ProviderState, ProviderStateKind, disabled, is_disabled_kind, refreshing, Collections,
  RuntimeProviderState, unobserved, observed, in_progress, degraded, late, SlotRuntimeState, Slots,
  retained_collection, is_collecting,
}
use docker_map.Slots.Claim.{
  occupied, is_due, is_disabled, claim, is_claimable, claim_due_slots_with_active_workers,
}
use docker_map.Slots.Fixed.{IsFixed}
use docker_map.Slots.Claiming.{is_member, claim_due_slots_with_active_workers-IsClaim}

pub disabled_kind_sound : (k : ProviderStateKind) → is_disabled_kind k ≡ true → k ≡ disabled
disabled_kind_sound disabled h = refl
disabled_kind_sound _ h = absurd (cc h)

module _ (c : Collections) where
  -- The slot does not collect, its last collection is as old as its interval or was never, and it
  -- has not reported itself as disabled.
  pub record IsReady (now : ℕ) (slot : ProviderSlot) (s : SlotRuntimeState c) : Type 0 where
    pub idle : (r : Option c.Collection) → s.observation ≢ in_progress r
    pub due :
        (s.completed_at ≡ none)
        ⊎ ((at : ℕ) × (s.completed_at ≡ some at) × (slot_interval slot ≤ now - at))
    pub enabled :
        (collection : c.Collection)
        → s.observation ≡ observed collection
        → All (λ state. state.slot ≡ slot → state.state ≢ disabled) (c.states collection)

  -- What is retained goes on being retained while a collection runs.
  abbrev pub KeepsRetained : RuntimeProviderState c → RuntimeProviderState c → Type 0
  KeepsRetained unobserved after = after ≡ in_progress none
  KeepsRetained (observed collection) after = after ≡ in_progress (some collection)
  KeepsRetained (in_progress retained) after = after ≡ in_progress retained
  KeepsRetained (degraded retained) after = after ≡ in_progress retained
  KeepsRetained (late retained) after = after ≡ in_progress retained

  -- A claimed slot, before and after.
  pub record IsStarted (wall : Option ℕ) (s s' : SlotRuntimeState c) : Type 0 where
    pub retained : KeepsRetained s.observation s'.observation
    pub completed : s'.completed_at ≡ s.completed_at
    pub attempt : s'.freshness.last_attempt_ms ≡ wall
    pub reason : s'.freshness.status_reason ≡ some refreshing
    pub success : s'.freshness.last_success_ms ≡ s.freshness.last_success_ms
    pub duration : s'.freshness.last_duration_ms ≡ s.freshness.last_duration_ms
    pub failures : s'.freshness.consecutive_failure_count ≡ s.freshness.consecutive_failure_count
    pub revision : s'.freshness.data_revision ≡ s.freshness.data_revision
    pub evidence : s'.freshness.data_observable ≡ s.freshness.data_observable

  keeps_retained :
      (o : RuntimeProviderState c) → KeepsRetained o (in_progress (retained_collection c o))
  unfolding retained_collection
  keeps_retained unobserved = refl
  keeps_retained (observed collection) = refl
  keeps_retained (in_progress none) = refl
  keeps_retained (in_progress (some collection)) = refl
  keeps_retained (degraded none) = refl
  keeps_retained (degraded (some collection)) = refl
  keeps_retained (late none) = refl
  keeps_retained (late (some collection)) = refl

  claim-IsStarted : (wall : Option ℕ) (s : SlotRuntimeState c) → IsStarted wall s (claim c wall s)
  claim-IsStarted wall s = record {
    retained = keeps_retained s.observation;
    completed = refl;
    attempt = refl;
    reason = refl;
    success = refl;
    duration = refl;
    failures = refl;
    revision = refl;
    evidence = refl;
  }

  not_disabled :
      (slot : ProviderSlot) (states : List ProviderState)
      → any (λ state. slot_eq state.slot slot && is_disabled_kind state.state) states ≡ false
      → All (λ state. state.slot ≡ slot → state.state ≢ disabled) states
  not_disabled slot [] h = tt
  not_disabled slot (state ∷ states) h = (
    λ e d.
        let here : slot_eq state.slot slot ≡ true = (slot_eq_iff state.slot slot).1 e in
        let off : is_disabled_kind state.state ≡ true = ap is_disabled_kind d in
        absurd (ground arith),
    not_disabled slot states (ground arith),
  )

  disabled_nowhere :
      (slot : ProviderSlot) (states : List ProviderState)
      → All (λ state. state.slot ≡ slot → state.state ≢ disabled) states
      → any (λ state. slot_eq state.slot slot && is_disabled_kind state.state) states ≡ false
  disabled_nowhere slot [] h = refl
  disabled_nowhere slot (state ∷ states) h =
      elim (Bool-cases (slot_eq state.slot slot && is_disabled_kind state.state)) [
        | inl both ↦ absurd (
            h.0 ((slot_eq_iff state.slot slot).0 (ground arith))
              (disabled_kind_sound state.state (ground arith)))
        | inr apart ↦ ground (arith, disabled_nowhere slot states h.1)
      ]

  due_sound :
      (now : ℕ) (slot : ProviderSlot) (s : SlotRuntimeState c)
      → is_due c now slot s ≡ true
      → (s.completed_at ≡ none)
        ⊎ ((at : ℕ) × (s.completed_at ≡ some at) × (slot_interval slot ≤ now - at))
  unfolding is_due
  due_sound now slot s h = elim (Option-cases s.completed_at) [
    | inl never ↦ inl never
    | inr (at, e) ↦
        let old : leb (slot_interval slot) (now - at) ≡ true = rw (e, is_due) at h in
        inr (at, e, ground arith)
  ]

  due_complete :
      (now : ℕ) (slot : ProviderSlot) (s : SlotRuntimeState c)
      → (s.completed_at ≡ none)
        ⊎ ((at : ℕ) × (s.completed_at ≡ some at) × (slot_interval slot ≤ now - at))
      → is_due c now slot s ≡ true
  unfolding is_due
  due_complete now slot s (inl never) = rw never refl
  due_complete now slot s (inr (at, e, old)) = rw e (ground arith)

  enabled_sound :
      (slot : ProviderSlot) (o : RuntimeProviderState c)
      → is_disabled c slot o ≡ false
      → (collection : c.Collection) → o ≡ observed collection
      → All (λ state. state.slot ≡ slot → state.state ≢ disabled) (c.states collection)
  unfolding is_disabled
  enabled_sound slot o h collection e =
      not_disabled slot (c.states collection) (sym (ap (is_disabled c slot) e) ∙ h)

  enabled_complete :
      (slot : ProviderSlot) (o : RuntimeProviderState c)
      → ((collection : c.Collection)
          → o ≡ observed collection
          → All (λ state. state.slot ≡ slot → state.state ≢ disabled) (c.states collection))
      → is_disabled c slot o ≡ false
  unfolding is_disabled
  enabled_complete slot (observed collection) h =
      disabled_nowhere slot (c.states collection) (h collection refl)
  enabled_complete slot unobserved h = refl
  enabled_complete slot (in_progress r) h = refl
  enabled_complete slot (degraded r) h = refl
  enabled_complete slot (late r) h = refl

  idle_complete :
      (o : RuntimeProviderState c)
      → ((r : Option c.Collection) → o ≢ in_progress r)
      → is_collecting c o ≡ false
  idle_complete (in_progress r) h = absurd (h r refl)
  idle_complete unobserved h = refl
  idle_complete (observed collection) h = refl
  idle_complete (degraded r) h = refl
  idle_complete (late r) h = refl

  claimable-IsReady :
      (now : ℕ) (slot : ProviderSlot) (s : SlotRuntimeState c)
      → is_claimable c now slot s ≡ true
      → IsReady now slot s
  claimable-IsReady now slot s h = record {
    idle = λ r e.
        let busy : is_collecting c s.observation ≡ true = ap (is_collecting c) e in
        absurd (ground arith);
    due = due_sound now slot s (ground arith);
    enabled = enabled_sound slot s.observation (ground arith);
  }

  IsReady-claimable :
      (now : ℕ) (slot : ProviderSlot) (s : SlotRuntimeState c)
      → IsReady now slot s
      → is_claimable c now slot s ≡ true
  IsReady-claimable now slot s w =
      let idle = idle_complete s.observation w.idle in
      let due = due_complete now slot s w.due in
      let enabled = enabled_complete slot s.observation w.enabled in
      ground (arith, idle, due, enabled)

  abbrev pub is_working : RuntimeProviderState c → Bool
  is_working (in_progress r) = true
  is_working _ = false

  -- How many slots collect.
  abbrev pub working : Slots c → ℕ
  working slots = length (filter (λ p. is_working p.1.observation) slots)

  -- A claim that leaves room for so many workers.
  pub record IsFairClaim (now : ℕ) (wall : ProviderSlot → Option ℕ) (room : ℕ)
      (slots slots' : Slots c) (claimed : List ProviderSlot) : Type 0 where
    pub bounded : length claimed ≤ room
    pub counted : working slots' ≡ working slots + length claimed
    pub each :
        (s : ProviderSlot)
        → ((is_member s claimed ≡ true)
            × (before : SlotRuntimeState c) × (after : SlotRuntimeState c) × (get s slots
                ≡ some before)
            × (get s slots' ≡ some after)
            × IsReady now s before
            × IsStarted (wall s) before after)
          ⊎ ((is_member s claimed ≡ false) × (get s slots' ≡ get s slots))
    pub complete :
        length claimed < room
        → All
            (λ s.
              (current : SlotRuntimeState c)
              → get s slots ≡ some current
              → IsReady now s current
              → is_member s claimed ≡ true)
            static_provider_slots

  All-IsReady :
      (now : ℕ) (slots : Slots c) (claimed over : List ProviderSlot)
      → All
          (λ s.
            (current : SlotRuntimeState c)
            → get s slots ≡ some current
            → is_claimable c now s current ≡ true
            → is_member s claimed ≡ true)
          over
      → All
          (λ s.
            (current : SlotRuntimeState c)
            → get s slots ≡ some current
            → IsReady now s current
            → is_member s claimed ≡ true)
          over
  All-IsReady now slots claimed [] h = tt
  All-IsReady now slots claimed (s ∷ over) h = (
    λ current e w. h.0 current e (IsReady-claimable now s current w),
    All-IsReady now slots claimed over h.1,
  )

  -- A claim on sorted slots that all have a state does not fail. It claims no more slots than the
  -- bound leaves room for beside those that are collecting and the workers that still run, each of
  -- them due, not collecting and not disabled; a claimed slot collects, keeps what it retained and
  -- everything else but the time and the reason of the attempt; no other slot is changed; and where
  -- it claims fewer than there is room for, it claims every such slot.
  pub claim_due_slots_with_active_workers-IsFairClaim :
      (slots : Slots c) (now max_concurrency active_workers : ℕ) (wall : ProviderSlot → Option ℕ)
      → IsSorted slots
      → IsFixed c slots
      → (slots' : Slots c) × (claimed : List ProviderSlot) × (claim_due_slots_with_active_workers c
            slots now max_concurrency active_workers wall
          ≡ some (slots', claimed))
        × IsFairClaim now wall
            (max_concurrency - max (working slots) active_workers)
            slots
            slots'
            claimed
  unfolding occupied
  claim_due_slots_with_active_workers-IsFairClaim slots now max_concurrency active_workers wall d
        f =
      let (slots', claimed, e, w) =
        claim_due_slots_with_active_workers-IsClaim c slots now max_concurrency active_workers wall
          d f in
      (
        slots',
        claimed,
        e,
        record {
          bounded = w.bounded;
          counted = w.counted;
          each = λ s. elim (w.each s) [
            | inl (m, current, there, ripe, result) ↦ inl (
              m,
              current,
              claim c (wall s) current,
              there,
              result,
              claimable-IsReady now s current ripe,
              claim-IsStarted (wall s) current,
            )
            | inr kept ↦ inr kept
          ];
          complete = λ h. All-IsReady now slots claimed static_provider_slots (w.complete h);
        },
      )
