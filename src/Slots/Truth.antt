-- ===== src/Slots/Truth.antt =====
-- The published states of the slots say no more than what is retained.
use docker_map.Common.{
  ◌≡◌, ◌≢◌, ◌⊎◌, inl, inr, refl, ap, sym, ◌∙◌, subst, filter, Bool-cases, Occurs, List, [], ◌∷◌,
  map, Option, none, some, if◌then◌else◌, All,
}
use docker_map.Common.Maps.{get}
use docker_map.Slots.Slot.{ProviderSlot, static_provider_slots, slot_eq, slot_eq_iff, slot_Ord}
use docker_map.Slots.{
  ProviderStateKind, fresh, stale, collecting, unavailable, timed_out, disabled,
  ProviderStatusReason, disabled_reason, ProviderState, is_disabled_kind, is_unavailable_kind,
  Collections, RuntimeProviderState, unobserved, observed, in_progress, degraded, late,
  SlotRuntimeState, Slots, retained_collection,
}
use docker_map.Slots.States.{base_kind, kind_for, state_for, states_for, provider_states_for}
use docker_map.Slots.Ready.{disabled_kind_sound}
use docker_map.Slots.Fixed.{IsFixed}

module _ (c : Collections) where
  -- Among its states the collection reports the slot in this way.
  abbrev pub Reports : c.Collection → ProviderSlot → ProviderStateKind → Type 0
  Reports collection slot kind =
      (state : ProviderState) × Occurs state (c.states collection)
      × (state.slot ≡ slot)
      × (state.state ≡ kind)

  -- It reports the slot in this way, or not at all, which is told as unavailable.
  abbrev pub TellsOf : c.Collection → ProviderSlot → ProviderStateKind → Type 0
  TellsOf collection slot kind =
      Reports collection slot kind
      ⊎ ((kind ≡ unavailable) × All (λ state. state.slot ≢ slot) (c.states collection))

  -- What a state says of the slot that it is about: of a fresh collection, what that reports; of a
  -- collection under way, that it is, or that what it retained is stale; of a failed one, that what
  -- it retained is stale, or that nothing is there; of a late one, that it has timed out; and in all
  -- these cases that the slot is disabled, if what is retained reports that.
  abbrev pub IsKindOf : ProviderSlot → RuntimeProviderState c → ProviderStateKind → Type 0
  IsKindOf slot unobserved kind = kind ≡ unavailable
  IsKindOf slot (observed collection) kind = TellsOf collection slot kind
  IsKindOf slot (in_progress none) kind = kind ≡ collecting
  IsKindOf slot (in_progress (some collection)) kind =
      ((kind ≡ disabled) × Reports collection slot disabled)
      ⊎ (((kind ≡ collecting) × TellsOf collection slot unavailable)
          ⊎ ((kind ≡ stale)
              × ((told : ProviderStateKind) × TellsOf collection slot told
                  × (told ≢ disabled)
                  × (told ≢ unavailable))))
  IsKindOf slot (degraded none) kind = kind ≡ unavailable
  IsKindOf slot (degraded (some collection)) kind =
      ((kind ≡ disabled) × Reports collection slot disabled)
      ⊎ ((kind ≡ stale)
          × ((told : ProviderStateKind) × TellsOf collection slot told × (told ≢ disabled)))
  IsKindOf slot (late none) kind = kind ≡ timed_out
  IsKindOf slot (late (some collection)) kind =
      ((kind ≡ disabled) × Reports collection slot disabled)
      ⊎ ((kind ≡ timed_out)
          × ((told : ProviderStateKind) × TellsOf collection slot told × (told ≢ disabled)))

  -- A published state and the slot that it is about.
  pub record IsTruthful (slots : Slots c) (state : ProviderState) : Type 0 where
    pub source : SlotRuntimeState c
    pub stored : get state.slot slots ≡ some source
    pub kind : IsKindOf state.slot source.observation state.state
    pub disabled_reason_if : state.state ≡ disabled → state.status_reason ≡ some disabled_reason
    pub other_reason : state.state ≢ disabled → state.status_reason ≡ source.freshness.status_reason
    pub count : state.consecutive_failure_count ≡ source.freshness.consecutive_failure_count
    pub attempt : state.last_attempt_ms ≡ source.freshness.last_attempt_ms
    pub success : state.last_success_ms ≡ source.freshness.last_success_ms
    pub duration : state.last_duration_ms ≡ source.freshness.last_duration_ms

  abbrev first_kind : List ProviderState → ProviderStateKind
  first_kind [] = unavailable
  first_kind (state ∷ _) = state.state

  first_told :
      (slot : ProviderSlot) (states : List ProviderState)
      → let kind = first_kind (filter (λ state. slot_eq state.slot slot) states) in
        ((state : ProviderState) × Occurs state states × (state.slot ≡ slot) × (state.state ≡ kind))
        ⊎ ((kind ≡ unavailable) × All (λ state. state.slot ≢ slot) states)
  first_told slot [] = inr (refl, tt)
  first_told slot (state ∷ states) = elim (Bool-cases (slot_eq state.slot slot)) [
    | inl here ↦ rw here (inl (state, inl refl, (slot_eq_iff state.slot slot).0 here, refl))
    | inr apart ↦
        let other : state.slot ≢ slot =
          λ e. absurd (cc ((slot_eq_iff state.slot slot).1 e, apart)) in
        rw apart (elim (first_told slot states) [
          | inl (found, o, at, e) ↦ inl (found, inr o, at, e)
          | inr (e, none_there) ↦ inr (e, (other, none_there))
        ])
  ]

  -- What the retained collection tells.
  abbrev told : ProviderSlot → c.Collection → ProviderStateKind
  told slot collection = base_kind c slot (observed collection)

  told-TellsOf :
      (slot : ProviderSlot) (collection : c.Collection)
      → TellsOf collection slot (told slot collection)
  unfolding base_kind retained_collection
  told-TellsOf slot collection = first_told slot (c.states collection)

  disabled_told :
      (slot : ProviderSlot) (collection : c.Collection)
      → told slot collection ≡ disabled
      → Reports collection slot disabled
  disabled_told slot collection e = elim (told-TellsOf slot collection) [
    | inl (state, o, at, same) ↦ (state, o, at, same ∙ e)
    | inr (none_there, _) ↦ absurd (cc (none_there, e))
  ]

  told_fresh :
      (slot : ProviderSlot) (collection : c.Collection) {kind : ProviderStateKind}
      → kind ≡ told slot collection
      → kind ≢ disabled
      → kind ≢ unavailable
      → (k : ProviderStateKind) × TellsOf collection slot k × (k ≢ disabled) × (k ≢ unavailable)
  told_fresh slot collection e on there =
      (told slot collection, told-TellsOf slot collection, λ d. on (e ∙ d), λ d. there (e ∙ d))

  in_progress-IsKindOf :
      (slot : ProviderSlot) (collection : c.Collection) (kind : ProviderStateKind)
      → kind ≡ told slot collection
      → IsKindOf slot (in_progress (some collection)) (
          if is_disabled_kind kind
          then disabled
          else if is_unavailable_kind kind
          then collecting
          else stale)
  in_progress-IsKindOf slot collection disabled e =
      inl (refl, disabled_told slot collection (sym e))
  in_progress-IsKindOf slot collection unavailable e =
      inr (inl (refl, subst (TellsOf collection slot) (sym e) (told-TellsOf slot collection)))
  in_progress-IsKindOf slot collection fresh e =
      inr (inr (refl, told_fresh slot collection e (λ d. absurd (cc d)) (λ d. absurd (cc d))))
  in_progress-IsKindOf slot collection stale e =
      inr (inr (refl, told_fresh slot collection e (λ d. absurd (cc d)) (λ d. absurd (cc d))))
  in_progress-IsKindOf slot collection collecting e =
      inr (inr (refl, told_fresh slot collection e (λ d. absurd (cc d)) (λ d. absurd (cc d))))
  in_progress-IsKindOf slot collection timed_out e =
      inr (inr (refl, told_fresh slot collection e (λ d. absurd (cc d)) (λ d. absurd (cc d))))

  -- Disabled, or what else is said, by what is told.
  disabled_or :
      (slot : ProviderSlot) (collection : c.Collection) (kind other : ProviderStateKind)
      → kind ≡ told slot collection
      → (((if is_disabled_kind kind then disabled else other) ≡ disabled)
          × Reports collection slot disabled)
        ⊎ (((if is_disabled_kind kind then disabled else other) ≡ other)
            × ((k : ProviderStateKind) × TellsOf collection slot k × (k ≢ disabled)))
  disabled_or slot collection kind other e = elim (Bool-cases (is_disabled_kind kind)) [
    | inl off ↦
        let is : kind ≡ disabled = disabled_kind_sound kind off in
        inl (rw off refl, disabled_told slot collection (sym e ∙ is))
    | inr on ↦ inr (
      rw on refl,
      (
        told slot collection,
        told-TellsOf slot collection,
        λ d. absurd (cc (ap is_disabled_kind (e ∙ d), on)),
      ),
    )
  ]

  kind_for-IsKindOf :
      (slot : ProviderSlot) (o : RuntimeProviderState c) → IsKindOf slot o (kind_for c slot o)
  unfolding kind_for base_kind retained_collection
  kind_for-IsKindOf slot unobserved = refl
  kind_for-IsKindOf slot (observed collection) = told-TellsOf slot collection
  kind_for-IsKindOf slot (in_progress none) = refl
  kind_for-IsKindOf slot (in_progress (some collection)) =
      in_progress-IsKindOf slot collection (told slot collection) refl
  kind_for-IsKindOf slot (degraded none) = refl
  kind_for-IsKindOf slot (degraded (some collection)) =
      disabled_or slot collection (told slot collection) stale refl
  kind_for-IsKindOf slot (late none) = refl
  kind_for-IsKindOf slot (late (some collection)) =
      disabled_or slot collection (told slot collection) timed_out refl

  reason_if :
      (kind : ProviderStateKind) (reason : Option ProviderStatusReason)
      → kind ≡ disabled
      → (if is_disabled_kind kind then some disabled_reason else reason) ≡ some disabled_reason
  reason_if kind reason e = rw e refl

  reason_other :
      (kind : ProviderStateKind) (reason : Option ProviderStatusReason)
      → kind ≢ disabled
      → (if is_disabled_kind kind then some disabled_reason else reason) ≡ reason
  reason_other disabled reason n = absurd (n refl)
  reason_other fresh reason n = refl
  reason_other stale reason n = refl
  reason_other collecting reason n = refl
  reason_other unavailable reason n = refl
  reason_other timed_out reason n = refl

  states_for_lem :
      (over : List ProviderSlot) (slots : Slots c)
      → IsFixed c slots
      → (states : List ProviderState) × (states_for c over slots ≡ some states)
        × (map (λ state. state.slot) states ≡ over)
        × All (IsTruthful slots) states
  unfolding states_for
  states_for_lem [] slots f = ([], refl, refl, tt)
  states_for_lem (slot ∷ over) slots f =
      let (s, e) = f slot in
      let (states, result, order, truth) = states_for_lem over slots f in
      let kind = kind_for c slot s.observation in
      (
        state_for c slot s ∷ states,
        rw (e, result) refl,
        ap (◌∷◌ slot) order,
        (
          record {
            source = s;
            stored = e;
            kind = kind_for-IsKindOf slot s.observation;
            disabled_reason_if = reason_if kind s.freshness.status_reason;
            other_reason = reason_other kind s.freshness.status_reason;
            count = refl;
            attempt = refl;
            success = refl;
            duration = refl;
          },
          truth,
        ),
      )

  -- Of slots that all have a state, the published states are one for each fixed slot, in their
  -- order. Of a fresh collection a state tells what that reports of the slot; otherwise it tells
  -- whether a collection is under way, what is retained is stale, or the last one was late, and that
  -- the slot is disabled just if what is retained reports it. A disabled slot is given the reason
  -- `disabled`, every other slot the reason that is kept; the count and the times are those kept.
  pub provider_states_for_lem :
      (slots : Slots c)
      → IsFixed c slots
      → (states : List ProviderState) × (provider_states_for c slots ≡ some states)
        × (map (λ state. state.slot) states ≡ static_provider_slots)
        × All (IsTruthful slots) states
  unfolding provider_states_for
  provider_states_for_lem slots f = states_for_lem static_provider_slots slots f
