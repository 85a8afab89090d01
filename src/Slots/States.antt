-- ===== src/Slots/States.antt =====
-- The states of the slots that the runtime map publishes.
use docker_map.Common.{List, [], ◌∷◌, Option, none, some, if◌then◌else◌, ◌>>=◌, filter}
use docker_map.Common.Maps.{get, text_Ord}
use docker_map.Slots.Slot.{ProviderSlot, static_provider_slots, slot_eq, slot_Ord}
use docker_map.Slots.{
  ProviderStateKind, stale, collecting, unavailable, timed_out, disabled, disabled_reason,
  ProviderState, is_disabled_kind, is_unavailable_kind, public, Collections, RuntimeProviderState,
  unobserved, observed, in_progress, degraded, late, SlotRuntimeState, Slots, retained_collection,
}

module _ (c : Collections) where
  -- The kind that the retained collection reports for the slot.
  unfoldable pub base_kind : ProviderSlot → (RuntimeProviderState c) → ProviderStateKind
  base_kind slot observation = elim ((retained_collection c) observation) [
    | none ↦ unavailable
    | some collection ↦ elim (filter (λ state. slot_eq state.slot slot) (c.states collection)) [
      | [] ↦ unavailable
      | state ∷ _ ↦ state.state
    ]
  ]

  unfoldable pub kind_for : ProviderSlot → (RuntimeProviderState c) → ProviderStateKind
  kind_for slot observation =
      let base = base_kind slot observation in
      elim observation [
        | observed _ ↦ base
        | in_progress _ ↦
            if is_disabled_kind base
            then disabled
            else if is_unavailable_kind base
            then collecting
            else stale
        | degraded (some _) ↦ if is_disabled_kind base then disabled else stale
        | degraded none ↦ if is_disabled_kind base then disabled else unavailable
        | late _ ↦ if is_disabled_kind base then disabled else timed_out
        | unobserved ↦ unavailable
      ]

  abbrev pub state_for : ProviderSlot → (SlotRuntimeState c) → ProviderState
  state_for slot s =
      let kind = kind_for slot s.observation in
      record {
        slot = slot;
        state = kind;
        last_attempt_ms = s.freshness.last_attempt_ms;
        last_success_ms = s.freshness.last_success_ms;
        last_duration_ms = s.freshness.last_duration_ms;
        consecutive_failure_count = s.freshness.consecutive_failure_count;
        data_revision = elim s.freshness.data_revision [ none ↦ none | some r ↦ some (public r) ];
        status_reason =
            if is_disabled_kind kind then some disabled_reason else s.freshness.status_reason;
      }

  unfoldable pub states_for : List ProviderSlot → (Slots c) → Option (List ProviderState)
  states_for [] slots = some []
  states_for (slot ∷ rest) slots = do
    s ← get slot slots
    states ← states_for rest slots
    some (state_for slot s ∷ states)

  unfoldable pub provider_states_for : (Slots c) → Option (List ProviderState)
  provider_states_for slots = states_for static_provider_slots slots
