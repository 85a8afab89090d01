-- ===== src/Slots/Claim.antt =====
-- Which slots are due, and the claim of those that the bound on workers leaves room for.
use docker_map.Common.{
  ℕ, ◌-◌, Bool, true, false, not, ◌&&◌, List, [], ◌∷◌, Option, none, some, leb, ◌==◌, max, ◌>>=◌,
  filter, any, length,
}
use docker_map.Common.Maps.{get, insert, text_Ord}
use docker_map.Slots.Slot.{ProviderSlot, static_provider_slots, slot_interval, slot_eq, slot_Ord}
use docker_map.Slots.{
  refreshing, is_disabled_kind, Collections, RuntimeProviderState, observed, in_progress,
  SlotRuntimeState, Slots, retained_collection, is_collecting,
}

module _ (c : Collections) where
  unfoldable pub occupied : (Slots c) → ℕ
  occupied slots = length (filter (λ (slot, s). (is_collecting c) s.observation) slots)

  unfoldable pub is_due : ℕ → ProviderSlot → (SlotRuntimeState c) → Bool
  is_due now slot s = elim s.completed_at [
    | none ↦ true
    | some at ↦ leb (slot_interval slot) (now - at)
  ]

  -- A fresh collection that reports its own slot as disabled.
  unfoldable pub is_disabled : ProviderSlot → (RuntimeProviderState c) → Bool
  is_disabled slot (observed collection) =
      any (λ state. slot_eq state.slot slot && is_disabled_kind state.state) (c.states collection)
  is_disabled slot _ = false

  -- What a claim stores; `wall` is what the clock on the wall says.
  abbrev pub claim : Option ℕ → (SlotRuntimeState c) → (SlotRuntimeState c)
  claim wall s = record {
    observation = in_progress ((retained_collection c) s.observation);
    completed_at = s.completed_at;
    freshness = record {
      last_attempt_ms = wall;
      last_success_ms = s.freshness.last_success_ms;
      last_duration_ms = s.freshness.last_duration_ms;
      consecutive_failure_count = s.freshness.consecutive_failure_count;
      data_revision = s.freshness.data_revision;
      data_observable = s.freshness.data_observable;
      status_reason = some refreshing;
    };
  }

  abbrev pub is_claimable : ℕ → ProviderSlot → (SlotRuntimeState c) → Bool
  is_claimable now slot s =
      not ((is_collecting c) s.observation)
      && (is_due now slot s && not (is_disabled slot s.observation))

  -- The loop over the fixed slots, with `remaining`; `wall` tells for each slot what the clock says
  -- when it is claimed.
  unfoldable pub claim_from :
      ℕ
      → (ProviderSlot → Option ℕ)
      → List ProviderSlot
      → ℕ
      → (Slots c)
      → Option ((Slots c) × List ProviderSlot)
  claim_from now wall [] remaining slots = some (slots, [])
  claim_from now wall (slot ∷ rest) remaining slots = elim (remaining == 0) [
    | true ↦ some (slots, [])
    | false ↦ (do
      current ← get slot slots
      elim (is_claimable now slot current) [
        | false ↦ claim_from now wall rest remaining slots
        | true ↦ (do
          (slots', claimed) ←
              claim_from now wall rest (remaining - 1)
                (insert slot (claim (wall slot) current) slots)
          some (slots', slot ∷ claimed))
      ])
  ]

  unfoldable pub claim_due_slots_with_active_workers :
      (Slots c) → ℕ → ℕ → ℕ → (ProviderSlot → Option ℕ) → Option ((Slots c) × List ProviderSlot)
  claim_due_slots_with_active_workers slots now max_concurrency active_workers wall =
      claim_from now wall static_provider_slots
        (max_concurrency - max (occupied slots) active_workers) slots
