-- ===== src/Slots/Settle.antt =====
-- What the end of a collection, or a change of the Docker evidence, does to a slot.
use docker_map.Common.{
  ℕ, Bool, Option, none, some, if◌then◌else◌, ◌>>=◌, is_some_and, Text, text_eq,
}
use docker_map.Common.Maps.{get, insert, text_Ord}
use docker_map.Slots.Slot.{network_infrastructure, slot_Ord}
use docker_map.Slots.{
  ProviderStatusReason, collection_failed, collection_timed_out, SlotFreshness, first_revision,
  advance, saturating_add_u32, successful_duration_ms, Collections, observed, degraded, late,
  SlotRuntimeState, ProviderCollectionOutcome, collected, in_flight, failed, overran, Slots,
  retained_collection,
}

module _ (c : Collections) where
  unfoldable pub update_slot_data_revision :
      Text → c.Collection → SlotFreshness → Option SlotFreshness
  update_slot_data_revision boot collection f =
      let observable = c.sanitized_observable_identity collection in
      if is_some_and (text_eq observable) f.data_observable then some f else (do
        revision ← elim f.data_revision [ none ↦ some (first_revision boot) | some r ↦ advance r ]
        some (record {
          last_attempt_ms = f.last_attempt_ms;
          last_success_ms = f.last_success_ms;
          last_duration_ms = f.last_duration_ms;
          consecutive_failure_count = f.consecutive_failure_count;
          data_revision = some revision;
          data_observable = some observable;
          status_reason = f.status_reason;
        }))

  abbrev pub succeeded : Option ℕ → SlotFreshness → SlotFreshness
  succeeded completed_ms f = record {
    last_attempt_ms = f.last_attempt_ms;
    last_success_ms = completed_ms;
    last_duration_ms = successful_duration_ms f.last_attempt_ms completed_ms;
    consecutive_failure_count = 0;
    data_revision = f.data_revision;
    data_observable = f.data_observable;
    status_reason = none;
  }

  abbrev pub failed_for : ProviderStatusReason → SlotFreshness → SlotFreshness
  failed_for reason f = record {
    last_attempt_ms = f.last_attempt_ms;
    last_success_ms = f.last_success_ms;
    last_duration_ms = f.last_duration_ms;
    consecutive_failure_count = saturating_add_u32 f.consecutive_failure_count 1;
    data_revision = f.data_revision;
    data_observable = f.data_observable;
    status_reason = some reason;
  }

  -- The `match` on the outcome, for the one slot; `wall` is what the clock on the wall says.
  unfoldable pub settle :
      Text
      → Bool
      → Option ℕ
      → ℕ
      → (ProviderCollectionOutcome c)
      → (SlotRuntimeState c)
      → Option (SlotRuntimeState c)
  settle boot same_evidence wall completed_at (collected collection) s = do
    freshness ← update_slot_data_revision boot (c.sanitized_for_retention collection) s.freshness
    some (record {
      observation =
          if same_evidence
          then observed (c.sanitized_for_retention collection)
          else degraded (some (c.sanitized_for_retention collection));
      completed_at = some completed_at;
      freshness = succeeded wall freshness;
    })
  settle boot same_evidence wall completed_at in_flight s = some (record {
    observation = late ((retained_collection c) s.observation);
    completed_at = s.completed_at;
    freshness = failed_for collection_timed_out s.freshness;
  })
  settle boot same_evidence wall completed_at failed s = some (record {
    observation = degraded ((retained_collection c) s.observation);
    completed_at = some completed_at;
    freshness = failed_for collection_failed s.freshness;
  })
  settle boot same_evidence wall completed_at overran s = some (record {
    observation = late ((retained_collection c) s.observation);
    completed_at = some completed_at;
    freshness = failed_for collection_timed_out s.freshness;
  })

  unfoldable pub mark_network_observation_stale : (Slots c) → Option (Slots c)
  mark_network_observation_stale slots = do
    network ← get network_infrastructure slots
    some (elim network.observation [
      | observed collection ↦
          insert network_infrastructure
            (record {
              observation = degraded (some collection);
              completed_at = network.completed_at;
              freshness = network.freshness;
            })
            slots
      | _ ↦ slots
    ])
