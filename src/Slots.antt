-- ===== src/Slots.antt =====
-- The provider slots of crates/dockermap-daemon/src/cache_refresh.rs: what the cache retains of each
-- host provider, which slots are due, and what the end of a collection changes. Times are in
-- nanoseconds; `none` is the panic of an `expect`.
pub mod Slot
pub mod Claim
pub mod Settle
pub mod States
pub mod Fixed
pub mod Claiming
pub mod Ready
pub mod Settled
pub mod Settling
pub mod Truth
pub mod Cache
pub mod Republished
pub mod Coherent
pub mod Completing
pub mod Run
pub mod Reach
mod Tests
use docker_map.Common.{
  ℕ, ◌+◌, ◌-◌, ◌*◌, ◌^◌, ◌≡◌, Bool, true, false, not, ◌&&◌, ◌||◌, List, [], ◌∷◌, ◌++◌, map, Option,
  none, some, ltb, leb, ◌==◌, min, max, if◌then◌else◌, ◌>>=◌, unwrap_or, is_some_and, filter, any,
  length, Text, codes, text_eq,
}
use docker_map.Common.Decimal.{max_u64, to_string}
use docker_map.Common.Maps.{Map, get, insert, text_Ord}
use docker_map.Slots.Slot.{
  ProviderSlot, network_infrastructure, static_provider_slots, slot_interval, slot_eq, slot_Ord,
}

pub data ProviderStateKind : Type 0 where
  fresh stale collecting unavailable timed_out disabled : ProviderStateKind

pub data ProviderStatusReason : Type 0 where
  initial refreshing collection_failed collection_timed_out source_reset disabled_reason :
      ProviderStatusReason

pub record ProviderState : Type 0 where
  pub slot : ProviderSlot
  pub state : ProviderStateKind
  pub last_attempt_ms : Option ℕ
  pub last_success_ms : Option ℕ
  pub last_duration_ms : Option ℕ
  pub consecutive_failure_count : ℕ
  pub data_revision : Option Text
  pub status_reason : Option ProviderStatusReason

pub record SlotDataRevision : Type 0 where
  pub boot : Text
  pub sequence : ℕ

pub record SlotFreshness : Type 0 where
  pub last_attempt_ms : Option ℕ
  pub last_success_ms : Option ℕ
  pub last_duration_ms : Option ℕ
  pub consecutive_failure_count : ℕ
  pub data_revision : Option SlotDataRevision
  pub data_observable : Option Text
  pub status_reason : Option ProviderStatusReason

abbrev pub max_u32 : ℕ
max_u32 = 2 ^ 32 - 1

abbrev pub max_concurrent_provider_slots : ℕ
max_concurrent_provider_slots = 2

abbrev pub is_disabled_kind : ProviderStateKind → Bool
is_disabled_kind disabled = true
is_disabled_kind _ = false

abbrev pub is_unavailable_kind : ProviderStateKind → Bool
is_unavailable_kind unavailable = true
is_unavailable_kind _ = false

-- `boot_instance_component` yields one text for the whole process.
abbrev pub first_revision : Text → SlotDataRevision
first_revision boot = record { boot = boot; sequence = 1 }

unfoldable pub advance : SlotDataRevision → Option SlotDataRevision
advance revision =
    if ltb max_u64 (revision.sequence + 1)
    then none
    else some (record { boot = revision.boot; sequence = revision.sequence + 1 })

abbrev pub public : SlotDataRevision → Text
public revision = revision.boot ++ codes "-" ++ to_string revision.sequence

abbrev pub saturating_add_u32 : ℕ → ℕ → ℕ
saturating_add_u32 a b = min (a + b) max_u32

pub successful_duration_ms : Option ℕ → Option ℕ → Option ℕ
successful_duration_ms attempt_ms completed_ms = do
  completed ← completed_ms
  attempt ← attempt_ms
  some (completed - attempt)

abbrev pub no_freshness : SlotFreshness
no_freshness = record {
  last_attempt_ms = none;
  last_success_ms = none;
  last_duration_ms = none;
  consecutive_failure_count = 0;
  data_revision = none;
  data_observable = none;
  status_reason = none;
}

-- What the slots use of a `ProviderCollection`: the states that it reports, its sanitized form, and
-- the text of its observable evidence.
pub record Collections : Type 1 where
  pub Collection : Type 0
  pub states : Collection → List ProviderState
  pub sanitized_for_retention : Collection → Collection
  pub sanitized_observable_identity : Collection → Text

module _ (c : Collections) where
  pub data RuntimeProviderState : Type 0 where
    unobserved : RuntimeProviderState
    observed : c.Collection → RuntimeProviderState
    in_progress : Option c.Collection → RuntimeProviderState
    degraded : Option c.Collection → RuntimeProviderState
    late : Option c.Collection → RuntimeProviderState

  pub record SlotRuntimeState : Type 0 where
    pub observation : RuntimeProviderState
    pub completed_at : Option ℕ
    pub freshness : SlotFreshness

  pub data ProviderCollectionOutcome : Type 0 where
    collected : c.Collection → ProviderCollectionOutcome
    in_flight failed overran : ProviderCollectionOutcome

  abbrev pub Slots : Type 0
  Slots = Map ProviderSlot SlotRuntimeState

  abbrev pub initial_slot : SlotRuntimeState
  initial_slot = record { observation = unobserved; completed_at = none; freshness = no_freshness }

  abbrev pub with_reason : ProviderStatusReason → SlotFreshness → SlotFreshness
  with_reason reason f = record {
    last_attempt_ms = f.last_attempt_ms;
    last_success_ms = f.last_success_ms;
    last_duration_ms = f.last_duration_ms;
    consecutive_failure_count = f.consecutive_failure_count;
    data_revision = f.data_revision;
    data_observable = f.data_observable;
    status_reason = some reason;
  }

  unfoldable pub unavailable_provider_slots : Slots
  unavailable_provider_slots = map (λ slot. (slot, initial_slot)) static_provider_slots

  unfoldable pub source_reset_provider_slots : Slots
  source_reset_provider_slots =
      map
        (λ (slot, s). (
          slot,
          record {
            observation = s.observation;
            completed_at = s.completed_at;
            freshness = with_reason source_reset s.freshness;
          },
        ))
        unavailable_provider_slots

  abbrev pub is_collecting : RuntimeProviderState → Bool
  is_collecting (in_progress retained) = true
  is_collecting _ = false

  unfoldable pub retained_collection : RuntimeProviderState → Option c.Collection
  retained_collection unobserved = none
  retained_collection (observed collection) = some collection
  retained_collection (in_progress retained) = retained
  retained_collection (degraded retained) = retained
  retained_collection (late retained) = retained
