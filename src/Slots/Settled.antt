-- ===== src/Slots/Settled.antt =====
-- What a success and a failure of a collection are, as relations of a slot before and after.
use docker_map.Common.{ℕ, ◌+◌, ◌≤◌, ◌≡◌, ◌≢◌, Bool, true, false, Option, none, some, min, Text}
use docker_map.Common.Decimal.{max_u64}
use docker_map.Slots.{
  collection_failed, collection_timed_out, SlotDataRevision, SlotFreshness, successful_duration_ms,
  max_u32, Collections, RuntimeProviderState, observed, SlotRuntimeState, ProviderCollectionOutcome,
  collected, in_flight, failed, overran, retained_collection, is_collecting,
}

module _ (c : Collections) where
  abbrev pub is_fresh : RuntimeProviderState c → Bool
  is_fresh (observed collection) = true
  is_fresh _ = false

  -- A failure keeps what was retained and what is known of the last success, and is counted.
  pub record IsFailure (s s' : SlotRuntimeState c) : Type 0 where
    pub retained : retained_collection c s'.observation ≡ retained_collection c s.observation
    pub stale : is_fresh s'.observation ≡ false
    pub idle : is_collecting c s'.observation ≡ false
    pub counted :
        s'.freshness.consecutive_failure_count
        ≡ min (s.freshness.consecutive_failure_count + 1) max_u32
    pub attempt : s'.freshness.last_attempt_ms ≡ s.freshness.last_attempt_ms
    pub success : s'.freshness.last_success_ms ≡ s.freshness.last_success_ms
    pub duration : s'.freshness.last_duration_ms ≡ s.freshness.last_duration_ms
    pub revision : s'.freshness.data_revision ≡ s.freshness.data_revision
    pub evidence : s'.freshness.data_observable ≡ s.freshness.data_observable
    pub reason : s'.freshness.status_reason ≢ none

  -- A success retains the sanitized collection, fresh only if the Docker evidence is still the same,
  -- and names its evidence by a revision that stays while the evidence does.
  pub record IsSuccess (boot : Text) (same_evidence : Bool) (wall : Option ℕ) (completed_at : ℕ)
      (collection : c.Collection) (s s' : SlotRuntimeState c) : Type 0 where
    pub retained :
        retained_collection c s'.observation ≡ some (c.sanitized_for_retention collection)
    pub fresh_if : is_fresh s'.observation ≡ same_evidence
    pub idle : is_collecting c s'.observation ≡ false
    pub completed : s'.completed_at ≡ some completed_at
    pub counted : s'.freshness.consecutive_failure_count ≡ 0
    pub reason : s'.freshness.status_reason ≡ none
    pub success : s'.freshness.last_success_ms ≡ wall
    pub duration :
        s'.freshness.last_duration_ms ≡ successful_duration_ms s.freshness.last_attempt_ms wall
    pub evidence :
        s'.freshness.data_observable
        ≡ some (c.sanitized_observable_identity (c.sanitized_for_retention collection))
    pub same_revision :
        s.freshness.data_observable
          ≡ some (c.sanitized_observable_identity (c.sanitized_for_retention collection))
        → s'.freshness.data_revision ≡ s.freshness.data_revision
    pub new_revision :
        s.freshness.data_observable
          ≢ some (c.sanitized_observable_identity (c.sanitized_for_retention collection))
        → (r : SlotDataRevision) → s.freshness.data_revision ≡ some r
        → s'.freshness.data_revision ≡ some (record { boot = r.boot; sequence = r.sequence + 1 })

  -- The number of a revision has not run out.
  abbrev pub HasRoom : SlotFreshness → Type 0
  HasRoom f = (r : SlotDataRevision) → f.data_revision ≡ some r → r.sequence + 1 ≤ max_u64

  abbrev pub IsSettled :
      Text
      → Bool
      → Option ℕ
      → ℕ
      → ProviderCollectionOutcome c
      → SlotRuntimeState c
      → SlotRuntimeState c
      → Type 0
  IsSettled boot same wall at (collected collection) s s' =
      IsSuccess boot same wall at collection s s'
  IsSettled boot same wall at in_flight s s' =
      IsFailure s s'
      × (s'.completed_at ≡ s.completed_at)
      × (s'.freshness.status_reason ≡ some collection_timed_out)
  IsSettled boot same wall at failed s s' =
      IsFailure s s'
      × (s'.completed_at ≡ some at)
      × (s'.freshness.status_reason ≡ some collection_failed)
  IsSettled boot same wall at overran s s' =
      IsFailure s s'
      × (s'.completed_at ≡ some at)
      × (s'.freshness.status_reason ≡ some collection_timed_out)
