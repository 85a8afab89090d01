-- ===== src/Slots/Completing.antt =====
-- The end of a collection touches its own slot, and only if the source is still the one it observed.
use docker_map.Common.{◌≡◌, ◌≢◌, some}
use docker_map.Common.Maps.{get}
use docker_map.Slots.Slot.{ProviderSlot, slot_Ord}
use docker_map.Slots.{Collections, SlotRuntimeState}
use docker_map.Slots.Settled.{IsSettled}
use docker_map.Slots.Cache.{
  Outside, DaemonCache, with_slots, Completion, same_collection_evidence, republish, clear_revision,
}

module _ (c : Collections) (o : Outside c) where
  -- The slot of the completion is settled by its outcome, every other slot is as it was, and what is
  -- derived is that of these slots.
  pub record IsApplied (k : Completion c o) (cache cache' : DaemonCache c o) : Type 0 where
    pub before : SlotRuntimeState c
    pub after : SlotRuntimeState c
    pub had : get k.slot cache.runtime_providers ≡ some before
    pub has : get k.slot cache'.runtime_providers ≡ some after
    pub settled :
        IsSettled c o.boot
          (same_collection_evidence c o cache.snapshot k.observed_snapshot)
          k.wall
          k.completed_at
          k.outcome
          before
          after
    pub others :
        (t : ProviderSlot)
        → t ≢ k.slot
        → get t cache'.runtime_providers ≡ get t cache.runtime_providers
    pub published : republish c o (with_slots c o cache'.runtime_providers cache) ≡ some cache'
    pub snapshot : clear_revision cache'.snapshot ≡ clear_revision cache.snapshot
    pub binding : cache'.compose_runtime_binding ≡ cache.compose_runtime_binding
    pub source : (cache'.mode ≡ cache.mode) × (cache'.source_generation ≡ cache.source_generation)
    pub history : cache'.observed_history ≡ cache.observed_history
