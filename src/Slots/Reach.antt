-- ===== src/Slots/Reach.antt =====
-- The runs of the cache: claims, completions of any age and order, and publications of either source.
use docker_map.Common.{ℕ, ◌≡◌, List, Option, some, Text}
use docker_map.Slots.Slot.{ProviderSlot, slot_Ord}
use docker_map.Slots.{Collections, Slots}
use docker_map.Slots.Cache.{
  Outside, DaemonCache, Completion, mock_cache, claim_due_provider_slots,
  apply_provider_slot_outcome, publish_docker_snapshot_cache,
}
use docker_map.Slots.Coherent.{
  IsCoherent, claims-IsCoherent, completes-IsCoherent, publishes-IsCoherent, mock_cache-IsCoherent,
}

module _ (c : Collections) (o : Outside c) where
  -- One step of the daemon, under the lock of the cache, that does not panic.
  pub data Step (cache cache' : DaemonCache c o) : Type 0 where
    claims :
        (now active_workers : ℕ) (wall : ProviderSlot → Option ℕ) (claimed : List ProviderSlot)
        → claim_due_provider_slots c o now active_workers wall cache ≡ some (cache', claimed)
        → Step cache cache'
    completes :
        (k : Completion c o)
        → apply_provider_slot_outcome c o k cache ≡ some cache'
        → Step cache cache'
    publishes :
        (reset_boot fresh_boot : Text) (updated : DaemonCache c o)
        → publish_docker_snapshot_cache c o reset_boot fresh_boot updated cache ≡ some cache'
        → Step cache cache'

  pub data Reaches (start : DaemonCache c o) : DaemonCache c o → Type 0 where
    here : Reaches start start
    next : {u v : DaemonCache c o} → Reaches start u → Step u v → Reaches start v

  Step-IsCoherent : {u v : DaemonCache c o} → Step u v → IsCoherent c o u → IsCoherent c o v
  Step-IsCoherent {u = u} {v = v} (claims now active_workers wall claimed e) w =
      claims-IsCoherent c o now active_workers wall claimed u v e w
  Step-IsCoherent {u = u} {v = v} (completes k e) w = completes-IsCoherent c o k u v e w
  Step-IsCoherent {u = u} {v = v} (publishes reset_boot fresh_boot updated e) w =
      publishes-IsCoherent c o reset_boot fresh_boot updated u v e w

  -- In every state that the cache reaches from its start, through any claims, completions and
  -- publications in any order, each fixed slot has a state, no more than two are collecting, and with
  -- mock data the history has neither a baseline nor an event.
  pub Reaches-IsCoherent :
      (built start : DaemonCache c o) (boot : Text)
      → mock_cache c o built boot ≡ some start
      → (cache : DaemonCache c o) → Reaches start cache
      → IsCoherent c o cache
  Reaches-IsCoherent built start boot e cache here = mock_cache-IsCoherent c o built start boot e
  Reaches-IsCoherent built start boot e cache (next {u = u} r s) =
      Step-IsCoherent s (Reaches-IsCoherent built start boot e u r)
