-- ===== src/History/Pushes.antt =====
-- The loops of `observe_published_snapshot` append the changes, one event each.
use docker_map.Common.{
  ℕ, ◌+◌, ◌≤◌, ◌≡◌, sym, ap, ◌∙◌, Bool, true, false, not, ◌&&◌, ◌||◌, List, [], ◌∷◌, ◌++◌, Option,
  none, some, arith, if◌then◌else◌, ◌>>=◌, is_some, length, length-append, Text,
}
use docker_map.Common.Decimal.{max_u64}
use docker_map.Common.Maps.{Map, get, contains_key, text_Ord}
use docker_map.Models.{
  DockerSnapshot, appeared, disappeared, status_changed, ObservedContainerStatus,
}
use docker_map.History.{
  ObservedHistoryCache, max_observed_change_events, status_eq, push, push_disappeared, push_current,
  is_untimely, observe_published_snapshot,
}
use docker_map.History.Inventory.{ObservedContainerInventory, observed_container_inventory}
use docker_map.History.Changes.{
  Change, change, losses, gains, differs, changes, kind_of, numbered, latest, length-latest,
  appended, appended_none, appended-append, push-appended,
}

module _ (now : ℕ) where
  abbrev Appends : (ObservedHistoryCache → Option ObservedHistoryCache) → List Change → Type 0
  Appends step cs =
      (h : ObservedHistoryCache)
      → length h.events ≤ 64
      → h.next_sequence + length cs ≤ max_u64
      → step h ≡ some (appended now cs h)

  -- Two steps that append their changes append them one after the other.
  chain-Appends :
      (f g : ObservedHistoryCache → Option ObservedHistoryCache) (cs ds : List Change)
      → Appends f cs
      → Appends g ds
      → Appends (λ h. f h >>= g) (cs ++ ds)
  chain-Appends f g cs ds first second h few room =
      let l = length-append cs ds in
      ap (λ o. o >>= g) (first h few (omega arith))
      ∙ second (appended now cs h)
          (length-latest (h.events ++ numbered h.boot now h.next_sequence cs)) (omega arith)
      ∙ ap some (appended-append now cs ds h)

  stays : Appends some []
  stays h few room = ap some (sym (appended_none now h few))

  unless_pushes :
      (b : Bool) (c : Change)
      → Appends
          (λ h. if b then some h else push (kind_of c) now c.container_id c.before c.now h)
          (if b then [] else c ∷ [])
  unless_pushes true c = stays
  unless_pushes false c = λ h few room. push-appended now c h (omega arith)

  push_disappeared-losses :
      (current : ObservedContainerInventory) (m : Map Text ObservedContainerStatus)
      → Appends (push_disappeared current now m) (losses current m)
  unfolding push_disappeared
  push_disappeared-losses current [] = stays
  push_disappeared-losses current ((id, s) ∷ m) =
      let b = contains_key id current.containers || contains_key id current.ambiguous_ids in
      chain-Appends (λ h. if b then some h else push disappeared now id (some s) none h)
        (push_disappeared current now m) (if b then [] else change id (some s) none ∷ [])
        (losses current m) (unless_pushes b (change id (some s) none))
        (push_disappeared-losses current m)

  abbrev gain_step :
      Option ObservedContainerStatus
      → Bool
      → Text
      → ObservedContainerStatus
      → ObservedHistoryCache
      → Option ObservedHistoryCache
  gain_step before ambiguous id s h = elim before [
    | none ↦ if not ambiguous then push appeared now id none (some s) h else some h
    | some p ↦
        if not (status_eq p s) then push status_changed now id (some p) (some s) h else some h
  ]

  gain_step-gain :
      (before : Option ObservedContainerStatus) (ambiguous : Bool) (id : Text)
      (s : ObservedContainerStatus)
      → Appends (gain_step before ambiguous id s) (
          if (is_some before || not ambiguous) && differs before s
          then change id before (some s) ∷ []
          else [])
  gain_step-gain none true id s = stays
  gain_step-gain none false id s =
      λ h few room. push-appended now (change id none (some s)) h (omega arith)
  gain_step-gain (some p) ambiguous id s = go (status_eq p s)
    where
      go :
          (b : Bool)
          → Appends
              (λ h. if not b then push status_changed now id (some p) (some s) h else some h)
              (if not b then change id (some p) (some s) ∷ [] else [])
      go true = stays
      go false = λ h few room. push-appended now (change id (some p) (some s)) h (omega arith)

  push_current-gains :
      (previous : ObservedContainerInventory) (m : Map Text ObservedContainerStatus)
      → Appends (push_current previous now m) (gains previous m)
  unfolding push_current
  push_current-gains previous [] = stays
  push_current-gains previous ((id, s) ∷ m) =
      let before = get id previous.containers in
      let ambiguous = contains_key id previous.ambiguous_ids in
      chain-Appends (gain_step before ambiguous id s) (push_current previous now m)
        (if (is_some before || not ambiguous) && differs before s
          then change id before (some s) ∷ []
          else [])
        (gains previous m) (gain_step-gain before ambiguous id s) (push_current-gains previous m)

  pub pushes-changes :
      (previous current : ObservedContainerInventory)
      → Appends
          (λ h.
            push_disappeared current now previous.containers h
            >>= push_current previous now current.containers)
          (changes previous current)
  pushes-changes previous current =
      chain-Appends (push_disappeared current now previous.containers)
        (push_current previous now current.containers) (losses current previous.containers)
        (gains previous current.containers) (push_disappeared-losses current previous.containers)
        (push_current-gains previous current.containers)

-- A snapshot with a timely clock, behind a baseline, appends one event for each change between the
-- two inventories, numbered on from the last, and becomes the baseline; only the last 64 events are
-- kept. This holds while the sequence number has room and no more than 64 events were kept before.
pub observe_published_snapshot-changes :
    (sha256 : Text → List ℕ) (fresh_boot : Text) (snapshot : DockerSnapshot)
    (h : ObservedHistoryCache) (previous : ObservedContainerInventory)
    → is_untimely h snapshot.last_updated ≡ false
    → h.baseline ≡ some previous
    → length h.events ≤ max_observed_change_events
    → h.next_sequence + length (changes previous (observed_container_inventory sha256 snapshot))
      ≤ max_u64
    → let current = observed_container_inventory sha256 snapshot in
      observe_published_snapshot sha256 fresh_boot snapshot h
      ≡ some (record {
        boot = h.boot;
        next_sequence = h.next_sequence + length (changes previous current);
        last_observed_at_ms = some snapshot.last_updated;
        baseline = some current;
        events = latest (
            h.events
            ++ numbered h.boot snapshot.last_updated h.next_sequence (changes previous current));
      })
unfolding observe_published_snapshot
observe_published_snapshot-changes sha256 fresh_boot snapshot h previous timely base few room =
    rw (timely, base)
      (pushes-changes snapshot.last_updated previous (observed_container_inventory sha256 snapshot)
        _ few room)
