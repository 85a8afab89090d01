-- ===== src/History/Replay.antt =====
-- Replaying the events of an observation turns what the first inventory tells into what the second
-- tells.
use docker_map.Common.{
  ℕ, ◌+◌, ◌≤◌, length, ◌≡◌, refl, ap, ◌∙◌, false, List, [], ◌∷◌, ◌++◌, some, arith, if◌then◌else◌,
  Text, text_eq,
}
use docker_map.Common.Maps.{get, contains_key, text_Ord}
use docker_map.Models.{DockerSnapshot, ObservedChangeEvent}
use docker_map.History.{
  ObservedHistoryCache, is_untimely, observe_published_snapshot, max_observed_change_events,
}
use docker_map.History.Pushes.{observe_published_snapshot-changes}
use docker_map.History.Inventory.{observed_container_inventory}
use docker_map.History.Changes.{Change, changes, numbered, latest, latest_few, length-numbered}
use docker_map.Common.Decimal.{max_u64}
use docker_map.History.Diffs.{View, replay, replay-changes}

-- An event tells of its container what a change does.
abbrev pub replay_events : List ObservedChangeEvent → View → View
replay_events [] view id = view id
replay_events (e ∷ es) view id =
    replay_events es (λ x. if text_eq x e.container_id then e.current_status else view x) id

replay_events-numbered :
    (boot : Text) (at n : ℕ) (cs : List Change) (view : View) (id : Text)
    → replay_events (numbered boot at n cs) view id ≡ replay cs view id
unfolding numbered
replay_events-numbered boot at n [] view id = refl
replay_events-numbered boot at n (c ∷ cs) view id = replay_events-numbered boot at (n + 1) cs _ id

-- From an empty history with the inventory of one snapshot as its baseline, a second snapshot with a
-- timely clock leaves events that, replayed on what the first inventory tells, yield what the second
-- tells, of every identity that no two containers of either snapshot have. There must be no more
-- than 64 changes, and room for them in the sequence number.
pub replay-observe_published_snapshot :
    (sha256 : Text → List ℕ) (fresh_boot : Text) (before now : DockerSnapshot)
    (h : ObservedHistoryCache) (id : Text)
    → is_untimely h now.last_updated ≡ false
    → h.baseline ≡ some (observed_container_inventory sha256 before)
    → h.events ≡ []
    → length (
        changes
          (observed_container_inventory sha256 before)
          (observed_container_inventory sha256 now))
      ≤ max_observed_change_events
    → h.next_sequence
        + length (
            changes
              (observed_container_inventory sha256 before)
              (observed_container_inventory sha256 now))
      ≤ max_u64
    → contains_key id (observed_container_inventory sha256 before).ambiguous_ids ≡ false
    → contains_key id (observed_container_inventory sha256 now).ambiguous_ids ≡ false
    → (h' : ObservedHistoryCache) × (observe_published_snapshot sha256 fresh_boot now h ≡ some h')
      × (replay_events h'.events
            (λ x. get x (observed_container_inventory sha256 before).containers)
            id
          ≡ get id (observed_container_inventory sha256 now).containers)
replay-observe_published_snapshot sha256 fresh_boot before now h id timely base empty few room once
      once' =
    let previous = observed_container_inventory sha256 before in
    let current = observed_container_inventory sha256 now in
    let cs = changes previous current in
    let es = numbered h.boot now.last_updated h.next_sequence cs in
    let view : View = λ x. get x previous.containers in
    let kept : latest (h.events ++ es) ≡ es =
      ap (λ old. latest (old ++ es)) empty
      ∙ latest_few es (omega (arith, length-numbered h.boot now.last_updated h.next_sequence cs)) in
    (
      record {
        boot = h.boot;
        next_sequence = h.next_sequence + length cs;
        last_observed_at_ms = some now.last_updated;
        baseline = some current;
        events = latest (h.events ++ es);
      },
      observe_published_snapshot-changes sha256 fresh_boot now h previous timely base
          (rw empty (omega arith)) room,
      ap (λ l. replay_events l view id) kept
          ∙ replay_events-numbered h.boot now.last_updated h.next_sequence cs view id
          ∙ replay-changes sha256 before now id once once',
    )
