-- ===== src/History/Invariant.antt =====
-- What the observed history keeps to, from one observation to the next.
use docker_map.Common.{
  ℕ, ◌+◌, ◌-◌, ◌≤◌, ◌≡◌, refl, ap, ◌∙◌, false, List, [], ◌∷◌, ◌++◌, none, some, arith, length,
  length-append, drop, length-drop, All, All-append, Text, inl, inr, Bool-cases, Option-cases,
  subst,
}
use docker_map.Common.Decimal.{max_u64}
use docker_map.Models.{DockerSnapshot, ObservedChangeEvent}
use docker_map.History.{
  ObservedHistoryCache, new, max_observed_change_events, max_safe_js_integer, is_untimely,
  observe_published_snapshot,
}
use docker_map.History.Inventory.{ObservedContainerInventory, observed_container_inventory}
use docker_map.History.Changes.{Change, changes, numbered, latest, length-latest, length-numbered}
use docker_map.History.Pushes.{observe_published_snapshot-changes}
use docker_map.History.Numbering.{
  ids, ids_of, IsChronological, IsBy, ids_at, ids-drop, ids-append, ids_of-drop, ids_of-append,
  ids_of-numbered, All-drop, drop-IsChronological, numbered_at, numbered-IsChronological,
  append-IsChronological,
}

-- At most 64 events, in order of time, none later than the last observation, with the last
-- consecutive sequence numbers; and none without a baseline.
pub record IsHistory (h : ObservedHistoryCache) : Type 0 where
  pub few : length h.events ≤ max_observed_change_events
  pub counted : (length h.events ≤ h.next_sequence) × (h.next_sequence ≤ max_u64)
  pub consecutive :
      ids_of h.events ≡ ids h.boot (h.next_sequence - length h.events) (length h.events)
  pub chronological : IsChronological h.events
  pub by : IsBy h.last_observed_at_ms h.events
  pub based : h.baseline ≡ none → h.events ≡ []

-- No clock that is timely runs backwards.
by_now :
    (h : ObservedHistoryCache) (now : ℕ)
    → is_untimely h now ≡ false
    → IsBy h.last_observed_at_ms h.events
    → All (λ x. x.observed_at_ms ≤ now) h.events × (now ≤ max_safe_js_integer)
by_now h now timely b = elim (Option-cases h.last_observed_at_ms) [
  | inl e ↦
      let none_yet : h.events ≡ [] = subst (λ o. IsBy o h.events) e b in
      (rw none_yet tt, ground arith)
  | inr (t, e) ↦
      let (old, safe) : IsBy (some t) h.events = subst (λ o. IsBy o h.events) e b in
      (up t h.events old (ground arith), ground arith)
]
  where
    up :
        (t : ℕ) (es : List ObservedChangeEvent)
        → All (λ x. x.observed_at_ms ≤ t) es
        → t ≤ now
        → All (λ x. x.observed_at_ms ≤ now) es
    up t [] w l = tt
    up t (e ∷ es) w l = (omega (arith, w.0), up t es w.1 l)

abbrev step :
    DockerSnapshot
    → ObservedContainerInventory
    → List Change
    → ObservedHistoryCache
    → ObservedHistoryCache
step snapshot current cs h = record {
  boot = h.boot;
  next_sequence = h.next_sequence + length cs;
  last_observed_at_ms = some snapshot.last_updated;
  baseline = some current;
  events = latest (h.events ++ numbered h.boot snapshot.last_updated h.next_sequence cs);
}

consecutive_step :
    (h : ObservedHistoryCache) (now : ℕ) (cs : List Change)
    → length h.events ≤ h.next_sequence
    → ids_of h.events ≡ ids h.boot (h.next_sequence - length h.events) (length h.events)
    → let es = h.events ++ numbered h.boot now h.next_sequence cs in
      ids_of (latest es)
      ≡ ids h.boot (h.next_sequence + length cs - length (latest es)) (length (latest es))
consecutive_step h now cs counted consecutive =
    let fs = numbered h.boot now h.next_sequence cs in
    let es = h.events ++ fs in
    let k = length es - max_observed_change_events in
    let l : length es ≡ length h.events + length cs =
      omega (arith, length-append h.events fs, length-numbered h.boot now h.next_sequence cs) in
    let whole : ids_of es
        ≡ ids h.boot (h.next_sequence - length h.events) (length h.events + length cs) =
      ids_of-append h.events fs
      ∙ ap (λ a. a ++ ids_of fs) consecutive
      ∙ ap (◌++◌ (ids h.boot (h.next_sequence - length h.events) (length h.events)))
          (ids_of-numbered h.boot now h.next_sequence cs ∙ ids_at h.boot (omega arith) refl)
      ∙ ids-append h.boot (h.next_sequence - length h.events) (length h.events) (length cs) in
    ids_of-drop k es
    ∙ ap (drop k) whole
    ∙ ids-drop h.boot k (h.next_sequence - length h.events) (length h.events + length cs)
    ∙ ids_at h.boot (omega (arith, length-drop k es, l)) (omega (arith, length-drop k es, l))

step-IsHistory :
    (snapshot : DockerSnapshot) (current : ObservedContainerInventory) (cs : List Change)
    (h : ObservedHistoryCache)
    → is_untimely h snapshot.last_updated ≡ false
    → h.next_sequence + length cs ≤ max_u64
    → IsHistory h
    → IsHistory (step snapshot current cs h)
step-IsHistory snapshot current cs h timely room w =
    let now = snapshot.last_updated in
    let fs = numbered h.boot now h.next_sequence cs in
    let es = h.events ++ fs in
    let k = length es - max_observed_change_events in
    let (old, safe) = by_now h now timely w.by in
    record {
      few = length-latest es;
      counted = (
        omega (
          arith,
          length-drop k es,
          length-append h.events fs,
          length-numbered h.boot now h.next_sequence cs,
          w.counted.0,
        ),
        room,
      );
      consecutive = consecutive_step h now cs w.counted.0 w.consecutive;
      chronological = drop-IsChronological k es (
          append-IsChronological now h.events fs w.chronological
            (numbered-IsChronological h.boot now h.next_sequence cs) old
            (numbered_at (λ t. now ≤ t) h.boot now h.next_sequence cs (omega arith)));
      by = (
        All-drop (λ x. x.observed_at_ms ≤ now) k es
            (All-append (λ x. x.observed_at_ms ≤ now) h.events fs old
              (numbered_at (λ t. t ≤ now) h.boot now h.next_sequence cs (omega arith))),
        safe,
      );
      based = λ e. absurd (cc e);
    }

-- A history begins within its bounds.
pub new-IsHistory : (boot : Text) → IsHistory (new boot)
unfolding new
new-IsHistory boot = record {
  few = omega arith;
  counted = (omega arith, omega arith);
  consecutive = refl;
  chronological = tt;
  by = refl;
  based = λ e. refl;
}

abbrev rebaselined : Text → ObservedContainerInventory → ObservedHistoryCache
rebaselined fresh_boot current = record {
  boot = fresh_boot;
  next_sequence = 0;
  last_observed_at_ms = none;
  baseline = some current;
  events = [];
}

abbrev established : ℕ → ObservedContainerInventory → ObservedHistoryCache → ObservedHistoryCache
established now current h = record {
  boot = h.boot;
  next_sequence = h.next_sequence;
  last_observed_at_ms = some now;
  baseline = some current;
  events = h.events;
}

rebaselined-IsHistory :
    (fresh_boot : Text) (current : ObservedContainerInventory)
    → IsHistory (rebaselined fresh_boot current)
rebaselined-IsHistory fresh_boot current = record {
  few = omega arith;
  counted = (omega arith, omega arith);
  consecutive = refl;
  chronological = tt;
  by = refl;
  based = λ e. absurd (cc e);
}

established-IsHistory :
    (now : ℕ) (current : ObservedContainerInventory) (h : ObservedHistoryCache)
    → is_untimely h now ≡ false
    → IsHistory h
    → IsHistory (established now current h)
established-IsHistory now current h timely w = record {
  few = w.few;
  counted = w.counted;
  consecutive = w.consecutive;
  chronological = w.chronological;
  by = by_now h now timely w.by;
  based = λ e. absurd (cc e);
}

-- Observing a snapshot does not fail while the sequence number has room for the changes, and keeps
-- the history within its bounds, whatever the clock says: at most 64 events, in order of time, none
-- later than the last observation, under consecutive sequence numbers.
pub observe_published_snapshot-IsHistory :
    (sha256 : Text → List ℕ) (fresh_boot : Text) (snapshot : DockerSnapshot)
    (h : ObservedHistoryCache)
    → ((previous : ObservedContainerInventory)
        → h.baseline ≡ some previous
        → h.next_sequence + length (changes previous (observed_container_inventory sha256 snapshot))
          ≤ max_u64)
    → IsHistory h
    → (h' : ObservedHistoryCache) × (observe_published_snapshot sha256 fresh_boot snapshot h
        ≡ some h')
      × IsHistory h'
observe_published_snapshot-IsHistory sha256 fresh_boot snapshot h room w =
    let current = observed_container_inventory sha256 snapshot in
    elim (Bool-cases (is_untimely h snapshot.last_updated)) [
      | inl untimely ↦ (
        rebaselined fresh_boot current,
        unfold observe_published_snapshot in rw untimely refl,
        rebaselined-IsHistory fresh_boot current,
      )
      | inr timely ↦ elim (Option-cases h.baseline) [
        | inl e ↦ (
          established snapshot.last_updated current h,
          unfold observe_published_snapshot in rw (timely, e) refl,
          established-IsHistory snapshot.last_updated current h timely w,
        )
        | inr (previous, e) ↦ (
          step snapshot current (changes previous current) h,
          observe_published_snapshot-changes sha256 fresh_boot snapshot h previous timely e w.few
              (room previous e),
          step-IsHistory snapshot current (changes previous current) h timely (room previous e) w,
        )
      ]
    ]
