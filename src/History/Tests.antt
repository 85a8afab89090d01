-- ===== src/History/Tests.antt =====
-- Runs of the observed history on small inputs. The digest is a stand-in that keeps texts apart.
use mathlib.Core.List.{reverse}
use docker_map.Common.{
  ◌↔◌, ℕ, ◌+◌, ◌≤◌, ◌≡◌, ◌≢◌, refl, true, false, List, [], ◌∷◌, ◌++◌, none, some, arith, length,
  is_some, Text, codes, text_eq, text_lt, trim, trim_start, is_whitespace, to_ascii_lowercase,
  contains, starts_with,
}
use docker_map.Common.Decimal.{max_u64}
use docker_map.Common.Maps.{get, insert, contains_key, text_Ord}
use docker_map.Models.{ContainerRecord, DockerSnapshot, docker}
use docker_map.History.{
  ObservedHistoryCache, max_observed_change_events, observe_published_snapshot, response,
}
use docker_map.History.Inventory.{
  observed_status_class, divide, candidates, observed_container_identity,
  observed_container_inventory,
}
use docker_map.History.Inventory.Groups.{only, several, named, observed_container_inventory_lem}
use docker_map.History.Changes.{changes, numbered, latest}
use docker_map.History.Pushes.{observe_published_snapshot-changes}
use docker_map.History.Replay.{replay_events, replay-observe_published_snapshot}
use docker_map.History.Invariant.{IsHistory, observe_published_snapshot-IsHistory}
use docker_map.History.Response.{IsNewestFirst, response_lem}

abbrev sha256 : Text → List ℕ
sha256 s = s

abbrev container : Text → Text → ContainerRecord
container id status = record {
  id = id;
  name = id;
  image = codes "nginx";
  status = status;
  role = codes "web";
  networks = [];
  ports = [];
  publishes_on_unspecified_address = false;
  mounts = [];
  depends_on = [];
}

abbrev snapshot : ℕ → List ContainerRecord → DockerSnapshot
snapshot at containers = record {
  containers = containers;
  images = [];
  networks = [];
  volumes = [];
  last_updated = at;
  model_revision = [];
  source = none;
}

abbrev first : DockerSnapshot
first =
    snapshot 10 (
      container (codes "a") (codes "Up 2 minutes")
      ∷ container (codes "b") (codes "Exited (0)")
      ∷ [])

abbrev second : DockerSnapshot
second =
    snapshot 20
      (container (codes "b") (codes "running") ∷ container (codes "c") (codes "Up 1 second") ∷ [])

abbrev start : ObservedHistoryCache
start = record {
  boot = codes "boot";
  next_sequence = 0;
  last_observed_at_ms = some 10;
  baseline = some (observed_container_inventory sha256 first);
  events = [];
}

start-IsHistory : IsHistory start
start-IsHistory = record {
  few = omega arith;
  counted = (omega arith, omega arith);
  consecutive = refl;
  chronological = tt;
  by = (tt, omega arith);
  based = λ e. refl;
}

-- `a` disappears, `b` runs, and `c` appears.
three_changes :
    length (
      changes
        (observed_container_inventory sha256 first)
        (observed_container_inventory sha256 second))
    ≡ 3
unfolding observed_container_inventory candidates divide observed_container_identity
    observed_status_class trim trim_start is_whitespace to_ascii_lowercase contains starts_with
    text_eq text_lt get insert
three_changes = refl

status_sample :
    observed_status_class (codes " Up 12 seconds (Paused)")
    ≡ observed_status_class (codes "created")
unfolding observed_status_class trim trim_start is_whitespace to_ascii_lowercase contains
    starts_with text_eq
status_sample = refl

observed_container_inventory_lem_example :
    let id = codes "docker_container_61" in
    (get id (observed_container_inventory sha256 first).containers
      ≡ only (named sha256 id first.containers))
    × (is_some (get id (observed_container_inventory sha256 first).ambiguous_ids)
        ≡ several (named sha256 id first.containers))
observed_container_inventory_lem_example =
    observed_container_inventory_lem sha256 first (codes "docker_container_61")

room :
    0
      + length (
          changes
            (observed_container_inventory sha256 first)
            (observed_container_inventory sha256 second))
    ≤ max_u64
room = omega (arith, three_changes)

observe_published_snapshot-changes_example :
    let previous = observed_container_inventory sha256 first in
    let current = observed_container_inventory sha256 second in
    observe_published_snapshot sha256 (codes "fresh") second start
    ≡ some (record {
      boot = codes "boot";
      next_sequence = 0 + length (changes previous current);
      last_observed_at_ms = some 20;
      baseline = some current;
      events = latest ([] ++ numbered (codes "boot") 20 0 (changes previous current));
    })
observe_published_snapshot-changes_example =
    observe_published_snapshot-changes sha256 (codes "fresh") second start
      (observed_container_inventory sha256 first) refl refl (omega arith) room

first_unambiguous :
    contains_key
      (codes "docker_container_61")
      (observed_container_inventory sha256 first).ambiguous_ids
    ≡ false
unfolding observed_container_inventory candidates divide observed_container_identity text_eq text_lt
    get insert
first_unambiguous = refl

second_unambiguous :
    contains_key
      (codes "docker_container_61")
      (observed_container_inventory sha256 second).ambiguous_ids
    ≡ false
unfolding observed_container_inventory candidates divide observed_container_identity text_eq text_lt
    get insert
second_unambiguous = refl

replay-observe_published_snapshot_example :
    (h' : ObservedHistoryCache) × (observe_published_snapshot sha256 (codes "fresh") second start
      ≡ some h')
    × (replay_events h'.events
          (λ x. get x (observed_container_inventory sha256 first).containers)
          (codes "docker_container_61")
        ≡ get (codes "docker_container_61") (observed_container_inventory sha256 second).containers)
replay-observe_published_snapshot_example =
    replay-observe_published_snapshot sha256 (codes "fresh") first second start
      (codes "docker_container_61") refl refl refl (omega (arith, three_changes)) room
      first_unambiguous second_unambiguous

observe_published_snapshot-IsHistory_example :
    (h' : ObservedHistoryCache) × (observe_published_snapshot sha256 (codes "fresh") second start
      ≡ some h')
    × IsHistory h'
observe_published_snapshot-IsHistory_example =
    observe_published_snapshot-IsHistory sha256 (codes "fresh") second start
      (λ previous e.
        let same : observed_container_inventory sha256 first ≡ previous = cc e in rw (← same) room)
      start-IsHistory

response_lem_example :
    let answer = response docker (codes "m") (codes "o") start in
    (answer.source ≡ docker)
    × ((answer.baseline_established ≡ true) ↔ ((docker ≡ docker) × (start.baseline ≢ none)))
    × IsNewestFirst answer.events
    × (length answer.events ≤ max_observed_change_events)
    × (answer.baseline_established ≡ false
        → (answer.events ≡ [])
          × (answer.current_model_revision ≡ none)
          × (answer.observed_revision ≡ none))
    × (answer.baseline_established ≡ true
        → (answer.events ≡ reverse start.events)
          × (answer.current_model_revision ≡ some (codes "m"))
          × (answer.observed_revision ≡ some (codes "o")))
response_lem_example = response_lem docker (codes "m") (codes "o") start start-IsHistory
