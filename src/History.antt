-- ===== src/History.antt =====
-- crates/dockermap-core/src/observed_history.rs and `ObservedHistoryCache` of
-- crates/dockermap-daemon/src/cache_refresh.rs: the changes between the container inventories that
-- the daemon observes one after another. `none` is the panic of a sequence number that overflows.
pub mod Inventory
pub mod Changes
pub mod Pushes
mod Diffs
pub mod Replay
mod Numbering
pub mod Invariant
pub mod Response
mod Tests
use mathlib.Core.List.{reverse}
use docker_map.Common.{
  ℕ, ◌+◌, ◌≡◌, refl, Bool, true, false, not, ◌&&◌, ◌||◌, List, [], ◌∷◌, ◌++◌, Option, none, some,
  ltb, if◌then◌else◌, ◌>>=◌, is_some, is_some_and, length, Text, codes,
}
use docker_map.Common.Decimal.{max_u64, to_string}
use docker_map.Common.Maps.{Map, get, contains_key, text_Ord}
use docker_map.Models.{
  DockerSnapshot, RuntimeMode, docker, mock, ObservedChangeKind, appeared, disappeared,
  status_changed, ObservedContainerStatus, running, stopped, other, ObservedChangeEvent,
  ObservedChangeHistoryResponse,
}
use docker_map.History.Inventory.{ObservedContainerInventory, observed_container_inventory}

abbrev pub max_observed_change_events : ℕ
max_observed_change_events = 64

abbrev pub max_safe_js_integer : ℕ
max_safe_js_integer = 9007199254740991

pub record ObservedHistoryCache : Type 0 where
  pub boot : Text
  pub next_sequence : ℕ
  pub last_observed_at_ms : Option ℕ
  pub baseline : Option ObservedContainerInventory
  pub events : List ObservedChangeEvent

-- `ObservedHistoryCache::new`, with the boot component that the system's random source yields.
unfoldable pub new : Text → ObservedHistoryCache
new boot = record {
  boot = boot;
  next_sequence = 0;
  last_observed_at_ms = none;
  baseline = none;
  events = [];
}

abbrev pub status_eq : ObservedContainerStatus → ObservedContainerStatus → Bool
status_eq running running = true
status_eq stopped stopped = true
status_eq other other = true
status_eq _ _ = false

-- The loop that pops the front while there are too many events.
pub pop_front : List ObservedChangeEvent → List ObservedChangeEvent
pop_front [] = []
pop_front (e ∷ es) =
    if ltb max_observed_change_events (length (e ∷ es)) then pop_front es else e ∷ es

abbrev pub event_id : Text → ℕ → Text
event_id boot sequence = boot ++ codes "-" ++ to_string sequence

pub push :
    ObservedChangeKind
    → ℕ
    → Text
    → Option ObservedContainerStatus
    → Option ObservedContainerStatus
    → ObservedHistoryCache
    → Option ObservedHistoryCache
push kind observed_at_ms container_id previous_status current_status h =
    if ltb max_u64 (h.next_sequence + 1)
    then none
    else some (record {
      boot = h.boot;
      next_sequence = h.next_sequence + 1;
      last_observed_at_ms = h.last_observed_at_ms;
      baseline = h.baseline;
      events = pop_front (
          h.events
          ++ record {
            id = event_id h.boot (h.next_sequence + 1);
            kind = kind;
            observed_at_ms = observed_at_ms;
            container_id = container_id;
            previous_status = previous_status;
            current_status = current_status;
          }
            ∷ []);
    })

-- The loop over the containers of the previous inventory.
pub push_disappeared :
    ObservedContainerInventory
    → ℕ
    → Map Text ObservedContainerStatus
    → ObservedHistoryCache
    → Option ObservedHistoryCache
push_disappeared current now [] h = some h
push_disappeared current now ((id, previous_status) ∷ m) h =
    (if contains_key id current.containers || contains_key id current.ambiguous_ids
      then some h
      else push disappeared now id (some previous_status) none h)
    >>= push_disappeared current now m

-- The loop over the containers of the current inventory.
pub push_current :
    ObservedContainerInventory
    → ℕ
    → Map Text ObservedContainerStatus
    → ObservedHistoryCache
    → Option ObservedHistoryCache
push_current previous now [] h = some h
push_current previous now ((id, current_status) ∷ m) h =
    elim (get id previous.containers) [
      | none ↦
          if not (contains_key id previous.ambiguous_ids)
          then push appeared now id none (some current_status) h
          else some h
      | some previous_status ↦
          if not (status_eq previous_status current_status)
          then push status_changed now id (some previous_status) (some current_status) h
          else some h
    ]
    >>= push_current previous now m

-- A clock that a browser cannot represent, or that runs backwards.
abbrev pub is_untimely : ObservedHistoryCache → ℕ → Bool
is_untimely h now =
    ltb max_safe_js_integer now || is_some_and (λ previous. ltb now previous) h.last_observed_at_ms

-- `observe_published_snapshot`; `fresh_boot` is what the random source yields if it is asked.
module _ (sha256 : Text → List ℕ) where
  unfoldable pub observe_published_snapshot :
      Text → DockerSnapshot → ObservedHistoryCache → Option ObservedHistoryCache
  observe_published_snapshot fresh_boot snapshot h =
      let current = observed_container_inventory sha256 snapshot in
      let now = snapshot.last_updated in
      if is_untimely h now
      then some (record {
        boot = fresh_boot;
        next_sequence = 0;
        last_observed_at_ms = none;
        baseline = some current;
        events = [];
      })
      else (let h' : ObservedHistoryCache = record {
        boot = h.boot;
        next_sequence = h.next_sequence;
        last_observed_at_ms = some now;
        baseline = some current;
        events = h.events;
      } in
          elim h.baseline [
            | none ↦ some h'
            | some previous ↦
                push_disappeared current now previous.containers h'
                >>= push_current previous now current.containers
          ])

abbrev is_docker : RuntimeMode → Bool
is_docker docker = true
is_docker mock = false

pub response : RuntimeMode → Text → Text → ObservedHistoryCache → ObservedChangeHistoryResponse
response source current_model_revision observed_revision h =
    if not (is_docker source) || not (is_some h.baseline)
    then record {
      source = source;
      baseline_established = false;
      current_model_revision = none;
      observed_revision = none;
      events = [];
    }
    else record {
      source = source;
      baseline_established = true;
      current_model_revision = some current_model_revision;
      observed_revision = some observed_revision;
      events = reverse h.events;
    }
