-- ===== src/Slots/Tests.antt =====
-- Runs of the provider slots, with collections that are a text and report one state.
use docker_map.Common.{
  ℕ, ◌-◌, ◌≡◌, refl, true, List, [], ◌∷◌, map, Option, none, some, max, All, Text, codes,
}
use docker_map.Models.{DockerSnapshot, mock}
use docker_map.Slots.Slot.{
  ProviderSlot, network_infrastructure, host_scoped, tmux, static_provider_slots, slot_Ord,
}
use docker_map.Common.Maps.{get, insert}
use docker_map.Slots.{
  Collections, ProviderState, fresh, SlotRuntimeState, in_progress, Slots, collected,
  retained_collection, unavailable_provider_slots, no_freshness,
}
use docker_map.Slots.Claim.{
  occupied, is_due, is_disabled, claim_from, claim_due_slots_with_active_workers,
}
use docker_map.Slots.Settle.{settle}
use docker_map.Slots.States.{provider_states_for}
use docker_map.Slots.Ready.{IsFairClaim, working, claim_due_slots_with_active_workers-IsFairClaim}
use docker_map.Slots.Settling.{settle-IsSettled}
use docker_map.Slots.Settled.{IsSettled}
use docker_map.Slots.Truth.{IsTruthful, provider_states_for_lem}
use docker_map.Slots.Run.{unavailable-IsSound}
use docker_map.Slots.Cache.{
  Outside, DaemonCache, mock_cache, Completion, claim_due_provider_slots,
  assign_docker_observation_revision, assign_revision, rebuild_runtime_map, republish,
}
use docker_map.Slots.Coherent.{IsCoherent}
use docker_map.History.{new}
use docker_map.Slots.Reach.{claims, Reaches, here, next, Reaches-IsCoherent}

abbrev texts : Collections
texts = record {
  Collection = Text;
  states = λ t.
      record {
        slot = tmux;
        state = fresh;
        last_attempt_ms = none;
        last_success_ms = none;
        last_duration_ms = none;
        consecutive_failure_count = 0;
        data_revision = none;
        status_reason = none;
      }
      ∷ [];
  sanitized_for_retention = λ t. t;
  sanitized_observable_identity = λ t. t;
}

-- Each publication writes one text as the revision, and derives nothing else.
abbrev outside : Outside texts
outside = record {
  Health = Text;
  Topology = Text;
  Findings = Text;
  Binding = Text;
  DockerRevision = Text;
  IntegrityRevision = Text;
  PublicationRevision = Text;
  observe = λ s m r. some r;
  combine = λ s m slots r i. some (r, i);
  assign = λ s h t r. some (codes "r", (h, (t, r)));
  find = λ t m b r. some t;
  snapshot_eq = λ a b. true;
  publish_docker_snapshot = λ s. s;
  sha256 = λ t. t;
  boot = codes "boot";
}

abbrev wall : ProviderSlot → Option ℕ
wall s = some 7

abbrev start : Slots texts
start = unavailable_provider_slots texts

claim_due_slots_with_active_workers-IsFairClaim_example :
    (slots' : Slots texts) × (claimed : List ProviderSlot) × (claim_due_slots_with_active_workers
        texts start 0 2 1 wall
      ≡ some (slots', claimed))
    × IsFairClaim texts 0 wall (2 - max (working texts start) 1) start slots' claimed
claim_due_slots_with_active_workers-IsFairClaim_example =
    claim_due_slots_with_active_workers-IsFairClaim texts start 0 2 1 wall
      (unavailable-IsSound texts).sorted (unavailable-IsSound texts).fixed

-- Two slots are claimed at the start.
first_claim :
    elim (claim_due_slots_with_active_workers texts start 0 2 0 wall) [ none ↦ [] | some p ↦ p.1 ]
    ≡ network_infrastructure ∷ host_scoped ∷ []
unfolding claim_due_slots_with_active_workers claim_from occupied is_due is_disabled get insert
    unavailable_provider_slots retained_collection
first_claim = refl

abbrev tried : SlotRuntimeState texts
tried = record {
  observation = in_progress (some (codes "a"));
  completed_at = none;
  freshness = no_freshness;
}

settle-IsSettled_example :
    (s' : SlotRuntimeState texts) × (settle texts
        (codes "boot")
        true
        (some 9)
        5
        (collected (codes "b"))
        tried
      ≡ some s')
    × IsSettled texts (codes "boot") true (some 9) 5 (collected (codes "b")) tried s'
settle-IsSettled_example =
    settle-IsSettled texts (codes "boot") true (some 9) 5 (collected (codes "b")) tried
      (λ r e. absurd (cc e))

provider_states_for_lem_example :
    (states : List ProviderState) × (provider_states_for texts start ≡ some states)
    × (map (λ state. state.slot) states ≡ static_provider_slots)
    × All (IsTruthful texts start) states
provider_states_for_lem_example =
    provider_states_for_lem texts start (unavailable-IsSound texts).fixed

abbrev fixture : DockerSnapshot
fixture = record {
  containers = [];
  images = [];
  networks = [];
  volumes = [];
  last_updated = 1;
  model_revision = [];
  source = none;
}

abbrev built : DaemonCache texts outside
built = record {
  snapshot = fixture;
  mode = mock;
  health = [];
  runtime_map = [];
  findings = [];
  compose_runtime_binding = none;
  runtime_providers = start;
  source_generation = 0;
  docker_observation_revision = [];
  integrity_observation_revision = [];
  revision = [];
  observed_history = new (codes "b");
}

abbrev cache : DaemonCache texts outside
cache = record built { snapshot = record fixture { model_revision = codes "r" } }

starts : mock_cache texts outside built (codes "b") ≡ some cache
unfolding mock_cache assign_docker_observation_revision assign_revision
starts = refl

-- The claims of the start, published.
abbrev claimed_slots : Option (Slots texts × List ProviderSlot)
claimed_slots = claim_due_slots_with_active_workers texts start 0 2 0 wall

abbrev later : DaemonCache texts outside
later = record cache { runtime_providers = elim claimed_slots [ none ↦ [] | some p ↦ p.0 ] }

later_reached : Reaches texts outside cache later
unfolding claim_due_provider_slots claim_due_slots_with_active_workers claim_from occupied is_due
    is_disabled get insert unavailable_provider_slots retained_collection republish
    rebuild_runtime_map assign_revision
later_reached = next here (claims 0 0 wall (network_infrastructure ∷ host_scoped ∷ []) refl)

Reaches-IsCoherent_example : IsCoherent texts outside later
Reaches-IsCoherent_example =
    Reaches-IsCoherent texts outside built cache (codes "b") starts later later_reached

abbrev done : Completion texts outside
done = record {
  slot = tmux;
  observed_snapshot = fixture;
  observed_mode = mock;
  observed_generation = 0;
  outcome = collected (codes "b");
  completed_at = 5;
  wall = some 9;
}
