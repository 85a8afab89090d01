-- ===== src/Slots/Cache.antt =====
-- `DaemonCache` and the operations on it. The runtime map, the health report, the findings and the
-- revisions are derived at each publication, by functions that are parameters here.
use docker_map.Common.{
  ℕ, ◌+◌, Bool, true, false, not, ◌&&◌, ◌||◌, List, [], Option, none, some, ◌∷◌, ltb, ◌==◌,
  if◌then◌else◌, ◌>>=◌, Text,
}
use docker_map.Common.Decimal.{max_u64}
use docker_map.Common.Maps.{get, insert}
use docker_map.Models.{DockerSnapshot, RuntimeMode, docker, mock}
use docker_map.History.{ObservedHistoryCache, new, observe_published_snapshot}
use docker_map.Slots.Slot.{ProviderSlot, slot_Ord}
use docker_map.Slots.{
  max_concurrent_provider_slots, Collections, ProviderCollectionOutcome, Slots,
  unavailable_provider_slots, source_reset_provider_slots,
}
use docker_map.Slots.Claim.{claim_due_slots_with_active_workers}
use docker_map.Slots.Settle.{settle, mark_network_observation_stale}

abbrev pub mode_eq : RuntimeMode → RuntimeMode → Bool
mode_eq docker docker = true
mode_eq mock mock = true
mode_eq _ _ = false

-- What the cache takes from other parts: the comparison of two snapshots, the publication of one, the
-- digest, and the boot component of the process; and what is derived at each publication, with the
-- types of its values. The derivations yield nothing where they panic.
pub record Outside (c : Collections) : Type 1 where
  pub snapshot_eq : DockerSnapshot → DockerSnapshot → Bool
  pub publish_docker_snapshot : DockerSnapshot → DockerSnapshot
  pub sha256 : Text → List ℕ
  pub boot : Text
  pub Health : Type 0
  pub Topology : Type 0
  pub Findings : Type 0
  pub Binding : Type 0
  pub DockerRevision : Type 0
  pub IntegrityRevision : Type 0
  pub PublicationRevision : Type 0
  -- `DockerObservationRevision::assign`.
  pub observe : DockerSnapshot → RuntimeMode → DockerRevision → Option DockerRevision
  -- `runtime_map_for_snapshot` and `apply_runtime_identity_collision_fact`.
  pub combine :
      DockerSnapshot
      → RuntimeMode
      → Slots c
      → DockerRevision
      → IntegrityRevision
      → Option (Topology × IntegrityRevision)
  -- `PublicationRevision::assign`, with the text of the revision that it yields.
  pub assign :
      DockerSnapshot
      → Health
      → Topology
      → PublicationRevision
      → Option (Text × (Health × (Topology × PublicationRevision)))
  -- The findings of the map and, with Docker, of the bound mounts.
  pub find : Topology → RuntimeMode → Option Binding → DockerRevision → Option Findings

abbrev pub clear_revision : DockerSnapshot → DockerSnapshot
clear_revision s = record {
  containers = s.containers;
  images = s.images;
  networks = s.networks;
  volumes = s.volumes;
  last_updated = s.last_updated;
  model_revision = [];
  source = s.source;
}

abbrev pub with_time : ℕ → DockerSnapshot → DockerSnapshot
with_time at s = record s { last_updated = at }

abbrev pub with_revision : Text → DockerSnapshot → DockerSnapshot
with_revision token s = record s { model_revision = token }

module _ (c : Collections) (o : Outside c) where
  pub record DaemonCache : Type 0 where
    pub snapshot : DockerSnapshot
    pub mode : RuntimeMode
    pub health : o.Health
    pub runtime_map : o.Topology
    pub findings : o.Findings
    pub compose_runtime_binding : Option o.Binding
    pub runtime_providers : Slots c
    pub source_generation : ℕ
    pub docker_observation_revision : o.DockerRevision
    pub integrity_observation_revision : o.IntegrityRevision
    pub revision : o.PublicationRevision
    pub observed_history : ObservedHistoryCache

  abbrev pub with_slots : Slots c → DaemonCache → DaemonCache
  with_slots slots cache = record cache { runtime_providers = slots }

  unfoldable pub assign_docker_observation_revision : DaemonCache → Option DaemonCache
  assign_docker_observation_revision cache = do
    revision ← o.observe cache.snapshot cache.mode cache.docker_observation_revision
    some (record cache { docker_observation_revision = revision })

  unfoldable pub rebuild_runtime_map : DaemonCache → Option DaemonCache
  rebuild_runtime_map cache = do
    revision ← o.observe cache.snapshot cache.mode cache.docker_observation_revision
    (runtime_map, integrity) ←
        o.combine cache.snapshot cache.mode cache.runtime_providers revision
          cache.integrity_observation_revision
    some (record cache {
      runtime_map = runtime_map;
      docker_observation_revision = revision;
      integrity_observation_revision = integrity;
    })

  unfoldable pub assign_revision : DaemonCache → Option DaemonCache
  assign_revision cache = do
    (token, (health, (runtime_map, revision))) ←
        o.assign cache.snapshot cache.health cache.runtime_map cache.revision
    findings ←
        o.find runtime_map cache.mode cache.compose_runtime_binding
          cache.docker_observation_revision
    some (record cache {
      snapshot = with_revision token cache.snapshot;
      health = health;
      runtime_map = runtime_map;
      findings = findings;
      revision = revision;
    })

  -- The two calls with which each change of the slots ends.
  unfoldable pub republish : DaemonCache → Option DaemonCache
  republish cache = do rebuilt ← rebuild_runtime_map cache; assign_revision rebuilt

  -- `DaemonCache::mock`: `built` is the cache of the fixture as it is first built, from which this
  -- takes the values that are only derived.
  unfoldable pub mock_cache : DaemonCache → Text → Option DaemonCache
  mock_cache built fresh_boot = do
    observed ← assign_docker_observation_revision (record built {
      mode = mock;
      runtime_providers = unavailable_provider_slots c;
      source_generation = 0;
      observed_history = new fresh_boot;
    })
    assign_revision observed

  unfoldable pub same_collection_evidence : DockerSnapshot → DockerSnapshot → Bool
  same_collection_evidence left right =
      o.snapshot_eq (clear_revision (o.publish_docker_snapshot left))
        (clear_revision (o.publish_docker_snapshot right))

  unfoldable pub claim_due_provider_slots :
      ℕ → ℕ → (ProviderSlot → Option ℕ) → DaemonCache → Option (DaemonCache × List ProviderSlot)
  claim_due_provider_slots now active_workers wall cache = do
    (slots, claimed) ←
        claim_due_slots_with_active_workers c cache.runtime_providers now
          max_concurrent_provider_slots active_workers wall
    cache' ← elim claimed [
      | [] ↦ some (with_slots slots cache)
      | (_ ∷ _) ↦ republish (with_slots slots cache)
    ]
    some (cache', claimed)

  -- A collection as it was started, and its end.
  pub record Completion : Type 0 where
    pub slot : ProviderSlot
    pub observed_snapshot : DockerSnapshot
    pub observed_mode : RuntimeMode
    pub observed_generation : ℕ
    pub outcome : ProviderCollectionOutcome c
    pub completed_at : ℕ
    pub wall : Option ℕ

  abbrev pub is_other_source : Completion → DaemonCache → Bool
  is_other_source k cache =
      not (mode_eq cache.mode k.observed_mode)
      || not (cache.source_generation == k.observed_generation)

  -- `apply_provider_slot_outcome` up to where it frees the lock; it then claims the next due slots.
  unfoldable pub apply_provider_slot_outcome : Completion → DaemonCache → Option DaemonCache
  apply_provider_slot_outcome k cache =
      if is_other_source k cache then some cache else elim (get k.slot cache.runtime_providers) [
        | none ↦ some cache
        | some s ↦ (do
          s' ←
              settle c o.boot (same_collection_evidence cache.snapshot k.observed_snapshot) k.wall
                k.completed_at k.outcome s
          republish (with_slots (insert k.slot s' cache.runtime_providers) cache))
      ]

  -- What the history keeps of a cache that is published.
  unfoldable pub observe_publication : Text → DaemonCache → Option DaemonCache
  observe_publication fresh_boot published =
      if mode_eq published.mode docker
      then (do
        history ←
            observe_published_snapshot o.sha256 fresh_boot
              (with_time published.snapshot.last_updated
                (clear_revision (o.publish_docker_snapshot published.snapshot)))
              published.observed_history
        some (record published { observed_history = history }))
      else some published

  -- `publish_docker_snapshot_cache`, with two boot components that the random source yields if they
  -- are asked for.
  unfoldable pub publish_docker_snapshot_cache :
      Text → Text → DaemonCache → DaemonCache → Option DaemonCache
  publish_docker_snapshot_cache reset_boot fresh_boot updated cache = do
    let same_source = mode_eq cache.mode updated.mode
    source_generation ←
        if same_source
        then some cache.source_generation
        else if ltb max_u64 (cache.source_generation + 1)
        then none
        else some (cache.source_generation + 1)
    slots ←
        if same_source && not (same_collection_evidence cache.snapshot updated.snapshot)
        then mark_network_observation_stale c cache.runtime_providers
        else some (if same_source then cache.runtime_providers else source_reset_provider_slots c)
    published ← republish (record updated {
      runtime_providers = slots;
      source_generation = source_generation;
      docker_observation_revision = cache.docker_observation_revision;
      integrity_observation_revision =
          if same_source
          then cache.integrity_observation_revision
          else updated.integrity_observation_revision;
      revision = cache.revision;
      observed_history = if same_source then cache.observed_history else new reset_boot;
    })
    observe_publication fresh_boot published
