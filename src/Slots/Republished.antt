-- ===== src/Slots/Republished.antt =====
-- What `rebuild_runtime_map` and `assign_revision` of cache_refresh.rs leave of the cache.
use docker_map.Common.{◌≡◌, refl, ◌∙◌, Option, some, none, ◌>>=◌, subst}
use docker_map.Slots.{Collections, Slots}
use docker_map.Slots.Cache.{
  Outside, DaemonCache, clear_revision, assign_docker_observation_revision, rebuild_runtime_map,
  assign_revision, republish, with_slots,
}

module _ (c : Collections) (o : Outside c) where
  -- The observations of the second cache are those of the first: its snapshot up to the revision that
  -- is written there, its source and generation, slots, Compose binding and history.
  pub record IsRepublished (cache cache' : DaemonCache c o) : Type 0 where
    pub snapshot : clear_revision cache'.snapshot ≡ clear_revision cache.snapshot
    pub source : (cache'.mode ≡ cache.mode) × (cache'.source_generation ≡ cache.source_generation)
    pub slots : cache'.runtime_providers ≡ cache.runtime_providers
    pub binding : cache'.compose_runtime_binding ≡ cache.compose_runtime_binding
    pub history : cache'.observed_history ≡ cache.observed_history

  -- With any slots the cache can be published: the derivations do not panic on it.
  abbrev pub IsPublishable : DaemonCache c o → Type 0
  IsPublishable cache =
      (slots : Slots c)
      → (cache' : DaemonCache c o) × (republish c o (with_slots c o slots cache) ≡ some cache')

  -- The first of two steps that succeed.
  pub first_step :
      {A B : Type 0} (a : Option A) (f : A → Option B) {b : B}
      → (a >>= f) ≡ some b
      → (x : A) × (a ≡ some x) × (f x ≡ some b)
  first_step none f e = absurd (cc e)
  first_step (some x) f e = (x, refl, e)

  pub assign_docker_observation_revision_lem :
      (cache cache' : DaemonCache c o)
      → assign_docker_observation_revision c o cache ≡ some cache'
      → IsRepublished cache cache'
  unfolding assign_docker_observation_revision
  assign_docker_observation_revision_lem cache cache' e =
      let (r, _, f) =
        first_step (o.observe cache.snapshot cache.mode cache.docker_observation_revision) _ e in
      let same : record cache { docker_observation_revision = r } ≡ cache' = cc f in
      subst (IsRepublished cache) same (record {
        snapshot = refl;
        source = (refl, refl);
        slots = refl;
        binding = refl;
        history = refl;
      })

  rebuild_runtime_map_lem :
      (cache cache' : DaemonCache c o)
      → rebuild_runtime_map c o cache ≡ some cache'
      → IsRepublished cache cache'
  unfolding rebuild_runtime_map
  rebuild_runtime_map_lem cache cache' e =
      let (r, _, f) =
        first_step (o.observe cache.snapshot cache.mode cache.docker_observation_revision) _ e in
      let ((m, i), _, g) =
        first_step
          (o.combine cache.snapshot cache.mode cache.runtime_providers r
            cache.integrity_observation_revision)
          _ f in
      let same : record cache {
        runtime_map = m;
        docker_observation_revision = r;
        integrity_observation_revision = i;
      }
          ≡ cache' =
        cc g in
      subst (IsRepublished cache) same (record {
        snapshot = refl;
        source = (refl, refl);
        slots = refl;
        binding = refl;
        history = refl;
      })

  pub assign_revision_lem :
      (cache cache' : DaemonCache c o)
      → assign_revision c o cache ≡ some cache'
      → IsRepublished cache cache'
  unfolding assign_revision
  assign_revision_lem cache cache' e =
      let ((t, (h, (m, r))), _, f) =
        first_step (o.assign cache.snapshot cache.health cache.runtime_map cache.revision) _ e in
      let (found, _, g) =
        first_step
          (o.find m cache.mode cache.compose_runtime_binding cache.docker_observation_revision) _
          f in
      let same : record cache {
        snapshot = record cache.snapshot { model_revision = t };
        health = h;
        runtime_map = m;
        findings = found;
        revision = r;
      }
          ≡ cache' =
        cc g in
      subst (IsRepublished cache) same (record {
        snapshot = refl;
        source = (refl, refl);
        slots = refl;
        binding = refl;
        history = refl;
      })

  pub IsRepublished-trans :
      (u v w : DaemonCache c o) → IsRepublished u v → IsRepublished v w → IsRepublished u w
  IsRepublished-trans u v w p q = record {
    snapshot = q.snapshot ∙ p.snapshot;
    source = (q.source.0 ∙ p.source.0, q.source.1 ∙ p.source.1);
    slots = q.slots ∙ p.slots;
    binding = q.binding ∙ p.binding;
    history = q.history ∙ p.history;
  }

  pub republish_lem :
      (cache cache' : DaemonCache c o)
      → republish c o cache ≡ some cache'
      → IsRepublished cache cache'
  unfolding republish
  republish_lem cache cache' e =
      let (rebuilt, f, g) = first_step (rebuild_runtime_map c o cache) (assign_revision c o) e in
      IsRepublished-trans cache rebuilt cache' (rebuild_runtime_map_lem cache rebuilt f)
        (assign_revision_lem rebuilt cache' g)
