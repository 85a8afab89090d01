-- ===== src/Slots/Settling.antt =====
-- What each outcome of a collection leaves of a slot.
use docker_map.Common.{
  ℕ, ◌+◌, ◌≤◌, ◌≡◌, ◌≢◌, refl, sym, ap, ◌∙◌, Bool, true, false, Option, none, some, arith,
  if◌then◌else◌, ◌>>=◌, is_some_and, Bool-cases, Option-cases, inl, inr, Text, text_eq,
  text_eq_sound, text_eq_refl,
}
use docker_map.Common.Decimal.{max_u64}
use docker_map.Slots.{
  ProviderStatusReason, collection_failed, collection_timed_out, SlotDataRevision, SlotFreshness,
  first_revision, advance, successful_duration_ms, Collections, RuntimeProviderState, observed,
  degraded, late, SlotRuntimeState, ProviderCollectionOutcome, collected, in_flight, failed,
  overran, retained_collection, is_collecting,
}
use docker_map.Slots.Settle.{update_slot_data_revision, succeeded, failed_for, settle}
use docker_map.Slots.Settled.{is_fresh, IsFailure, IsSuccess, HasRoom, IsSettled}

module _ (c : Collections) where
  abbrev evidence_of : c.Collection → Text
  evidence_of = c.sanitized_observable_identity

  record IsRevised (collection : c.Collection) (f f' : SlotFreshness) : Type 0 where
    pub attempt : f'.last_attempt_ms ≡ f.last_attempt_ms
    pub evidence : f'.data_observable ≡ some (evidence_of collection)
    pub same_revision :
        f.data_observable ≡ some (evidence_of collection) → f'.data_revision ≡ f.data_revision
    pub new_revision :
        f.data_observable ≢ some (evidence_of collection)
        → (r : SlotDataRevision) → f.data_revision ≡ some r
        → f'.data_revision ≡ some (record { boot = r.boot; sequence = r.sequence + 1 })

  abbrev revised : c.Collection → SlotDataRevision → SlotFreshness → SlotFreshness
  revised collection revision f = record {
    last_attempt_ms = f.last_attempt_ms;
    last_success_ms = f.last_success_ms;
    last_duration_ms = f.last_duration_ms;
    consecutive_failure_count = f.consecutive_failure_count;
    data_revision = some revision;
    data_observable = some (evidence_of collection);
    status_reason = f.status_reason;
  }

  known_evidence : (t : Text) (o : Option Text) → is_some_and (text_eq t) o ≡ true → o ≡ some t
  known_evidence t none h = absurd (cc h)
  known_evidence t (some t') h = ap some (sym (text_eq_sound t t' h))

  other_evidence : (t : Text) (o : Option Text) → is_some_and (text_eq t) o ≡ false → o ≢ some t
  other_evidence t o h e = absurd (cc (sym h ∙ ap (is_some_and (text_eq t)) e, text_eq_refl t))

  advance-some :
      (r : SlotDataRevision)
      → r.sequence + 1 ≤ max_u64
      → advance r ≡ some (record { boot = r.boot; sequence = r.sequence + 1 })
  unfolding advance
  advance-some r room = ground arith

  update_lem :
      (boot : Text) (collection : c.Collection) (f : SlotFreshness)
      → HasRoom c f
      → (f' : SlotFreshness) × (update_slot_data_revision c boot collection f ≡ some f')
        × IsRevised collection f f'
  unfolding update_slot_data_revision
  update_lem boot collection f room =
      elim (Bool-cases (is_some_and (text_eq (evidence_of collection)) f.data_observable)) [
        | inl known ↦
            let same = known_evidence (evidence_of collection) f.data_observable known in
            (
              f,
              rw known refl,
              record {
                attempt = refl;
                evidence = same;
                same_revision = λ e. refl;
                new_revision = λ n. absurd (n same);
              },
            )
        | inr new ↦
            let other = other_evidence (evidence_of collection) f.data_observable new in
            elim (Option-cases f.data_revision) [
              | inl e ↦ (
                revised collection (first_revision boot) f,
                rw (new, e) refl,
                record {
                  attempt = refl;
                  evidence = refl;
                  same_revision = λ same. absurd (other same);
                  new_revision = λ n r e'. absurd (cc (e, e'));
                },
              )
              | inr (r, e) ↦ (
                revised collection (record { boot = r.boot; sequence = r.sequence + 1 }) f,
                rw (new, e, advance-some r (room r e)) refl,
                record {
                  attempt = refl;
                  evidence = refl;
                  same_revision = λ same. absurd (other same);
                  new_revision = λ n r' e'. cc (e, e');
                },
              )
            ]
      ]

  abbrev pub landed : Bool → Option ℕ → ℕ → c.Collection → SlotFreshness → SlotRuntimeState c
  landed same wall at collection f = record {
    observation =
        if same
        then observed (c.sanitized_for_retention collection)
        else degraded (some (c.sanitized_for_retention collection));
    completed_at = some at;
    freshness = succeeded c wall f;
  }

  pub landed_retained :
      (same : Bool) (collection : c.Collection)
      → let o : RuntimeProviderState c =
          if same then observed collection else degraded (some collection) in
        (retained_collection c o ≡ some collection)
        × (is_fresh c o ≡ same)
        × (is_collecting c o ≡ false)
  unfolding retained_collection
  landed_retained true collection = (refl, refl, refl)
  landed_retained false collection = (refl, refl, refl)

  collected_lem :
      (boot : Text) (same : Bool) (wall : Option ℕ) (at : ℕ) (collection : c.Collection)
      (s : SlotRuntimeState c)
      → HasRoom c s.freshness
      → (s' : SlotRuntimeState c) × (settle c boot same wall at (collected collection) s ≡ some s')
        × IsSuccess c boot same wall at collection s s'
  unfolding settle
  collected_lem boot same wall at collection s room =
      let (f, result, w) =
        update_lem boot (c.sanitized_for_retention collection) s.freshness room in
      let (retained, fresh_if, idle) =
        landed_retained same (c.sanitized_for_retention collection) in
      (
        landed same wall at collection f,
        ap (λ o. o >>= λ x. some (landed same wall at collection x)) result,
        record {
          retained = retained;
          fresh_if = fresh_if;
          idle = idle;
          completed = refl;
          counted = refl;
          reason = refl;
          success = refl;
          duration = ap (λ a. successful_duration_ms a wall) w.attempt;
          evidence = w.evidence;
          same_revision = w.same_revision;
          new_revision = w.new_revision;
        },
      )

  failure_lem :
      (reason : ProviderStatusReason) (o : RuntimeProviderState c) (completed_at : Option ℕ)
      (s : SlotRuntimeState c)
      → retained_collection c o ≡ retained_collection c s.observation
      → is_fresh c o ≡ false
      → is_collecting c o ≡ false
      → IsFailure c s (record {
        observation = o;
        completed_at = completed_at;
        freshness = failed_for c reason s.freshness;
      })
  failure_lem reason o completed_at s retained stale idle = record {
    retained = retained;
    stale = stale;
    idle = idle;
    counted = refl;
    attempt = refl;
    success = refl;
    duration = refl;
    revision = refl;
    evidence = refl;
    reason = λ e. absurd (cc e);
  }

  -- A collection that ends does not fail while the number of its revision has room. A failure, a
  -- timeout or a worker that is still in flight keeps the retained collection and everything known of
  -- the last success, counts one more failure up to the bound of 32 bits, and is never fresh; a
  -- success retains the sanitized collection, fresh just if the Docker evidence is the same, resets
  -- the count, and advances the revision just if the observable evidence is another.
  pub settle-IsSettled :
      (boot : Text) (same : Bool) (wall : Option ℕ) (at : ℕ) (outcome : ProviderCollectionOutcome c)
      (s : SlotRuntimeState c)
      → HasRoom c s.freshness
      → (s' : SlotRuntimeState c) × (settle c boot same wall at outcome s ≡ some s')
        × IsSettled c boot same wall at outcome s s'
  unfolding settle retained_collection
  settle-IsSettled boot same wall at (collected collection) s room =
      collected_lem boot same wall at collection s room
  settle-IsSettled boot same wall at in_flight s room = (
    _,
    refl,
    (
      failure_lem collection_timed_out (late (retained_collection c s.observation)) s.completed_at s
          refl refl refl,
      refl,
      refl,
    ),
  )
  settle-IsSettled boot same wall at failed s room = (
    _,
    refl,
    (
      failure_lem collection_failed (degraded (retained_collection c s.observation)) (some at) s
          refl refl refl,
      refl,
      refl,
    ),
  )
  settle-IsSettled boot same wall at overran s room = (
    _,
    refl,
    (
      failure_lem collection_timed_out (late (retained_collection c s.observation)) (some at) s refl
          refl refl,
      refl,
      refl,
    ),
  )
