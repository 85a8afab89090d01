-- ===== src/Slots/Run.antt =====
-- Every state of the cache that claims, completions and publications reach from its start.
use docker_map.Common.{
  ℕ, ◌≤◌, ◌≡◌, refl, sym, ap, ◌∙◌, Bool, false, List, Option, some, arith, ◌>>=◌, Option-cases, inl,
  inr, Text, subst,
}
use docker_map.Common.Maps.{get, insert, IsSorted, insert-IsSorted}
use docker_map.Slots.Slot.{
  ProviderSlot, network_infrastructure, host_scoped, tmux, cron, systemd, python_processes,
  native_processes, project_npm, slot_Ord,
}
use docker_map.Slots.{
  max_concurrent_provider_slots, Collections, RuntimeProviderState, unobserved, observed,
  in_progress, degraded, late, SlotRuntimeState, ProviderCollectionOutcome, collected, in_flight,
  failed, overran, Slots, is_collecting, unavailable_provider_slots, source_reset_provider_slots,
}
use docker_map.Slots.Claim.{occupied, claim_due_slots_with_active_workers}
use docker_map.Slots.Settling.{landed, landed_retained}
use docker_map.Slots.Settle.{update_slot_data_revision, settle, mark_network_observation_stale}
use docker_map.Slots.Claiming.{claim_due_slots_with_active_workers-IsClaim}
use docker_map.Slots.Fixed.{IsFixed, occupied-insert, insert-IsFixed}

module _ (c : Collections) where
  -- Each fixed slot has its state, and no more are collecting than the policy allows.
  pub record IsSound (slots : Slots c) : Type 0 where
    pub sorted : IsSorted slots
    pub fixed : IsFixed c slots
    pub bounded : occupied c slots ≤ max_concurrent_provider_slots

  unavailable-IsFixed : IsFixed c (unavailable_provider_slots c)
  unfolding unavailable_provider_slots get
  unavailable-IsFixed network_infrastructure = (_, refl)
  unavailable-IsFixed host_scoped = (_, refl)
  unavailable-IsFixed tmux = (_, refl)
  unavailable-IsFixed cron = (_, refl)
  unavailable-IsFixed systemd = (_, refl)
  unavailable-IsFixed python_processes = (_, refl)
  unavailable-IsFixed native_processes = (_, refl)
  unavailable-IsFixed project_npm = (_, refl)

  reset-IsFixed : IsFixed c (source_reset_provider_slots c)
  unfolding unavailable_provider_slots source_reset_provider_slots get
  reset-IsFixed network_infrastructure = (_, refl)
  reset-IsFixed host_scoped = (_, refl)
  reset-IsFixed tmux = (_, refl)
  reset-IsFixed cron = (_, refl)
  reset-IsFixed systemd = (_, refl)
  reset-IsFixed python_processes = (_, refl)
  reset-IsFixed native_processes = (_, refl)
  reset-IsFixed project_npm = (_, refl)

  pub unavailable-IsSound : IsSound (unavailable_provider_slots c)
  unavailable-IsSound = record {
    sorted = unfold unavailable_provider_slots in ground arith;
    fixed = unavailable-IsFixed;
    bounded = unfold unavailable_provider_slots occupied in omega arith;
  }

  pub reset-IsSound : IsSound (source_reset_provider_slots c)
  reset-IsSound = record {
    sorted = unfold unavailable_provider_slots source_reset_provider_slots in ground arith;
    fixed = reset-IsFixed;
    bounded = unfold unavailable_provider_slots source_reset_provider_slots occupied in omega arith;
  }

  -- A slot that no longer collects leaves the others as they are.
  pub insert-IsSound :
      (k : ProviderSlot) (v : SlotRuntimeState c) (slots : Slots c)
      → is_collecting c v.observation ≡ false
      → IsSound slots
      → IsSound (insert k v slots)
  insert-IsSound k v slots idle w =
      let (old, e) = w.fixed k in
      record {
        sorted = insert-IsSorted k v slots w.sorted;
        fixed = insert-IsFixed c k v slots w.fixed;
        bounded = ground (arith, occupied-insert c k v old slots w.sorted e, w.bounded);
      }

  settled :
      (s s' : SlotRuntimeState c)
      → ◌≡◌ {A = Option (SlotRuntimeState c)} (some s) (some s')
      → is_collecting c s.observation ≡ false
      → is_collecting c s'.observation ≡ false
  settled s s' e h =
      let same : s ≡ s' = cc e in subst (λ x. is_collecting c x.observation ≡ false) same h

  pub settle_idle :
      (boot : Text) (same : Bool) (wall : Option ℕ) (at : ℕ) (outcome : ProviderCollectionOutcome c)
      (s s' : SlotRuntimeState c)
      → settle c boot same wall at outcome s ≡ some s'
      → is_collecting c s'.observation ≡ false
  unfolding settle
  settle_idle boot same wall at in_flight s s' e = settled _ s' e refl
  settle_idle boot same wall at failed s s' e = settled _ s' e refl
  settle_idle boot same wall at overran s s' e = settled _ s' e refl
  settle_idle boot same wall at (collected collection) s s' e =
      let result =
        update_slot_data_revision c boot (c.sanitized_for_retention collection) s.freshness in
      elim (Option-cases result) [
        | inl none_left ↦
            absurd
              (cc (ap (λ o. o >>= λ f. some (landed c same wall at collection f)) none_left, e))
        | inr (f, some_left) ↦
            settled (landed c same wall at collection f) s'
              (sym (ap (λ o. o >>= λ f. some (landed c same wall at collection f)) some_left) ∙ e)
              (landed_retained c same (c.sanitized_for_retention collection)).2
      ]

  abbrev with_stale : RuntimeProviderState c → SlotRuntimeState c → Slots c → Slots c
  with_stale observation network slots = elim observation [
    | observed collection ↦
        insert network_infrastructure
          (record {
            observation = degraded (some collection);
            completed_at = network.completed_at;
            freshness = network.freshness;
          })
          slots
    | _ ↦ slots
  ]

  with_stale-IsSound :
      (observation : RuntimeProviderState c) (network : SlotRuntimeState c) (slots : Slots c)
      → IsSound slots
      → IsSound (with_stale observation network slots)
  with_stale-IsSound (observed collection) network slots w =
      insert-IsSound network_infrastructure _ slots refl w
  with_stale-IsSound unobserved network slots w = w
  with_stale-IsSound (in_progress retained) network slots w = w
  with_stale-IsSound (degraded retained) network slots w = w
  with_stale-IsSound (late retained) network slots w = w

  pub stale-IsSound :
      (slots slots' : Slots c)
      → mark_network_observation_stale c slots ≡ some slots'
      → IsSound slots
      → IsSound slots'
  unfolding mark_network_observation_stale
  stale-IsSound slots slots' e w =
      let (network, there) = w.fixed network_infrastructure in
      let result : ◌≡◌ {A = Option (Slots c)} (some (with_stale network.observation network slots))
          (some slots') =
        sym (ap (λ o. o >>= λ n. some (with_stale n.observation n slots)) there) ∙ e in
      let same : with_stale network.observation network slots ≡ slots' = cc result in
      subst IsSound same (with_stale-IsSound network.observation network slots w)

  pub claim-IsSound :
      (now active_workers : ℕ) (wall : ProviderSlot → Option ℕ) (slots slots' : Slots c)
      (claimed : List ProviderSlot)
      → claim_due_slots_with_active_workers c slots now max_concurrent_provider_slots active_workers
          wall
        ≡ some (slots', claimed)
      → IsSound slots
      → IsSound slots'
  claim-IsSound now active_workers wall slots slots' claimed e w =
      let (slots'', claimed', result, k) =
        claim_due_slots_with_active_workers-IsClaim c slots now max_concurrent_provider_slots
          active_workers wall w.sorted w.fixed in
      let same : slots'' ≡ slots' = cc (sym result ∙ e) in
      subst IsSound same (record {
        sorted = k.sorted;
        fixed = k.fixed;
        bounded = omega (arith, k.counted, k.bounded, w.bounded);
      })
