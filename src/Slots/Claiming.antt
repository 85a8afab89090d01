-- ===== src/Slots/Claiming.antt =====
-- A claim takes due slots, no more than the workers allow, and touches no other.
use docker_map.Common.{
  ℕ, ◌+◌, ◌-◌, ◌≤◌, ◌<◌, ◌≡◌, ◌⊎◌, inl, inr, refl, sym, ap, ◌∙◌, Bool, true, false, List, [], ◌∷◌,
  Option, some, arith, ◌==◌, max, if◌then◌else◌, any, length, All, Bool-cases,
}
use docker_map.Common.Maps.{get, insert, get-insert, IsSorted, insert-IsSorted}
use docker_map.Slots.Slot.{ProviderSlot, static_provider_slots, slot_eq, slot_eq_iff, slot_Ord}
use docker_map.Slots.{Collections, SlotRuntimeState, Slots, is_collecting}
use docker_map.Slots.Claim.{
  occupied, claim, is_claimable, claim_from, claim_due_slots_with_active_workers,
}
use docker_map.Slots.Fixed.{IsFixed, occupied-insert, insert-IsFixed}

abbrev pub is_member : ProviderSlot → List ProviderSlot → Bool
is_member s = any (slot_eq s)

module _ (c : Collections) where
  -- What a claim over some slots does, within a number of workers.
  pub record IsClaim (now : ℕ) (wall : ProviderSlot → Option ℕ) (over : List ProviderSlot)
      (remaining : ℕ) (slots slots' : Slots c) (claimed : List ProviderSlot) : Type 0 where
    pub counted : occupied c slots' ≡ occupied c slots + length claimed
    pub bounded : length claimed ≤ remaining
    pub sorted : IsSorted slots'
    pub fixed : IsFixed c slots'
    pub each :
        (s : ProviderSlot)
        → ((is_member s claimed ≡ true)
            × (current : SlotRuntimeState c) × (get s slots ≡ some current)
            × (is_claimable c now s current ≡ true)
            × (get s slots' ≡ some (claim c (wall s) current)))
          ⊎ ((is_member s claimed ≡ false) × (get s slots' ≡ get s slots))
    pub complete :
        length claimed < remaining
        → All
            (λ s.
              (current : SlotRuntimeState c)
              → get s slots ≡ some current
              → is_claimable c now s current ≡ true
              → is_member s claimed ≡ true)
            over

  module _ (now : ℕ) (wall : ProviderSlot → Option ℕ) where
    claims_none :
        (over : List ProviderSlot) (remaining : ℕ) (slots : Slots c)
        → (remaining ≡ 0) ⊎ (over ≡ [])
        → IsSorted slots
        → IsFixed c slots
        → IsClaim now wall over remaining slots slots []
    claims_none over remaining slots none_left d f = record {
      counted = omega arith;
      bounded = omega arith;
      sorted = d;
      fixed = f;
      each = λ s. inr (refl, refl);
      complete = λ h. elim none_left [ inl e ↦ absurd (omega arith) | inr e ↦ rw e tt ];
    }

    claims_skip :
        (slot : ProviderSlot) (over : List ProviderSlot) (remaining : ℕ) (slots slots' : Slots c)
        (claimed : List ProviderSlot) (current : SlotRuntimeState c)
        → get slot slots ≡ some current
        → is_claimable c now slot current ≡ false
        → IsClaim now wall over remaining slots slots' claimed
        → IsClaim now wall (slot ∷ over) remaining slots slots' claimed
    claims_skip slot over remaining slots slots' claimed current e idle w = record {
      counted = w.counted;
      bounded = w.bounded;
      sorted = w.sorted;
      fixed = w.fixed;
      each = w.each;
      complete = λ h. (
        λ other e' ripe.
            let same : other ≡ current = cc (e, e') in
            absurd (cc (ap (is_claimable c now slot) same, ripe, idle)),
        w.complete h,
      );
    }

    -- What the claim of the first slot, and a claim over the rest behind it, do to each slot.
    each_take :
        (slot : ProviderSlot) (over : List ProviderSlot) (remaining : ℕ) (slots slots' : Slots c)
        (claimed : List ProviderSlot) (current : SlotRuntimeState c)
        → get slot slots ≡ some current
        → is_claimable c now slot current ≡ true
        → IsClaim now wall over remaining
            (insert slot (claim c (wall slot) current) slots)
            slots'
            claimed
        → (s : ProviderSlot)
        → ((is_member s (slot ∷ claimed) ≡ true)
            × (current : SlotRuntimeState c) × (get s slots ≡ some current)
            × (is_claimable c now s current ≡ true)
            × (get s slots' ≡ some (claim c (wall s) current)))
          ⊎ ((is_member s (slot ∷ claimed) ≡ false) × (get s slots' ≡ get s slots))
    each_take slot over remaining slots slots' claimed current e ripe w s =
        let v = claim c (wall slot) current in
        let at : get s (insert slot v slots) ≡ (if slot_eq s slot then some v else get s slots) =
          get-insert slot s v slots in
        elim (Bool-cases (slot_eq s slot)) [
          | inl same ↦
              let e' : s ≡ slot = (slot_eq_iff s slot).0 same in
              elim (w.each s) [
                | inl (m, again, there, claimable, result) ↦
                    let at' : get s (insert slot v slots) ≡ some v = at ∙ rw same refl in
                    let same_v : again ≡ v = cc (there, at') in
                    absurd (cc (sym claimable ∙ ap (is_claimable c now s) same_v))
                | inr (m, kept) ↦ inl (
                  ground arith,
                  current,
                  ap (λ x. get x slots) e' ∙ e,
                  ap (λ x. is_claimable c now x current) e' ∙ ripe,
                  kept ∙ at ∙ rw same (ap (λ x. some (claim c (wall x) current)) (sym e')),
                )
              ]
          | inr apart ↦ elim (w.each s) [
            | inl (m, other, there, claimable, result) ↦
                inl (ground arith, other, sym (at ∙ rw apart refl) ∙ there, claimable, result)
            | inr (m, kept) ↦ inr (ground arith, kept ∙ at ∙ rw apart refl)
          ]
        ]

    abbrev IsTaken : Slots c → List ProviderSlot → ProviderSlot → Type 0
    IsTaken slots claimed s =
        (current : SlotRuntimeState c)
        → get s slots ≡ some current
        → is_claimable c now s current ≡ true
        → is_member s claimed ≡ true

    complete_behind :
        (slot : ProviderSlot) (slots : Slots c) (current : SlotRuntimeState c)
        (ss claimed : List ProviderSlot)
        → All (IsTaken (insert slot (claim c (wall slot) current) slots) claimed) ss
        → All (IsTaken slots (slot ∷ claimed)) ss
    complete_behind slot slots current [] claimed w = tt
    complete_behind slot slots current (s ∷ ss) claimed w = (
      λ other e r.
          let at = get-insert slot s (claim c (wall slot) current) slots in
          elim (Bool-cases (slot_eq s slot)) [
            | inl same ↦ ground (arith, same)
            | inr apart ↦ ground (arith, apart, w.0 other (at ∙ rw apart e) r)
          ],
      complete_behind slot slots current ss claimed w.1,
    )

    claims_take :
        (slot : ProviderSlot) (over : List ProviderSlot) (remaining : ℕ) (slots slots' : Slots c)
        (claimed : List ProviderSlot) (current : SlotRuntimeState c)
        → 0 < remaining
        → IsSorted slots
        → get slot slots ≡ some current
        → is_claimable c now slot current ≡ true
        → IsClaim now wall over
            (remaining - 1)
            (insert slot (claim c (wall slot) current) slots)
            slots'
            claimed
        → IsClaim now wall (slot ∷ over) remaining slots slots' (slot ∷ claimed)
    claims_take slot over remaining slots slots' claimed current some_left d e ripe w =
        let v = claim c (wall slot) current in
        let here : slot_eq slot slot ≡ true = ground arith in
        let quiet : is_collecting c current.observation ≡ false = ground arith in
        let one : occupied c (insert slot v slots) ≡ occupied c slots + 1 =
          ground (arith, occupied-insert c slot v current slots d e) in
        record {
          counted = omega (arith, w.counted, one);
          bounded = omega (arith, w.bounded);
          sorted = w.sorted;
          fixed = w.fixed;
          each = each_take slot over (remaining - 1) slots slots' claimed current e ripe w;
          complete = λ h. (
            λ other e' r. ground (arith, here),
            complete_behind slot slots current over claimed (w.complete (omega arith)),
          );
        }

    claim_from_ripe :
        (slot : ProviderSlot) (over : List ProviderSlot) (remaining : ℕ) (slots : Slots c)
        (current : SlotRuntimeState c) {slots' : Slots c} {claimed : List ProviderSlot}
        → (remaining == 0) ≡ false
        → get slot slots ≡ some current
        → is_claimable c now slot current ≡ true
        → claim_from c now wall over
            (remaining - 1)
            (insert slot (claim c (wall slot) current) slots)
          ≡ some (slots', claimed)
        → claim_from c now wall (slot ∷ over) remaining slots ≡ some (slots', slot ∷ claimed)
    unfolding claim_from
    claim_from_ripe slot over remaining slots current left e ripe result = ground (arith, result)

    claim_from_idle :
        (slot : ProviderSlot) (over : List ProviderSlot) (remaining : ℕ) (slots : Slots c)
        (current : SlotRuntimeState c)
        → (remaining == 0) ≡ false
        → get slot slots ≡ some current
        → is_claimable c now slot current ≡ false
        → claim_from c now wall (slot ∷ over) remaining slots
          ≡ claim_from c now wall over remaining slots
    unfolding claim_from
    claim_from_idle slot over remaining slots current left e idle = ground arith

    pub claim_from-IsClaim :
        (over : List ProviderSlot) (remaining : ℕ) (slots : Slots c)
        → IsSorted slots
        → IsFixed c slots
        → (slots' : Slots c) × (claimed : List ProviderSlot) × (claim_from c now wall over remaining
              slots
            ≡ some (slots', claimed))
          × IsClaim now wall over remaining slots slots' claimed
    unfolding claim_from
    claim_from-IsClaim [] remaining slots d f =
        (slots, [], refl, claims_none [] remaining slots (inr refl) d f)
    claim_from-IsClaim (slot ∷ over) remaining slots d f = elim (Bool-cases (remaining == 0)) [
      | inl spent ↦ (
        slots,
        [],
        ground arith,
        claims_none (slot ∷ over) remaining slots (inl (ground arith)) d f,
      )
      | inr left ↦
          let (current, e) = f slot in
          elim (Bool-cases (is_claimable c now slot current)) [
            | inr idle ↦
                let (slots', claimed, result, w) = claim_from-IsClaim over remaining slots d f in
                (
                  slots',
                  claimed,
                  claim_from_idle slot over remaining slots current left e idle ∙ result,
                  claims_skip slot over remaining slots slots' claimed current e idle w,
                )
            | inl ripe ↦
                let v = claim c (wall slot) current in
                let (slots', claimed, result, w) =
                  claim_from-IsClaim over (remaining - 1) (insert slot v slots)
                    (insert-IsSorted slot v slots d) (insert-IsFixed c slot v slots f) in
                (
                  slots',
                  slot ∷ claimed,
                  claim_from_ripe slot over remaining slots current left e ripe result,
                  claims_take slot over remaining slots slots' claimed current (ground arith) d e
                      ripe w,
                )
          ]
    ]

  -- A claim on sorted slots that all have a state does not fail. It claims no more slots than the
  -- bound leaves room for beside those that are collecting and the workers that still run, each of
  -- them due, not collecting and not disabled, keeps what a claimed slot retains, and changes no
  -- other slot; and where it claims fewer than there is room for, it claims every such slot.
  pub claim_due_slots_with_active_workers-IsClaim :
      (slots : Slots c) (now max_concurrency active_workers : ℕ) (wall : ProviderSlot → Option ℕ)
      → IsSorted slots
      → IsFixed c slots
      → (slots' : Slots c) × (claimed : List ProviderSlot) × (claim_due_slots_with_active_workers c
            slots now max_concurrency active_workers wall
          ≡ some (slots', claimed))
        × IsClaim now wall static_provider_slots
            (max_concurrency - max (occupied c slots) active_workers)
            slots
            slots'
            claimed
  unfolding claim_due_slots_with_active_workers
  claim_due_slots_with_active_workers-IsClaim slots now max_concurrency active_workers wall d f =
      claim_from-IsClaim now wall static_provider_slots
        (max_concurrency - max (occupied c slots) active_workers) slots d f
