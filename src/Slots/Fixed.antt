-- ===== src/Slots/Fixed.antt =====
-- The slots all have a state, and how many are collecting.
use docker_map.Common.{
  ℕ, ◌+◌, ◌≡◌, inl, inr, refl, ap, ◌∙◌, Bool, true, [], ◌∷◌, none, some, arith, if◌then◌else◌, All,
  Bool-cases,
}
use docker_map.Common.Maps.{get, insert, get-insert, IsSorted}
use docker_map.Slots.Slot.{ProviderSlot, slot_eq, slot_Ord, slot_lt}
use docker_map.Slots.{Collections, SlotRuntimeState, Slots, is_collecting}
use docker_map.Slots.Claim.{occupied}

abbrev pub bit : Bool → ℕ
bit b = if b then 1 else 0

module _ (c : Collections) where
  -- Every fixed slot has a state.
  abbrev pub IsFixed : Slots c → Type 0
  IsFixed slots = (s : ProviderSlot) → (v : SlotRuntimeState c) × (get s slots ≡ some v)

  later_none :
      (k k' : ProviderSlot) (m : Slots c)
      → slot_lt k k' ≡ true
      → All (λ p. slot_lt k' p.0 ≡ true) m
      → get k m ≡ none
  unfolding get
  later_none k k' [] h w = refl
  later_none k k' ((k'', v) ∷ m) h w = ground (arith, later_none k k' m h w.1)

  pub occupied-insert :
      (k : ProviderSlot) (v old : SlotRuntimeState c) (m : Slots c)
      → IsSorted m
      → get k m ≡ some old
      → occupied c (insert k v m) + bit (is_collecting c old.observation)
        ≡ occupied c m + bit (is_collecting c v.observation)
  unfolding occupied insert get
  occupied-insert k v old [] d h = absurd (cc h)
  occupied-insert k v old ((k', v') ∷ m) d h = elim (Bool-cases (slot_eq k k')) [
    | inl same ↦
        let e : v' ≡ old = ground arith in ground (arith, ap (λ x. is_collecting c x.observation) e)
    | inr apart ↦ elim (Bool-cases (slot_lt k k')) [
      | inl below ↦ absurd (ground (arith, later_none k k' m (ground arith) d.0))
      | inr above ↦ ground (arith, occupied-insert k v old m d.1)
    ]
  ]

  pub insert-IsFixed :
      (k : ProviderSlot) (v : SlotRuntimeState c) (m : Slots c) → IsFixed m → IsFixed (insert k v m)
  insert-IsFixed k v m f s = elim (Bool-cases (slot_eq s k)) [
    | inl same ↦ (v, get-insert k s v m ∙ rw same refl)
    | inr apart ↦ ((f s).0, get-insert k s v m ∙ rw apart (f s).1)
  ]
