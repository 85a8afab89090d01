-- ===== src/Common/Sort.antt =====
-- `sort_by_key`: the stable sort by an ordered key.
use mathlib.Core.Path.{◌≡◌, refl, ◌∙◌}
use mathlib.Core.Bool.{Bool, true, false}
use mathlib.Core.List.{List, [], ◌∷◌, Perm}
use mathlib.Core.List.Perm
use mathlib.Core.Logic.{inl, inr}
use native.Mathlib.Omega.{arith}
use docker_map.Common.Tests.{if◌then◌else◌, Bool-cases}
use docker_map.Common.Lists.{All, Occurs, length, filter}
use docker_map.Common.Maps.{Ord}

module _ {ℓ κ} {A : Type ℓ} {K : Type κ} ⦃o : Ord K⦄ (key : A → K) where
  -- An item goes before its equals: the list is sorted from its end.
  pub place : A → List A → List A
  place a [] = a ∷ []
  place a (x ∷ xs) = if o.lt (key x) (key a) then x ∷ place a xs else a ∷ x ∷ xs

  unfoldable pub sort_by_key : List A → List A
  unfolding place
  sort_by_key [] = []
  sort_by_key (x ∷ xs) = place x (sort_by_key xs)

  -- No later key is smaller.
  abbrev pub IsOrdered : List A → Type κ
  IsOrdered [] = Unit
  IsOrdered (x ∷ xs) = All (λ y. o.lt (key y) (key x) ≡ false) xs × IsOrdered xs

  not_lt_trans :
      (a b c : A)
      → o.lt (key b) (key a) ≡ false
      → o.lt (key c) (key b) ≡ false
      → o.lt (key c) (key a) ≡ false
  not_lt_trans a b c h k = ground (
    arith,
    o.lt_total (key a) (key b),
    (o.eq_iff (key a) (key b)).0,
    o.lt_trans (key c) (key a) (key b),
  )

  All-not_lt :
      (a b : A) (xs : List A)
      → o.lt (key b) (key a) ≡ false
      → All (λ y. o.lt (key y) (key b) ≡ false) xs
      → All (λ y. o.lt (key y) (key a) ≡ false) xs
  All-not_lt a b [] h w = tt
  All-not_lt a b (x ∷ xs) h w = (not_lt_trans a b x h w.0, All-not_lt a b xs h w.1)

  pub All-place {μ} : (P : A → Type μ) (a : A) (xs : List A) → P a → All P xs → All P (place a xs)
  unfolding place
  All-place P a [] h w = (h, tt)
  All-place P a (x ∷ xs) h w = ground (arith, All-place P a xs h w.1)

  pub All-sort_by_key {μ} : (P : A → Type μ) (xs : List A) → All P xs → All P (sort_by_key xs)
  unfolding sort_by_key
  All-sort_by_key P [] w = tt
  All-sort_by_key P (x ∷ xs) w = All-place P x (sort_by_key xs) w.0 (All-sort_by_key P xs w.1)

  not_lt_of_lt : (a b : A) → o.lt (key a) (key b) ≡ true → o.lt (key b) (key a) ≡ false
  not_lt_of_lt a b h = ground (arith, o.lt_irrefl (key a), o.lt_trans (key a) (key b) (key a))

  place-IsOrdered : (a : A) (xs : List A) → IsOrdered xs → IsOrdered (place a xs)
  unfolding place
  place-IsOrdered a [] d = (tt, tt)
  place-IsOrdered a (x ∷ xs) d = elim (Bool-cases (o.lt (key x) (key a))) [
    | inl below ↦ rw below (
      All-place (λ y. o.lt (key y) (key x) ≡ false) a xs (not_lt_of_lt x a below) d.0,
      place-IsOrdered a xs d.1,
    )
    | inr above ↦ rw above ((above, All-not_lt a x xs above d.0), d)
  ]

  pub sort_by_key-IsOrdered : (xs : List A) → IsOrdered (sort_by_key xs)
  unfolding sort_by_key
  sort_by_key-IsOrdered [] = tt
  sort_by_key-IsOrdered (x ∷ xs) = place-IsOrdered x (sort_by_key xs) (sort_by_key-IsOrdered xs)

  place-perm : (a : A) (xs : List A) → Perm (place a xs) (a ∷ xs)
  unfolding place
  place-perm a [] = Perm.refl _
  place-perm a (x ∷ xs) = elim (Bool-cases (o.lt (key x) (key a))) [
    | inl below ↦ rw below (Perm.trans (Perm.cons' refl (place-perm a xs)) (Perm.swap a x xs))
    | inr above ↦ rw above (Perm.refl _)
  ]

  pub sort_by_key-perm : (xs : List A) → Perm (sort_by_key xs) xs
  unfolding sort_by_key
  sort_by_key-perm [] = Perm.refl _
  sort_by_key-perm (x ∷ xs) =
      Perm.trans (place-perm x (sort_by_key xs)) (Perm.cons' refl (sort_by_key-perm xs))

  length-filter-place :
      (p : A → Bool) (a : A) (xs : List A)
      → length (filter p (place a xs)) ≡ length (filter p (a ∷ xs))
  unfolding place
  length-filter-place p a [] = refl
  length-filter-place p a (x ∷ xs) = ground (arith, length-filter-place p a xs)

  -- A sort keeps the number of items of each kind.
  pub length-filter-sort_by_key :
      (p : A → Bool) (xs : List A) → length (filter p (sort_by_key xs)) ≡ length (filter p xs)
  unfolding sort_by_key
  length-filter-sort_by_key p [] = refl
  length-filter-sort_by_key p (x ∷ xs) =
      length-filter-place p x (sort_by_key xs) ∙ ground (arith, length-filter-sort_by_key p xs)

module _ {κ} {A : Type 0} {K : Type κ} ⦃o : Ord K⦄ (key : A → K) where
  Occurs-under :
      (b a x : A) (xs ys : List A)
      → (Occurs b (a ∷ xs) → Occurs b ys)
      → Occurs b (a ∷ x ∷ xs)
      → Occurs b (x ∷ ys)
  Occurs-under b a x xs ys f (inl e) = inr (f (inl e))
  Occurs-under b a x xs ys f (inr (inl e)) = inl e
  Occurs-under b a x xs ys f (inr (inr h)) = inr (f (inr h))

  Occurs-place : (b a : A) (xs : List A) → Occurs b (a ∷ xs) → Occurs b (place key a xs)
  unfolding place
  Occurs-place b a [] h = h
  Occurs-place b a (x ∷ xs) h = elim (Bool-cases (o.lt (key x) (key a))) [
    | inl below ↦ rw below (Occurs-under b a x xs (place key a xs) (Occurs-place b a xs) h)
    | inr above ↦ rw above h
  ]

  pub Occurs-sort_by_key : (b : A) (xs : List A) → Occurs b xs → Occurs b (sort_by_key key xs)
  unfolding sort_by_key
  Occurs-sort_by_key b [] h = h
  Occurs-sort_by_key b (x ∷ xs) (inl e) = Occurs-place b x (sort_by_key key xs) (inl e)
  Occurs-sort_by_key b (x ∷ xs) (inr h) =
      Occurs-place b x (sort_by_key key xs) (inr (Occurs-sort_by_key b xs h))
