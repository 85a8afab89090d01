-- ===== src/Common/Counts.antt =====
-- A map of counters, xs the program builds it over a list: `*counts.entry(key).or_default() += 1`.
use Prim.Native.Nat.{ℕ, ◌+◌}
use mathlib.Core.Path.{◌≡◌, refl, sym, ap, ◌∙◌}
use mathlib.Core.Logic.{◌⊎◌, inl, inr}
use mathlib.Core.Bool.{Bool, true, false, ◌&&◌}
use mathlib.Core.Option.{Option, none, some}
use mathlib.Core.List.{List, [], ◌∷◌}
use native.Mathlib.Omega.{arith}
use docker_map.Common.Tests.{if◌then◌else◌, Bool-cases, unwrap_or, ◌==◌}
use docker_map.Common.Lists.{length, filter}
use docker_map.Common.Maps.{Ord, Map, get, insert, alter, get-insert, IsSorted, insert-IsSorted}

module _ {ℓ κ} {K : Type ℓ} {A : Type κ} ⦃o : Ord K⦄ (key : A → K) (p : A → Bool) where
  unfoldable pub count_from : Map K ℕ → List A → Map K ℕ
  count_from counts [] = counts
  count_from counts (a ∷ xs) =
      count_from (if p a then alter (key a) (λ n. unwrap_or 0 n + 1) counts else counts) xs

  unfoldable pub counts_by : List A → Map K ℕ
  unfolding count_from get insert
  counts_by = count_from []

  -- What the counter of a key stands for.
  abbrev pub count_at : K → List A → ℕ
  count_at k xs = length (filter (λ a. p a && o.eq (key a) k) xs)

  count_from_lem :
      (k : K) (counts : Map K ℕ) (xs : List A)
      → unwrap_or 0 (get k (count_from counts xs)) ≡ unwrap_or 0 (get k counts) + count_at k xs
  unfolding count_from
  count_from_lem k counts [] = omega arith
  count_from_lem k counts (a ∷ xs) =
      count_from_lem k (if p a then alter (key a) (λ n. unwrap_or 0 n + 1) counts else counts) xs
      ∙ step (Bool-cases (p a))
    where
      step :
          ((p a ≡ true) ⊎ (p a ≡ false))
          → unwrap_or 0
                (get k (if p a then alter (key a) (λ n. unwrap_or 0 n + 1) counts else counts))
              + count_at k xs
            ≡ unwrap_or 0 (get k counts) + count_at k (a ∷ xs)
      step (inl counted) = elim (Bool-cases (o.eq (key a) k)) [
        | inl same ↦
            let e : key a ≡ k = (o.eq_iff _ _).0 same in
            let now = get-insert (key a) k (unwrap_or 0 (get (key a) counts) + 1) counts in
            rw (counted, same) (rw now (rw ((o.eq_iff k (key a)).1 (sym e)) (rw e (omega arith))))
        | inr other ↦
            let now = get-insert (key a) k (unwrap_or 0 (get (key a) counts) + 1) counts in
            ground (arith, now, (o.eq_iff k (key a)).0, (o.eq_iff (key a) k).1)
      ]
      step (inr skipped) = rw skipped refl

-- `counts.get(&k) == Some(&1)`.
abbrev pub is_one : Option ℕ → Bool
is_one none = false
is_one (some n) = n == 1

module _ {ℓ κ} {K : Type ℓ} {A : Type κ} ⦃o : Ord K⦄ (key : A → K) (p : A → Bool) where
  is_one-unwrap_or : (n : Option ℕ) → is_one n ≡ (unwrap_or 0 n == 1)
  is_one-unwrap_or none = refl
  is_one-unwrap_or (some n) = refl

  -- A counter is at one exactly when one item of the list was counted for its key.
  pub is_one-counts_by :
      (k : K) (xs : List A) → is_one (get k (counts_by key p xs)) ≡ (count_at key p k xs == 1)
  unfolding counts_by get
  is_one-counts_by k xs =
      is_one-unwrap_or (get k (count_from key p [] xs))
      ∙ ap (λ n. n == 1) (count_from_lem key p k [] xs ∙ omega arith)

  -- What the counter of a key holds.
  pub unwrap_or-counts_by :
      (k : K) (xs : List A) → unwrap_or 0 (get k (counts_by key p xs)) ≡ count_at key p k xs
  unfolding counts_by get
  unwrap_or-counts_by k xs = count_from_lem key p k [] xs ∙ omega arith

  counted-IsSorted :
      (a : A) (counts : Map K ℕ)
      → IsSorted counts
      → IsSorted (if p a then alter (key a) (λ n. unwrap_or 0 n + 1) counts else counts)
  counted-IsSorted a counts d = elim (Bool-cases (p a)) [
    | inl counted ↦ rw counted (insert-IsSorted (key a) _ counts d)
    | inr skipped ↦ rw skipped d
  ]

  count_from-IsSorted :
      (counts : Map K ℕ) (xs : List A) → IsSorted counts → IsSorted (count_from key p counts xs)
  unfolding count_from
  count_from-IsSorted counts [] d = d
  count_from-IsSorted counts (a ∷ xs) d =
      count_from-IsSorted (if p a then alter (key a) (λ n. unwrap_or 0 n + 1) counts else counts) xs
        (counted-IsSorted a counts d)

  pub counts_by-IsSorted : (xs : List A) → IsSorted (counts_by key p xs)
  unfolding counts_by
  counts_by-IsSorted xs = count_from-IsSorted [] xs tt
