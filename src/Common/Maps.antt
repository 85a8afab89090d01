-- ===== src/Common/Maps.antt =====
-- `BTreeMap` as the ascending list of its entries, and `BTreeSet` as the map without values.
use mathlib.Core.Path.{◌≡◌, refl, ap}
use mathlib.Core.Logic.{◌↔◌, inl, inr}
use mathlib.Core.Bool.{Bool, true, false, ◌||◌}
use mathlib.Core.Option.{Option, none, some}
use mathlib.Core.List.{List, [], ◌∷◌}
use native.Mathlib.Omega.{arith}
use docker_map.Common.Tests.{Bool-cases, if◌then◌else◌, is_some}
use docker_map.Common.Lists.{All}
use docker_map.Common.Strings.{Text, text_eq, text_lt, text_eq_iff}

-- A total order that is decided.
pub record Ord {ℓ} (K : Type ℓ) : Type ℓ where
  pub eq : K → K → Bool
  pub lt : K → K → Bool
  pub eq_iff : (a b : K) → (eq a b ≡ true) ↔ (a ≡ b)
  pub lt_irrefl : (a : K) → lt a a ≡ false
  pub lt_trans : (a b c : K) → lt a b ≡ true → lt b c ≡ true → lt a c ≡ true
  pub lt_total : (a b : K) → (eq a b || (lt a b || lt b a)) ≡ true

abbrev pub Map {ℓ κ} : Type ℓ → Type κ → Type (ℓ ⊔ κ)
Map K V = List (K × V)

abbrev pub Set {ℓ} : Type ℓ → Type ℓ
Set K = List (K × Unit {0})

module _ {ℓ κ} {K : Type ℓ} {V : Type κ} ⦃o : Ord K⦄ where
  unfoldable pub get : K → Map K V → Option V
  get k [] = none
  get k ((k', v) ∷ m) = if o.eq k k' then some v else get k m

  abbrev pub contains_key : K → Map K V → Bool
  contains_key k m = is_some (get k m)

  unfoldable pub insert : K → V → Map K V → Map K V
  insert k v [] = (k, v) ∷ []
  insert k v ((k', v') ∷ m) =
      if o.eq k k'
      then (k, v) ∷ m
      else if o.lt k k'
      then (k, v) ∷ (k', v') ∷ m
      else (k', v') ∷ insert k v m

  -- `entry(k)`: what is there, or its absence, decides what is stored.
  abbrev pub alter : K → (Option V → V) → Map K V → Map K V
  alter k f m = insert k (f (get k m)) m

  -- What an insertion leaves to look up.
  pub get-insert :
      (k k' : K) (v : V) (m : Map K V)
      → get k' (insert k v m) ≡ (if o.eq k' k then some v else get k' m)
  unfolding get insert
  get-insert k k' v [] = refl
  get-insert k k' v ((k'', v') ∷ m) = elim (Bool-cases (o.eq k k'')) [
    | inl same ↦ let e : k ≡ k'' = (o.eq_iff k k'').0 same in rw same (rw e (ground arith))
    | inr other ↦
        ground
          (arith, get-insert k k' v m, (o.eq_iff k' k).0, (o.eq_iff k' k'').0, (o.eq_iff k k'').1)
  ]

  abbrev pub IsSorted : Map K V → Type ℓ
  IsSorted [] = Unit
  IsSorted ((k, v) ∷ m) = All (λ p. o.lt k p.0 ≡ true) m × IsSorted m

  All-lt :
      (a b : K) (m : Map K V)
      → o.lt a b ≡ true
      → All (λ p. o.lt b p.0 ≡ true) m
      → All (λ p. o.lt a p.0 ≡ true) m
  All-lt a b [] h w = tt
  All-lt a b ((k, v) ∷ m) h w = (o.lt_trans a b k h w.0, All-lt a b m h w.1)

  All-insert :
      (a k : K) (v : V) (m : Map K V)
      → o.lt a k ≡ true
      → All (λ p. o.lt a p.0 ≡ true) m
      → All (λ p. o.lt a p.0 ≡ true) (insert k v m)
  unfolding insert
  All-insert a k v [] h w = (h, tt)
  All-insert a k v ((k', v') ∷ m) h w = ground (arith, All-insert a k v m h w.1)

  pub insert-IsSorted : (k : K) (v : V) (m : Map K V) → IsSorted m → IsSorted (insert k v m)
  unfolding insert
  insert-IsSorted k v [] d = (tt, tt)
  insert-IsSorted k v ((k', v') ∷ m) d = elim (Bool-cases (o.eq k k')) [
    | inl same ↦ let e : k ≡ k' = (o.eq_iff k k').0 same in rw same ((rw e d.0), d.1)
    | inr other ↦ elim (Bool-cases (o.lt k k')) [
      | inl below ↦ rw (other, below) ((below, All-lt k k' m below d.0), d)
      | inr above ↦
          rw (other, above)
            (All-insert k' k v m (ground (arith, o.lt_total k k')) d.0, insert-IsSorted k v m d.1)
    ]
  ]

  pub get_above : (k : K) (m : Map K V) → All (λ p. o.lt k p.0 ≡ true) m → get k m ≡ none
  unfolding get
  get_above k [] h = refl
  get_above k ((k', v) ∷ m) h = elim (Bool-cases (o.eq k k')) [
    | inl same ↦
        let e : k ≡ k' = (o.eq_iff k k').0 same in absurd (cc (ap (o.lt k) e, o.lt_irrefl k, h.0))
    | inr other ↦ ground (arith, get_above k m h.1)
  ]

  -- In a map each entry is what its key leads to.
  pub entries-get : (m : Map K V) → IsSorted m → All (λ p. get p.0 m ≡ some p.1) m
  unfolding get
  entries-get [] d = tt
  entries-get ((k, v) ∷ m) d =
      let here = (o.eq_iff k k).1 refl in (ground (arith, here), below m d.0 (entries-get m d.1))
    where
      below :
          (xs : Map K V)
          → All (λ p. o.lt k p.0 ≡ true) xs
          → All (λ p. get p.0 m ≡ some p.1) xs
          → All (λ p. get p.0 ((k, v) ∷ m) ≡ some p.1) xs
      below [] h w = tt
      below ((k', v') ∷ xs) h w = elim (Bool-cases (o.eq k' k)) [
        | inl same ↦
            let e : k' ≡ k = (o.eq_iff k' k).0 same in
            absurd (cc (ap (o.lt k) e, o.lt_irrefl k, h.0))
        | inr apart ↦ (ground (arith, w.0), below xs h.1 w.1)
      ]

pub text_lt_irrefl : (s : Text) → text_lt s s ≡ false
unfolding text_lt
text_lt_irrefl [] = refl
text_lt_irrefl (c ∷ s) = ground (arith, text_lt_irrefl s)

pub text_lt_trans : (s t u : Text) → text_lt s t ≡ true → text_lt t u ≡ true → text_lt s u ≡ true
unfolding text_lt
text_lt_trans [] (d ∷ t) (e ∷ u) h k = refl
text_lt_trans [] [] u h k = absurd (ground arith)
text_lt_trans s (d ∷ t) [] h k = absurd (ground arith)
text_lt_trans (c ∷ s) [] u h k = absurd (ground arith)
text_lt_trans (c ∷ s) (d ∷ t) (e ∷ u) h k = ground (arith, text_lt_trans s t u)

pub text_lt_total : (s t : Text) → (text_eq s t || (text_lt s t || text_lt t s)) ≡ true
unfolding text_lt text_eq
text_lt_total [] [] = refl
text_lt_total [] (d ∷ t) = refl
text_lt_total (c ∷ s) [] = refl
text_lt_total (c ∷ s) (d ∷ t) = ground (arith, text_lt_total s t)

instance abbrev pub text_Ord : Ord Text
text_Ord = record {
  eq = text_eq;
  lt = text_lt;
  eq_iff = text_eq_iff;
  lt_irrefl = text_lt_irrefl;
  lt_trans = text_lt_trans;
  lt_total = text_lt_total;
}
