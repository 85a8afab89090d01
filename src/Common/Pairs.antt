-- ===== src/Common/Pairs.antt =====
-- The order of tuples, as Rust derives it: by the first component, then by the second.
use mathlib.Core.Path.{◌≡◌}
use mathlib.Core.Logic.{◌↔◌}
use mathlib.Core.Bool.{Bool, true, false, ◌&&◌, ◌||◌}
use native.Mathlib.Omega.{arith}
use docker_map.Common.Maps.{Ord}

module _ {ℓ κ} {K : Type ℓ} {L : Type κ} ⦃o : Ord K⦄ ⦃p : Ord L⦄ where
  abbrev pub pair_eq : K × L → K × L → Bool
  pair_eq (a, b) (c, d) = o.eq a c && p.eq b d

  abbrev pub pair_lt : K × L → K × L → Bool
  pair_lt (a, b) (c, d) = o.lt a c || (o.eq a c && p.lt b d)

  pub pair_eq_iff : (x y : K × L) → (pair_eq x y ≡ true) ↔ (x ≡ y)
  pair_eq_iff (a, b) (c, d) = (
    λ h. ground (arith, (o.eq_iff a c).0, (p.eq_iff b d).0),
    λ e. ground (arith, (o.eq_iff a c).1, (p.eq_iff b d).1),
  )

  pub pair_lt_irrefl : (x : K × L) → pair_lt x x ≡ false
  pair_lt_irrefl (a, b) = ground (arith, o.lt_irrefl a, p.lt_irrefl b)

  pub pair_lt_trans : (x y z : K × L) → pair_lt x y ≡ true → pair_lt y z ≡ true → pair_lt x z ≡ true
  pair_lt_trans (a, b) (c, d) (e, f) h k = ground (
    arith,
    o.lt_trans a c e,
    p.lt_trans b d f,
    (o.eq_iff a c).0,
    (o.eq_iff c e).0,
    (o.eq_iff a e).1,
  )

  pub pair_lt_total : (x y : K × L) → (pair_eq x y || (pair_lt x y || pair_lt y x)) ≡ true
  pair_lt_total (a, b) (c, d) =
      ground (arith, o.lt_total a c, p.lt_total b d, (o.eq_iff a c).0, (o.eq_iff c a).1)

  instance abbrev pub pair_Ord : Ord (K × L)
  pair_Ord = record {
    eq = pair_eq;
    lt = pair_lt;
    eq_iff = pair_eq_iff;
    lt_irrefl = pair_lt_irrefl;
    lt_trans = pair_lt_trans;
    lt_total = pair_lt_total;
  }
