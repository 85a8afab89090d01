-- ===== src/Common/Int.antt =====
-- Rust's signed integers. The operations are those of the integers, `/` truncating toward zero, and
-- `wrap` takes a result into the range of an `i64`, as a release build does.
use Prim.Native.Nat.{ℕ, suc, ◌+◌, ◌-◌, ◌*◌, ◌/◌, ◌%◌, ◌^◌, ◌≤◌, ◌<◌}
use mathlib.Core.Path.{◌≡◌}
use native.Mathlib.Omega.{arith}
use native.Mathlib.Decide.{dec_le}
use docker_map.Common.Tests.{leb, ltb, if◌then◌else◌}

-- `negsuc n` is -(n + 1).
pub data ℤ : Type 0 where
  pos : ℕ → ℤ
  negsuc : ℕ → ℤ

abbrev pub pos_part : ℤ → ℕ
pos_part (pos n) = n
pos_part (negsuc n) = 0

abbrev pub neg_part : ℤ → ℕ
neg_part (pos n) = 0
neg_part (negsuc n) = suc n

-- a - b, as an integer.
abbrev pub sub_ℕ : ℕ → ℕ → ℤ
sub_ℕ a b = if leb b a then pos (a - b) else negsuc (b - a - 1)

infixl 65 ◌+ℤ◌ ◌-ℤ◌
infixl 70 ◌*ℤ◌ ◌/ℤ◌
unfoldable pub ◌+ℤ◌ : ℤ → ℤ → ℤ
a +ℤ b = sub_ℕ (pos_part a + pos_part b) (neg_part a + neg_part b)

unfoldable pub ◌-ℤ◌ : ℤ → ℤ → ℤ
a -ℤ b = sub_ℕ (pos_part a + neg_part b) (neg_part a + pos_part b)

unfoldable pub ◌*ℤ◌ : ℤ → ℤ → ℤ
a *ℤ b =
    sub_ℕ (pos_part a * pos_part b + neg_part a * neg_part b)
      (pos_part a * neg_part b + neg_part a * pos_part b)

-- Division by a positive number.
unfoldable pub ◌/ℤ◌ : ℤ → ℕ → ℤ
pos n /ℤ k = pos (n / k)
negsuc n /ℤ k = sub_ℕ 0 (suc n / k)

pub sub_ℕ_pos : (a b : ℕ) → b ≤ a → sub_ℕ a b ≡ pos (a - b)
sub_ℕ_pos a b h = ground arith

pub pos-+ℤ : (a b : ℕ) → pos a +ℤ pos b ≡ pos (a + b)
unfolding ◌+ℤ◌
pos-+ℤ a b = ground arith

pub pos--ℤ : (a b : ℕ) → b ≤ a → pos a -ℤ pos b ≡ pos (a - b)
unfolding ◌-ℤ◌
pos--ℤ a b h = ground arith

pub pos-*ℤ : (a b : ℕ) → pos a *ℤ pos b ≡ pos (a * b)
unfolding ◌*ℤ◌
pos-*ℤ a b = ground arith

unfoldable pub wrap : ℤ → ℤ
wrap (pos n) = let r = n % 2 ^ 64 in if ltb r (2 ^ 63) then pos r else negsuc (2 ^ 64 - 1 - r)
wrap (negsuc n) = let r = n % 2 ^ 64 in if ltb r (2 ^ 63) then negsuc r else pos (2 ^ 64 - 1 - r)

pub wrap-pos : (n : ℕ) → n < 2 ^ 63 → wrap (pos n) ≡ pos n
unfolding wrap
wrap-pos n h = let small : n % 2 ^ 64 ≡ n = omega arith in rw small (ground arith)

pub wrap-negsuc : (n : ℕ) → n < 2 ^ 63 → wrap (negsuc n) ≡ negsuc n
unfolding wrap
wrap-negsuc n h = let small : n % 2 ^ 64 ≡ n = omega arith in rw small (ground arith)

pub wrap-sub_ℕ : (a b : ℕ) → a < 2 ^ 63 → b < 2 ^ 63 → wrap (sub_ℕ a b) ≡ sub_ℕ a b
wrap-sub_ℕ a b h k = elim (dec_le b a) [
  | yes above ↦ rw (sub_ℕ_pos a b above) (wrap-pos (a - b) (omega arith))
  | no below ↦
      let lower : sub_ℕ a b ≡ negsuc (b - a - 1) = ground arith in
      rw lower (wrap-negsuc (b - a - 1) (omega arith))
]
