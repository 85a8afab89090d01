-- ===== src/Common/Decimal.antt =====
-- Rust's decimal numbers: `to_string` of an unsigned integer, and `str::parse` of one, which takes
-- one leading `+` and refuses the empty text, every other `char`, and overflow.
use Prim.Native.Nat.{ℕ, zero, suc, ◌+◌, ◌-◌, ◌*◌, ◌/◌, ◌%◌, ◌^◌, ◌≤◌, ◌<◌}
use mathlib.Core.Path.{◌≡◌, refl, ◌∙◌}
use mathlib.Core.Logic.{◌≢◌}
use mathlib.Core.List.{[], ◌∷◌, cons-ne-nil}
use mathlib.Core.Option.{Option, none, some}
use native.Mathlib.Omega.{arith}
use docker_map.Common.Tests.{ltb, ◌==◌, if◌then◌else◌}
use docker_map.Common.Lists.{All}
use docker_map.Common.Strings.{Text, codes, is_ascii_digit}

abbrev pub max_u64 : ℕ
max_u64 = 2 ^ 64 - 1

abbrev pub max_u16 : ℕ
max_u16 = 2 ^ 16 - 1

-- The digits of `n` before `out`; a fuel above `n` suffices.
digits : ℕ → ℕ → Text → Text
digits zero n out = out
digits (suc f) n out =
    let out' = (b'0' + n % 10) ∷ out in
    let rest = digits f (n / 10) out' in if n / 10 == 0 then out' else rest

unfoldable pub to_string : ℕ → Text
unfolding digits
to_string n = digits (suc n) n []

-- `checked_mul(10)` and `checked_add(d)` fail together when the new value passes the maximum.
scan : ℕ → Text → ℕ → Option ℕ
unfolding is_ascii_digit
scan top [] n = some n
scan top (c ∷ s) n =
    let m = n * 10 + (c - b'0') in
    let rest = scan top s m in if is_ascii_digit c then if ltb top m then none else rest else none

scan_some : ℕ → Text → Option ℕ
unfolding scan
scan_some top [] = none
scan_some top (c ∷ s) = scan top (c ∷ s) 0

-- `parse::<uN>()`, where `top` is `uN::MAX`.
unfoldable pub parse_uint : ℕ → Text → Option ℕ
unfolding scan_some
parse_uint top [] = none
parse_uint top (c ∷ s) = if c == b'+' then scan_some top s else scan_some top (c ∷ s)

abbrev pub IsDigit : ℕ → Type 0
IsDigit c = (b'0' ≤ c) × (c ≤ b'9')

-- With enough fuel the digits of `n` come first, and then `out`.
scan-digits :
    (top f n : ℕ) (out : Text) → n < f → n ≤ top → scan top (digits f n out) 0 ≡ scan top out n
unfolding digits scan
scan-digits top zero n out h fits = absurd (omega arith)
scan-digits top (suc f) n out h fits =
    ground (arith, scan-digits top f (n / 10) ((b'0' + n % 10) ∷ out))

digits-IsDigit : (f n : ℕ) (out : Text) → All IsDigit out → All IsDigit (digits f n out)
unfolding digits
digits-IsDigit zero n out h = h
digits-IsDigit (suc f) n out h = ground (arith, digits-IsDigit f (n / 10) ((b'0' + n % 10) ∷ out))

digits-ne-nil : (f n : ℕ) (out : Text) → out ≢ [] → digits f n out ≢ []
unfolding digits
digits-ne-nil zero n out h = h
digits-ne-nil (suc f) n out h =
    ground (arith, digits-ne-nil f (n / 10) _ (cons-ne-nil (b'0' + n % 10) out))

pub to_string-ne-nil : (n : ℕ) → to_string n ≢ []
unfolding to_string
to_string-ne-nil n = ground (arith, digits-ne-nil n (n / 10) _ (cons-ne-nil (b'0' + n % 10) []))

pub to_string-IsDigit : (n : ℕ) → All IsDigit (to_string n)
unfolding to_string
to_string-IsDigit n = digits-IsDigit (suc n) n [] tt

parse_uint-scan : (top : ℕ) (s : Text) → s ≢ [] → All IsDigit s → parse_uint top s ≡ scan top s 0
unfolding parse_uint
parse_uint-scan top [] h d = absurd (h refl)
parse_uint-scan top (c ∷ s) h d = ground arith

-- Every number in range is read back from its decimal print.
pub parse_uint-to_string : (top n : ℕ) → n ≤ top → parse_uint top (to_string n) ≡ some n
unfolding scan to_string
parse_uint-to_string top n h =
    parse_uint-scan top _ (to_string-ne-nil n) (to_string-IsDigit n)
    ∙ scan-digits top (suc n) n [] (omega arith) h

scan-le : (top : ℕ) (s : Text) (n : ℕ) {r : ℕ} → n ≤ top → scan top s n ≡ some r → r ≤ top
unfolding scan
scan-le top [] n h e = ground arith
scan-le top (c ∷ s) n {r} h e = ground (arith, scan-le top s (n * 10 + (c - b'0')) {r = r})

-- A number that is read is in range: nothing wraps around.
pub parse_uint-le : (top : ℕ) (s : Text) {r : ℕ} → parse_uint top s ≡ some r → r ≤ top
unfolding parse_uint
parse_uint-le top [] e = ground arith
parse_uint-le top (c ∷ []) {r} e = ground (arith, scan-le top (c ∷ []) 0 {r = r})
parse_uint-le top (c ∷ d ∷ s) {r} e =
    ground (arith, scan-le top (c ∷ d ∷ s) 0 {r = r}, scan-le top (d ∷ s) 0 {r = r})

parse_plus : parse_uint max_u16 (codes "+80") ≡ some 80
unfolding parse_uint
parse_plus = refl

parse_overflow : parse_uint max_u16 (codes "65536") ≡ none
unfolding parse_uint
parse_overflow = refl
