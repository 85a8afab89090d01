-- ===== src/Access/Token.antt =====
-- `require_daemon_bearer_token` and `daemon_token_matches`. A text is its bytes here, as the code
-- compares `bytes()`; the header's value is what `to_str` yields, which is visible ASCII.
use docker_map.Common.{
  ℕ, zero, suc, ◌+◌, ◌*◌, ◌/◌, ◌%◌, ◌<◌, ◌≡◌, ◌↔◌, inl, inr, refl, sym, ap, ◌∙◌, Bool, true, false,
  not, List, [], ◌∷◌, ◌++◌, Option, none, some, arith, ◌==◌, if◌then◌else◌, is_some_and, All,
  All-append, length, Bool-cases, Option-cases, subst, Text, codes, text_eq, text_eq_sound,
  is_whitespace,
}

-- `^` and `|` on the lowest bits.
bit_xor : ℕ → ℕ → ℕ → ℕ
bit_xor zero a b = 0
bit_xor (suc n) a b = (a % 2 + b % 2) % 2 + 2 * bit_xor n (a / 2) (b / 2)

bit_or : ℕ → ℕ → ℕ → ℕ
bit_or zero a b = 0
bit_or (suc n) a b = (if (a % 2 + b % 2) == 0 then 0 else 1) + 2 * bit_or n (a / 2) (b / 2)

-- The fold over the pairs of bytes.
differences : Text → Text → ℕ → ℕ
differences [] right difference = difference
differences (a ∷ left) [] difference = difference
differences (a ∷ left) (b ∷ right) difference =
    differences left right (bit_or 8 difference (bit_xor 8 a b))

pub daemon_token_matches : Text → Text → Bool
daemon_token_matches received expected =
    if not (length received == length expected) then false else differences received expected 0 == 0

-- `split_whitespace`, with the word that is being read.
unfoldable pub words_from : Text → Text → List Text
words_from [] [] = []
words_from (w ∷ word) [] = (w ∷ word) ∷ []
words_from [] (c ∷ s) = elim (is_whitespace c) [
  | true ↦ words_from [] s
  | false ↦ words_from (c ∷ []) s
]
words_from (w ∷ word) (c ∷ s) = elim (is_whitespace c) [
  | true ↦ (w ∷ word) ∷ words_from [] s
  | false ↦ words_from ((w ∷ word) ++ c ∷ []) s
]

unfoldable pub split_whitespace : Text → List Text
split_whitespace s = words_from [] s

pub bearer : List Text → Option Text
bearer (scheme ∷ token ∷ []) = if text_eq scheme (codes "Bearer") then some token else none
bearer _ = none

-- Whether the request goes on to its route.
pub require_daemon_bearer_token : Option Text → Option Text → Bool
require_daemon_bearer_token none authorization = true
require_daemon_bearer_token (some expected) authorization =
    is_some_and
      (λ value.
        is_some_and (λ token. daemon_token_matches token expected)
          (bearer (split_whitespace value)))
      authorization

-- A text of bytes.
abbrev pub IsBytes : Text → Type 0
IsBytes = All (λ b. b < 256)

abbrev power : ℕ → ℕ
power zero = 1
power (suc n) = power n + power n

bit_or_zero : (n a b : ℕ) → a < power n → b < power n → bit_or n a b ≡ 0 → (a ≡ 0) × (b ≡ 0)
unfolding bit_or
bit_or_zero zero a b ha hb h = (omega arith, omega arith)
bit_or_zero (suc n) a b ha hb h = ground (arith, bit_or_zero n (a / 2) (b / 2))

bit_xor_zero : (n a b : ℕ) → a < power n → b < power n → bit_xor n a b ≡ 0 → a ≡ b
unfolding bit_xor
bit_xor_zero zero a b ha hb h = omega arith
bit_xor_zero (suc n) a b ha hb h = ground (arith, bit_xor_zero n (a / 2) (b / 2))

bit_or_lt : (n a b : ℕ) → bit_or n a b < power n
unfolding bit_or
bit_or_lt zero a b = omega arith
bit_or_lt (suc n) a b = ground (arith, bit_or_lt n (a / 2) (b / 2))

bit_xor_lt : (n a b : ℕ) → bit_xor n a b < power n
unfolding bit_xor
bit_xor_lt zero a b = omega arith
bit_xor_lt (suc n) a b = omega (arith, bit_xor_lt n (a / 2) (b / 2))

bit_xor_same : (n a : ℕ) → bit_xor n a a ≡ 0
unfolding bit_xor
bit_xor_same zero a = refl
bit_xor_same (suc n) a = omega (arith, bit_xor_same n (a / 2))

differences_sound :
    (left right : Text) (d : ℕ)
    → d < 256
    → length left ≡ length right
    → IsBytes left
    → IsBytes right
    → differences left right d ≡ 0
    → (d ≡ 0) × (left ≡ right)
unfolding differences
differences_sound [] [] d hd l hl hr h = (h, refl)
differences_sound [] (b ∷ right) d hd l hl hr h = absurd (omega arith)
differences_sound (a ∷ left) [] d hd l hl hr h = absurd (omega arith)
differences_sound (a ∷ left) (b ∷ right) d hd l hl hr h =
    let x = bit_xor 8 a b in
    let (none_yet, rest) =
      differences_sound left right (bit_or 8 d x) (bit_or_lt 8 d x) (omega arith) hl.1 hr.1 h in
    let (zero_before, same) = bit_or_zero 8 d x hd (bit_xor_lt 8 a b) none_yet in
    let e = bit_xor_zero 8 a b hl.0 hr.0 same in (zero_before, cc (e, rest))

bit_or_zeros : bit_or 8 0 0 ≡ 0
unfolding bit_or
bit_or_zeros = refl

differences_same : (s : Text) → differences s s 0 ≡ 0
unfolding differences
differences_same [] = refl
differences_same (a ∷ s) = rw (bit_xor_same 8 a, bit_or_zeros) (differences_same s)

daemon_token_matches_iff :
    (received expected : Text)
    → IsBytes received
    → IsBytes expected
    → (daemon_token_matches received expected ≡ true) ↔ (received ≡ expected)
unfolding daemon_token_matches
daemon_token_matches_iff received expected hr he = (
  λ h. (differences_sound received expected 0 (omega arith) (ground arith) hr he (ground arith)).1,
  λ e. rw e (ground (arith, differences_same expected)),
)

append-IsBytes : (s t : Text) → IsBytes s → IsBytes t → IsBytes (s ++ t)
append-IsBytes s t = All-append (λ b. b < 256) s t

words_from-IsBytes : (word s : Text) → IsBytes word → IsBytes s → All IsBytes (words_from word s)
unfolding words_from
words_from-IsBytes [] [] hw hs = tt
words_from-IsBytes (w ∷ word) [] hw hs = (hw, tt)
words_from-IsBytes [] (c ∷ s) hw hs = elim (Bool-cases (is_whitespace c)) [
  | inl gap ↦
      subst (λ b. All IsBytes (elim b [ true ↦ words_from [] s | false ↦ words_from (c ∷ []) s ]))
        (sym gap) (words_from-IsBytes [] s tt hs.1)
  | inr letter ↦
      subst (λ b. All IsBytes (elim b [ true ↦ words_from [] s | false ↦ words_from (c ∷ []) s ]))
        (sym letter) (words_from-IsBytes (c ∷ []) s (hs.0, tt) hs.1)
]
words_from-IsBytes (w ∷ word) (c ∷ s) hw hs = elim (Bool-cases (is_whitespace c)) [
  | inl gap ↦
      subst
        (λ b. All IsBytes (elim b [
          | true ↦ (w ∷ word) ∷ words_from [] s
          | false ↦ words_from ((w ∷ word) ++ c ∷ []) s
        ]))
        (sym gap) (hw, words_from-IsBytes [] s tt hs.1)
  | inr letter ↦
      subst
        (λ b. All IsBytes (elim b [
          | true ↦ (w ∷ word) ∷ words_from [] s
          | false ↦ words_from ((w ∷ word) ++ c ∷ []) s
        ]))
        (sym letter)
        (words_from-IsBytes ((w ∷ word) ++ c ∷ []) s
          (append-IsBytes (w ∷ word) (c ∷ []) hw (hs.0, tt)) hs.1)
]

bearer_sound :
    (words : List Text) {token : Text}
    → bearer words ≡ some token
    → words ≡ codes "Bearer" ∷ token ∷ []
unfolding bearer
bearer_sound (scheme ∷ t ∷ []) {token} h = elim (Bool-cases (text_eq scheme (codes "Bearer"))) [
  | inl e ↦
      let named : scheme ≡ codes "Bearer" = text_eq_sound scheme (codes "Bearer") e in
      let same : t ≡ token = ground arith in cc (named, same)
  | inr e ↦ absurd (ground arith)
]
bearer_sound [] h = absurd (cc h)
bearer_sound (a ∷ []) h = absurd (cc h)
bearer_sound (a ∷ b ∷ d ∷ words) h = absurd (cc h)

-- With a token configured, a request goes on just if its authorization header consists of the words
-- `Bearer` and that very token.
pub require_daemon_bearer_token_iff :
    (expected : Text) (authorization : Option Text)
    → IsBytes expected
    → ((value : Text) → authorization ≡ some value → IsBytes value)
    → (require_daemon_bearer_token (some expected) authorization ≡ true) ↔ (
        (value : Text) × (authorization ≡ some value)
        × (split_whitespace value ≡ codes "Bearer" ∷ expected ∷ []))
unfolding require_daemon_bearer_token
require_daemon_bearer_token_iff expected none he ha = (λ h. absurd (cc h), λ w. absurd (cc w.1))
require_daemon_bearer_token_iff expected (some value) he ha = (
  λ h. elim (Option-cases (bearer (split_whitespace value))) [
    | inl n ↦ absurd (ground arith)
    | inr (token, b) ↦
        let words = bearer_sound (split_whitespace value) {token = token} b in
        let bytes : All IsBytes (split_whitespace value) =
          unfold split_whitespace in words_from-IsBytes [] value tt (ha value refl) in
        let bytes' : All IsBytes (codes "Bearer" ∷ token ∷ []) = subst (All IsBytes) words bytes in
        let same = (daemon_token_matches_iff token expected bytes'.1.0 he).0 (ground arith) in
        (value, refl, words ∙ ap (λ t. codes "Bearer" ∷ t ∷ []) same)
  ],
  λ w.
      let here : value ≡ w.0 = cc w.1 in
      let words : split_whitespace value ≡ codes "Bearer" ∷ expected ∷ [] =
        ap split_whitespace here ∙ w.2 in
      let matches = (daemon_token_matches_iff expected expected he he).1 refl in
      rw words (unfold bearer text_eq in matches),
)
