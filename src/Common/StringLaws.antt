-- ===== src/Common/StringLaws.antt =====
-- What the methods of `str` say of a text: a split or a stripped text is put together again.
use mathlib.Core.List.{reverse, reverse-append, reverse-reverse}
use docker_map.Common.{
  ℕ, ◌+◌, ◌≡◌, refl, sym, ap, ◌∙◌, true, false, ◌||◌, [], ◌∷◌, ◌++◌, none, some, arith, ◌==◌,
  Bool-cases, Option-cases, inl, inr, Text, starts_with, ends_with, strip_prefix, strip_suffix,
  contains_char, count_char, split_once,
}

pub strip_prefix_sound : (p s : Text) {r : Text} → strip_prefix p s ≡ some r → s ≡ p ++ r
unfolding strip_prefix
strip_prefix_sound [] s h = ground arith
strip_prefix_sound (c ∷ p) [] h = ground arith
strip_prefix_sound (c ∷ p) (d ∷ s) {r} h = ground (arith, strip_prefix_sound p s {r = r})

pub strip_prefix-append : (p r : Text) → strip_prefix p (p ++ r) ≡ some r
unfolding strip_prefix
strip_prefix-append [] r = refl
strip_prefix-append (c ∷ p) r = ground (arith, strip_prefix-append p r)

pub starts_with_sound : (p s : Text) → starts_with p s ≡ true → (r : Text) × (s ≡ p ++ r)
unfolding starts_with
starts_with_sound [] s h = (s, refl)
starts_with_sound (c ∷ p) [] h = cc
starts_with_sound (c ∷ p) (d ∷ s) h =
    let (r, e) = starts_with_sound p s (ground arith) in (r, ground arith)

pub starts_with-append : (p r : Text) → starts_with p (p ++ r) ≡ true
unfolding starts_with
starts_with-append [] r = refl
starts_with-append (c ∷ p) r = ground (arith, starts_with-append p r)

pub ends_with_sound : (p s : Text) → ends_with p s ≡ true → (r : Text) × (s ≡ r ++ p)
unfolding ends_with
ends_with_sound p s h =
    let (r, e) = starts_with_sound (reverse p) (reverse s) h in
    (
      reverse r,
      sym (reverse-reverse s)
          ∙ ap reverse e
          ∙ reverse-append (reverse p) r
          ∙ ap (λ t. reverse r ++ t) (reverse-reverse p),
    )

pub ends_with-append : (p r : Text) → ends_with p (r ++ p) ≡ true
unfolding ends_with
ends_with-append p r = rw (reverse-append r p) (starts_with-append (reverse p) (reverse r))

pub strip_suffix_sound : (p s : Text) {r : Text} → strip_suffix p s ≡ some r → s ≡ r ++ p
unfolding strip_suffix
strip_suffix_sound p s {r} h = elim (Option-cases (strip_prefix (reverse p) (reverse s))) [
  | inl e ↦ ground arith
  | inr (t, e) ↦
      let back : reverse t ≡ r = ground arith in
      sym (reverse-reverse s)
      ∙ ap reverse (strip_prefix_sound (reverse p) (reverse s) e)
      ∙ reverse-append (reverse p) t
      ∙ cc (back, reverse-reverse p)
]

pub strip_suffix-append : (p r : Text) → strip_suffix p (r ++ p) ≡ some r
unfolding strip_suffix
strip_suffix-append p r = rw (
  reverse-append r p,
  strip_prefix-append (reverse p) (reverse r),
  reverse-reverse r,
  strip_suffix,
)

pub split_once_sound :
    (c : ℕ) (s : Text) {a b : Text} → split_once c s ≡ some (a, b) → s ≡ a ++ c ∷ b
unfolding split_once
split_once_sound c [] h = ground arith
split_once_sound c (d ∷ s) {a} {b} h = elim (Bool-cases (c == d)) [
  | inl e ↦ ground arith
  | inr e ↦ elim (Option-cases (split_once c s)) [
    | inl n ↦ ground arith
    | inr (t, n) ↦ ground (arith, split_once_sound c s {a = t.0} {b = t.1})
  ]
]

pub split_once-append :
    (c : ℕ) (a b : Text) → contains_char c a ≡ false → split_once c (a ++ c ∷ b) ≡ some (a, b)
unfolding split_once contains_char
split_once-append c [] b h = ground arith
split_once-append c (d ∷ a) b h = ground (arith, split_once-append c a b)

pub split_once-none : (c : ℕ) (a : Text) → contains_char c a ≡ false → split_once c a ≡ none
unfolding split_once contains_char
split_once-none c [] h = refl
split_once-none c (d ∷ a) h = ground (arith, split_once-none c a)

pub count_char-append :
    (c : ℕ) (s t : Text) → count_char c (s ++ t) ≡ count_char c s + count_char c t
unfolding count_char
count_char-append c [] t = omega arith
count_char-append c (d ∷ s) t = omega (arith, count_char-append c s t)

pub count_char_none : (c : ℕ) (s : Text) → contains_char c s ≡ false → count_char c s ≡ 0
unfolding count_char contains_char
count_char_none c [] h = refl
count_char_none c (d ∷ s) h = ground (arith, count_char_none c s)

pub contains_char-append :
    (c : ℕ) (s t : Text) → contains_char c (s ++ t) ≡ (contains_char c s || contains_char c t)
unfolding contains_char
contains_char-append c [] t = refl
contains_char-append c (d ∷ s) t = ground (arith, contains_char-append c s t)
