-- ===== src/Publication/Normalized.antt =====
-- What the replacement of unsafe characters leaves of a search: the texts that are looked for are
-- made of safe characters, which are not moved.
use docker_map.Common.{
  ℕ, zero, suc, ◌+◌, ◌≤◌, ◌<◌, ◌≡◌, refl, sym, ap, ◌∙◌, Bool, true, false, not, ◌&&◌, List, [], ◌∷◌,
  map, Option, none, some, arith, ◌==◌, leb, any, all, Text, Bool-cases, starts_with, contains,
  contains_char, is_whitespace, to_ascii_lowercase, drop, inl, inr,
}
use docker_map.Publication.Sensitive.{
  unsafe_runtime_display_character, replacement, shown, after_scheme, authority_of,
  contains_url_userinfo, lowered, contains_sensitive_assignment, assignment_needles, has_userinfo,
  scheme_mark, ends_authority,
}

-- A character that stays, and that nothing else becomes.
unfoldable pub is_safe : ℕ → Bool
unfolding unsafe_runtime_display_character
is_safe c = not (unsafe_runtime_display_character c) && not (c == replacement)

pub ==-shown : (g c : ℕ) → is_safe g ≡ true → (g == shown c) ≡ (g == c)
unfolding shown is_safe
==-shown g c h = elim (Bool-cases (unsafe_runtime_display_character c)) [
  | inl e ↦ ground arith
  | inr e ↦ rw e refl
]

replacement-black : is_whitespace replacement ≡ false
unfolding is_whitespace
replacement-black = refl

pub is_whitespace-shown : (c : ℕ) → is_whitespace (shown c) ≡ true → is_whitespace c ≡ true
unfolding shown
is_whitespace-shown c h = elim (Bool-cases (unsafe_runtime_display_character c)) [
  | inl e ↦
      let becomes : shown c ≡ replacement = rw e refl in
      let white : is_whitespace replacement ≡ true = sym (ap is_whitespace becomes) ∙ h in
      absurd (cc (white, replacement-black))
  | inr e ↦ let stays : shown c ≡ c = rw e refl in sym (ap is_whitespace stays) ∙ h
]

pub starts_with-shown :
    (p s : Text) → all is_safe p ≡ true → starts_with p (map shown s) ≡ starts_with p s
unfolding starts_with
starts_with-shown [] s h = refl
starts_with-shown (g ∷ p) [] h = refl
starts_with-shown (g ∷ p) (c ∷ s) h = ground (arith, ==-shown g c, starts_with-shown p s)

pub contains-shown : (p s : Text) → all is_safe p ≡ true → contains p (map shown s) ≡ contains p s
unfolding contains
contains-shown p [] h = refl
contains-shown p (c ∷ s) h = ground (arith, starts_with-shown p (c ∷ s), contains-shown p s)

pub contains_char-shown :
    (g : ℕ) (s : Text) → is_safe g ≡ true → contains_char g (map shown s) ≡ contains_char g s
unfolding contains_char
contains_char-shown g [] h = refl
contains_char-shown g (c ∷ s) h = ground (arith, ==-shown g c, contains_char-shown g s)

pub any-contains-shown :
    (needles : List Text) (s : Text)
    → all (all is_safe) needles ≡ true
    → any (λ n. contains n (map shown s)) needles ≡ any (λ n. contains n s) needles
any-contains-shown [] s h = refl
any-contains-shown (n ∷ needles) s h =
    ground (arith, contains-shown n s, any-contains-shown needles s)

unsafe-ascii : (c : ℕ) → 32 ≤ c → c < 127 → unsafe_runtime_display_character c ≡ false
unfolding unsafe_runtime_display_character
unsafe-ascii c h k = ground arith

-- Lowering moves no character across the line.
to_ascii_lowercase-shown : (c : ℕ) → to_ascii_lowercase (shown c) ≡ shown (to_ascii_lowercase c)
unfolding shown to_ascii_lowercase
to_ascii_lowercase-shown c = elim (Bool-cases (leb b'A' c && leb c b'Z')) [
  | inl upper ↦
      let stays = unsafe-ascii c (ground arith) (ground arith) in
      let stays' = unsafe-ascii (c + 32) (omega arith) (ground arith) in
      rw (stays, upper) (rw stays' refl)
  | inr other ↦ rw other (elim (Bool-cases (unsafe_runtime_display_character c)) [
    | inl e ↦ rw e refl
    | inr e ↦ rw e (rw other refl)
  ])
]

pub lowered-shown : (s : Text) → lowered (map shown s) ≡ map shown (lowered s)
lowered-shown [] = refl
lowered-shown (c ∷ s) = cc (to_ascii_lowercase-shown c, lowered-shown s)

map-drop : (n : ℕ) (s : Text) → drop n (map shown s) ≡ map shown (drop n s)
map-drop zero s = refl
map-drop (suc n) [] = refl
map-drop (suc n) (c ∷ s) = map-drop n s

abbrev shown_rest : Option Text → Option Text
shown_rest none = none
shown_rest (some s) = some (map shown s)

scheme_mark-safe : all is_safe scheme_mark ≡ true
unfolding is_safe scheme_mark
scheme_mark-safe = refl

after_scheme-shown : (s : Text) → after_scheme (map shown s) ≡ shown_rest (after_scheme s)
unfolding after_scheme
after_scheme-shown [] = refl
after_scheme-shown (c ∷ s) =
    let same = starts_with-shown scheme_mark (c ∷ s) scheme_mark-safe in
    elim (Bool-cases (starts_with scheme_mark (c ∷ s))) [
      | inl here ↦ rw (same, here) (ap some (map-drop 2 s))
      | inr other ↦ rw (same, other) (after_scheme-shown s)
    ]

shown-== : (c g : ℕ) → is_safe g ≡ true → (shown c == g) ≡ (c == g)
shown-== c g h = ground (arith, ==-shown g c)

ends_authority-shown : (c : ℕ) → ends_authority (shown c) ≡ ends_authority c
unfolding is_safe
ends_authority-shown c = cc (shown-== c b'/' refl, shown-== c b'?' refl, shown-== c b'#' refl)

authority_of-shown : (s : Text) → authority_of (map shown s) ≡ map shown (authority_of s)
unfolding authority_of
authority_of-shown [] = refl
authority_of-shown (c ∷ s) = ground (arith, ends_authority-shown c, authority_of-shown s)

pub contains_url_userinfo-shown :
    (s : Text) → contains_url_userinfo (map shown s) ≡ contains_url_userinfo s
unfolding contains_url_userinfo is_safe
contains_url_userinfo-shown s = ap has_userinfo (after_scheme-shown s) ∙ by_rest (after_scheme s)
  where
    by_rest : (r : Option Text) → has_userinfo (shown_rest r) ≡ has_userinfo r
    by_rest none = refl
    by_rest (some a) =
        ap (contains_char b'@') (authority_of-shown a)
        ∙ contains_char-shown b'@' (authority_of a) refl

needles-safe : all (all is_safe) assignment_needles ≡ true
unfolding is_safe assignment_needles
needles-safe = refl

pub contains_sensitive_assignment-shown :
    (s : Text) → contains_sensitive_assignment (map shown s) ≡ contains_sensitive_assignment s
unfolding contains_sensitive_assignment
contains_sensitive_assignment-shown s = any-contains-shown assignment_needles s needles-safe
