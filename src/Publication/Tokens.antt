-- ===== src/Publication/Tokens.antt =====
-- White space may become a replacement character: tokens then run together, and no new token
-- begins with a flag.
use docker_map.Common.{
  ℕ, ◌≡◌, refl, ap, ◌∙◌, Bool, true, false, not, List, [], ◌∷◌, ◌++◌, map, arith, ◌==◌, any, all,
  Text, codes, Bool-cases, text_eq, starts_with, is_whitespace, trim_start, inl, inr,
}
use docker_map.Publication.Sensitive.{
  shown, head_token, tokens, is_flag_token, sensitive_flags, contains_sensitive_flag,
  contains_auth_scheme,
}
use docker_map.Publication.Normalized.{
  is_safe, ==-shown, is_whitespace-shown, starts_with-shown, contains-shown,
}

-- A safe character that is shown was there.
shown-safe : (g c : ℕ) → is_safe g ≡ true → (g == shown c) ≡ true → c ≡ shown c
shown-safe g c safe h = ground (arith, ==-shown g c)

-- Where the first characters are safe, a token keeps them.
starts_with-head_token :
    (p s : Text)
    → all is_safe p ≡ true
    → starts_with p (head_token (map shown s)) ≡ true
    → starts_with p (head_token s) ≡ true
unfolding starts_with head_token
starts_with-head_token [] s safe h = refl
starts_with-head_token (g ∷ p) [] safe h = absurd (ground arith)
starts_with-head_token (g ∷ p) (c ∷ s) safe h = elim (Bool-cases (is_whitespace (shown c))) [
  | inl white ↦ absurd (ground arith)
  | inr black ↦
      let same : c ≡ shown c = shown-safe g c (ground arith) (ground arith) in
      let black' : is_whitespace c ≡ false = ap is_whitespace same ∙ black in
      ground (arith, ==-shown g c, starts_with-head_token p s)
]

text_eq-head_token :
    (p s : Text)
    → all is_safe p ≡ true
    → text_eq (head_token (map shown s)) p ≡ true
    → text_eq (head_token s) p ≡ true
unfolding text_eq head_token
text_eq-head_token [] [] safe h = refl
text_eq-head_token (g ∷ p) [] safe h = absurd (ground arith)
text_eq-head_token [] (c ∷ s) safe h = ground (arith, is_whitespace-shown c)
text_eq-head_token (g ∷ p) (c ∷ s) safe h = elim (Bool-cases (is_whitespace (shown c))) [
  | inl white ↦ absurd (ground arith)
  | inr black ↦
      let same : c ≡ shown c = shown-safe g c (ground arith) (ground arith) in
      let black' : is_whitespace c ≡ false = ap is_whitespace same ∙ black in
      ground (arith, ==-shown g c, text_eq-head_token p s)
]

starts_with-trim_start :
    (p s : Text)
    → all is_safe p ≡ true
    → starts_with p (trim_start (map shown s)) ≡ true
    → starts_with p (trim_start s) ≡ true
unfolding trim_start starts_with
starts_with-trim_start [] s safe h = refl
starts_with-trim_start (g ∷ p) [] safe h = h
starts_with-trim_start (g ∷ p) (c ∷ s) safe h = elim (Bool-cases (is_whitespace (shown c))) [
  | inl white ↦
      let rest : starts_with (g ∷ p) (trim_start (map shown s)) ≡ true = ground arith in
      rw (is_whitespace-shown c white) (starts_with-trim_start (g ∷ p) s safe rest)
  | inr black ↦
      let same : c ≡ shown c = shown-safe g c (ground arith) (ground arith) in
      let black' : is_whitespace c ≡ false = ap is_whitespace same ∙ black in
      ground (arith, ==-shown g c, starts_with-shown p s)
]

abbrev is_flagged : Text → Bool
is_flagged token = any (is_flag_token token) sensitive_flags

all_safe-append : (p : Text) → all is_safe p ≡ true → all is_safe (p ++ b'=' ∷ []) ≡ true
unfolding is_safe
all_safe-append [] h = refl
all_safe-append (g ∷ p) h = ground (arith, all_safe-append p)

flagged-head_token :
    (flags : List Text) (s : Text)
    → all (all is_safe) flags ≡ true
    → any (is_flag_token (head_token (map shown s))) flags ≡ true
    → any (is_flag_token (head_token s)) flags ≡ true
flagged-head_token [] s safe h = h
flagged-head_token (flag ∷ flags) s safe h = ground (
  arith,
  all_safe-append flag,
  text_eq-head_token flag s,
  starts_with-head_token (flag ++ b'=' ∷ []) s,
  flagged-head_token flags s,
)

flags-safe : all (all is_safe) sensitive_flags ≡ true
unfolding is_safe sensitive_flags
flags-safe = refl

head_token-nil :
    (c : ℕ) (s : Text) → is_whitespace c ≡ true → is_flagged (head_token (c ∷ s)) ≡ false
unfolding head_token text_eq starts_with sensitive_flags
head_token-nil c s white = rw white refl

goes_on : (c : ℕ) → not (is_whitespace c) ≡ true → not (is_whitespace (shown c)) ≡ true
goes_on c h = ground (arith, is_whitespace-shown c)

-- The tokens that remain begin where tokens began.
any-tokens-shown :
    (before after : Bool) (s : Text)
    → (before ≡ true → after ≡ true)
    → any is_flagged (tokens after (map shown s)) ≡ true
    → any is_flagged (tokens before s) ≡ true
unfolding tokens
any-tokens-shown before after [] inside h = h
any-tokens-shown before after (c ∷ s) inside h = ground (
  arith,
  inside,
  head_token-nil c s,
  is_whitespace-shown c,
  flagged-head_token sensitive_flags (c ∷ s) flags-safe,
  any-tokens-shown (not (is_whitespace c)) (not (is_whitespace (shown c))) s (goes_on c),
)

pub contains_sensitive_flag-shown :
    (s : Text) → contains_sensitive_flag (map shown s) ≡ true → contains_sensitive_flag s ≡ true
unfolding contains_sensitive_flag
contains_sensitive_flag-shown s h = any-tokens-shown false false s (λ e. e) h

auth-safe :
    (all is_safe (codes "bearer ") ≡ true)
    × (all is_safe (codes "authorization: bearer") ≡ true)
    × (all is_safe (codes "authorization: basic") ≡ true)
    × (all is_safe (codes "authorization=bearer") ≡ true)
    × (all is_safe (codes "authorization=basic") ≡ true)
unfolding is_safe
auth-safe = (refl, refl, refl, refl, refl)

pub contains_auth_scheme-shown :
    (s : Text) → contains_auth_scheme (map shown s) ≡ true → contains_auth_scheme s ≡ true
unfolding contains_auth_scheme
contains_auth_scheme-shown s h = ground (
  arith,
  starts_with-trim_start (codes "bearer ") s auth-safe.0,
  contains-shown (codes "authorization: bearer") s auth-safe.1,
  contains-shown (codes "authorization: basic") s auth-safe.2,
  contains-shown (codes "authorization=bearer") s auth-safe.3,
  contains-shown (codes "authorization=basic") s auth-safe.4,
)
