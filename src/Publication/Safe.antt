-- ===== src/Publication/Safe.antt =====
-- `redact_runtime_display_text` of publication.rs: what a text is after it.
use docker_map.Common.{
  to_ascii_lowercase, ℕ, ◌≡◌, subst, refl, sym, ap, ◌∙◌, true, false, ◌||◌, [], ◌∷◌, map, arith,
  all, Text, codes, Bool-cases, All, contains, starts_with, trim_start, text_eq, inl, inr,
}
use docker_map.Publication.Sensitive.{
  scheme_mark, assignment_needles, sensitive_flags, redacted_value,
  unsafe_runtime_display_character, shown, normalize_runtime_display_string, lowered,
  is_sensitive_text, redact_sensitive_text, redact_runtime_display_text, contains_url_userinfo,
  contains_sensitive_assignment, contains_sensitive_flag, contains_auth_scheme, after_scheme,
  head_token,
}
use docker_map.Publication.Normalized.{
  is_safe, contains-shown, lowered-shown, contains_url_userinfo-shown,
  contains_sensitive_assignment-shown,
}
use docker_map.Publication.Tokens.{contains_sensitive_flag-shown, contains_auth_scheme-shown}

marker-safe : all is_safe (codes "dockermap_test_fake_") ≡ true
unfolding is_safe
marker-safe = refl

-- Cleaning a text makes no secret.
is_sensitive_text-shown :
    (s : Text) → is_sensitive_text (map shown s) ≡ true → is_sensitive_text s ≡ true
unfolding is_sensitive_text
is_sensitive_text-shown s h =
    let parted =
      subst
        (λ l.
          (contains (codes "dockermap_test_fake_") l
            || (contains_url_userinfo (map shown s)
                || (contains_sensitive_assignment l
                    || (contains_sensitive_flag l || contains_auth_scheme l))))
          ≡ true)
        (lowered-shown s) h in
    ground (
      arith,
      contains-shown (codes "dockermap_test_fake_") (lowered s) marker-safe,
      contains_url_userinfo-shown s,
      contains_sensitive_assignment-shown (lowered s),
      contains_sensitive_flag-shown (lowered s),
      contains_auth_scheme-shown (lowered s),
    )

redacted_value-plain : is_sensitive_text (map shown redacted_value) ≡ false
unfolding contains starts_with text_eq is_sensitive_text redacted_value shown
    unsafe_runtime_display_character contains_url_userinfo contains_sensitive_assignment
    contains_sensitive_flag contains_auth_scheme trim_start to_ascii_lowercase after_scheme
    scheme_mark assignment_needles sensitive_flags head_token
redacted_value-plain = refl

replacement-stays : unsafe_runtime_display_character 0xfffd ≡ false
unfolding unsafe_runtime_display_character
replacement-stays = refl

unsafe-shown : (c : ℕ) → unsafe_runtime_display_character (shown c) ≡ false
unfolding shown
unsafe-shown c = elim (Bool-cases (unsafe_runtime_display_character c)) [
  | inl e ↦ rw e replacement-stays
  | inr e ↦ rw e e
]

abbrev pub IsDisplayable : Text → Type 0
IsDisplayable = All (λ c. unsafe_runtime_display_character c ≡ false)

shown-IsDisplayable : (s : Text) → IsDisplayable (map shown s)
shown-IsDisplayable [] = tt
shown-IsDisplayable (c ∷ s) = (unsafe-shown c, shown-IsDisplayable s)

shown-stays : (s : Text) → IsDisplayable s → map shown s ≡ s
unfolding shown
shown-stays [] h = refl
shown-stays (c ∷ s) h = rw h.0 (ap (◌∷◌ c) (shown-stays s h.1))

not_sensitive-shown :
    (s : Text) → is_sensitive_text s ≡ false → is_sensitive_text (map shown s) ≡ false
not_sensitive-shown s h = elim (Bool-cases (is_sensitive_text (map shown s))) [
  | inl e ↦ let bad : true ≡ false = sym (is_sensitive_text-shown s e) ∙ h in absurd (cc)
  | inr e ↦ e
]

redacted-plain : (value : Text) → is_sensitive_text (redact_runtime_display_text value) ≡ false
unfolding redact_runtime_display_text redact_sensitive_text normalize_runtime_display_string
redacted-plain value = elim (Bool-cases (is_sensitive_text value)) [
  | inl e ↦ rw e redacted_value-plain
  | inr e ↦ rw e (not_sensitive-shown value e)
]

redacted-IsDisplayable : (value : Text) → IsDisplayable (redact_runtime_display_text value)
unfolding redact_runtime_display_text normalize_runtime_display_string
redacted-IsDisplayable value = shown-IsDisplayable (redact_sensitive_text value)

again :
    (s : Text) → IsDisplayable s → is_sensitive_text s ≡ false → redact_runtime_display_text s ≡ s
unfolding redact_runtime_display_text redact_sensitive_text normalize_runtime_display_string
again s shows plain = rw plain (shown-stays s shows)

-- A text that has passed the boundary holds no unsafe character and no longer looks like a
-- secret, and passing it again changes nothing.
pub redact_runtime_display_text_clean :
    (value : Text)
    → IsDisplayable (redact_runtime_display_text value)
      × (is_sensitive_text (redact_runtime_display_text value) ≡ false)
      × (redact_runtime_display_text (redact_runtime_display_text value)
          ≡ redact_runtime_display_text value)
redact_runtime_display_text_clean value = (
  redacted-IsDisplayable value,
  redacted-plain value,
  again _ (redacted-IsDisplayable value) (redacted-plain value),
)
