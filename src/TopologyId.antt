-- ===== src/TopologyId.antt =====
-- crates/dockermap-core/src/identity.rs: topology identifiers. `digest` is the SHA-256 of the text
-- in hexadecimal, which a library computes.
use docker_map.Common.{
  length, sym, ap, ◌∙◌, append_assoc, drop, arith, length-append, ℕ, ◌≡◌, refl, Bool, true, false,
  not, ◌&&◌, ◌||◌, [], ◌∷◌, ◌++◌, leb, ◌==◌, if◌then◌else◌, take, Text, codes, is_empty,
  is_ascii_digit,
}
use mathlib.Core.List.{reverse}

unfoldable pub is_ascii_alphanumeric : ℕ → Bool
is_ascii_alphanumeric c =
    is_ascii_digit c || ((leb b'a' c && leb c b'z') || (leb b'A' c && leb c b'Z'))

unfoldable pub is_slug_char : ℕ → Bool
unfolding is_ascii_alphanumeric is_ascii_digit
is_slug_char c = is_ascii_alphanumeric c || (c == b'-' || (c == b'_' || c == b'.'))

-- The loop; the flag is `emitted_separator`.
unfoldable pub slug_from : Bool → Text → Text
unfolding is_slug_char
slug_from emitted [] = []
slug_from emitted (c ∷ s) =
    let kept = slug_from false s in
    let merged = slug_from true s in
    if is_slug_char c then c ∷ kept else if not emitted then b'-' ∷ merged else merged

unfoldable pub trim_start_matches : ℕ → Text → Text
trim_start_matches c [] = []
trim_start_matches c (d ∷ s) = let rest = trim_start_matches c s in if c == d then rest else d ∷ s

unfoldable pub trim_matches : ℕ → Text → Text
unfolding trim_start_matches
trim_matches c s = reverse (trim_start_matches c (reverse (trim_start_matches c s)))

unfoldable pub readable : Text → Text
unfolding slug_from trim_matches is_empty
readable value =
    let slug = trim_matches b'-' (slug_from false value) in
    if is_empty slug then codes "identity" else take 48 slug

-- Tails of one length in one text are the same.
tails : (xs ys us vs : Text) → length us ≡ length vs → xs ++ us ≡ ys ++ vs → us ≡ vs
tails [] [] us vs h e = e
tails [] (y ∷ ys) us vs h e =
    let sizes = ap length e in absurd (omega (arith, length-append {0} ys vs))
tails (x ∷ xs) [] us vs h e =
    let sizes = ap length e in absurd (omega (arith, length-append {0} xs us))
tails (x ∷ xs) (y ∷ ys) us vs h e = tails xs ys us vs h (ap (drop 1) e)

module _ (digest : Text → Text) where
  unfoldable pub collision_resistant_id_component : Text → Text
  unfolding readable
  collision_resistant_id_component value = readable value ++ (codes "--" ++ digest value)

  -- Two texts with one identifier have one digest, wherever digests have one length: the readable
  -- part cannot make up for a difference.
  pub collision_resistant_id_component_injective :
      (n : ℕ) (a b : Text)
      → length (digest a) ≡ n
      → length (digest b) ≡ n
      → collision_resistant_id_component a ≡ collision_resistant_id_component b
      → digest a ≡ digest b
  unfolding collision_resistant_id_component
  collision_resistant_id_component_injective n a b ha hb e =
      tails (readable a ++ codes "--") (readable b ++ codes "--") (digest a) (digest b)
        (ha ∙ sym hb)
        (append_assoc (readable a) (codes "--") (digest a)
          ∙ e
          ∙ sym (append_assoc (readable b) (codes "--") (digest b)))

component_example :
    collision_resistant_id_component (λ s. codes "0f") (codes " a b//C ") ≡ codes "a-b-C--0f"
unfolding collision_resistant_id_component
component_example = refl
