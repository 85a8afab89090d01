-- ===== src/Logs/Cursor.antt =====
-- `LogCursor` with its `parse` and `Display`. Both fields are 64 bits wide (`usize` too, on the
-- hosts that the daemon is built for).
use docker_map.Common.{
  ℕ, ◌≤◌, ◌≡◌, refl, [], ◌∷◌, ◌++◌, Option, none, some, arith, if◌then◌else◌, ◌>>=◌, unwrap_or,
  Text, split_once, is_empty, All,
}
use docker_map.Common.Decimal.{
  max_u64, to_string, parse_uint, IsDigit, to_string-IsDigit, to_string-ne-nil,
  parse_uint-to_string, parse_uint-le,
}

pub record LogCursor : Type 0 where
  pub millis : ℕ
  pub offset : ℕ

-- The part behind the colon; an empty one stands for 0.
parse_offset : Text → Option ℕ
unfolding is_empty
parse_offset offset = if is_empty offset then some 0 else parse_uint max_u64 offset

unfoldable pub parse : Text → Option LogCursor
unfolding split_once parse_offset
parse value = do
  let (millis, offset) = unwrap_or (value, []) (split_once b':' value)
  millis ← parse_uint max_u64 millis
  offset ← parse_offset offset
  some (record { millis = millis; offset = offset })

-- `Display`: the two numbers around a colon.
pub display : LogCursor → Text
display c = to_string c.millis ++ b':' ∷ to_string c.offset

-- A cursor whose fields are machine words.
pub record IsWord (c : LogCursor) : Type 0 where
  pub millis_fits : c.millis ≤ max_u64
  pub offset_fits : c.offset ≤ max_u64

split_once-digits : (s t : Text) → All IsDigit s → split_once b':' (s ++ b':' ∷ t) ≡ some (s, t)
unfolding split_once
split_once-digits [] t h = refl
split_once-digits (c ∷ s) t h = ground (arith, split_once-digits s t h.1)

split_once_missing : (s : Text) → All IsDigit s → split_once b':' s ≡ none
unfolding split_once
split_once_missing [] h = refl
split_once_missing (c ∷ s) h = ground (arith, split_once_missing s h.1)

parse_offset-to_string : (n : ℕ) → n ≤ max_u64 → parse_offset (to_string n) ≡ some n
unfolding parse_offset
parse_offset-to_string n h = ground (arith, to_string-ne-nil n, parse_uint-to_string max_u64 n h)

-- Every cursor of machine words is read back from its printed form.
pub parse-display : (c : LogCursor) → IsWord c → parse (display c) ≡ some c
unfolding parse display
parse-display c w = rw (
  split_once-digits (to_string c.millis) (to_string c.offset) (to_string-IsDigit c.millis),
  parse_uint-to_string max_u64 c.millis w.millis_fits,
  parse_offset-to_string c.offset w.offset_fits,
)

-- A bare timestamp is a cursor with offset 0.
pub parse_bare :
    (n : ℕ) → n ≤ max_u64 → parse (to_string n) ≡ some (record { millis = n; offset = 0 })
unfolding parse
parse_bare n h =
    rw (split_once_missing (to_string n) (to_string-IsDigit n), parse_uint-to_string max_u64 n h)

parse_offset-le : (s : Text) {r : ℕ} → parse_offset s ≡ some r → r ≤ max_u64
unfolding parse_offset
parse_offset-le s {r} h = ground (arith, parse_uint-le max_u64 s {r = r})

-- Whatever text is accepted, the cursor holds machine words.
pub parse-IsWord : (s : Text) {c : LogCursor} → parse s ≡ some c → IsWord c
unfolding parse
parse-IsWord s {c} h =
    let parts = unwrap_or (s, []) (split_once b':' s) in
    ground
      (arith, parse_uint-le max_u64 parts.0 {r = c.millis}, parse_offset-le parts.1 {r = c.offset})
