-- ===== src/Logs/Timestamp.antt =====
-- `parse_rfc3339_nano_millis` and `days_from_civil`. A text is its bytes here, as the code indexes
-- `as_bytes()`.
pub mod Calendar
pub mod Civil
pub mod Stamps
use docker_map.Common.{
  ℕ, zero, suc, ◌+◌, ◌-◌, ◌*◌, ◌/◌, ◌%◌, ◌^◌, ◌≤◌, ◌≡◌, refl, Bool, true, false, not, ◌&&◌, ◌||◌,
  List, [], ◌∷◌, Option, none, some, ltb, leb, ◌==◌, if◌then◌else◌, ◌>>=◌, is_some_and, length,
  get_elem?, drop, Text, codes, is_ascii_digit, ends_with,
}
use docker_map.Common.Decimal.{max_u64}
use docker_map.Common.Int.{ℤ, pos, negsuc, ◌+ℤ◌, ◌-ℤ◌, ◌*ℤ◌, ◌/ℤ◌, wrap}

abbrev pub one_to : ℕ → ℕ → Bool
one_to top n = leb 1 n && leb n top

-- The numerator of the era: rounded down, where `/` truncates.
abbrev pub toward_era : ℤ → ℤ
toward_era (pos n) = pos n
toward_era (negsuc n) = negsuc n -ℤ pos 399

-- The days since 1970-01-01 of a day in a year that begins in March. For a year of 63 bits the last
-- three operations can leave the range of an `i64`, and no other.
unfoldable pub days_from_march : ℤ → ℤ → ℕ → ℤ
days_from_march adjusted_year month_adjusted day =
    let era = toward_era adjusted_year /ℤ 400 in
    let year_of_era = adjusted_year -ℤ era *ℤ pos 400 in
    let day_of_year = (pos 153 *ℤ month_adjusted +ℤ pos 2) /ℤ 5 +ℤ pos day -ℤ pos 1 in
    let day_of_era =
      year_of_era *ℤ pos 365 +ℤ year_of_era /ℤ 4 -ℤ year_of_era /ℤ 100 +ℤ day_of_year in
    wrap (wrap (wrap (era *ℤ pos 146097) +ℤ day_of_era) -ℤ pos 719468)

-- Hinnant's algorithm.
unfoldable pub days_from_civil : ℕ → ℕ → ℕ → Option ℤ
days_from_civil year month day =
    if not (one_to 12 month) || not (one_to 31 day) || ltb (2 ^ 63 - 1) year
    then none
    else some (
        days_from_march (pos year -ℤ pos (if leb month 2 then 1 else 0))
          (pos month +ℤ (if ltb 2 month then negsuc 2 else pos 9)) day)

pub digit : Text → ℕ → Option ℕ
unfolding is_ascii_digit
digit bytes index = do
  byte ← get_elem? bytes index
  if is_ascii_digit byte then some (byte - b'0') else none

unfoldable pub two_digits : Text → ℕ → Option ℕ
unfolding digit
two_digits bytes index = do a ← digit bytes index; b ← digit bytes (index + 1); some (10 * a + b)

unfoldable pub four_digits : Text → ℕ → Option ℕ
unfolding digit
four_digits bytes index = do
  a ← digit bytes index
  b ← digit bytes (index + 1)
  c ← digit bytes (index + 2)
  d ← digit bytes (index + 3)
  some (1000 * a + 100 * b + 10 * c + d)

abbrev byte_is : Text → ℕ → ℕ → Bool
byte_is bytes index b = is_some_and (λ c. c == b) (get_elem? bytes index)

-- The loop over the fraction's digits, with `multiplier`, `consumed` and `fraction_ms`.
pub fraction_loop : Text → ℕ → ℕ → ℕ → ℕ × ℕ
unfolding is_ascii_digit
fraction_loop [] multiplier consumed fraction_ms = (fraction_ms, consumed)
fraction_loop (b ∷ bs) multiplier consumed fraction_ms =
    let rest =
      fraction_loop bs (if ltb consumed 3 then multiplier / 10 else multiplier) (consumed + 1)
        (if ltb consumed 3 then fraction_ms + (b - b'0') * multiplier else fraction_ms) in
    if is_ascii_digit b then rest else (fraction_ms, consumed)

unfoldable pub fraction : Text → Option ℕ
unfolding fraction_loop
fraction bytes =
    if byte_is bytes 19 b'.'
    then (let (fraction_ms, consumed) = fraction_loop (drop 20 bytes) 100 0 0 in
        if consumed == 0 then none else some fraction_ms)
    else some 0

-- `u64::try_from`, `checked_mul` and `checked_add`.
unfoldable pub to_millis : ℤ → ℕ → Option ℕ
to_millis (negsuc n) fraction_ms = none
to_millis (pos seconds) fraction_ms =
    if ltb max_u64 (seconds * 1000)
    then none
    else if ltb max_u64 (seconds * 1000 + fraction_ms)
    then none
    else some (seconds * 1000 + fraction_ms)

unfoldable pub well_separated : Text → Bool
well_separated bytes =
    byte_is bytes 4 b'-'
    && byte_is bytes 7 b'-'
    && byte_is bytes 10 b'T'
    && byte_is bytes 13 b':'
    && byte_is bytes 16 b':'

unfoldable pub in_range : ℕ → ℕ → ℕ → ℕ → ℕ → Bool
in_range month day hour minute second =
    one_to 12 month && one_to 31 day && leb hour 23 && leb minute 59 && leb second 60

abbrev seconds_of : ℤ → ℕ → ℕ → ℕ → ℤ
seconds_of days hour minute second =
    days *ℤ pos 86400 +ℤ pos hour *ℤ pos 3600 +ℤ pos minute *ℤ pos 60 +ℤ pos second

unfoldable pub parse_rfc3339_nano_millis : Text → Option ℕ
parse_rfc3339_nano_millis value =
    if ltb (length value) 20 || not (ends_with (codes "Z") value) then none else (do
      year ← four_digits value 0
      month ← two_digits value 5
      day ← two_digits value 8
      hour ← two_digits value 11
      minute ← two_digits value 14
      second ← two_digits value 17
      if well_separated value && in_range month day hour minute second
          then (do
            fraction_ms ← fraction value
            days ← days_from_civil year month day
            to_millis (seconds_of days hour minute second) fraction_ms)
          else none)
