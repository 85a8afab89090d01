-- ===== src/Logs/Timestamp/Stamps.antt =====
-- The timestamps that Docker writes, and that `parse_rfc3339_nano_millis` reads each of them.
use docker_map.Common.{
  ℕ, zero, suc, ◌+◌, ◌-◌, ◌*◌, ◌/◌, ◌%◌, ◌≤◌, ◌<◌, List, [], ◌∷◌, ◌++◌, map, All, Text,
}
use docker_map.Logs.Timestamp.Calendar.{civil_day}

-- A moment in UTC, with the digits of the fraction of its second.
pub record Stamp : Type 0 where
  pub year : ℕ
  pub month : ℕ
  pub day : ℕ
  pub hour : ℕ
  pub minute : ℕ
  pub second : ℕ
  pub digits : List ℕ

pub record IsStamp (s : Stamp) : Type 0 where
  pub year_range : (1970 ≤ s.year) × (s.year ≤ 9999)
  pub month_range : (1 ≤ s.month) × (s.month ≤ 12)
  pub day_range : (1 ≤ s.day) × (s.day ≤ 31)
  pub hour_range : s.hour ≤ 23
  pub minute_range : s.minute ≤ 59
  pub second_range : s.second ≤ 60
  pub digits_range : All (λ d. d < 10) s.digits

abbrev numeral : ℕ → ℕ
numeral d = b'0' + d

-- `YYYY-MM-DDThh:mm:ss`.
abbrev front : Stamp → Text
front s =
    numeral (s.year / 1000)
    ∷ numeral (s.year / 100 % 10)
    ∷ numeral (s.year / 10 % 10)
    ∷ numeral (s.year % 10)
    ∷ b'-'
    ∷ numeral (s.month / 10)
    ∷ numeral (s.month % 10)
    ∷ b'-'
    ∷ numeral (s.day / 10)
    ∷ numeral (s.day % 10)
    ∷ b'T'
    ∷ numeral (s.hour / 10)
    ∷ numeral (s.hour % 10)
    ∷ b':'
    ∷ numeral (s.minute / 10)
    ∷ numeral (s.minute % 10)
    ∷ b':'
    ∷ numeral (s.second / 10)
    ∷ numeral (s.second % 10)
    ∷ []

-- Nothing, or a point and one digit or more.
abbrev fraction_text : List ℕ → Text
fraction_text [] = []
fraction_text (d ∷ ds) = b'.' ∷ map numeral (d ∷ ds)

pub print : Stamp → Text
print s = (front s ++ fraction_text s.digits) ++ b'Z' ∷ []

-- The milliseconds that the digits of a fraction stand for, cut off behind the third.
abbrev digit_or_zero : List ℕ → ℕ → ℕ
digit_or_zero [] i = 0
digit_or_zero (d ∷ ds) zero = d
digit_or_zero (d ∷ ds) (suc i) = digit_or_zero ds i

abbrev pub fraction_millis : List ℕ → ℕ
fraction_millis ds = digit_or_zero ds 0 * 100 + digit_or_zero ds 1 * 10 + digit_or_zero ds 2

-- The milliseconds since 1970-01-01 that a moment stands for.
pub unix_millis : Stamp → ℕ
unix_millis s =
    ((civil_day s.year s.month s.day - 719528) * 86400 + s.hour * 3600 + s.minute * 60 + s.second)
      * 1000
    + fraction_millis s.digits

abbrev epoch_day : Stamp → ℕ
epoch_day s = civil_day s.year s.month s.day - 719528
