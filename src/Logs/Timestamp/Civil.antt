-- ===== src/Logs/Timestamp/Civil.antt =====
-- `days_from_civil` computes over `i64` what the calendar counts.
use docker_map.Common.{
  ℕ, Bool, ◌+◌, ◌-◌, ◌*◌, ◌/◌, ◌^◌, ◌≤◌, ◌<◌, ◌≡◌, ap, ◌∙◌, true, false, not, ◌||◌, some, ltb, leb,
  arith, dec_le,
}
use docker_map.Common.Int.{
  pos, negsuc, ◌+ℤ◌, ◌-ℤ◌, ◌*ℤ◌, ◌/ℤ◌, sub_ℕ, pos-+ℤ, pos--ℤ, pos-*ℤ, wrap, wrap-pos, wrap-sub_ℕ,
}
use docker_map.Logs.Timestamp.{days_from_civil, days_from_march, one_to}
use docker_map.Logs.Timestamp.Calendar.{
  is_leap, month_length, civil_day, march_day, march_late, march_early,
}

year_of_era : (a : ℕ) → pos a -ℤ pos (a / 400) *ℤ pos 400 ≡ pos (a - a / 400 * 400)
year_of_era a = rw (pos-*ℤ, pos--ℤ a (a / 400 * 400) (omega arith))

day_of_year :
    (mp d : ℕ)
    → 1 ≤ d
    → (pos 153 *ℤ pos mp +ℤ pos 2) /ℤ 5 +ℤ pos d -ℤ pos 1 ≡ pos ((153 * mp + 2) / 5 + d - 1)
unfolding ◌/ℤ◌
day_of_year mp d h =
    rw (pos-*ℤ, pos-+ℤ) (rw (pos-+ℤ) (pos--ℤ ((153 * mp + 2) / 5 + d) 1 (omega arith)))

day_of_era :
    (y d : ℕ)
    → pos y *ℤ pos 365 +ℤ pos y /ℤ 4 -ℤ pos y /ℤ 100 +ℤ pos d ≡ pos (y * 365 + y / 4 - y / 100 + d)
unfolding ◌/ℤ◌
day_of_era y d =
    rw (pos-*ℤ, pos-+ℤ)
      (rw (pos--ℤ (y * 365 + y / 4) (y / 100) (omega arith)) (pos-+ℤ (y * 365 + y / 4 - y / 100) d))

epoch :
    (e d : ℕ)
    → e * 146097 + d + 719528 < 2 ^ 63
    → wrap (wrap (wrap (pos e *ℤ pos 146097) +ℤ pos d) -ℤ pos 719468)
      ≡ sub_ℕ (e * 146097 + d + 60) 719528
unfolding ◌-ℤ◌
epoch e d h =
    let shifted : sub_ℕ (e * 146097 + d + 0) (0 + 719468) ≡ sub_ℕ (e * 146097 + d + 60) 719528 =
      ground arith in
    rw (pos-*ℤ e 146097, wrap-pos (e * 146097) (omega arith), pos-+ℤ (e * 146097) d)
      (rw (wrap-pos (e * 146097 + d) (omega arith))
        (wrap-sub_ℕ (e * 146097 + d + 0) (0 + 719468) (omega arith) (omega arith) ∙ shifted))

march_int :
    (a mp d : ℕ)
    → 1 ≤ d
    → d ≤ 31
    → mp ≤ 11
    → a < 2 ^ 54
    → days_from_march (pos a) (pos mp) d ≡ sub_ℕ (march_day a mp d + 60) 719528
unfolding days_from_march ◌/ℤ◌
march_int a mp d h k l wide =
    rw
      (
        year_of_era a,
        day_of_year mp d h,
        day_of_era (a - a / 400 * 400) ((153 * mp + 2) / 5 + d - 1),
      )
      (epoch (a / 400) _ (omega arith))

in_civil_range :
    (y m d : ℕ)
    → y < 2 ^ 63
    → 1 ≤ m
    → m ≤ 12
    → 1 ≤ d
    → d ≤ 31
    → (not (one_to 12 m) || not (one_to 31 d) || ltb (2 ^ 63 - 1) y) ≡ false
in_civil_range y m d wide hm km hd kd = ground arith

minus_three : (m : ℕ) → 3 ≤ m → pos m +ℤ negsuc 2 ≡ pos (m - 3)
unfolding ◌+ℤ◌
minus_three m h = ground arith

late_day : (y m d : ℕ) → 1 ≤ d → 3 ≤ m → m ≤ 12 → march_day (y - 0) (m - 3) d + 60 ≡ civil_day y m d
late_day y m d hd h k =
    let whole : y - 0 ≡ y = omega arith in
    let month : m - 3 + 3 ≡ m = omega arith in
    rw whole (march_late y (m - 3) d hd (omega arith)) ∙ ap (λ n. civil_day y n d) month

-- A day past the end of its month runs on into the next.
pub days_from_civil-any_day :
    (y m d : ℕ)
    → 1 ≤ y
    → y < 2 ^ 54
    → 1 ≤ m
    → m ≤ 12
    → 1 ≤ d
    → d ≤ 31
    → days_from_civil y m d ≡ some (sub_ℕ (civil_day y m d) 719528)
unfolding days_from_civil
days_from_civil-any_day y m d hy wide hm km hd kd = elim (dec_le m 2) [
  | yes early ↦
      let early' : leb m 2 ≡ true = ground arith in
      let late' : ltb 2 m ≡ false = ground arith in
      rw (in_civil_range y m d (omega arith) hm km hd kd, early', late', pos--ℤ y 1 hy, pos-+ℤ m 9)
        (ap some (
          march_int (y - 1) (m + 9) d hd kd (omega arith) (omega arith)
          ∙ ap (λ n. sub_ℕ n 719528) (march_early y m d hy hd hm early)))
  | no late ↦
      let early' : leb m 2 ≡ false = ground arith in
      let late' : ltb 2 m ≡ true = ground arith in
      rw
        (
          in_civil_range y m d (omega arith) hm km hd kd,
          early',
          late',
          pos--ℤ y 0 (omega arith),
          minus_three m (omega arith),
        )
        (ap some (
          march_int (y - 0) (m - 3) d hd kd (omega arith) (omega arith)
          ∙ ap (λ n. sub_ℕ n 719528) (late_day y m d hd (omega arith) km)))
]

month_length-le : (leap : Bool) (m : ℕ) → month_length leap m ≤ 31
month_length-le leap m = ground arith

-- For every date of the Gregorian calendar from the year 1 on whose year is below 2^54, so that the
-- arithmetic on `i64` does not wrap, the algorithm yields the number of days by which the date lies
-- behind 1970-01-01 (719528 days behind the start of the year 0).
pub days_from_civil-civil_day :
    (y m d : ℕ)
    → 1 ≤ y
    → y < 2 ^ 54
    → 1 ≤ m
    → m ≤ 12
    → 1 ≤ d
    → d ≤ month_length (is_leap y) m
    → days_from_civil y m d ≡ some (sub_ℕ (civil_day y m d) 719528)
days_from_civil-civil_day y m d hy wide hm km hd kd =
    let short = month_length-le (is_leap y) m in
    days_from_civil-any_day y m d hy wide hm km hd (omega arith)
