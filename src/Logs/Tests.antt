-- ===== src/Logs/Tests.antt =====
-- Runs of the log code on small inputs.
use docker_map.Common.{
  ℕ, ◌≡◌, refl, List, [], ◌∷◌, Option, none, some, length, Text, codes, take, filter, min, max, ◌≤◌,
  arith, ends_with,
}
use docker_map.Common.Decimal.{parse_uint}
use docker_map.Common.Int.{sub_ℕ, ◌+ℤ◌, ◌-ℤ◌, ◌*ℤ◌, ◌/ℤ◌}
use docker_map.Logs.Cursor.{IsWord, parse, display, parse-display, parse-IsWord}
use docker_map.Logs.Page.{
  info, LogEntry, ordered, matches, resume, page_log_entries, clamp_limit, max_log_page_size,
}
use docker_map.Logs.Page.Sorting.{IsDescending, at, ordered_lem}
use docker_map.Logs.Page.Bounds.{page_log_entries_lem}
use docker_map.Logs.Page.Complete.{follow, follow-ordered}
use docker_map.Logs.Timestamp.{
  days_from_civil, parse_rfc3339_nano_millis, days_from_march, two_digits, four_digits,
  well_separated, in_range, fraction, to_millis,
}
use docker_map.Logs.Timestamp.Calendar.{civil_day}
use docker_map.Common.Int.{wrap}
use docker_map.Logs.Timestamp.Civil.{days_from_civil-civil_day}
use docker_map.Logs.Timestamp.Stamps.{Stamp}

abbrev entry : ℕ → Text → LogEntry
entry t m = record {
  id = codes "e";
  timestamp = t;
  container = codes "web";
  level = info;
  message = m;
}

abbrev burst : List LogEntry
burst = entry 5 (codes "a") ∷ entry 7 (codes "b") ∷ entry 5 (codes "c") ∷ entry 5 (codes "d") ∷ []

parse_sample :
    parse (codes "1787198706123:2") ≡ some (record { millis = 1787198706123; offset = 2 })
unfolding parse parse_uint
parse_sample = refl

timestamp_sample :
    parse_rfc3339_nano_millis (codes "2026-08-20T04:05:06.123456789Z") ≡ some 1787198706123
unfolding parse_rfc3339_nano_millis four_digits two_digits well_separated in_range fraction
    days_from_civil days_from_march to_millis ends_with ◌+ℤ◌ ◌-ℤ◌ ◌*ℤ◌ ◌/ℤ◌ wrap
timestamp_sample = refl

parse-display_example :
    parse (display (record { millis = 12; offset = 3 })) ≡ some (record { millis = 12; offset = 3 })
parse-display_example =
    parse-display (record { millis = 12; offset = 3 })
      (record { millis_fits = omega arith; offset_fits = omega arith })

parse-IsWord_example : IsWord (record { millis = 12; offset = 3 })
parse-IsWord_example =
    parse-IsWord (codes "12:3") {c = record { millis = 12; offset = 3 }}
      (unfold parse parse_uint in refl)

ordered_lem_example :
    IsDescending (ordered none burst)
    × ((t : ℕ) → at t (ordered none burst) ≡ at t (filter (matches none) burst))
ordered_lem_example = ordered_lem none burst

page_log_entries_lem_example :
    let left = resume none (ordered none burst) in
    (next : Option Text) × (page_log_entries burst none none 2
      ≡ some (take (clamp_limit 2) left, next))
    × (length (take (clamp_limit 2) left) ≤ min (max 2 1) max_log_page_size)
    × (next ≡ none → take (clamp_limit 2) left ≡ left)
page_log_entries_lem_example = page_log_entries_lem burst none none 2

follow-ordered_example : follow 5 burst none none 2 ≡ some (ordered none burst)
follow-ordered_example =
    follow-ordered burst none 2 (omega arith, (omega arith, (omega arith, (omega arith, tt))))
      (omega arith)

abbrev moment : Stamp
moment = record {
  year = 2024;
  month = 2;
  day = 29;
  hour = 23;
  minute = 59;
  second = 60;
  digits = 1 ∷ 2 ∷ 3 ∷ 4 ∷ [];
}

days_from_civil-civil_day_example :
    days_from_civil 2024 2 29 ≡ some (sub_ℕ (civil_day 2024 2 29) 719528)
days_from_civil-civil_day_example =
    days_from_civil-civil_day 2024 2 29 (omega arith) (omega arith) (omega arith) (omega arith)
      (omega arith) (omega arith)
