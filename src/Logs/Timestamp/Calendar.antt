-- ===== src/Logs/Timestamp/Calendar.antt =====
-- `days_from_civil` counts the days of the Gregorian calendar.
use docker_map.Common.{
  ℕ, zero, suc, ◌+◌, ◌-◌, ◌*◌, ◌/◌, ◌%◌, ◌≤◌, ◌<◌, ◌≡◌, refl, Bool, not, ◌&&◌, ◌||◌, ◌==◌,
  if◌then◌else◌, arith,
}

abbrev pub is_leap : ℕ → Bool
is_leap y = y % 4 == 0 && (not (y % 100 == 0) || y % 400 == 0)

abbrev pub month_length : Bool → ℕ → ℕ
month_length leap m =
    if m == 2
    then (if leap then 29 else 28)
    else if m == 4 || m == 6 || m == 9 || m == 11
    then 30
    else 31

-- The days of the first `n` months.
pub months : Bool → ℕ → ℕ
months leap zero = 0
months leap (suc n) = months leap n + month_length leap (suc n)

-- The days of the years 0 to `y - 1`.
pub years : ℕ → ℕ
years zero = 0
years (suc y) = years y + (if is_leap y then 366 else 365)

-- The days from 0000-01-01 to a date.
pub civil_day : ℕ → ℕ → ℕ → ℕ
unfolding years months
civil_day y m d = years y + months (is_leap y) (m - 1) + (d - 1)

years_closed : (y : ℕ) → years y + (y + 99) / 100 ≡ 365 * y + (y + 3) / 4 + (y + 399) / 400
unfolding years
years_closed zero = refl
years_closed (suc y) = ground (arith, years_closed y)

-- The algorithm over natural numbers, from the year that begins in March.
abbrev pub march_day : ℕ → ℕ → ℕ → ℕ
march_day a mp d =
    let e = a / 400 in
    let yoe = a - e * 400 in
    e * 146097 + (yoe * 365 + yoe / 4 - yoe / 100 + ((153 * mp + 2) / 5 + d - 1))

march_years : (a d : ℕ) → march_day a 0 d + a / 100 ≡ 365 * a + a / 4 + a / 400 + (d - 1)
march_years a d = omega arith

march_months :
    (a mp d : ℕ) → 1 ≤ d → march_day a mp d ≡ march_day a 0 1 + (153 * mp + 2) / 5 + (d - 1)
march_months a mp d h = omega arith

abbrev leap_day : ℕ → ℕ
leap_day y = if is_leap y then 1 else 0

years_leap : (y : ℕ) → years y + leap_day y + y / 100 ≡ 365 * y + y / 4 + y / 400 + 1
years_leap y = ground (arith, years_closed y)

years_pred :
    (y : ℕ) → 1 ≤ y → years y + (y - 1) / 100 ≡ 365 * (y - 1) + (y - 1) / 4 + (y - 1) / 400 + 366
years_pred y h = omega (arith, years_closed y)

-- The months from March on begin as `(153 * mp + 2) / 5` says.
month_table :
    (k : ℕ) (leap : Bool)
    → k < 10
    → months leap (suc (suc k)) ≡ (153 * k + 2) / 5 + 59 + (if leap then 1 else 0)
unfolding months
month_table zero leap h = ground arith
month_table (suc zero) leap h = ground arith
month_table (suc (suc zero)) leap h = ground arith
month_table (suc (suc (suc zero))) leap h = ground arith
month_table (suc (suc (suc (suc zero)))) leap h = ground arith
month_table (suc (suc (suc (suc (suc zero))))) leap h = ground arith
month_table (suc (suc (suc (suc (suc (suc zero)))))) leap h = ground arith
month_table (suc (suc (suc (suc (suc (suc (suc zero))))))) leap h = ground arith
month_table (suc (suc (suc (suc (suc (suc (suc (suc zero)))))))) leap h = ground arith
month_table (suc (suc (suc (suc (suc (suc (suc (suc (suc zero))))))))) leap h = ground arith
month_table (suc (suc (suc (suc (suc (suc (suc (suc (suc (suc k)))))))))) leap h =
    absurd (omega arith)

pub march_late : (y k d : ℕ) → 1 ≤ d → k < 10 → march_day y k d + 60 ≡ civil_day y (k + 3) d
unfolding civil_day
march_late y k d hd h =
    let e : k + 3 - 1 ≡ suc (suc k) = omega arith in
    rw e (
      ground
        (arith, month_table k (is_leap y) h, march_months y k d hd, march_years y 1, years_leap y))

pub march_early :
    (y m d : ℕ) → 1 ≤ y → 1 ≤ d → 1 ≤ m → m ≤ 2 → march_day (y - 1) (m + 9) d + 60 ≡ civil_day y m d
unfolding civil_day
march_early y zero d hy hd h k = absurd (omega arith)
march_early y (suc zero) d hy hd h k =
    omega (arith, march_months (y - 1) 10 d hd, march_years (y - 1) 1, years_pred y)
march_early y (suc (suc zero)) d hy hd h k =
    ground (arith, march_months (y - 1) 11 d hd, march_years (y - 1) 1, years_pred y hy)
march_early y (suc (suc (suc m))) d hy hd h k = absurd (omega arith)

months-le : (leap : Bool) (n : ℕ) → months leap n ≤ 31 * n
unfolding months
months-le leap zero = omega arith
months-le leap (suc n) = ground (arith, months-le leap n)

-- From 1970 to 9999 the day number is not before the epoch, and small.
pub civil_day_bounds :
    (y m d : ℕ)
    → 1970 ≤ y
    → y ≤ 9999
    → m ≤ 12
    → 1 ≤ d
    → d ≤ 31
    → (719528 ≤ civil_day y m d) × (civil_day y m d ≤ 3700000)
unfolding civil_day
civil_day_bounds y m d hy ky km hd kd = omega (arith, years_closed y, months-le (is_leap y) (m - 1))
