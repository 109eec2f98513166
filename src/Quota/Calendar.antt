-- ===== src/Quota/Calendar.antt =====
-- The part of Go's `time` package that internal/quota/quota.go uses: a UTC instant from 1970 on as
-- seconds since the epoch, its civil date, and `time.Date` with its normalisation of a month past
-- December and of day 0. Dates are counted from months since January 1970.
pub mod Laws
use mtproxy_orchestrator.Base.{
  ℕ, zero, suc, ◌+◌, ◌-◌, ◌*◌, ◌/◌, ◌%◌, Bool, true, false, not, ◌&&◌, ◌||◌, ltb, ◌==◌,
  if◌then◌else◌,
}

is_leap : ℕ → Bool
is_leap y = y % 4 == 0 && (not (y % 100 == 0) || y % 400 == 0)

-- The days of the month that begins `k` months after January 1970.
unfoldable pub month_length : ℕ → ℕ
unfolding is_leap
month_length k =
    let m = k % 12 in
    if m == 1
    then (if is_leap (1970 + k / 12) then 29 else 28)
    else if m == 3 || m == 5 || m == 8 || m == 10
    then 30
    else 31

-- The days from January 1st 1970 to the first of month `k`.
unfoldable pub month_start : ℕ → ℕ
unfolding month_length
month_start zero = 0
month_start (suc k) = month_start k + month_length k

pub record Date : Type 0 where
  pub year : ℕ
  pub month : ℕ
  pub day : ℕ

-- The date `d` days after the first of month `k`, for `d` in that month.
abbrev pub in_month : ℕ → ℕ → Date
in_month k d = record { year = 1970 + k / 12; month = k % 12 + 1; day = d + 1 }

-- The date `n` days after the first of month `k`; the fuel bounds the months passed over.
unfoldable pub walk : ℕ → ℕ → ℕ → Date
unfolding month_length
walk zero k n = in_month k n
walk (suc fuel) k n =
    let later = walk fuel (k + 1) (n - month_length k) in
    if ltb n (month_length k) then in_month k n else later

-- `t.Date()` of the day `n` days after the epoch.
unfoldable pub date_of : ℕ → Date
unfolding walk
date_of n = walk n 0 n

-- Months since January 1970. A month past December is one of the next year.
abbrev pub month_index : ℕ → ℕ → ℕ
month_index y m = (y - 1970) * 12 + (m - 1)

-- `time.Date(y, m, d, …)` as days since the epoch. Day 0 is the last day of the month before.
unfoldable pub days_of : ℕ → ℕ → ℕ → ℕ
unfolding month_start
days_of y m d = month_start (month_index y m) + d - 1

abbrev pub day_seconds : ℕ
day_seconds = 86400
