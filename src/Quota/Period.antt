-- ===== src/Quota/Period.antt =====
-- Periods: `DayFloor`, `PeriodEnd`, `addMonthClamped`, and the loop of `RolloverIfDue` over the
-- periods that have ended. A timestamp is an `int64` that is not negative, so the test
-- `startTS <= 0` is a test for 0.
pub mod Bounds
pub mod Rollover
use mtproxy_orchestrator.Base.{
  ℕ, zero, suc, ◌+◌, ◌-◌, ◌*◌, ◌/◌, ◌%◌, String, Bool, true, ◌||◌, ltb, ◌==◌, str_eq, if◌then◌else◌,
}
use mtproxy_orchestrator.Quota.Calendar.{Date, date_of, days_of, day_seconds}

unfoldable pub day_floor : ℕ → ℕ
day_floor ts = ts - ts % 86400

-- `nextY, nextM` of `addMonthClamped`.
abbrev pub next_month : ℕ → ℕ → ℕ × ℕ
next_month y m = if ltb 12 (m + 1) then (y + 1, 1) else (y, m + 1)

-- `time.Date(nextY, nextM+1, 0, …).Day()`
abbrev pub last_day : ℕ → ℕ → ℕ
last_day y m = (date_of (days_of y (m + 1) 0)).day

-- The hour, minute and second of `t` are its seconds after midnight.
unfoldable pub add_month_clamped : ℕ → ℕ
add_month_clamped t =
    let date = date_of (t / day_seconds) in
    let (next_y, next_m) = next_month date.year date.month in
    let last = last_day next_y next_m in
    let d = if ltb last date.day then last else date.day in
    days_of next_y next_m d * day_seconds + t % day_seconds

unfoldable pub period_end : String → ℕ → ℕ
period_end period start_ts =
    if start_ts == 0
    then 0
    else if str_eq period "daily"
    then start_ts + 24 * 3600
    else if str_eq period "weekly"
    then start_ts + 7 * 24 * 3600
    else if str_eq period "monthly"
    then add_month_clamped start_ts
    else add_month_clamped start_ts

-- The loop of `RolloverIfDue`; the result is `cur` and `rolled`.
unfoldable pub advance : ℕ → String → ℕ → ℕ → Bool → ℕ × Bool
advance zero period now cur rolled = (cur, rolled)
advance (suc fuel) period now cur rolled =
    let end = period_end period cur in
    let rest = advance fuel period now end true in
    if end == 0 || ltb now end then (cur, rolled) else rest
