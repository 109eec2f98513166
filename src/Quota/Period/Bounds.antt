-- ===== src/Quota/Period/Bounds.antt =====
-- How far a period reaches, and what a calendar month later means.
use mtproxy_orchestrator.Base.{
  ℕ, ◌+◌, ◌-◌, ◌*◌, ◌/◌, ◌%◌, ◌≤◌, ◌<◌, min, String, ◌≡◌, ap, ◌∙◌, arith, ltb, if◌then◌else◌,
}
use mtproxy_orchestrator.Quota.Calendar.{
  Date, date_of, days_of, month_index, month_length, month_start, in_month, day_seconds,
}
use mtproxy_orchestrator.Quota.Calendar.Laws.{
  date_of-Found, date_of-in_month, date_of-days_of_last, month_start-next, month_start-zero,
  month_length_bounds, month_index-in_month,
}
use mtproxy_orchestrator.Quota.Period.{next_month, last_day, add_month_clamped, period_end}

month_index-next_month :
    (k : ℕ)
    → month_index
        (next_month (1970 + k / 12) (k % 12 + 1)).0
        (next_month (1970 + k / 12) (k % 12 + 1)).1
      ≡ k + 1
month_index-next_month k = ground arith

next_month_bounds :
    (k : ℕ)
    → (1970 ≤ (next_month (1970 + k / 12) (k % 12 + 1)).0)
      × (1 ≤ (next_month (1970 + k / 12) (k % 12 + 1)).1)
next_month_bounds k = ground arith

last_day-next_month :
    (k : ℕ)
    → last_day
        (next_month (1970 + k / 12) (k % 12 + 1)).0
        (next_month (1970 + k / 12) (k % 12 + 1)).1
      ≡ month_length (k + 1)
last_day-next_month k =
    let (y, m) = next_month (1970 + k / 12) (k % 12 + 1) in
    date_of-days_of_last y m (next_month_bounds k).0 (next_month_bounds k).1
    ∙ ap month_length (month_index-next_month k)

-- The day of the next month that the day `d` of a month is taken to, both counted from 0.
abbrev clamped : ℕ → ℕ → ℕ
clamped k d = min d (month_length (k + 1) - 1)

clamped_day :
    (start last d : ℕ)
    → 1 ≤ last
    → start + (if ltb last (d + 1) then last else d + 1) - 1 ≡ start + min d (last - 1)
clamped_day start last d h = ground arith

add_month_clamped-in_month :
    (t k d : ℕ)
    → date_of (t / day_seconds) ≡ in_month k d
    → add_month_clamped t ≡ (month_start (k + 1) + clamped k d) * day_seconds + t % day_seconds
unfolding add_month_clamped days_of
add_month_clamped-in_month t k d e = rw e (
    rw (last_day-next_month k) (
      rw (month_index-next_month k) (
        ap (λ n. n * day_seconds + t % day_seconds)
          (clamped_day (month_start (k + 1)) (month_length (k + 1)) d
            (omega (arith, month_length_bounds (k + 1)))))))

-- `later` is one calendar month after `date`, its day cut down to the last of that month.
pub record MonthLater (date later : Date) : Type 0 where
  pub next : month_index later.year later.month ≡ month_index date.year date.month + 1
  pub clamps : later.day ≡ min date.day (month_length (month_index later.year later.month))

MonthLater-in_month :
    (k d : ℕ) → d < month_length k → MonthLater (in_month k d) (in_month (k + 1) (clamped k d))
MonthLater-in_month k d h = record {
  next = omega (arith, month_index-in_month k, month_index-in_month (k + 1));
  clamps = rw (month_index-in_month (k + 1)) (omega (arith, month_length_bounds (k + 1)));
}

-- `addMonthClamped` goes to the same time of day one calendar month later, with the day of the month
-- cut down to the last day that the later month has.
add_month_clamped-MonthLater :
    (t : ℕ)
    → MonthLater (date_of (t / day_seconds)) (date_of (add_month_clamped t / day_seconds))
      × (add_month_clamped t % day_seconds ≡ t % day_seconds)
add_month_clamped-MonthLater t =
    let f = date_of-Found (t / day_seconds) in
    let e = add_month_clamped-in_month t f.index f.offset f.is_date in
    let n = month_start (f.index + 1) + clamped f.index f.offset in
    let day : (n * day_seconds + t % day_seconds) / day_seconds ≡ n = omega arith in
    let fits : clamped f.index f.offset < month_length (f.index + 1) =
      omega (arith, month_length_bounds (f.index + 1)) in
    (
      rw e (
          rw day (
            rw f.is_date (
              rw (date_of-in_month (f.index + 1) (clamped f.index f.offset) fits)
                (MonthLater-in_month f.index f.offset f.inside)))),
      rw e (omega arith),
    )

-- A calendar month is 28 to 31 days, and at least one second.
add_month_clamped_bounds :
    (t : ℕ) → (t < add_month_clamped t) × (add_month_clamped t ≤ t + 31 * day_seconds)
add_month_clamped_bounds t =
    let f = date_of-Found (t / day_seconds) in
    let e = add_month_clamped-in_month t f.index f.offset f.is_date in
    let next = month_start-next f.index in
    rw e (
      omega (arith, next, f.counted, f.inside, month_start-zero, month_length_bounds f.index),
      omega (arith, next, f.counted, f.inside, month_start-zero, month_length_bounds f.index),
    )

-- Every period that has a start ends after it, at most 31 days later.
pub period_end_bounds :
    (period : String) (start : ℕ)
    → 0 < start
    → (start < period_end period start) × (period_end period start ≤ start + 31 * day_seconds)
unfolding period_end
period_end_bounds period start h = ground (arith, add_month_clamped_bounds start)

period_end-eq-zero : (period : String) (start : ℕ) → period_end period start ≡ 0 → start ≡ 0
unfolding period_end
period_end-eq-zero period start h = ground (arith, add_month_clamped_bounds start)
