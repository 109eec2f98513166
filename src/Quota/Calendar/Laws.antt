-- ===== src/Quota/Calendar/Laws.antt =====
-- The calendar finds every day: `date_of` and `days_of` are inverse, and its dates are valid.
use mathlib.Core.Path.{ap₂}
use native.Mathlib.Nat.{add-zero}
use native.Mathlib.Numerals.{add-one}
use mtproxy_orchestrator.Base.{
  ℕ, zero, suc, ◌+◌, ◌-◌, ◌/◌, ◌%◌, ◌≤◌, ◌<◌, ◌≡◌, refl, ap, ◌∙◌, ◌⊎◌, inl, inr, arith, ltb→lt,
  ltb→le, Bool-cases, ltb,
}
use mtproxy_orchestrator.Quota.Calendar.{
  Date, in_month, walk, date_of, month_index, month_length, month_start, days_of,
}

lt_trichotomy : (j k : ℕ) → (j < k) ⊎ ((j ≡ k) ⊎ (k < j))
lt_trichotomy j k = grind arith

pub month_length_bounds : (k : ℕ) → (28 ≤ month_length k) × (month_length k ≤ 31)
unfolding month_length
month_length_bounds k = ground arith

-- Month `k` has year `1970 + k / 12` and month `k % 12 + 1`.
pub month_index-in_month : (k : ℕ) → month_index (1970 + k / 12) (k % 12 + 1) ≡ k
month_index-in_month k = omega arith

pub month_start-next : (k : ℕ) → month_start (k + 1) ≡ month_start k + month_length k
unfolding month_start
month_start-next k = rw add-one

-- A date that `walk` finds stands in some month, and is `n` days after the first of month `k`.
pub record Found (k n : ℕ) (date : Date) : Type 0 where
  pub index : ℕ
  pub offset : ℕ
  pub is_date : date ≡ in_month index offset
  pub inside : offset < month_length index
  pub counted : month_start index + offset ≡ month_start k + n

pub walk-Found : (fuel k n : ℕ) → n ≤ fuel → Found k n (walk fuel k n)
unfolding walk
walk-Found zero k n h = record {
  index = k;
  offset = n;
  is_date = ground arith;
  inside = omega (arith, month_length_bounds k);
  counted = omega arith;
}
walk-Found (suc fuel) k n h = elim (Bool-cases (ltb n (month_length k))) [
  | inl e ↦ record {
    index = k;
    offset = n;
    is_date = rw e;
    inside = ltb→lt n (month_length k) e;
    counted = omega arith;
  }
  | inr e ↦
      let f =
        walk-Found fuel (k + 1) (n - month_length k)
          (omega (arith, month_length_bounds k, ltb→le n (month_length k) e)) in
      record {
        index = f.index;
        offset = f.offset;
        is_date = rw e f.is_date;
        inside = f.inside;
        counted = omega (arith, f.counted, month_start-next k, ltb→le n (month_length k) e);
      }
]

pub date_of-Found : (n : ℕ) → Found 0 n (date_of n)
unfolding date_of
date_of-Found n = walk-Found n 0 n (omega arith)

pub month_start-zero : month_start 0 ≡ 0
unfolding month_start
month_start-zero = refl

-- `time.Date` of the date that `t.Date()` gives is the day again.
days_of-date_of : (n : ℕ) → days_of (date_of n).year (date_of n).month (date_of n).day ≡ n
unfolding days_of
days_of-date_of n =
    let f = date_of-Found n in
    rw f.is_date (rw (month_index-in_month f.index) (omega (arith, f.counted, month_start-zero)))

-- The first days of the months grow.
month_start-gap : (d k : ℕ) → month_start k + month_length k ≤ month_start (k + 1 + d)
month_start-gap zero k = rw add-zero (omega (arith, month_start-next k))
month_start-gap (suc d) k =
    let step : k + 1 + suc d ≡ k + 1 + d + 1 = omega arith in
    rw step (omega (arith, month_start-next (k + 1 + d), month_start-gap d k))

month_start-lt : (j k : ℕ) → j < k → month_start j + month_length j ≤ month_start k
month_start-lt j k h =
    let apart : k ≡ j + 1 + (k - (j + 1)) = omega arith in
    rw apart (month_start-gap (k - (j + 1)) j)

-- A day stands in one month only.
month_unique :
    (j k a b : ℕ)
    → a < month_length j
    → b < month_length k
    → month_start j + a ≡ month_start k + b
    → (j ≡ k) × (a ≡ b)
month_unique j k a b ha hb e = elim (lt_trichotomy j k) [
  | inl lt ↦ absurd (omega (arith, month_start-lt j k lt))
  | inr (inl eq) ↦ (eq, omega (arith, ap month_start eq))
  | inr (inr gt) ↦ absurd (omega (arith, month_start-lt k j gt))
]

-- The date of the day `d` days after the first of month `k`, inside that month.
pub date_of-in_month : (k d : ℕ) → d < month_length k → date_of (month_start k + d) ≡ in_month k d
date_of-in_month k d h =
    let f = date_of-Found (month_start k + d) in
    let (same, offset) =
      month_unique f.index k f.offset d f.inside h (omega (arith, f.counted, month_start-zero)) in
    f.is_date ∙ ap₂ in_month same offset

-- `time.Date(y, m + 1, 0)` has the number of days of month `m` as its day.
pub date_of-days_of_last :
    (y m : ℕ)
    → 1970 ≤ y
    → 1 ≤ m
    → (date_of (days_of y (m + 1) 0)).day ≡ month_length (month_index y m)
unfolding days_of
date_of-days_of_last y m hy h1 =
    let k = month_index y m in
    let index : month_index y (m + 1) ≡ k + 1 = omega arith in
    let day : month_start (k + 1) + 0 - 1 ≡ month_start k + (month_length k - 1) =
      omega (arith, month_start-next k, month_length_bounds k) in
    rw index (
      rw day (
        ap (λ date. date.day)
          (date_of-in_month k (month_length k - 1) (omega (arith, month_length_bounds k)))
        ∙ omega (arith, month_length_bounds k)))
