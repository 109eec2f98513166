-- ===== src/Metrics/Sampler/Usage.antt =====
-- The sampler's writes as the quota service reads them: one stored sample adds its delta to the
-- traffic of its user, in every period that began by the day of the sample, and to nothing else.
use mtproxy_orchestrator.Base.{
  ℕ, ◌+◌, ◌-◌, ◌%◌, ◌≤◌, ◌≡◌, refl, String, Bool, false, ◌&&◌, List, [], ◌∷◌, leb, str_eq, eq_iff,
  eq_refl, arith, if◌then◌else◌,
}
use mtproxy_orchestrator.Base.Sql.{upsert, exists, sum}
use mtproxy_orchestrator.Schema.{TrafficRow, Db}
use mtproxy_orchestrator.Metrics.Sampler.{
  Sample, counter_delta, has_key, add_row, traffic_row, day_of, store_sample,
}
use mtproxy_orchestrator.Quota.Service.{traffic_since}
use mtproxy_orchestrator.Quota.Period.{day_floor}

abbrev in_period : String → ℕ → TrafficRow → Bool
in_period j start r = str_eq r.user_label j && leb start r.ts

sum-upsert :
    (j : String) (start : ℕ) (f : TrafficRow → ℕ) (new : TrafficRow) (xs : List TrafficRow)
    → ((x : TrafficRow) → f (add_row new x) ≡ f x + f new)
    → sum (in_period j start) f (upsert (has_key new.user_label new.ts) (add_row new) new xs)
      ≡ sum (in_period j start) f xs + (if in_period j start new then f new else 0)
sum-upsert j start f new [] h = omega arith
sum-upsert j start f new (x ∷ xs) h = ground (
  arith,
  h x,
  sum-upsert j start f new xs h,
  eq_iff x.user_label new.user_label,
  eq_iff x.user_label j,
  eq_iff new.user_label j,
)

-- What a stored sample adds to the traffic of user `j` since `start`.
abbrev pub added : String → ℕ → ℕ → Sample → Db → ℕ
added j start ts sample db =
    let (delta_in, delta_out) = counter_delta db sample in
    if exists (has_key sample.user_label ts) db.traffic_samples
    then 0
    else if str_eq sample.user_label j && leb start (day_of ts)
    then delta_in + delta_out
    else 0

-- A stored sample adds its two deltas to the traffic that the quota service sums up for its user, and
-- nothing to that of other users, to that of later periods, or at a second that has a sample.
pub traffic_since-store_sample :
    (j : String) (start ts : ℕ) (sample : Sample) (db : Db)
    → traffic_since j start (store_sample ts sample db)
      ≡ traffic_since j start db + added j start ts sample db
unfolding traffic_since store_sample
traffic_since-store_sample j start ts sample db =
    let new = traffic_row sample (day_of ts) (counter_delta db sample) in
    ground (
      arith,
      sum-upsert j start (λ r. r.bytes_in) new db.traffic_daily (λ x. refl),
      sum-upsert j start (λ r. r.bytes_out) new db.traffic_daily (λ x. refl),
    )

pub day_mono : (t ts : ℕ) → t ≤ ts → t - t % 86400 ≤ ts - ts % 86400
day_mono t ts h = omega arith

-- With the period's start snapped by `DayFloor`, a sample stored at or after the instant that the
-- start was taken from, in a second with no sample of its user yet, is counted.
traffic_since-day_floor :
    (t ts : ℕ) (sample : Sample) (db : Db)
    → t ≤ ts
    → exists (has_key sample.user_label ts) db.traffic_samples ≡ false
    → traffic_since sample.user_label (day_floor t) (store_sample ts sample db)
      ≡ traffic_since sample.user_label (day_floor t) db
        + ((counter_delta db sample).0 + (counter_delta db sample).1)
unfolding day_floor
traffic_since-day_floor t ts sample db h fresh = ground (
  arith,
  traffic_since-store_sample sample.user_label (t - t % 86400) ts sample db,
  eq_refl sample.user_label,
  day_mono t ts h,
)
