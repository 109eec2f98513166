-- ===== src/Metrics/Series.antt =====
-- `QueryOpsSeries` of internal/metrics/ops_store.go and the periods of internal/metrics/query.go. The
-- present is later than the period is long.
pub mod Buckets
use mtproxy_orchestrator.Base.{
  ℕ, zero, suc, ◌+◌, ◌-◌, ◌*◌, ◌/◌, String, Bool, true, false, not, ◌&&◌, ◌||◌, Option, none, some,
  List, [], ◌∷◌, max, leb, ltb, ◌==◌, str_eq, length, if◌then◌else◌,
}
use mtproxy_orchestrator.Schema.{OpsRow, Db}

pub data Period : Type 0 where
  period_1h period_24h period_7d period_30d : Period

unfoldable pub parse_period : String → Period
parse_period s =
    if str_eq s "1h"
    then period_1h
    else if str_eq s "7d"
    then period_7d
    else if str_eq s "30d"
    then period_30d
    else period_24h

-- `Duration`, in seconds
abbrev pub duration : Period → ℕ
duration period_1h = 3600
duration period_24h = 24 * 3600
duration period_7d = 7 * 24 * 3600
duration period_30d = 30 * 24 * 3600

abbrev pub empty_bucket : ℕ → OpsRow
empty_bucket ts = record {
  ts = ts;
  accepted = 0;
  rejected = 0;
  socks5_attempted = 0;
  socks5_succeeded = 0;
}

-- `series[i].TS = start + int64(i)*step` for the `n` buckets from `start` on
abbrev pub empty_series : ℕ → ℕ → ℕ → List OpsRow
empty_series zero start step = []
empty_series (suc n) start step = empty_bucket start ∷ empty_series n (start + step) step

abbrev pub add_sample : OpsRow → OpsRow → OpsRow
add_sample b r = record b {
  accepted = b.accepted + r.accepted;
  rejected = b.rejected + r.rejected;
  socks5_attempted = b.socks5_attempted + r.socks5_attempted;
  socks5_succeeded = b.socks5_succeeded + r.socks5_succeeded;
}

-- `series[idx] += r`; an index beyond the series changes nothing.
abbrev pub add_at : ℕ → OpsRow → List OpsRow → List OpsRow
add_at i r [] = []
add_at zero r (b ∷ bs) = add_sample b r ∷ bs
add_at (suc i) r (b ∷ bs) = b ∷ add_at i r bs

-- `WHERE ts >= start`, and the tests of the loop
abbrev pub in_window : ℕ → ℕ → OpsRow → Bool
in_window start end r = leb start r.ts && ltb r.ts end

abbrev pub add_samples : ℕ → ℕ → ℕ → List OpsRow → List OpsRow → List OpsRow
add_samples start end step [] series = series
add_samples start end step (r ∷ rs) series =
    add_samples start end step rs
      (if in_window start end r then add_at ((r.ts - start) / step) r series else series)

abbrev pub bucket_step : Period → ℕ → ℕ
bucket_step p buckets = max 1 (duration p / buckets)

-- `none` for an error; `fails` for one of the database.
unfoldable pub query_ops_series : Bool → Period → ℕ → ℕ → Db → Option (List OpsRow)
query_ops_series fails p buckets now db =
    let start = now - duration p in
    let step = bucket_step p buckets in
    if buckets == 0 || fails
    then none
    else some (add_samples start now step db.ops_samples (empty_series buckets start step))
