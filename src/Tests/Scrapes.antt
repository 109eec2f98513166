-- ===== src/Tests/Scrapes.antt =====
-- The metrics tables over a few scrapes and retention runs.
use mtproxy_orchestrator.Base.{
  ℕ, ◌+◌, ◌*◌, true, false, String, some, List, [], ◌∷◌, ◌≡◌, ◌≢◌, refl, arith, if◌then◌else◌, find,
  eq_iff, get_elem?, none, ltb, ◌-◌,
}
use mtproxy_orchestrator.Base.Sql.{exists}
use mtproxy_orchestrator.Schema.{TrafficRow, OpsRow, Db, empty_db}
use mtproxy_orchestrator.Quota.Service.{traffic_since}
use mtproxy_orchestrator.Metrics.Sampler.{Sample}
use mtproxy_orchestrator.Metrics.Sampler.Counters.{
  Rising, ended, own, other, IsAt, store_scrapes, last_total, traffic_since-store_scrapes,
}
use mtproxy_orchestrator.Metrics.Ops.{OpsCounters, ops_row}
use mtproxy_orchestrator.Metrics.Series.{period_1h, query_ops_series}
use mtproxy_orchestrator.Metrics.Series.Buckets.{
  in_bucket, full_bucket, query_ops_series-full_bucket,
}
use mtproxy_orchestrator.Metrics.Retention.{in_group, has_hour, group_row, aggregate_old_samples}
use mtproxy_orchestrator.Metrics.Retention.Hours.{find-aggregate_old_samples}
use mtproxy_orchestrator.Metrics.Retention.Cutoff.{run_twice, summed_hour, run_twice-summed_hour}
use mtproxy_orchestrator.Metrics.Retention.{Retainer, minute_days, hourly_days}

abbrev noon : ℕ
noon = 8683200

abbrev minute : ℕ → ℕ → TrafficRow
minute ts bytes = record {
  user_label = "alice";
  ts = ts;
  bytes_in = bytes;
  bytes_out = 2 * bytes;
  connections = 1;
}

abbrev scraped : Db
scraped = record empty_db {
  traffic_samples = minute noon 10 ∷ [];
  traffic_daily = record (minute noon 10) { ts = 8640000 } ∷ [];
  traffic_counters =
      record { user_label = "alice"; bytes_in = 10; bytes_out = 20; updated_ts = noon } ∷ [];
}

abbrev sample : String → ℕ → Sample
sample label bytes = record {
  user_label = label;
  bytes_in = bytes;
  bytes_out = 2 * bytes;
  connections = 1;
}

abbrev scrapes : List (ℕ × Sample)
scrapes =
    (noon + 60, sample "alice" 25)
    ∷ (noon + 60, sample "bob" 5)
    ∷ (noon + 120, sample "alice" 40)
    ∷ []

other_user : (sample "bob" 5).user_label ≢ "alice"
other_user e = let no : false ≡ true = (eq_iff "bob" "alice").1 e in absurd (ground arith)

rising : Rising "alice" noon 10 20 scrapes
rising =
    own refl (omega arith) (omega arith) (omega arith)
      (other other_user (own refl (omega arith) (omega arith) (omega arith) ended))

IsAt-noon : IsAt "alice" noon 10 20 scraped
IsAt-noon = record {
  counter = (
    record { user_label = "alice"; bytes_in = 10; bytes_out = 20; updated_ts = noon },
    refl,
    refl,
    refl,
  );
  fresh = λ ts h. ground arith;
}

traffic_since-store_scrapes_example :
    traffic_since "alice" 8640000 (store_scrapes scrapes scraped) + (10 + 20)
    ≡ traffic_since "alice" 8640000 scraped + last_total "alice" (10 + 20) scrapes
traffic_since-store_scrapes_example =
    traffic_since-store_scrapes "alice" 8640000 noon 10 20 scrapes scraped (omega arith) IsAt-noon
      rising

abbrev ops : ℕ → OpsCounters
ops n = record { accepted = n; rejected = n; socks5_attempted = n; socks5_succeeded = n }

abbrev ops_db : Db
ops_db = record empty_db {
  ops_samples = ops_row noon (ops 3) ∷ [];
  ops_counters = some (ops_row noon (ops 7));
}

-- Three samples of one hour.
abbrev one_hour : Db
one_hour = record empty_db {
  traffic_samples = minute 3660 10 ∷ minute 5400 20 ∷ minute 7140 40 ∷ [];
}

find-aggregate_old_samples_example :
    find (has_hour "alice" 3600) (aggregate_old_samples 7200 one_hour).traffic_hourly ≡ (
      if exists (in_group 7200 "alice" 3600) one_hour.traffic_samples
      then some (group_row 7200 one_hour.traffic_samples "alice" 3600)
      else find (has_hour "alice" 3600) one_hour.traffic_hourly)
find-aggregate_old_samples_example = find-aggregate_old_samples 7200 "alice" 3600 one_hour

-- Runs at the eighth and the ninth hour behind the seven days of minute rows.
abbrev defaults : Retainer
defaults = record { minute_retention_days = 0; hourly_retention_days = 0 }

run_twice-summed_hour_example :
    find (has_hour "alice" 3600) (run_twice defaults 612000 615600 one_hour).traffic_hourly ≡ (
      if ltb 3600 (615600 - hourly_days defaults * 86400)
      then none
      else summed_hour (615600 - minute_days defaults * 86400) "alice" 3600 one_hour)
run_twice-summed_hour_example =
    run_twice-summed_hour defaults 612000 615600 "alice" 3600 one_hour (omega arith) (omega arith)

-- An hour in twelve buckets of five minutes; the second one has two samples.
abbrev hour_samples : Db
hour_samples = record empty_db {
  ops_samples =
      record { ts = 36310; accepted = 2; rejected = 0; socks5_attempted = 1; socks5_succeeded = 1 }
      ∷ record {
        ts = 36370;
        accepted = 3;
        rejected = 1;
        socks5_attempted = 0;
        socks5_succeeded = 0;
      }
      ∷ [];
}

query_ops_series-full_bucket_example :
    (series : List OpsRow) × ((query_ops_series false period_1h 12 39600 hour_samples ≡ some series)
      × (get_elem? series 1
          ≡ some (
              full_bucket
                (36000 + 1 * 300)
                (in_bucket 36000 39600 300 1)
                hour_samples.ops_samples)))
query_ops_series-full_bucket_example =
    query_ops_series-full_bucket period_1h 12 39600 1 hour_samples (omega arith)
