-- ===== src/Metrics/Retention.antt =====
-- internal/metrics/aggregate.go: the retention job. Minute rows older than a cutoff are summed up by
-- hour and deleted, and old hourly rows are deleted. Each step is a transaction of its own.
pub mod Hours
pub mod Cutoff
use mtproxy_orchestrator.Base.{
  ℕ, ◌+◌, ◌-◌, ◌*◌, ◌%◌, String, Bool, true, false, not, ◌&&◌, Option, none, some, List, [], ◌∷◌,
  ltb, ◌==◌, str_eq, if◌then◌else◌, filter,
}
use mtproxy_orchestrator.Base.Sql.{exists, sum, greatest, replace}
use mtproxy_orchestrator.Schema.{TrafficRow, OpsRow, Db}

-- Which of the four steps fail.
pub record Faults : Type 0 where
  pub aggregate : Bool
  pub delete_samples : Bool
  pub delete_hourly : Bool
  pub delete_ops : Bool

pub data Error : Type 0 where
  aggregate_failed delete_samples_failed delete_hourly_failed delete_ops_failed : Error

-- `MinuteRetentionDays` and `HourlyRetentionDays` of a `Retainer`; 0 stands for the default.
pub record Retainer : Type 0 where
  pub minute_retention_days : ℕ
  pub hourly_retention_days : ℕ

unfoldable pub minute_days : Retainer → ℕ
minute_days r = if ltb 0 r.minute_retention_days then r.minute_retention_days else 7

unfoldable pub hourly_days : Retainer → ℕ
hourly_days r = if ltb 0 r.hourly_retention_days then r.hourly_retention_days else 30

-- `ts - (ts % 3600) AS hour_ts`
abbrev pub hour_of : ℕ → ℕ
hour_of ts = ts - ts % 3600

-- The rows of a group: `ts < cutoff`, with the label and the hour.
abbrev pub in_group : ℕ → String → ℕ → TrafficRow → Bool
in_group cutoff label hour r =
    ltb r.ts cutoff && (str_eq r.user_label label && hour_of r.ts == hour)

-- The row of the SELECT for a group.
abbrev pub group_row : ℕ → List TrafficRow → String → ℕ → TrafficRow
group_row cutoff samples label hour = record {
  user_label = label;
  ts = hour;
  bytes_in = sum (in_group cutoff label hour) (λ r. r.bytes_in) samples;
  bytes_out = sum (in_group cutoff label hour) (λ r. r.bytes_out) samples;
  connections = greatest (in_group cutoff label hour) (λ r. r.connections) samples;
}

-- The key of `traffic_hourly`.
abbrev pub has_hour : String → ℕ → TrafficRow → Bool
has_hour label hour r = str_eq r.user_label label && r.ts == hour

-- The SELECT's rows for the groups of the last rows of `samples`, one row for each group.
unfoldable pub group_rows : ℕ → List TrafficRow → List TrafficRow → List TrafficRow
group_rows cutoff samples [] = []
group_rows cutoff samples (r ∷ rs) =
    let rest = group_rows cutoff samples rs in
    let row = group_row cutoff samples r.user_label (hour_of r.ts) in
    if ltb r.ts cutoff && not (exists (has_hour r.user_label (hour_of r.ts)) rest)
    then row ∷ rest
    else rest

unfoldable pub replace_all : List TrafficRow → List TrafficRow → List TrafficRow
replace_all [] hourly = hourly
replace_all (row ∷ rows) hourly =
    replace (has_hour row.user_label row.ts) row (replace_all rows hourly)

unfoldable pub aggregate_old_samples : ℕ → Db → Db
aggregate_old_samples cutoff db = record db {
  traffic_hourly =
      replace_all (group_rows cutoff db.traffic_samples db.traffic_samples) db.traffic_hourly;
}

unfoldable pub delete_old_samples : ℕ → Db → Db
delete_old_samples cutoff db = record db {
  traffic_samples = filter (λ (r : TrafficRow). not (ltb r.ts cutoff)) db.traffic_samples;
}

unfoldable pub delete_old_hourly : ℕ → Db → Db
delete_old_hourly cutoff db = record db {
  traffic_hourly = filter (λ (r : TrafficRow). not (ltb r.ts cutoff)) db.traffic_hourly;
}

unfoldable pub delete_old_ops : ℕ → Db → Db
delete_old_ops cutoff db = record db {
  ops_samples = filter (λ (r : OpsRow). not (ltb r.ts cutoff)) db.ops_samples;
}

-- `Run`. A cutoff before 1970 passes no row, like the cutoff 0 here.
unfoldable pub run : Faults → Retainer → ℕ → Db → Db × Option Error
unfolding minute_days hourly_days
run f r now db =
    let minute_cutoff = now - minute_days r * 86400 in
    let hourly_cutoff = now - hourly_days r * 86400 in
    let aggregated = aggregate_old_samples minute_cutoff db in
    let pruned = delete_old_samples minute_cutoff aggregated in
    let shortened = delete_old_hourly hourly_cutoff pruned in
    if f.aggregate
    then (db, some aggregate_failed)
    else if f.delete_samples
    then (aggregated, some delete_samples_failed)
    else if f.delete_hourly
    then (pruned, some delete_hourly_failed)
    else if f.delete_ops
    then (shortened, some delete_ops_failed)
    else (delete_old_ops minute_cutoff shortened, none)
