-- ===== src/Schema.antt =====
-- The tables that internal/db/migrations.go creates and the modelled code reads and writes. A table
-- is the list of its rows in the order of insertion. Identifiers, byte counts and timestamps are the
-- nonnegative values of SQLite's INTEGER.
use mtproxy_orchestrator.Base.{ℕ, Bool, String, Option, none, List, []}

-- `deleted` is `deleted_at IS NOT NULL`; `rotated_at` is 0 where the column is NULL.
pub record UserRow : Type 0 where
  pub id : ℕ
  pub label : String
  pub secret_hex : String
  pub enabled : Bool
  pub deleted : Bool
  pub rotated_at : ℕ
  pub quota_bytes : ℕ
  pub quota_period : String
  pub quota_warn_pct : ℕ
  pub quota_suspended : Bool
  pub quota_period_start : ℕ
  pub quota_used_bytes : ℕ
  pub quota_warned : Bool

-- A row of `traffic_samples`, of `traffic_hourly` or of `traffic_daily`: `ts` is the column `ts`,
-- `hour_ts` or `day_ts`.
pub record TrafficRow : Type 0 where
  pub user_label : String
  pub ts : ℕ
  pub bytes_in : ℕ
  pub bytes_out : ℕ
  pub connections : ℕ

pub record CounterRow : Type 0 where
  pub user_label : String
  pub bytes_in : ℕ
  pub bytes_out : ℕ
  pub updated_ts : ℕ

-- A row of `ops_samples`, or of `ops_counters` with `updated_ts` for its `ts`.
pub record OpsRow : Type 0 where
  pub ts : ℕ
  pub accepted : ℕ
  pub rejected : ℕ
  pub socks5_attempted : ℕ
  pub socks5_succeeded : ℕ

-- `ops_counters` has at most one row, the one with `id` 1.
pub record Db : Type 0 where
  pub users : List UserRow
  pub traffic_samples : List TrafficRow
  pub traffic_hourly : List TrafficRow
  pub traffic_daily : List TrafficRow
  pub traffic_counters : List CounterRow
  pub ops_samples : List OpsRow
  pub ops_counters : Option OpsRow

abbrev pub empty_db : Db
empty_db = record {
  users = [];
  traffic_samples = [];
  traffic_hourly = [];
  traffic_daily = [];
  traffic_counters = [];
  ops_samples = [];
  ops_counters = none;
}
