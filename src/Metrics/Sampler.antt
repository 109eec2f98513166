-- ===== src/Metrics/Sampler.antt =====
-- `DBStoreFn` and `counterDelta` of internal/metrics/sampler.go, with the tables of one database.
-- The transaction's statements fail as `Faults` says; a transaction that does not commit leaves the
-- tables as they were.
pub mod Counters
pub mod Usage
use mtproxy_orchestrator.Base.{
  ℕ, zero, suc, ◌+◌, ◌-◌, ◌%◌, max, String, Bool, true, false, not, ◌&&◌, Option, none, some, List,
  [], ◌∷◌, ◌++◌, ltb, leb, ◌==◌, str_eq, if◌then◌else◌, find, length,
}
use mtproxy_orchestrator.Base.Sql.{upsert, exists}
use mtproxy_orchestrator.Schema.{TrafficRow, CounterRow, Db}

-- The fields of a `Sample` that are stored.
pub record Sample : Type 0 where
  pub user_label : String
  pub bytes_in : ℕ
  pub bytes_out : ℕ
  pub connections : ℕ

-- Which calls fail: BEGIN, a Prepare, the statements for a sample, the COMMIT.
pub record Faults : Type 0 where
  pub begin : Bool
  pub prepare : Bool
  pub statement : Sample → Bool
  pub commit : Bool

abbrev pub no_faults : Faults
no_faults = record { begin = false; prepare = false; statement = λ s. false; commit = false }

-- One counter: what was added since `prev`, or all of it after a restart.
unfoldable pub delta : ℕ → ℕ → ℕ
delta cur prev = if leb prev cur then cur - prev else cur

abbrev pub has_counter : String → CounterRow → Bool
has_counter label c = str_eq c.user_label label

unfoldable pub counter_delta : Db → Sample → ℕ × ℕ
unfolding delta
counter_delta db sample = elim (find (has_counter sample.user_label) db.traffic_counters) [
  | none ↦ (sample.bytes_in, sample.bytes_out)
  | some prev ↦ (delta sample.bytes_in prev.bytes_in, delta sample.bytes_out prev.bytes_out)
]

abbrev pub has_key : String → ℕ → TrafficRow → Bool
has_key label ts r = str_eq r.user_label label && r.ts == ts

-- `DO UPDATE SET` of `dailyStmt`.
abbrev pub add_row : TrafficRow → TrafficRow → TrafficRow
add_row new r = record r {
  bytes_in = r.bytes_in + new.bytes_in;
  bytes_out = r.bytes_out + new.bytes_out;
  connections = max r.connections new.connections;
}

abbrev pub traffic_row : Sample → ℕ → ℕ × ℕ → TrafficRow
traffic_row sample ts (delta_in, delta_out) = record {
  user_label = sample.user_label;
  ts = ts;
  bytes_in = delta_in;
  bytes_out = delta_out;
  connections = sample.connections;
}

abbrev pub counter_row : Sample → ℕ → CounterRow
counter_row sample ts = record {
  user_label = sample.user_label;
  bytes_in = sample.bytes_in;
  bytes_out = sample.bytes_out;
  updated_ts = ts;
}

abbrev pub day_of : ℕ → ℕ
day_of ts = ts - ts % 86400

-- The three statements of the loop's body for a sample that is inserted.
abbrev pub inserted : ℕ → Sample → Db → Db
inserted ts sample db =
    let d = counter_delta db sample in
    let daily = traffic_row sample (day_of ts) d in
    record db {
      traffic_samples = db.traffic_samples ++ traffic_row sample ts d ∷ [];
      traffic_daily =
          upsert (has_key sample.user_label (day_of ts)) (add_row daily) daily db.traffic_daily;
      traffic_counters =
          upsert (has_counter sample.user_label) (λ c. counter_row sample ts)
            (counter_row sample ts) db.traffic_counters;
    }

-- The loop's body. A sample of this second is there already: `inserted == 0`, `continue`.
unfoldable pub store_sample : ℕ → Sample → Db → Db
store_sample ts sample db =
    if exists (has_key sample.user_label ts) db.traffic_samples then db else inserted ts sample db

unfoldable pub store_samples : (Sample → Bool) → ℕ → List Sample → Db → Option Db
store_samples fails ts [] db = some db
store_samples fails ts (sample ∷ samples) db =
    let rest = store_samples fails ts samples (store_sample ts sample db) in
    if fails sample then none else rest

-- The result is the database behind the call, and whether it returned an error.
unfoldable pub db_store : Faults → List Sample → ℕ → Db → Db × Bool
db_store f [] ts db = (db, false)
db_store f (sample ∷ samples) ts db =
    if f.begin
    then (db, true)
    else if f.prepare
    then (db, true)
    else elim (store_samples f.statement ts (sample ∷ samples) db) [
      | none ↦ (db, true)
      | some db' ↦ if f.commit then (db, true) else (db', false)
    ]

-- `tick` of `Sampler.Run`: the scrape is a result or an error, `Store` and `OpsStore` may be nil, and
-- their errors are logged and dropped.
unfoldable pub tick :
    {Snapshot : Type 0}
    → Option Snapshot
    → (Snapshot → List Sample)
    → Option (List Sample → ℕ → Db → Db)
    → Option (Snapshot → ℕ → Db → Db)
    → ℕ
    → Db
    → Db
tick none samples store ops_store ts db = db
tick (some snapshot) samples store ops_store ts db =
    let stored = elim store as (λ o. Db) [
      | none ↦ db
      | some st ↦ if ltb 0 (length (samples snapshot)) then st (samples snapshot) ts db else db
    ] in
    elim ops_store [ none ↦ stored | some st ↦ st snapshot ts stored ]
