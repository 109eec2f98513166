-- ===== src/Metrics/Ops.antt =====
-- `DBOpsStoreFn` and `counterDeltaInt` of internal/metrics/ops_store.go: the deltas of Teleproxy's
-- global counters.
pub mod Totals
use mtproxy_orchestrator.Base.{
  ℕ, ◌+◌, ◌-◌, Bool, true, false, Option, none, some, List, [], ◌∷◌, ◌++◌, leb, ◌==◌, if◌then◌else◌,
}
use mtproxy_orchestrator.Base.Sql.{exists}
use mtproxy_orchestrator.Schema.{OpsRow, Db}

-- Which calls fail: BEGIN, the SELECT, the INSERT into `ops_samples`, the upsert, the COMMIT.
pub record Faults : Type 0 where
  pub begin : Bool
  pub query : Bool
  pub insert : Bool
  pub upsert : Bool
  pub commit : Bool

abbrev pub no_faults : Faults
no_faults = record { begin = false; query = false; insert = false; upsert = false; commit = false }

-- `opsCounters` of a snapshot.
pub record OpsCounters : Type 0 where
  pub accepted : ℕ
  pub rejected : ℕ
  pub socks5_attempted : ℕ
  pub socks5_succeeded : ℕ

unfoldable pub counter_delta_int : ℕ → ℕ → ℕ
counter_delta_int cur prev = if leb prev cur then cur - prev else cur

abbrev pub ops_row : ℕ → OpsCounters → OpsRow
ops_row ts c = record {
  ts = ts;
  accepted = c.accepted;
  rejected = c.rejected;
  socks5_attempted = c.socks5_attempted;
  socks5_succeeded = c.socks5_succeeded;
}

unfoldable pub ops_delta : OpsCounters → OpsRow → OpsCounters
unfolding counter_delta_int
ops_delta cur prev = record {
  accepted = counter_delta_int cur.accepted prev.accepted;
  rejected = counter_delta_int cur.rejected prev.rejected;
  socks5_attempted = counter_delta_int cur.socks5_attempted prev.socks5_attempted;
  socks5_succeeded = counter_delta_int cur.socks5_succeeded prev.socks5_succeeded;
}

-- The INSERT … WHERE NOT EXISTS, made only if there are counters of an earlier scrape.
unfoldable pub insert_ops : ℕ → OpsCounters → Db → List OpsRow
insert_ops ts cur db = elim db.ops_counters [
  | none ↦ db.ops_samples
  | some prev ↦
      if exists (λ (r : OpsRow). r.ts == ts) db.ops_samples
      then db.ops_samples
      else db.ops_samples ++ ops_row ts (ops_delta cur prev) ∷ []
]

abbrev pub has_prev : Db → Bool
has_prev db = elim db.ops_counters [ none ↦ false | some prev ↦ true ]

-- The result is the database behind the call, and whether it returned an error.
unfoldable pub ops_store : Faults → OpsCounters → ℕ → Db → Db × Bool
unfolding insert_ops
ops_store f cur ts db =
    let stored = record db {
      ops_samples = insert_ops ts cur db;
      ops_counters = some (ops_row ts cur);
    } in
    if f.begin
    then (db, true)
    else if f.query
    then (db, true)
    else if (if has_prev db then f.insert else false)
    then (db, true)
    else if f.upsert
    then (db, true)
    else if f.commit
    then (db, true)
    else (stored, false)
