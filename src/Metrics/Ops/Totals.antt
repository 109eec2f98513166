-- ===== src/Metrics/Ops/Totals.antt =====
-- What the rows of `ops_samples` sum up to after a scrape.
use mtproxy_orchestrator.Base.{
  ℕ, ◌+◌, ◌≤◌, ◌<◌, ◌≡◌, true, false, some, List, [], ◌∷◌, ◌++◌, ◌==◌, arith,
}
use mtproxy_orchestrator.Base.Sql.{exists, sum}
use mtproxy_orchestrator.Schema.{OpsRow, Db}
use mtproxy_orchestrator.Metrics.Ops.{OpsCounters, no_faults, ops_row, ops_delta, ops_store}

abbrev pub total : (OpsRow → ℕ) → Db → ℕ
total f db = sum (λ r. true) f db.ops_samples

total-append :
    (f : OpsRow → ℕ) (xs : List OpsRow) (x : OpsRow)
    → sum (λ r. true) f (xs ++ x ∷ []) ≡ sum (λ r. true) f xs + f x
total-append f [] x = omega arith
total-append f (y ∷ xs) x = omega (arith, total-append f xs x)

module _ (cur : OpsCounters) (prev : OpsRow) (ts : ℕ) (db : Db)
    (seen : db.ops_counters ≡ some prev) where
  -- With counters of an earlier scrape and no fault, a scrape whose counters have not restarted, in a second with no row yet, adds to each column
  -- exactly what its counter rose by; the counters of the scrape are kept for the next.
  total-ops_store :
      prev.accepted ≤ cur.accepted
      → prev.rejected ≤ cur.rejected
      → exists (λ (r : OpsRow). r.ts == ts) db.ops_samples ≡ false
      → let db' = (ops_store no_faults cur ts db).0 in
        (total (λ r. r.accepted) db' + prev.accepted ≡ total (λ r. r.accepted) db + cur.accepted)
        × (total (λ r. r.rejected) db' + prev.rejected ≡ total (λ r. r.rejected) db + cur.rejected)
        × (db'.ops_counters ≡ some (ops_row ts cur))
  unfolding ops_store ops_delta
  total-ops_store ha hr fresh = ground (
    arith,
    seen,
    fresh,
    total-append (λ r. r.accepted) db.ops_samples (ops_row ts (ops_delta cur prev)),
    total-append (λ r. r.rejected) db.ops_samples (ops_row ts (ops_delta cur prev)),
  )

  -- With counters of an earlier scrape and no fault, in a second that has a row, and with more
  -- accepted connections than before, the counters move on but no row is added: what a counter rose by is
  -- in no row, neither of this scrape nor of a later one.
  ops_store_duplicate_loses :
      prev.accepted < cur.accepted
      → exists (λ (r : OpsRow). r.ts == ts) db.ops_samples ≡ true
      → let db' = (ops_store no_faults cur ts db).0 in
        (total (λ r. r.accepted) db' + prev.accepted < total (λ r. r.accepted) db + cur.accepted)
        × (db'.ops_counters ≡ some (ops_row ts cur))
  unfolding ops_store
  ops_store_duplicate_loses h old = ground (arith, seen, old)
