-- ===== src/Tests/Quotas.antt =====
-- The quota service on two users.
use mtproxy_orchestrator.Base.{ℕ, ◌+◌, Bool, true, false, none, some, [], ◌∷◌, ◌≡◌, refl, arith}
use mtproxy_orchestrator.Base.Sql.{Distinct}
use mtproxy_orchestrator.Schema.{UserRow, TrafficRow, Db, empty_db}
use mtproxy_orchestrator.Quota.Period.{advance}
use mtproxy_orchestrator.Quota.Period.Rollover.{Advanced, advance-Advanced}
use mtproxy_orchestrator.Quota.Service.{
  Service, Faults, no_faults, find_user, used_bytes, run_reload, recalculate_row, announce,
  traffic_since, new_suspended, rollover_if_due, recalculate, tick_all, emit_warning,
}
use mtproxy_orchestrator.Quota.Service.Enforcement.{
  IsRecalculated, IsRolledOver, recalculate-IsRecalculated, rollover_if_due-IsRolledOver,
}
use mtproxy_orchestrator.Quota.Service.Retry.{
  IsContained, calls-IsContained, IsRetried, recalculate-retries,
}
use mtproxy_orchestrator.Quota.Service.Tick.{IsEnforced, quiet, tick_all-IsEnforced}

-- 1970-04-11 at midnight.
abbrev day_hundred : ℕ
day_hundred = 8640000

abbrev alice : UserRow
alice = record {
  id = 1;
  label = "alice";
  secret_hex = "aa";
  enabled = true;
  deleted = false;
  rotated_at = 0;
  quota_bytes = 1000;
  quota_period = "daily";
  quota_warn_pct = 80;
  quota_suspended = false;
  quota_period_start = day_hundred;
  quota_used_bytes = 0;
  quota_warned = false;
}

abbrev bob : UserRow
bob = record alice { id = 2; label = "bob"; quota_period = "monthly" }

abbrev alice_daily : TrafficRow
alice_daily = record {
  user_label = "alice";
  ts = day_hundred;
  bytes_in = 700;
  bytes_out = 400;
  connections = 2;
}

abbrev two_users : Db
two_users = record empty_db { users = alice ∷ bob ∷ []; traffic_daily = alice_daily ∷ [] }

abbrev service : Service
service = record { db = two_users; reload_pending = true; audit = []; reloads = 0 }

abbrev reloads_succeed : ℕ → Bool
reloads_succeed n = false

ids : Distinct (λ u. u.id) two_users.users
ids = ground arith

-- Alice has used 1100 of 1000 bytes; the rounds are at noon of her day.
tick_all-IsEnforced_example :
    IsEnforced "alice"
      (tick_all (some reloads_succeed) false (quiet (λ j. day_hundred + 43200)) service).db
unfolding run_reload
tick_all-IsEnforced_example =
    tick_all-IsEnforced (some reloads_succeed) (λ s. refl) (λ j. day_hundred + 43200) "alice"
      service {u = alice} ids refl

recalculate-IsRecalculated_example :
    let (s', used, suspended, err) = recalculate (some reloads_succeed) no_faults "alice" service in
    (used ≡ used_bytes "alice" alice two_users)
    × ((v : UserRow) × (find_user "alice" s'.db ≡ some v) × IsRecalculated alice v used suspended)
recalculate-IsRecalculated_example =
    recalculate-IsRecalculated (some reloads_succeed) "alice" alice service refl

-- Two and a half days later.
rollover_if_due-IsRolledOver_example :
    let (s', rolled, err) =
      rollover_if_due (some reloads_succeed) no_faults (day_hundred + 216000) "alice" service in
    (v : UserRow) × (find_user "alice" s'.db ≡ some v)
    × IsRolledOver alice v (day_hundred + 216000) rolled
rollover_if_due-IsRolledOver_example =
    rollover_if_due-IsRolledOver (some reloads_succeed) "alice" alice service refl
      (day_hundred + 216000) (omega arith)

abbrev lost_commit : Faults
lost_commit = record no_faults { commit = true }

calls-IsContained_example :
    (let (s', rolled, err) =
        rollover_if_due none lost_commit (day_hundred + 216000) "alice" service in
      IsContained none lost_commit "alice" service s' err)
    × (let (s', used, suspended, err) = recalculate none lost_commit "alice" service in
        IsContained none lost_commit "alice" service s' err)
calls-IsContained_example =
    calls-IsContained none lost_commit "alice" service (day_hundred + 216000) ids

-- A reload is pending before the call.
recalculate-retries_example :
    IsRetried reloads_succeed service (recalculate (some reloads_succeed) no_faults "bob" service).0
unfolding recalculate recalculate_row announce run_reload used_bytes traffic_since new_suspended
    emit_warning
recalculate-retries_example = recalculate-retries reloads_succeed no_faults "bob" service refl

advance-Advanced_example :
    Advanced "weekly" 9500000 day_hundred false (advance 9500001 "weekly" 9500000 day_hundred false)
advance-Advanced_example =
    advance-Advanced 9500001 "weekly" 9500000 day_hundred false (omega arith) (omega arith)

-- A quota of 2^57 bytes with a warning at 80 percent.
abbrev large : UserRow
large = record alice { quota_bytes = 144115188075855872 }
