-- ===== src/Quota/Service.antt =====
-- The quota service of internal/quota/quota.go. Each method takes the state and the faults that the
-- database shows during the call, and returns the state, the method's results and its error.
-- A transaction that does not commit leaves the tables as they were. `audit` holds the events that
-- `s.Audit` was given, newest first, and `reloads` counts the calls of `s.Reload`.
pub mod Frame
pub mod Enforcement
pub mod Retry
pub mod Tick
use mtproxy_orchestrator.Base.{
  ℕ, zero, suc, ◌+◌, ◌*◌, ◌%◌, ◌/◌, String, Bool, true, false, not, ◌&&◌, ◌||◌, Option, none, some,
  List, [], ◌∷◌, ltb, leb, ◌==◌, str_eq, bool_eq, if◌then◌else◌, find, filter, map,
}
use mtproxy_orchestrator.Base.Int.{ℤ, mul64, quot, geb}
use mtproxy_orchestrator.Base.Sql.{update, sum}
use mtproxy_orchestrator.Schema.{UserRow, TrafficRow, Db}
use mtproxy_orchestrator.Quota.Period.{day_floor, advance}

pub data Event : Type 0 where
  quota_rollover : String → String → Event
  quota_warning : String → ℕ → ℕ → ℕ → Event
  quota_suspend : String → ℕ → ℕ → Event
  quota_unsuspend : String → Event

-- The call that failed.
pub data Error : Type 0 where
  begin_failed query_failed no_rows totals_failed update_failed commit_failed reload_failed : Error

-- Which calls of the database fail: BEGIN IMMEDIATE, the SELECT of the user, the SELECT of the sums,
-- the UPDATE and the COMMIT.
pub record Faults : Type 0 where
  pub begin : Bool
  pub query : Bool
  pub totals : Bool
  pub update : Bool
  pub commit : Bool

abbrev pub no_faults : Faults
no_faults = record { begin = false; query = false; totals = false; update = false; commit = false }

pub record Service : Type 0 where
  pub db : Db
  pub reload_pending : Bool
  pub audit : List Event
  pub reloads : ℕ

abbrev pub log : Event → Service → Service
log e s = record s { audit = e ∷ s.audit }

-- `WHERE label=? AND deleted_at IS NULL`
abbrev pub has_label : String → UserRow → Bool
has_label label u = str_eq u.label label && not u.deleted

-- `WHERE id=?`
abbrev pub has_id : ℕ → UserRow → Bool
has_id id u = u.id == id

-- The UPDATE statements of `RolloverIfDue` and of `Recalculate`.
abbrev pub start_period : ℕ → UserRow → UserRow
start_period now r = record r { quota_period_start = day_floor now }

abbrev pub renew_period : ℕ → UserRow → UserRow
renew_period cur r = record r {
  quota_used_bytes = 0;
  quota_warned = false;
  quota_suspended = false;
  quota_period_start = cur;
}

abbrev pub store_usage : ℕ → Bool → Bool → UserRow → UserRow
store_usage used suspended warned r = record r {
  quota_used_bytes = used;
  quota_suspended = suspended;
  quota_warned = warned;
}

abbrev pub written : ℕ → (UserRow → UserRow) → Db → Db
written id f db = record db { users = update (has_id id) f db.users }

abbrev pub write_user : ℕ → (UserRow → UserRow) → Service → Service
write_user id f s = record s { db = written id f s.db }

abbrev pub find_user : String → Db → Option UserRow
find_user label db = find (has_label label) db.users

-- `SELECT COALESCE(SUM(bytes_in)+SUM(bytes_out),0) FROM traffic_daily WHERE …`
unfoldable pub traffic_since : String → ℕ → Db → ℕ
traffic_since label start db =
    let in_period = λ (r : TrafficRow). str_eq r.user_label label && leb start r.ts in
    sum in_period (λ r. r.bytes_in) db.traffic_daily
    + sum in_period (λ r. r.bytes_out) db.traffic_daily

-- `threshold` of `Recalculate`: `u.QuotaBytes * int64(u.QuotaWarnPct) / 100` on `int64`.
abbrev pub warn_threshold : UserRow → ℤ
warn_threshold u = quot (mul64 u.quota_bytes u.quota_warn_pct) 100

-- `used`, `newSuspended` and `newWarned` (which `emitWarning` comes with) of `Recalculate`.
unfoldable pub used_bytes : String → UserRow → Db → ℕ
used_bytes label u db =
    if u.quota_period_start == 0 then 0 else traffic_since label u.quota_period_start db

unfoldable pub new_suspended : UserRow → ℕ → Bool
new_suspended u used =
    if ltb 0 u.quota_bytes && leb u.quota_bytes used then true else u.quota_suspended

unfoldable pub emit_warning : UserRow → ℕ → Bool
emit_warning u used =
    ltb 0 u.quota_bytes
    && (not u.quota_warned && (ltb 0 u.quota_warn_pct && geb used (warn_threshold u)))

-- What one round of `tickAll` meets: a cancelled context, the clock, and the database's faults.
pub record Round : Type 0 where
  pub cancelled : Bool
  pub now : ℕ
  pub rollover : Faults
  pub recalc : Faults

-- `listUsers`: `WHERE deleted_at IS NULL`
abbrev pub list_users : Db → List UserRow
list_users db = filter (λ u. not u.deleted) db.users

abbrev commit_error : Faults → Option Error
commit_error f = if f.commit then some commit_failed else none

-- `s.Reload` is nil, or a function: whether its call number `n` fails.
module _ (reload : Option (ℕ → Bool)) where
  unfoldable pub run_reload : Service → Service × Option Error
  run_reload s = elim reload [
    | none ↦ (s, none)
    | some fails ↦
        let failed = fails s.reloads in
        (
          record s { reloads = s.reloads + 1; reload_pending = failed },
          if failed then some reload_failed else none,
        )
  ]

  -- `RolloverIfDue` from the branch on `periodStart` on, at the row that the SELECT found.
  unfoldable pub rollover_row :
      Faults → ℕ → String → UserRow → Service → Service × Bool × Option Error
  unfolding run_reload
  rollover_row f now label u s =
      let (cur, rolled) = advance (now + 1) u.quota_period now u.quota_period_start false in
      let initialised = write_user u.id (start_period now) s in
      let renewed = write_user u.id (renew_period cur) s in
      let logged = log (quota_rollover label u.quota_period) renewed in
      let (reloaded, failed) = run_reload logged in
      if u.quota_period_start == 0
      then (if f.update
          then (s, false, some update_failed)
          else if f.commit
          then (s, false, some commit_failed)
          else (initialised, false, none))
      else if not rolled
      then (s, false, commit_error f)
      else if f.update
      then (s, false, some update_failed)
      else if f.commit
      then (s, false, some commit_failed)
      else if u.quota_suspended
      then (reloaded, true, failed)
      else (logged, true, none)

  unfoldable pub rollover_if_due : Faults → ℕ → String → Service → Service × Bool × Option Error
  rollover_if_due f now label s =
      if f.begin
      then (s, false, some begin_failed)
      else if f.query
      then (s, false, some query_failed)
      else elim (find_user label s.db) [
        | none ↦ (s, false, some no_rows)
        | some u ↦ rollover_row f now label u s
      ]

  -- The part of `Recalculate` behind its COMMIT.
  unfoldable pub announce : String → UserRow → ℕ → Service → Service × Option Error
  unfolding run_reload new_suspended emit_warning
  announce label u used s =
      let suspended = new_suspended u used in
      let warned =
        if emit_warning u used
        then log (quota_warning label used u.quota_bytes u.quota_warn_pct) s
        else s in
      let event =
        if suspended then quota_suspend label used u.quota_bytes else quota_unsuspend label in
      if not (bool_eq suspended u.quota_suspended)
      then run_reload (log event warned)
      else if warned.reload_pending
      then run_reload warned
      else (warned, none)

  unfoldable pub recalculate_row :
      Faults → String → UserRow → Service → Service × ℕ × Bool × Option Error
  unfolding announce used_bytes
  recalculate_row f label u s =
      let used = used_bytes label u s.db in
      let suspended = new_suspended u used in
      let stored =
        write_user u.id
          (store_usage used suspended (if emit_warning u used then true else u.quota_warned)) s in
      let (announced, failed) = announce label u used stored in
      if not (u.quota_period_start == 0) && f.totals
      then (s, 0, u.quota_suspended, some totals_failed)
      else if f.update
      then (s, used, suspended, some update_failed)
      else if f.commit
      then (s, used, suspended, some commit_failed)
      else (announced, used, suspended, failed)

  unfoldable pub recalculate : Faults → String → Service → Service × ℕ × Bool × Option Error
  recalculate f label s =
      if f.begin
      then (s, 0, false, some begin_failed)
      else if f.query
      then (s, 0, false, some query_failed)
      else elim (find_user label s.db) [
        | none ↦ (s, 0, false, some no_rows)
        | some u ↦ recalculate_row f label u s
      ]

  tick_user : Round → String → Service → Service
  tick_user r label s =
      let (s', rolled, err) = rollover_if_due r.rollover r.now label s in
      elim err [ some e ↦ s' | none ↦ (recalculate r.recalc label s').0 ]

  -- The loop of `tickAll` over the labels that `listUsers` returned.
  unfoldable pub tick_users : (String → Round) → List String → Service → Service
  unfolding tick_user
  tick_users round [] s = s
  tick_users round (label ∷ labels) s =
      let rest = tick_users round labels (tick_user (round label) label s) in
      if (round label).cancelled then s else rest

  -- `tickAll`; the flag says whether `listUsers` fails.
  pub tick_all : Bool → (String → Round) → Service → Service
  tick_all fails round s =
      if fails then s else tick_users round (map (λ u. u.label) (list_users s.db)) s
