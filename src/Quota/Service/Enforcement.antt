-- ===== src/Quota/Service/Enforcement.antt =====
-- What a fault-free call of `RolloverIfDue` and of `Recalculate` stores for its user.
use mtproxy_orchestrator.Base.{
  ℕ, ◌+◌, ◌≤◌, ◌<◌, String, Bool, true, false, Option, some, ◌≡◌, refl, ◌↔◌, ◌⊎◌, inl, inr, arith,
  if◌then◌else◌, Bool-cases,
}
use mtproxy_orchestrator.Schema.{UserRow}
use mtproxy_orchestrator.Quota.Period.{period_end, advance}
use mtproxy_orchestrator.Quota.Period.Rollover.{Periods, none_ended, Advanced, advance-Advanced}
use mtproxy_orchestrator.Quota.Service.{
  no_faults, Service, find_user, written, write_user, renew_period, store_usage, used_bytes,
  new_suspended, emit_warning, rollover_row, rollover_if_due, recalculate_row, recalculate,
}
use mtproxy_orchestrator.Quota.Service.Frame.{find_user_self, db-announce}

-- The row `v` that `Recalculate` leaves for `u`, when it returns `used` and `suspended`.
pub record IsRecalculated (u v : UserRow) (used : ℕ) (suspended : Bool) : Type 0 where
  pub enforced :
      (suspended ≡ true)
      ↔ ((u.quota_suspended ≡ true) ⊎ ((0 < u.quota_bytes) × (u.quota_bytes ≤ used)))
  pub stored_suspended : v.quota_suspended ≡ suspended
  pub stored_used : v.quota_used_bytes ≡ used
  pub warned : v.quota_warned ≡ (if emit_warning u used then true else u.quota_warned)
  pub period_start : v.quota_period_start ≡ u.quota_period_start
  pub quota_bytes : v.quota_bytes ≡ u.quota_bytes

new_suspended_iff :
    (u : UserRow) (used : ℕ)
    → (new_suspended u used ≡ true)
      ↔ ((u.quota_suspended ≡ true) ⊎ ((0 < u.quota_bytes) × (u.quota_bytes ≤ used)))
unfolding new_suspended
new_suspended_iff u used = ground arith

IsRecalculated-store_usage :
    (u : UserRow) (used : ℕ)
    → IsRecalculated u
        (store_usage used
          (new_suspended u used)
          (if emit_warning u used then true else u.quota_warned)
          u)
        used
        (new_suspended u used)
IsRecalculated-store_usage u used = record {
  enforced = new_suspended_iff u used;
  stored_suspended = refl;
  stored_used = refl;
  warned = refl;
  period_start = refl;
  quota_bytes = refl;
}

module _ (reload : Option (ℕ → Bool)) (label : String) (u : UserRow) (s : Service)
    (found : find_user label s.db ≡ some u) where
  pub recalculate-no_faults :
      (recalculate reload no_faults label s).0.db
        ≡ written u.id
            (store_usage
              (used_bytes label u s.db)
              (new_suspended u (used_bytes label u s.db))
              (if emit_warning u (used_bytes label u s.db) then true else u.quota_warned))
            s.db
      × ((recalculate reload no_faults label s).1 ≡ used_bytes label u s.db)
      × ((recalculate reload no_faults label s).2 ≡ new_suspended u (used_bytes label u s.db))
  unfolding recalculate recalculate_row
  recalculate-no_faults =
      let used = used_bytes label u s.db in
      let stored =
        write_user u.id
          (store_usage used (new_suspended u used)
            (if emit_warning u used then true else u.quota_warned))
          s in
      ground (arith, found, db-announce reload label u used stored)

  -- With no fault of the database, the recalculation of a live user counts the traffic since the period's start and suspends the user exactly when
  -- the quota is set and used up, or the user was suspended before.
  pub recalculate-IsRecalculated :
      let (s', used, suspended, err) = recalculate reload no_faults label s in
      (used ≡ used_bytes label u s.db)
      × ((v : UserRow) × (find_user label s'.db ≡ some v) × IsRecalculated u v used suspended)
  recalculate-IsRecalculated =
      let (stored, used, suspended) = recalculate-no_faults in
      (
        used,
        (
          store_usage (used_bytes label u s.db) (new_suspended u (used_bytes label u s.db))
              (if emit_warning u (used_bytes label u s.db) then true else u.quota_warned) u,
          rw stored (find_user_self label u _ s.db (λ x. ground arith) found),
          rw used (rw suspended (IsRecalculated-store_usage u (used_bytes label u s.db))),
        ),
      )

-- The row `v` that `RolloverIfDue` leaves for `u` at the time `now`, when it returns `rolled`.
pub record IsRolledOver (u v : UserRow) (now : ℕ) (rolled : Bool) : Type 0 where
  pub current : now < period_end u.quota_period v.quota_period_start
  pub periods : Periods u.quota_period now v.quota_period_start u.quota_period_start
  pub due : (rolled ≡ true) ↔ (period_end u.quota_period u.quota_period_start ≤ now)
  pub renewed :
      rolled ≡ true
      → (v.quota_used_bytes ≡ 0)
        × (v.quota_warned ≡ false)
        × (v.quota_suspended ≡ false)
        × (v.quota_period_start ≤ now)
  pub kept : rolled ≡ false → v ≡ u

module _ (u : UserRow) (now : ℕ) where
  abbrev looped : ℕ × Bool
  looped = advance (now + 1) u.quota_period now u.quota_period_start false

  IsRolledOver-renewed :
      Advanced u.quota_period now u.quota_period_start false looped
      → looped.1 ≡ true
      → IsRolledOver u (renew_period looped.0 u) now true
  IsRolledOver-renewed a e = record {
    current = a.current;
    periods = a.periods;
    due = ((λ p. ground (arith, a.ended e)), λ p. refl);
    renewed = λ p. (refl, refl, refl, ground (arith, a.moved e));
    kept = λ p. cc;
  }

  IsRolledOver-kept :
      Advanced u.quota_period now u.quota_period_start false looped
      → looped.1 ≡ false
      → IsRolledOver u u now false
  IsRolledOver-kept a e = record {
    current = (a.unchanged e).1;
    periods = none_ended refl;
    due = ((λ p. cc), λ p. absurd (omega (arith, (a.unchanged e).1)));
    renewed = λ p. cc;
    kept = λ p. refl;
  }

module _ (reload : Option (ℕ → Bool)) (label : String) (u : UserRow) (s : Service)
    (found : find_user label s.db ≡ some u) (now : ℕ) (started : 0 < u.quota_period_start) where
  rollover_no_faults :
      let (s', rolled, err) = rollover_if_due reload no_faults now label s in
      (rolled ≡ (looped u now).1)
      × (s'.db
          ≡ (if (looped u now).1 then written u.id (renew_period (looped u now).0) s.db else s.db))
  unfolding rollover_if_due rollover_row
  rollover_no_faults = ground (arith, found)

  -- With no fault of the database and a live user whose period has begun,
  -- `RolloverIfDue` leaves the user in the period that contains `now`, reached by whole periods; it
  -- resets the counters exactly if the stored period has ended, and changes nothing otherwise.
  pub rollover_if_due-IsRolledOver :
      let (s', rolled, err) = rollover_if_due reload no_faults now label s in
      (v : UserRow) × (find_user label s'.db ≡ some v) × IsRolledOver u v now rolled
  rollover_if_due-IsRolledOver =
      let (rolled, stored) = rollover_no_faults in
      let a =
        advance-Advanced (now + 1) u.quota_period now u.quota_period_start false started
          (omega arith) in
      elim (Bool-cases (looped u now).1) [
        | inl e ↦ (
          renew_period (looped u now).0 u,
          rw stored (rw e (find_user_self label u _ s.db (λ x. ground arith) found)),
          rw rolled (rw e (IsRolledOver-renewed u now a e)),
        )
        | inr e ↦ (u, rw stored (rw e found), rw rolled (rw e (IsRolledOver-kept u now a e)))
      ]
