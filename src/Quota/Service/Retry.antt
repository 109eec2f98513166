-- ===== src/Quota/Service/Retry.antt =====
-- Failures of the quota service: an uncommitted call changes nothing, and a failed reload is retried.
use mtproxy_orchestrator.Base.{
  ℕ, zero, suc, ◌+◌, ◌*◌, ◌/◌, ◌%◌, ◌≤◌, ◌<◌, String, Bool, true, false, Option, none, some,
  if◌then◌else◌, ◌≡◌, ◌↔◌, inl, inr, arith, leb, Option-cases,
}
use mtproxy_orchestrator.Base.Int.{two63, two64, signed64, quot, geb}
use mtproxy_orchestrator.Base.Sql.{Distinct}
use mtproxy_orchestrator.Schema.{UserRow}
use mtproxy_orchestrator.Quota.Service.Frame.{
  IsLocal, calls-IsLocal, Writes, rollover_if_due-Writes, recalculate-Writes,
}
use mtproxy_orchestrator.Quota.Service.{
  Faults, Service, Error, reload_failed, find_user, rollover_row, rollover_if_due, recalculate_row,
  write_user, store_usage, new_suspended, recalculate, announce, used_bytes, emit_warning,
}

-- What a method's error says of its state.
abbrev pub IsAtomic : Service → Service → Option Error → Type 0
IsAtomic s s' none = Unit
IsAtomic s s' (some reload_failed) = s'.reload_pending ≡ true
IsAtomic s s' (some e) = s' ≡ s

module _ (reload : Option (ℕ → Bool)) (f : Faults) (label : String) where
  rollover_row-IsAtomic :
      (u : UserRow) (s : Service) (now : ℕ)
      → let (s', rolled, err) = rollover_row reload f now label u s in IsAtomic s s' err
  unfolding rollover_row
  rollover_row-IsAtomic u s now = ground arith

  recalculate_row-IsAtomic :
      (u : UserRow) (s : Service)
      → let (s', used, suspended, err) = recalculate_row reload f label u s in IsAtomic s s' err
  unfolding recalculate_row
  recalculate_row-IsAtomic u s = ground arith

  -- When `RolloverIfDue` fails, the failure is a reload that is noted as pending, or nothing changed.
  rollover_if_due-IsAtomic :
      (s : Service) (now : ℕ)
      → let (s', rolled, err) = rollover_if_due reload f now label s in IsAtomic s s' err
  unfolding rollover_if_due
  rollover_if_due-IsAtomic s now = elim (Option-cases (find_user label s.db)) [
    | inl e ↦ rw e (ground arith)
    | inr (u, e) ↦ rw e (ground (arith, rollover_row-IsAtomic u s now))
  ]

  -- When `Recalculate` fails, the failure is a reload that is noted as pending, or nothing changed.
  recalculate-IsAtomic :
      (s : Service)
      → let (s', used, suspended, err) = recalculate reload f label s in IsAtomic s s' err
  unfolding recalculate
  recalculate-IsAtomic s = elim (Option-cases (find_user label s.db)) [
    | inl e ↦ rw e (ground arith)
    | inr (u, e) ↦ rw e (ground (arith, recalculate_row-IsAtomic u s))
  ]

  -- The call left every table as it was, but for the row of its user at most, and what its error says.
  abbrev pub IsContained : Service → Service → Option Error → Type 0
  IsContained s s' err = Writes label s.db s'.db × (IsLocal label s.db s'.db × IsAtomic s s' err)

  -- With distinct ids, whatever fails, `RolloverIfDue` and `Recalculate` leave every table as it was,
  -- but for the row of their user at most, and of that row only the quota state changes; and when they
  -- fail, the failure is a reload that is noted as pending, or nothing changed.
  pub calls-IsContained :
      (s : Service) (now : ℕ)
      → Distinct (λ u. u.id) s.db.users
      → (let (s', rolled, err) = rollover_if_due reload f now label s in IsContained s s' err)
        × (let (s', used, suspended, err) = recalculate reload f label s in IsContained s s' err)
  calls-IsContained s now d =
      let (local_rollover, local_recalculate) = calls-IsLocal reload f label s now d in
      (
        (
          rollover_if_due-Writes reload f label s now,
          (local_rollover, rollover_if_due-IsAtomic s now),
        ),
        (recalculate-Writes reload f label s, (local_recalculate, recalculate-IsAtomic s)),
      )

-- No reload is pending behind a call, and one that was pending before it was made again, once, and
-- succeeded.
abbrev pub IsRetried : (ℕ → Bool) → Service → Service → Type 0
IsRetried fails s s' =
    (s'.reload_pending ≡ false)
    × (s.reload_pending ≡ true → (s'.reloads ≡ s.reloads + 1) × (fails s.reloads ≡ false))

module _ (fails : ℕ → Bool) (f : Faults) (label : String) where
  announce-IsRetried :
      (u : UserRow) (used : ℕ) (s : Service)
      → (announce (some fails) label u used s).1 ≡ none
      → IsRetried fails s (announce (some fails) label u used s).0
  unfolding announce
  announce-IsRetried u used s h = ground (arith, h)

  recalculate_row-IsRetried :
      (u : UserRow) (s : Service)
      → (recalculate_row (some fails) f label u s).3 ≡ none
      → IsRetried fails s (recalculate_row (some fails) f label u s).0
  unfolding recalculate_row
  recalculate_row-IsRetried u s h =
      let used = used_bytes label u s.db in
      let stored =
        write_user u.id
          (store_usage used (new_suspended u used)
            (if emit_warning u used then true else u.quota_warned))
          s in
      ground (arith, h, announce-IsRetried u used stored)

  -- Where a reload function is set: after a recalculation without an error no reload is pending, and a
  -- reload that was pending before has been made again, once, and has succeeded.
  pub recalculate-retries :
      (s : Service)
      → (recalculate (some fails) f label s).3 ≡ none
      → IsRetried fails s (recalculate (some fails) f label s).0
  unfolding recalculate
  recalculate-retries s h = elim (Option-cases (find_user label s.db)) [
    | inl e ↦ ground (arith, e)
    | inr (u, e) ↦ ground (arith, e, recalculate_row-IsRetried u s)
  ]

positive : (a b : ℕ) → two63 ≤ a * b → (0 < a) × (0 < b)
positive zero b h = absurd (omega arith)
positive (suc a) zero h = absurd (omega arith)
positive (suc a) (suc b) h = (omega arith, omega arith)

-- The comparison with the threshold, where the product `n` is below 2 ^ 63 and where it is not.
geb-in_range :
    (n used : ℕ) → n < two63 → geb used (quot (signed64 (n % two64)) 100) ≡ leb n (used * 100 + 99)
geb-in_range n used h = ground arith

geb-overflow :
    (n used : ℕ) → two63 ≤ n → n < two64 → geb used (quot (signed64 (n % two64)) 100) ≡ true
geb-overflow n used lo hi = ground arith

-- Within the range of `int64` the warning is given exactly when it was not given before and
-- `quota_warn_pct` percent of the quota, rounded down, are used.
emit_warning_iff :
    (u : UserRow) (used : ℕ)
    → u.quota_bytes * u.quota_warn_pct < two63
    → (emit_warning u used ≡ true) ↔ (
        (u.quota_warned ≡ false)
        × (0 < u.quota_bytes)
        × (0 < u.quota_warn_pct)
        × (u.quota_bytes * u.quota_warn_pct / 100 ≤ used))
unfolding emit_warning
emit_warning_iff u used h =
    rw (geb-in_range (u.quota_bytes * u.quota_warn_pct) used h) (ground arith)

-- Where the product is outside that range, below twice its bound, its `int64` is negative, and the
-- first recalculation warns whatever was used.
emit_warning_overflow :
    (u : UserRow) (used : ℕ)
    → u.quota_warned ≡ false
    → two63 ≤ u.quota_bytes * u.quota_warn_pct
    → u.quota_bytes * u.quota_warn_pct < two64
    → emit_warning u used ≡ true
unfolding emit_warning
emit_warning_overflow u used unwarned lo hi =
    rw (geb-overflow (u.quota_bytes * u.quota_warn_pct) used lo hi)
      (ground (arith, positive u.quota_bytes u.quota_warn_pct lo))
