-- ===== src/Quota/Period/Rollover.antt =====
-- The loop over ended periods: it ends, it goes forward by whole periods, and it stops in the period
-- that contains the present.
use mtproxy_orchestrator.Base.{
  ℕ, zero, suc, ◌+◌, ◌≤◌, ◌<◌, String, Bool, true, false, ◌||◌, ◌≡◌, refl, ◌⊎◌, inl, inr, arith,
  ltb, ◌==◌,
}
use mtproxy_orchestrator.Quota.Period.{period_end, advance}
use mtproxy_orchestrator.Quota.Period.Bounds.{period_end_bounds}

-- `last` is reached from a start by whole periods, each of which has ended at `now`.
pub data Periods (period : String) (now : ℕ) (last : ℕ) : ℕ → Type 0 where
  none_ended : {start : ℕ} → start ≡ last → Periods period now last start
  one_ended :
      {start : ℕ}
      → period_end period start ≤ now
      → Periods period now last (period_end period start)
      → Periods period now last start

-- What the loop returns when it starts at `start`.
pub record Advanced (period : String) (now start : ℕ) (before : Bool) (r : ℕ × Bool) : Type 0 where
  pub current : now < period_end period r.0
  pub periods : Periods period now r.0 start
  pub unchanged : r.1 ≡ false → (r.0 ≡ start) × (now < period_end period start)
  pub moved : r.1 ≡ true → ((before ≡ true) × (r.0 ≡ start)) ⊎ ((start < r.0) × (r.0 ≤ now))
  pub ended : r.1 ≡ true → (before ≡ true) ⊎ (period_end period start ≤ now)
  pub forward : start ≤ r.0
  pub begun : start ≤ now → r.0 ≤ now
  pub rolled : before ≡ true → r.1 ≡ true

abbrev stops : String → ℕ → ℕ → Bool
stops period now cur = period_end period cur == 0 || ltb now (period_end period cur)

stops-cases :
    (period : String) (now cur : ℕ)
    → 0 < cur
    → ((stops period now cur ≡ true) × (now < period_end period cur))
      ⊎ ((stops period now cur ≡ false) × (period_end period cur ≤ now))
stops-cases period now cur h = ground (arith, period_end_bounds period cur)

Advanced-here :
    (period : String) (now cur : ℕ) (before : Bool)
    → now < period_end period cur
    → Advanced period now cur before (cur, before)
Advanced-here period now cur before h = record {
  current = h;
  periods = none_ended refl;
  unchanged = λ e. (refl, h);
  moved = λ e. inl (e, refl);
  ended = λ e. inl e;
  forward = omega arith;
  begun = λ e. e;
  rolled = λ e. e;
}

Advanced-next :
    (period : String) (now cur : ℕ) (before : Bool) (r : ℕ × Bool)
    → 0 < cur
    → period_end period cur ≤ now
    → Advanced period now (period_end period cur) true r
    → Advanced period now cur before r
Advanced-next period now cur before r pos ended a = record {
  current = a.current;
  periods = one_ended ended a.periods;
  unchanged = λ e. cc (a.rolled refl);
  moved = λ e. inr (ground (arith, a.moved e, period_end_bounds period cur));
  ended = λ e. inr ended;
  forward = omega (arith, a.forward, period_end_bounds period cur);
  begun = λ e. a.begun ended;
  rolled = λ e. a.rolled refl;
}

-- From a start that is not 0 and with fuel that reaches beyond `now`, the loop of `RolloverIfDue` goes
-- by whole periods, each of them ended by `now`, to one that ends after `now`, and reports whether it
-- moved. Where the start is not after `now`, that period has begun by `now`, so it contains `now`.
pub advance-Advanced :
    (fuel : ℕ) (period : String) (now cur : ℕ) (before : Bool)
    → 0 < cur
    → now < cur + fuel
    → Advanced period now cur before (advance fuel period now cur before)
unfolding advance
advance-Advanced zero period now cur before pos h =
    Advanced-here period now cur before (omega (arith, period_end_bounds period cur pos))
advance-Advanced (suc fuel) period now cur before pos h = elim (stops-cases period now cur pos) [
  | inl (e, current) ↦ rw e (Advanced-here period now cur before current)
  | inr (e, ended) ↦ rw e (
      Advanced-next period now cur before (advance fuel period now (period_end period cur) true) pos
        ended
        (advance-Advanced fuel period now (period_end period cur) true
          (omega (arith, period_end_bounds period cur pos))
          (omega (arith, period_end_bounds period cur pos))))
]
