-- ===== src/Update/Apply/Polling.antt =====
-- `Check` of `OSHealthChecker` in internal/update/apply.go: the polling of a unit's state after a
-- restart. A round reads the state, looks at the clock, and sleeps.
use mtproxy_orchestrator.Base.{
  ℕ, zero, suc, ◌+◌, ◌*◌, ◌≤◌, String, Bool, true, false, not, ◌&&◌, Option, none, some, str_eq,
  ltb, if◌then◌else◌, ◌≡◌, ◌≢◌, inl, inr, arith, Bool-cases,
}

-- What `systemctl is-active` prints, and whether it reports an error.
pub record Reading : Type 0 where
  pub state : String
  pub error : Bool

pub data Verdict : Type 0 where
  healthy is_failed : Verdict
  not_active : String → Verdict

-- The readings of the rounds, the clock at the end of each, and the times of the check.
pub record UnitRun : Type 0 where
  pub reading : ℕ → Reading
  pub clock : ℕ → ℕ
  pub start : ℕ
  pub timeout : ℕ
  pub interval : ℕ

abbrev pub is_active : Reading → Bool
is_active r = not r.error && str_eq r.state "active"

module _ (run : UnitRun) where
  abbrev pub in_time : ℕ → Bool
  in_time k = ltb (run.clock k) (run.start + run.timeout)

  -- The loop from round `k` on, `none` where the fuel runs out.
  unfoldable pub poll : ℕ → ℕ → Option Verdict
  poll zero k = none
  poll (suc fuel) k =
      let rest = poll fuel (k + 1) in
      if is_active (run.reading k)
      then some healthy
      else if str_eq (run.reading k).state "failed"
      then some is_failed
      else if in_time k
      then rest
      else some (not_active (run.reading k).state)

  -- A sleep is at least an interval long.
  abbrev pub Sleeps : Type 0
  Sleeps = (k : ℕ) → run.clock k + run.interval ≤ run.clock (k + 1)

  poll-ne_none :
      (fuel k : ℕ)
      → Sleeps
      → run.start + run.timeout ≤ run.clock k + fuel * run.interval
      → poll (suc fuel) k ≢ none
  unfolding poll
  poll-ne_none zero k sleeps late = ground (arith, late)
  poll-ne_none (suc fuel) k sleeps late =
      let slept = sleeps k in
      let later : run.start + run.timeout ≤ run.clock (k + 1) + fuel * run.interval =
        grind (arith, late, slept) in
      ground (arith, poll-ne_none fuel (k + 1) sleeps later)

  -- Where a sleep is at least an interval long, and the first round does not end before the check
  -- begins, the polling ends: a round more than the intervals that make up the timeout is enough.
  pub poll_ends :
      (fuel : ℕ)
      → Sleeps
      → run.start ≤ run.clock 0
      → run.timeout ≤ fuel * run.interval
      → poll (suc fuel) 0 ≢ none
  poll_ends fuel sleeps begun enough = poll-ne_none fuel 0 sleeps (omega (arith, begun, enough))

  -- A round that the loop goes past.
  abbrev pub Passed : ℕ → Type 0
  Passed i =
      (is_active (run.reading i) ≡ false)
      × ((str_eq (run.reading i).state "failed" ≡ false) × (in_time i ≡ true))

  abbrev pub AllPassed : ℕ → ℕ → Type 0
  AllPassed k zero = Unit
  AllPassed k (suc n) = Passed k × AllPassed (k + 1) n

  -- The unit is found healthy only where a round reads it as active, and every round before it reads
  -- neither that nor a failure and ends before the deadline.
  poll-healthy :
      (fuel k : ℕ)
      → poll fuel k ≡ some healthy
      → (n : ℕ) × ((j : ℕ) × ((k + n ≡ j) × ((is_active (run.reading j) ≡ true) × AllPassed k n)))
  unfolding poll
  poll-healthy zero k h = cc
  poll-healthy (suc fuel) k h = elim (Bool-cases (is_active (run.reading k))) [
    | inl e ↦ (0, (k, (omega arith, (e, tt))))
    | inr e1 ↦ elim (Bool-cases (str_eq (run.reading k).state "failed")) [
      | inl e2 ↦ absurd (ground (arith, h, e1, e2))
      | inr e2 ↦ elim (Bool-cases (in_time k)) [
        | inr e3 ↦ absurd (ground (arith, h, e1, e2, e3))
        | inl e3 ↦
            let on : poll fuel (k + 1) ≡ some healthy = ground (arith, h, e1, e2, e3) in
            let (n, (j, (at, (active, passed)))) = poll-healthy fuel (k + 1) on in
            (suc n, (j, (omega (arith, at), (active, ((e1, (e2, e3)), passed)))))
      ]
    ]
  ]
