-- ===== src/RateLimit/History.antt =====
-- What a block says of the calls before it, over every sequence of calls.
use mtproxy_orchestrator.Base.{
  ℕ, ◌+◌, ◌≤◌, ◌<◌, String, true, Option, none, some, List, [], ◌∷◌, ◌≡◌, arith, if◌then◌else◌,
  str_eq, eq_iff, Bool-cases, inl, inr, Option-cases,
}
use mtproxy_orchestrator.RateLimit.{
  IpRecord, RateLimiter, Event, failure, success, max_failures, record_or_zero, zero_record,
  new_rate_limiter, is_blocked, is_blocked-some, fail, record_failure, record_success, handle, run,
}

-- The failures of `ip` since its last success, counted on from `n`.
pub count_failures : String → ℕ → List Event → ℕ
count_failures ip n [] = n
count_failures ip n (failure now j ∷ es) = count_failures ip (if str_eq j ip then n + 1 else n) es
count_failures ip n (success j ∷ es) = count_failures ip (if str_eq j ip then 0 else n) es

-- A record counts no more failures than there were, and blocks only after five.
abbrev Counted : ℕ → Option IpRecord → Type 0
Counted n none = Unit
Counted n (some r) = (r.failures ≤ n) × (0 < r.blocked_until → max_failures ≤ n)

fail-Counted : (now n : ℕ) (r : IpRecord) → Counted n (some r) → Counted (n + 1) (some (fail now r))
unfolding fail
fail-Counted now n r h = ground arith

fail_or_zero-Counted :
    (now n : ℕ) (o : Option IpRecord)
    → Counted n o
    → Counted (n + 1) (some (fail now (record_or_zero o)))
fail_or_zero-Counted now n none h = fail-Counted now n zero_record (omega arith)
fail_or_zero-Counted now n (some r) h = fail-Counted now n r h

step : String → ℕ → Event → ℕ
step ip n (failure now j) = if str_eq j ip then n + 1 else n
step ip n (success j) = if str_eq j ip then 0 else n

handle-Counted :
    (ip : String) (n : ℕ) (rl : RateLimiter) (e : Event)
    → Counted n (rl.records ip)
    → Counted (step ip n e) ((handle rl e).records ip)
unfolding step handle record_failure record_success
handle-Counted ip n rl (failure now j) h = elim (Bool-cases (str_eq j ip)) [
  | inr other ↦ rw other h
  | inl same ↦ rw (same, (eq_iff j ip).0 same) (fail_or_zero-Counted now n (rl.records ip) h)
]
handle-Counted ip n rl (success j) h = elim (Bool-cases (str_eq j ip)) [
  | inr other ↦ rw other h
  | inl same ↦ rw same tt
]

run-Counted :
    (ip : String) (es : List Event) (n : ℕ) (rl : RateLimiter)
    → Counted n (rl.records ip)
    → Counted (count_failures ip n es) ((run rl es).records ip)
unfolding run count_failures step
run-Counted ip [] n rl h = h
run-Counted ip (failure now j ∷ es) n rl h =
    run-Counted ip es (step ip n (failure now j)) (handle rl (failure now j))
      (handle-Counted ip n rl (failure now j) h)
run-Counted ip (success j ∷ es) n rl h =
    run-Counted ip es (step ip n (success j)) (handle rl (success j))
      (handle-Counted ip n rl (success j) h)

is_blocked-Counted :
    (now n : ℕ) (ip : String) (rl : RateLimiter)
    → Counted n (rl.records ip)
    → is_blocked now ip rl ≡ true
    → max_failures ≤ n
unfolding is_blocked
is_blocked-Counted now n ip rl h b = elim (Option-cases (rl.records ip)) [
  | inl e ↦ absurd (ground (arith, e))
  | inr (r, e) ↦ (rw e at h).1 (ground (arith, is_blocked-some now ip rl e))
]

-- An address is blocked only after five failures with no success in between, whatever the order and
-- the times of the calls, those of other addresses among them.
pub is_blocked-count_failures :
    (es : List Event) (now : ℕ) (ip : String)
    → is_blocked now ip (run new_rate_limiter es) ≡ true
    → max_failures ≤ count_failures ip 0 es
is_blocked-count_failures es now ip b =
    is_blocked-Counted now (count_failures ip 0 es) ip (run new_rate_limiter es)
      (run-Counted ip es 0 new_rate_limiter tt) b
