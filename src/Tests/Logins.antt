-- ===== src/Tests/Logins.antt =====
-- The login limiter: six failures in a minute, and a success.
use mtproxy_orchestrator.Base.{
  ℕ, ◌+◌, ◌*◌, ◌≤◌, List, [], ◌∷◌, ◌≡◌, refl, arith, leb, ltb, ◌&&◌, length,
}
use mtproxy_orchestrator.RateLimit.{
  max_failures, block_duration, second, new_rate_limiter, is_blocked, fail, record_failure,
  record_success, Event, failure, success, handle, run,
}
use mtproxy_orchestrator.RateLimit.History.{count_failures, is_blocked-count_failures}
use mtproxy_orchestrator.RateLimit.Window.{last_time, failures_at, is_blocked-window}

abbrev start : ℕ
start = 1000 * second

abbrev six : List ℕ
six =
    (start + second)
    ∷ (start + 2 * second)
    ∷ (start + 3 * second)
    ∷ (start + 4 * second)
    ∷ (start + 5 * second)
    ∷ []

abbrev calls : List Event
calls =
    failure start "a"
    ∷ success "a"
    ∷ failure start "a"
    ∷ failure start "b"
    ∷ failure start "a"
    ∷ failure start "a"
    ∷ failure start "a"
    ∷ failure start "a"
    ∷ []

is_blocked-count_failures_example : max_failures ≤ count_failures "a" 0 calls
unfolding is_blocked fail record_failure record_success handle run
is_blocked-count_failures_example = is_blocked-count_failures calls (start + second) "a" refl

is_blocked-window_example :
    is_blocked (start + 10 * second) "a" (run new_rate_limiter (failures_at "a" (start ∷ six))) ≡ (
      leb max_failures (length six + 1)
      && ltb (start + 10 * second) (last_time start six + block_duration))
is_blocked-window_example =
    is_blocked-window "a" start six (start + 10 * second) new_rate_limiter refl (omega arith)
      (ground arith)
