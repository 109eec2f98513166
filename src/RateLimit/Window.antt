-- ===== src/RateLimit/Window.antt =====
-- What the limiter does inside one window: the fifth failure blocks the address for an hour.
use native.Mathlib.Nat.{add-zero}
use mtproxy_orchestrator.Base.{
  ℕ, suc, ◌+◌, ◌≤◌, ◌<◌, String, ◌&&◌, Option, none, some, List, [], ◌∷◌, ◌≡◌, ◌∙◌, arith, ltb, leb,
  if◌then◌else◌, eq_refl, length, map, All,
}
use mtproxy_orchestrator.RateLimit.{
  IpRecord, RateLimiter, Event, failure, max_failures, failure_window, block_duration,
  record_or_zero, is_blocked, is_blocked-some, fail, record_failure, handle, run,
}

-- The last of the times `t ∷ ts`.
pub last_time : ℕ → List ℕ → ℕ
last_time t [] = t
last_time t (u ∷ ts) = last_time u ts

-- The record of an address whose window began at `start`, after `n` failures, the last at `t`.
record InWindow (start n t : ℕ) (r : IpRecord) : Type 0 where
  counted : r.failures ≡ n
  window : r.window_end ≡ start + failure_window
  block : (if leb max_failures n then t + block_duration else 0) ≡ r.blocked_until

fail-first :
    (t : ℕ) (o : Option IpRecord) → 0 < t → o ≡ none → InWindow t 1 t (fail t (record_or_zero o))
unfolding fail
fail-first t o pos e = rw e (ground arith)

fail-InWindow :
    (start n t u : ℕ) (r : IpRecord)
    → u ≤ start + failure_window
    → InWindow start n t r
    → InWindow start (n + 1) u (fail u r)
unfolding fail
fail-InWindow start n t u r h w = ground arith

record-failure :
    (t : ℕ) (ip : String) (rl : RateLimiter)
    → (record_failure t ip rl).records ip ≡ some (fail t (record_or_zero (rl.records ip)))
unfolding record_failure
record-failure t ip rl = rw (eq_refl ip)

add-suc-next : (n m : ℕ) → n + suc m ≡ n + 1 + m
add-suc-next n m = omega arith

blocked_until-InWindow :
    (start n t now : ℕ) (q : IpRecord)
    → InWindow start (1 + n) t q
    → ltb now q.blocked_until ≡ (leb max_failures (n + 1) && ltb now (t + block_duration))
blocked_until-InWindow start n t now q w = ground arith

abbrev pub failures_at : String → List ℕ → List Event
failures_at ip ts = map (λ t. failure t ip) ts

run-InWindow :
    (ip : String) (start n t : ℕ) (ts : List ℕ) (rl : RateLimiter) (r : IpRecord)
    → All (λ u. u ≤ start + failure_window) ts
    → rl.records ip ≡ some r
    → InWindow start n t r
    → (q : IpRecord) × ((run rl (failures_at ip ts)).records ip ≡ some q)
      × InWindow start (n + length ts) (last_time t ts) q
unfolding run handle last_time
run-InWindow ip start n t [] rl r a e w = (r, e, rw add-zero w)
run-InWindow ip start n t (u ∷ ts) rl r a e w = rw (add-suc-next n (length ts)) (
    run-InWindow ip start (n + 1) u ts (record_failure u ip rl) (fail u r) a.1
      (record-failure u ip rl ∙ rw e) (fail-InWindow start n t u r a.0 w))

-- For an address with no record, whose first failure is after Go's zero time and the others are at
-- most five minutes after it: it is blocked
-- exactly if there were five or more, and then for an hour from the last one.
pub is_blocked-window :
    (ip : String) (t : ℕ) (ts : List ℕ) (now : ℕ) (rl : RateLimiter)
    → rl.records ip ≡ none
    → 0 < t
    → All (λ u. u ≤ t + failure_window) ts
    → is_blocked now ip (run rl (failures_at ip (t ∷ ts)))
      ≡ (leb max_failures (length ts + 1) && ltb now (last_time t ts + block_duration))
unfolding run handle
is_blocked-window ip t ts now rl e pos a =
    let (q, found, w) =
      run-InWindow ip t 1 t ts (record_failure t ip rl) (fail t (record_or_zero (rl.records ip))) a
        (record-failure t ip rl) (fail-first t (rl.records ip) pos e) in
    is_blocked-some now ip _ found ∙ blocked_until-InWindow t (length ts) (last_time t ts) now q w
