-- ===== src/RateLimit.antt =====
-- internal/panel/rate_limit.go: failed logins by IP. An instant is the number of nanoseconds since
-- Go's zero time, so the zero value of a `time.Time` field is 0. The map of records is a function.
-- Every method holds the mutex from its first line to its last, so a run is a sequence of calls.
pub mod Window
pub mod History
use mtproxy_orchestrator.Base.{
  ℕ, zero, suc, ◌+◌, ◌*◌, String, Bool, true, false, Option, none, some, ◌≡◌, arith, List, [], ◌∷◌,
  ltb, leb, str_eq, if◌then◌else◌,
}

abbrev pub max_failures : ℕ
max_failures = 5

abbrev pub second : ℕ
second = 1000000000

abbrev pub failure_window : ℕ
failure_window = 5 * 60 * second

abbrev pub block_duration : ℕ
block_duration = 3600 * second

pub record IpRecord : Type 0 where
  pub failures : ℕ
  pub window_end : ℕ
  pub blocked_until : ℕ

abbrev pub zero_record : IpRecord
zero_record = record { failures = 0; window_end = 0; blocked_until = 0 }

pub record RateLimiter : Type 0 where
  pub records : String → Option IpRecord

abbrev pub new_rate_limiter : RateLimiter
new_rate_limiter = record { records = λ ip. none }

-- `rl.records[ip] = rec`, and `delete(rl.records, ip)` for `none`.
abbrev pub store : String → Option IpRecord → RateLimiter → RateLimiter
store ip r rl = record { records = λ j. if str_eq ip j then r else rl.records j }

unfoldable pub is_blocked : ℕ → String → RateLimiter → Bool
is_blocked now ip rl = elim (rl.records ip) [ none ↦ false | some rec ↦ ltb now rec.blocked_until ]

-- What `RecordFailure` does to the record of its IP.
unfoldable pub fail : ℕ → IpRecord → IpRecord
fail now rec =
    let opened =
      if ltb rec.window_end now
      then record rec { failures = 0; window_end = now + failure_window }
      else rec in
    let counted = record opened { failures = opened.failures + 1 } in
    if leb max_failures counted.failures
    then record counted { blocked_until = now + block_duration }
    else counted

abbrev pub record_or_zero : Option IpRecord → IpRecord
record_or_zero none = zero_record
record_or_zero (some rec) = rec

unfoldable pub record_failure : ℕ → String → RateLimiter → RateLimiter
record_failure now ip rl = store ip (some (fail now (record_or_zero (rl.records ip)))) rl

unfoldable pub record_success : String → RateLimiter → RateLimiter
record_success ip rl = store ip none rl

-- The calls that change the limiter.
pub data Event : Type 0 where
  failure : ℕ → String → Event
  success : String → Event

unfoldable pub handle : RateLimiter → Event → RateLimiter
handle rl (failure now ip) = record_failure now ip rl
handle rl (success ip) = record_success ip rl

unfoldable pub run : RateLimiter → List Event → RateLimiter
run rl [] = rl
run rl (e ∷ es) = run (handle rl e) es

pub is_blocked-some :
    (now : ℕ) (ip : String) (rl : RateLimiter) {rec : IpRecord}
    → rl.records ip ≡ some rec
    → is_blocked now ip rl ≡ ltb now rec.blocked_until
unfolding is_blocked
is_blocked-some now ip rl e = ground (arith, e)
