-- ===== src/Login.antt =====
-- Logins, sessions and the second factor: internal/panel/routes.go, internal/panel/totp.go and
-- internal/totp/totp.go. Instants are nanoseconds; a table's date holds whole seconds. The comparison
-- of passwords and recovery codes (bcrypt), the one-time codes (pquerna/otp) and the random bytes are
-- parameters. The audit log, cookies' attributes and pages are left out.
pub mod Pending
pub mod Factor
pub mod Handlers
pub mod Settings
use mtproxy_orchestrator.Base.{
  ℕ, ◌+◌, ◌*◌, ◌/◌, String, Bool, true, false, not, ◌&&◌, Option, none, some, List, [], ◌∷◌, ◌==◌,
  ltb, str_eq, filter, find, if◌then◌else◌,
}
use mtproxy_orchestrator.RateLimit.{RateLimiter, second}

-- The row of `admin`: the table has at most the row with id 1. The column of recovery codes holds the
-- list that its JSON text says.
pub record Admin : Type 0 where
  pub login : String
  pub password_hash : String
  pub totp_enabled : Bool
  pub totp_secret : String
  pub recovery_hashes : List String

pub record Session : Type 0 where
  pub id : String
  pub admin_id : ℕ
  pub expires_at : ℕ
  pub last_seen_at : ℕ

pub record PendingTotp : Type 0 where
  pub id : String
  pub admin_id : ℕ
  pub login : String
  pub expires_at : ℕ

pub record Panel : Type 0 where
  pub limiter : RateLimiter
  pub pending : List PendingTotp
  pub admin : Option Admin
  pub sessions : List Session

abbrev pub session_duration : ℕ
session_duration = 24 * 3600 * second

abbrev pub idle_timeout : ℕ
idle_timeout = 2 * 3600 * second

abbrev pub pending_ttl : ℕ
pending_ttl = 300 * second

-- `t.UTC().Format(time.RFC3339)`
abbrev pub to_seconds : ℕ → ℕ
to_seconds t = t / second * second

-- `WHERE id=?`
abbrev pub admin_row : ℕ → Panel → Option Admin
admin_row id p = if id == 1 then p.admin else none

abbrev pub find_session : String → Panel → Option Session
find_session id p = find (λ (s : Session). str_eq s.id id) p.sessions

-- `cookie` is the value of the session cookie, `none` where there is none.
unfoldable pub is_authenticated : ℕ → Option String → Panel → Bool
is_authenticated now none p = false
is_authenticated now (some cookie) p =
    if str_eq cookie "" then false else elim (find_session cookie p) [
      | none ↦ false
      | some s ↦
          if ltb s.expires_at now then false else not (ltb (s.last_seen_at + idle_timeout) now)
    ]

abbrev seen : String → ℕ → Session → Session
seen id now s = if str_eq s.id id then record s { last_seen_at = to_seconds now } else s

abbrev touch_all : String → ℕ → List Session → List Session
touch_all id now [] = []
touch_all id now (s ∷ ss) = seen id now s ∷ touch_all id now ss

-- `requireAuth` with what `shouldTouchSession` says of the path: whether the request goes on. The UPDATE
-- is taken to succeed.
unfoldable pub require_auth : Bool → ℕ → Option String → Panel → Panel × Bool
unfolding is_authenticated
require_auth touch now none p = (p, false)
require_auth touch now (some cookie) p =
    if is_authenticated now (some cookie) p
    then (if touch then record p { sessions = touch_all cookie now p.sessions } else p, true)
    else (p, false)

-- `sessionAdminID`
unfoldable pub session_admin_id : Option String → Panel → ℕ
session_admin_id none p = 0
session_admin_id (some cookie) p = elim (find_session cookie p) [ none ↦ 0 | some s ↦ s.admin_id ]
