-- ===== src/Login/Handlers.antt =====
-- The handlers of internal/panel/routes.go, totp.go and proxy_settings.go that change logins, sessions
-- and the second factor.
pub mod Password
pub mod Admission
pub mod Bypass
use mtproxy_orchestrator.Base.{
  ℕ, ◌+◌, String, Bool, true, false, not, ◌&&◌, ◌||◌, Option, none, some, List, [], ◌∷◌, ◌==◌,
  str_eq, filter, if◌then◌else◌,
}
use mtproxy_orchestrator.Base.Sql.{exists}
use mtproxy_orchestrator.RateLimit.{is_blocked, record_failure, record_success}
use mtproxy_orchestrator.Login.{
  Admin, Session, PendingTotp, Panel, session_duration, to_seconds, admin_row, session_admin_id,
}
use mtproxy_orchestrator.Login.Pending.{put, get, drop}
use mtproxy_orchestrator.Login.Factor.{RecoveryFaults, validate, consume_recovery_code}

pub data Status : Type 0 where
  too_many forbidden internal_error bad_request invalid to_login to_verify to_panel to_settings
        page :
      Status

-- The cookies are `none` where there are none; the pending one is empty in that case, too.
pub record Request : Type 0 where
  pub ip : String
  pub csrf_valid : Bool
  pub session_cookie : Option String
  pub pending_cookie : Option String

-- Which statements of the database fail.
pub record Faults : Type 0 where
  pub query : Bool
  pub load_totp : Bool
  pub update : Bool
  pub insert : Bool
  pub recovery : RecoveryFaults

abbrev pub with_admin : (Admin → Admin) → ℕ → Panel → Panel
with_admin f id p = elim (admin_row id p) [ none ↦ p | some a ↦ record p { admin = some (f a) } ]

-- `finalizeLogin`: whether it succeeds. `fresh` is the new id, and `id` is the table's key.
unfoldable pub finalize_login : ℕ → String → ℕ → Option String → Bool → Panel → Panel × Bool
finalize_login now ip admin_id none fails p =
    (record p { limiter = record_success ip p.limiter }, false)
finalize_login now ip admin_id (some fresh) fails p =
    let cleared = record p { limiter = record_success ip p.limiter } in
    let session : Session = record {
      id = fresh;
      admin_id = admin_id;
      expires_at = to_seconds (now + session_duration);
      last_seen_at = to_seconds now;
    } in
    if fails || exists (λ (s : Session). str_eq s.id fresh) p.sessions
    then (cleared, false)
    else (record cleared { sessions = session ∷ p.sessions }, true)

abbrev pub fail_login : ℕ → String → Panel → Panel × Status
fail_login now ip p = (record p { limiter = record_failure now ip p.limiter }, invalid)

abbrev pub log_in : ℕ → String → ℕ → Option String → Bool → Panel → Panel × Status
log_in now ip admin_id fresh fails p =
    let (q, ok) = finalize_login now ip admin_id fresh fails p in
    (q, if ok then to_panel else internal_error)

module _ (check_password : String → String → Bool) where
  -- `SELECT … WHERE login=?` and `CheckPassword`
  abbrev pub knows_password : String → String → Option Admin → Bool
  knows_password login password none = false
  knows_password login password (some a) =
      str_eq a.login login && check_password a.password_hash password

  abbrev pub totp_enabled : Option Admin → Bool
  totp_enabled none = false
  totp_enabled (some a) = a.totp_enabled

  -- `issuePendingTOTP`
  abbrev pub issue_pending : ℕ → Option String → ℕ → String → Panel → Panel × Status
  issue_pending now fresh admin_id login p =
      let (es, id) = put now fresh admin_id login p.pending in
      (record p { pending = es }, elim id [ none ↦ internal_error | some i ↦ to_verify ])

  -- An error of `loadAdminTOTP` is taken for a login without the second factor.
  unfoldable pub handle_login_submit :
      Request → String → String → Option String → Faults → ℕ → Panel → Panel × Status
  unfolding finalize_login put is_blocked
  handle_login_submit r login password fresh f now p =
      if is_blocked now r.ip p.limiter
      then (p, too_many)
      else if not r.csrf_valid
      then (p, forbidden)
      else if f.query || not (knows_password login password p.admin)
      then fail_login now r.ip p
      else if not f.load_totp && totp_enabled p.admin
      then issue_pending now fresh 1 login p
      else log_in now r.ip 1 fresh f.insert p

  -- `handleSettingsAdminPasswordPost` behind the tests of the new password; `new_hash` is `none` where
  -- it cannot be made. `insert` stands for the DELETE of the sessions.
  unfoldable pub handle_admin_password :
      Request → String → Option String → Bool → Faults → Panel → Panel × Status
  handle_admin_password r current new_hash acceptable f p =
      if not r.csrf_valid
      then (p, forbidden)
      else if not acceptable
      then (p, invalid)
      else if f.query
      then (p, internal_error)
      else elim p.admin [
        | none ↦ (p, internal_error)
        | some a ↦
            if not (check_password a.password_hash current) then (p, invalid) else elim new_hash [
              | none ↦ (p, internal_error)
              | some hash ↦
                  let changed = record p { admin = some (record a { password_hash = hash }) } in
                  if f.update
                  then (p, internal_error)
                  else if f.insert
                  then (changed, internal_error)
                  else (record changed { sessions = [] }, page)
            ]
      ]

abbrev pub drop_cookie : Option String → Panel → Panel
drop_cookie none p = p
drop_cookie (some c) p = if str_eq c "" then p else record p { pending = drop c p.pending }

abbrev pub is_set : Option String → Bool
is_set none = false
is_set (some c) = not (str_eq c "")

module _ (code_valid : ℕ → String → String → Bool) (hash_matches : String → String → Bool) where
  -- The second factor: whether the code is taken.
  unfoldable pub verify_code : ℕ → ℕ → String → RecoveryFaults → Admin → Panel → Panel × Bool
  unfolding validate consume_recovery_code
  verify_code now admin_id code f a p =
      if a.totp_enabled && validate code_valid hash_matches now a.totp_secret code
      then (p, true)
      else if a.totp_enabled
      then consume_recovery_code code_valid hash_matches f admin_id code p
      else (p, false)

  -- The answer to a code that is taken or not.
  unfoldable pub finish_verify :
      Request → Option String → Faults → ℕ → ℕ → Panel × Bool → Panel × Status
  unfolding finalize_login drop
  finish_verify r fresh f now id (p, true) =
      log_in now r.ip id fresh f.insert (drop_cookie r.pending_cookie p)
  finish_verify r fresh f now id (p, false) = fail_login now r.ip p

  -- `handleTOTPVerifySubmit` from `loadAdminTOTP` on, with the admin's row.
  unfoldable pub verify_pending :
      Request → String → Option String → Faults → ℕ → ℕ → Option Admin → Panel → Panel × Status
  unfolding verify_code finish_verify
  verify_pending r code fresh f now id none p = (p, internal_error)
  verify_pending r code fresh f now id (some a) p =
      if f.load_totp
      then (p, internal_error)
      else finish_verify r fresh f now id (verify_code now id code f.recovery a p)

  unfoldable pub verify_entry :
      Request
      → String
      → Option String
      → Faults
      → ℕ
      → String
      → Option PendingTotp
      → Panel
      → Panel × Status
  unfolding verify_pending drop
  verify_entry r code fresh f now c none p = (drop_cookie (some c) p, to_login)
  verify_entry r code fresh f now c (some e) p =
      verify_pending r code fresh f now e.admin_id (admin_row e.admin_id p) p

  unfoldable pub verify_cookie :
      Request → String → Option String → Faults → ℕ → Option String → Panel → Panel × Status
  unfolding verify_entry get
  verify_cookie r code fresh f now none p = (p, to_login)
  verify_cookie r code fresh f now (some c) p =
      let (es, entry) = get now c p.pending in
      let answer = verify_entry r code fresh f now c entry (record p { pending = es }) in
      if str_eq c "" then (p, to_login) else answer

  unfoldable pub handle_totp_verify_submit :
      Request → String → Option String → Faults → ℕ → Panel → Panel × Status
  unfolding verify_cookie is_blocked
  handle_totp_verify_submit r code fresh f now p =
      if is_blocked now r.ip p.limiter
      then (p, too_many)
      else if not r.csrf_valid
      then (p, forbidden)
      else verify_cookie r code fresh f now r.pending_cookie p
