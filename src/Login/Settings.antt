-- ===== src/Login/Settings.antt =====
-- The handlers of internal/panel/totp.go that turn the second factor on and off, and those of
-- routes.go and proxy_settings.go that end sessions. They stand behind `requireAuth`, except logout.
pub mod Guard
use mtproxy_orchestrator.Base.{
  ℕ, String, Bool, true, false, not, ◌&&◌, ◌||◌, Option, none, some, List, [], ◌∷◌, ◌==◌, str_eq,
  filter, if◌then◌else◌,
}
use mtproxy_orchestrator.Login.{Admin, Session, Panel, admin_row, session_admin_id}
use mtproxy_orchestrator.Login.Pending.{get, drop}
use mtproxy_orchestrator.Login.Factor.{validate, consume_recovery_code}
use mtproxy_orchestrator.Login.Handlers.{
  Status, forbidden, internal_error, bad_request, invalid, to_login, to_settings, page, Request,
  Faults, drop_cookie,
}

abbrev pub set_admin : Admin → Panel → Panel
set_admin a p = record p { admin = some a }

-- `handleTOTPVerifyForm`
unfoldable pub handle_totp_verify_form : ℕ → Option String → Panel → Panel × Status
unfolding get drop
handle_totp_verify_form now none p = (p, to_login)
handle_totp_verify_form now (some c) p =
    let (es, entry) = get now c p.pending in
    let kept = record p { pending = es } in
    if str_eq c ""
    then (p, to_login)
    else elim entry [ none ↦ (drop_cookie (some c) kept, to_login) | some e ↦ (kept, page) ]

-- `handleLogout`; an error of the DELETE is dropped.
unfoldable pub handle_logout : Request → Bool → Panel → Panel × Status
handle_logout r fails p = if not r.csrf_valid then (p, forbidden) else elim r.session_cookie [
  | none ↦ (p, to_login)
  | some c ↦ (
    if fails
        then p
        else record p { sessions = filter (λ (s : Session). not (str_eq s.id c)) p.sessions },
    to_login,
  )
]

abbrev cookie_value : Option String → String
cookie_value none = ""
cookie_value (some c) = c

-- `handleSettingsSessionRevoke`
unfoldable pub handle_session_revoke : Request → String → Bool → Panel → Panel × Status
unfolding session_admin_id
handle_session_revoke r id fails p =
    let admin_id = session_admin_id r.session_cookie p in
    let current = cookie_value r.session_cookie in
    let kept =
      filter (λ (s : Session). not (str_eq s.id id && s.admin_id == admin_id)) p.sessions in
    if not r.csrf_valid
    then (p, forbidden)
    else if str_eq id ""
    then (p, bad_request)
    else if str_eq id current
    then (p, to_settings)
    else (if fails then p else record p { sessions = kept }, to_settings)

-- What the handlers of the second factor share: the admin's row of the session.
abbrev pub with_row :
    Request → Faults → (ℕ → Admin → Panel → Panel × Status) → Panel → Panel × Status
with_row r f body p =
    let id = session_admin_id r.session_cookie p in
    if not r.csrf_valid
    then (p, forbidden)
    else if f.load_totp
    then (p, internal_error)
    else elim (admin_row id p) [ none ↦ (p, internal_error) | some a ↦ body id a p ]

-- `handleSettingsTOTPBegin`: `secret` is the new one, `none` where it cannot be made. The picture of
-- the page is left out.
unfoldable pub begin_totp : Option String → Faults → ℕ → Admin → Panel → Panel × Status
begin_totp secret f id a p =
    if a.totp_enabled
    then (p, to_settings)
    else if f.query
    then (p, internal_error)
    else elim secret [
      | none ↦ (p, internal_error)
      | some s ↦ if f.update then (p, internal_error) else (
        set_admin (record a { totp_secret = s; totp_enabled = false; recovery_hashes = [] }) p,
        page,
      )
    ]

unfoldable pub handle_totp_begin : Request → Option String → Faults → Panel → Panel × Status
unfolding begin_totp session_admin_id
handle_totp_begin r secret f p = with_row r f (begin_totp secret f) p

module _ (code_valid : ℕ → String → String → Bool) (hash_matches : String → String → Bool) where
  -- `GenerateRecoveryCodes` and the UPDATE behind it: `hashes` is `none` where they cannot be made.
  abbrev pub store_codes :
      Option (List String) → (List String → Admin) → Faults → Panel → Panel × Status
  store_codes none change f p = (p, internal_error)
  store_codes (some hashes) change f p =
      if f.update then (p, internal_error) else (set_admin (change hashes) p, page)

  -- `handleSettingsTOTPConfirm`
  unfoldable pub confirm_totp :
      String → Option (List String) → Faults → ℕ → ℕ → Admin → Panel → Panel × Status
  unfolding validate
  confirm_totp code hashes f now id a p =
      if a.totp_enabled || str_eq a.totp_secret ""
      then (p, to_settings)
      else if not (validate code_valid hash_matches now a.totp_secret code)
      then (p, invalid)
      else store_codes hashes (λ hs. record a { totp_enabled = true; recovery_hashes = hs }) f p

  unfoldable pub handle_totp_confirm :
      Request → String → Option (List String) → Faults → ℕ → Panel → Panel × Status
  unfolding confirm_totp session_admin_id
  handle_totp_confirm r code hashes f now p = with_row r f (confirm_totp code hashes f now) p

  -- Turning off behind the check of the code; the UPDATE names the id alone.
  unfoldable pub clear_totp : Faults → ℕ → Panel × Bool → Panel × Status
  clear_totp f id (p, false) = (p, invalid)
  clear_totp f id (p, true) = if f.update then (p, internal_error) else elim (admin_row id p) [
    | none ↦ (p, page)
    | some a ↦ (
      set_admin (record a { totp_enabled = false; totp_secret = ""; recovery_hashes = [] }) p,
      page,
    )
  ]

  -- `handleSettingsTOTPDisable`
  unfoldable pub disable_totp : String → Faults → ℕ → ℕ → Admin → Panel → Panel × Status
  unfolding validate consume_recovery_code clear_totp
  disable_totp code f now id a p =
      if not a.totp_enabled
      then (p, to_settings)
      else clear_totp f id (
          if validate code_valid hash_matches now a.totp_secret code
          then (p, true)
          else consume_recovery_code code_valid hash_matches f.recovery id code p)

  unfoldable pub handle_totp_disable : Request → String → Faults → ℕ → Panel → Panel × Status
  unfolding disable_totp session_admin_id
  handle_totp_disable r code f now p = with_row r f (disable_totp code f now) p

  -- `handleSettingsTOTPRegenerate`
  unfoldable pub regenerate_totp :
      String → Option (List String) → Faults → ℕ → ℕ → Admin → Panel → Panel × Status
  unfolding validate
  regenerate_totp code hashes f now id a p =
      if not a.totp_enabled
      then (p, to_settings)
      else if not (validate code_valid hash_matches now a.totp_secret code)
      then (p, invalid)
      else store_codes hashes (λ hs. record a { recovery_hashes = hs }) f p

  unfoldable pub handle_totp_regenerate :
      Request → String → Option (List String) → Faults → ℕ → Panel → Panel × Status
  unfolding regenerate_totp session_admin_id
  handle_totp_regenerate r code hashes f now p = with_row r f (regenerate_totp code hashes f now) p
