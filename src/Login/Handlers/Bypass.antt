-- ===== src/Login/Handlers/Bypass.antt =====
-- A login when `loadAdminTOTP` fails.
use mtproxy_orchestrator.Base.{
  ℕ, ◌+◌, String, Bool, true, false, not, ◌||◌, some, ◌≡◌, refl, ap, ◌∙◌, arith, str_eq, eq_refl,
  ltb,
}
use mtproxy_orchestrator.Base.Sql.{exists}
use mtproxy_orchestrator.RateLimit.{is_blocked}
use mtproxy_orchestrator.Login.{
  Session, Panel, is_authenticated, to_seconds, session_duration, idle_timeout,
}
use mtproxy_orchestrator.Login.Handlers.{
  Status, to_panel, Request, Faults, finalize_login, log_in, knows_password, handle_login_submit,
}

-- A session just issued is taken.
finalize_login-is_authenticated :
    (now : ℕ) (ip fresh : String) (admin_id : ℕ) (p : Panel)
    → exists (λ (s : Session). str_eq s.id fresh) p.sessions ≡ false
    → str_eq fresh "" ≡ false
    → let (q, ok) = finalize_login now ip admin_id (some fresh) false p in
      (ok ≡ true) × (is_authenticated now (some fresh) q ≡ true)
unfolding finalize_login is_authenticated
finalize_login-is_authenticated now ip fresh admin_id p new set =
    let lives : ltb (to_seconds (now + session_duration)) now ≡ false = ground (arith) in
    let active : ltb (to_seconds now + idle_timeout) now ≡ false = ground (arith) in
    rw new (refl, rw (set, eq_refl fresh, lives, active) refl)

-- When `loadAdminTOTP` fails, the password alone gives a session, whether or not the second factor is
-- on: an IP that is not blocked, a valid form, and a new id that the table takes.
pub login_load_totp_failed :
    (check_password : String → String → Bool) (r : Request) (login password fresh : String)
    (f : Faults) (now : ℕ) (p : Panel)
    → (f.load_totp ≡ true) × ((f.query ≡ false) × (f.insert ≡ false))
    → is_blocked now r.ip p.limiter ≡ false
    → r.csrf_valid ≡ true
    → knows_password check_password login password p.admin ≡ true
    → str_eq fresh "" ≡ false
    → exists (λ (s : Session). str_eq s.id fresh) p.sessions ≡ false
    → let (q, status) = handle_login_submit check_password r login password (some fresh) f now p in
      (status ≡ to_panel) × (is_authenticated now (some fresh) q ≡ true)
unfolding handle_login_submit
login_load_totp_failed check_password r login password fresh f now p (lost, (asked, inserts)) free
      valid known set new =
    let asks : (f.query || not (knows_password check_password login password p.admin)) ≡ false =
      ground (arith, asked, known) in
    let is : handle_login_submit check_password r login password (some fresh) f now p
        ≡ log_in now r.ip 1 (some fresh) false p =
      rw (free, valid, asks, lost, inserts, handle_login_submit) refl in
    let (ok, taken) = finalize_login-is_authenticated now r.ip fresh 1 p new set in
    (
      ap (λ (x : Panel × Status). x.1) is ∙ rw ok refl,
      ap (λ (x : Panel × Status). is_authenticated now (some fresh) x.0) is ∙ taken,
    )
