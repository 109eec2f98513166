-- ===== src/Tests/Sessions.antt =====
-- A login with the second factor.
use mtproxy_orchestrator.Base.{
  ℕ, ◌+◌, ◌*◌, String, Bool, true, false, ◌&&◌, none, some, [], ◌∷◌, ◌≡◌, ◌⊎◌, refl, arith, str_eq,
}
use mtproxy_orchestrator.RateLimit.{new_rate_limiter, is_blocked, second}
use mtproxy_orchestrator.Login.{Admin, Panel, is_authenticated, pending_ttl}
use mtproxy_orchestrator.Login.Factor.{RecoveryFaults, remove_match, consume_recovery_code}
use mtproxy_orchestrator.Login.Factor.Once.{consume_recovery_code-once}
use mtproxy_orchestrator.Login.Handlers.{
  to_panel, Request, Faults, handle_login_submit, handle_totp_verify_submit,
}
use mtproxy_orchestrator.Login.Handlers.Password.{AdmitsPassword}
use mtproxy_orchestrator.Login.Handlers.Admission.{AdmitsCode, IsCode, logins-Admit}
use mtproxy_orchestrator.Login.Handlers.Bypass.{login_load_totp_failed}
use mtproxy_orchestrator.Login.Settings.{
  handle_totp_begin, handle_totp_confirm, handle_totp_regenerate, handle_totp_disable,
}
use mtproxy_orchestrator.Login.Settings.Guard.{SameFactor, factor-Kept}

abbrev code_valid : ℕ → String → String → Bool
code_valid now secret code = str_eq secret "S" && str_eq code "123456"

abbrev noon : ℕ
noon = 63000000000 * second

abbrev admin : Admin
admin = record {
  login = "admin";
  password_hash = "pw";
  totp_enabled = true;
  totp_secret = "S";
  recovery_hashes = "r1" ∷ "r2" ∷ [];
}

abbrev panel : Panel
panel = record {
  limiter = new_rate_limiter;
  pending =
      record { id = "p1"; admin_id = 1; login = "admin"; expires_at = noon + pending_ttl } ∷ [];
  admin = some admin;
  sessions = [];
}

abbrev request : Request
request = record {
  ip = "192.0.2.1";
  csrf_valid = true;
  session_cookie = none;
  pending_cookie = some "p1";
}

abbrev quiet : RecoveryFaults
quiet = record { begin = false; read = false; write = false; commit = false }

abbrev no_faults : Faults
no_faults = record {
  query = false;
  load_totp = false;
  update = false;
  insert = false;
  recovery = quiet;
}

logins-Admit_example :
    AdmitsPassword str_eq request "admin" "pw" noon panel
      (handle_login_submit str_eq request "admin" "pw" (some "s1") no_faults noon panel).0
    × AdmitsCode code_valid str_eq request "r1" noon panel
        (handle_totp_verify_submit code_valid str_eq request "r1"
          (some "s1")
          no_faults
          noon
          panel).0
logins-Admit_example =
    logins-Admit str_eq code_valid str_eq request "admin" "pw" "r1" (some "s1") no_faults noon panel
      refl

login_load_totp_failed_example :
    let (q, status) =
      handle_login_submit str_eq request "admin" "pw"
        (some "s1")
        (record no_faults { load_totp = true })
        noon
        panel in
    (status ≡ to_panel) × (is_authenticated noon (some "s1") q ≡ true)
unfolding is_blocked
login_load_totp_failed_example =
    login_load_totp_failed str_eq request "admin" "pw" "s1" (record no_faults { load_totp = true })
      noon panel (refl, (refl, refl)) refl refl refl refl refl

consume_recovery_code-once_example :
    let q = (consume_recovery_code code_valid str_eq quiet 1 "r1" panel).0 in
    ((false ≡ true)
      × ((q ≡ panel) × ((consume_recovery_code code_valid str_eq quiet 1 "r1" q).1 ≡ true)))
    ⊎ ((false ≡ false) × ((consume_recovery_code code_valid str_eq quiet 1 "r1" q).1 ≡ false))
unfolding consume_recovery_code remove_match
consume_recovery_code-once_example =
    consume_recovery_code-once code_valid str_eq "r1" quiet quiet 1 panel refl (omega arith) refl

factor-Kept_example :
    SameFactor (some admin) (handle_totp_begin request (some "T") no_faults panel).0.admin
    × (SameFactor
          (some admin)
          (handle_totp_confirm code_valid str_eq request "123456"
            (some [])
            no_faults
            noon
            panel).0.admin
        × (SameFactor
              (some admin)
              (handle_totp_regenerate code_valid str_eq request "123456"
                (some [])
                no_faults
                noon
                panel).0.admin
            × (SameFactor
                  (some admin)
                  (handle_totp_disable code_valid str_eq request "123456" no_faults noon
                    panel).0.admin
                ⊎ IsCode code_valid str_eq noon "123456" admin)))
factor-Kept_example =
    factor-Kept code_valid str_eq request "123456" (some "T") (some []) no_faults noon panel admin
      refl refl
