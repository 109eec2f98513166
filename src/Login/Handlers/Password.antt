-- ===== src/Login/Handlers/Password.antt =====
-- Who gets a session by the password.
use mtproxy_orchestrator.Base.{
  ℕ, String, Bool, true, false, not, ◌||◌, Option, none, some, ◌∷◌, ◌≡◌, ◌⊎◌, refl, ap, ◌∙◌, inl,
  inr, arith, str_eq, Bool-cases,
}
use mtproxy_orchestrator.Base.Sql.{exists}
use mtproxy_orchestrator.RateLimit.{is_blocked}
use mtproxy_orchestrator.Login.{Session, Panel}
use mtproxy_orchestrator.Login.Handlers.{
  Request, Faults, finalize_login, knows_password, totp_enabled, handle_login_submit,
}

-- A login adds a session of the admin at most.
abbrev pub Adds : ℕ → Panel → Panel → Type 0
Adds admin_id p q =
    (q.sessions ≡ p.sessions)
    ⊎ ((s : Session) × ((s.admin_id ≡ admin_id) × (q.sessions ≡ s ∷ p.sessions)))

pub finalize_login-Adds :
    (now : ℕ) (ip : String) (admin_id : ℕ) (fresh : Option String) (fails : Bool) (p : Panel)
    → Adds admin_id p (finalize_login now ip admin_id fresh fails p).0
unfolding finalize_login
finalize_login-Adds now ip admin_id none fails p = inl refl
finalize_login-Adds now ip admin_id (some id) fails p =
    elim (Bool-cases (fails || exists (λ (s : Session). str_eq s.id id) p.sessions)) [
      | inl e ↦ rw e (inl refl)
      | inr e ↦ rw e (inr (_, (refl, refl)))
    ]

pub Adds-same : (id : ℕ) (p q t : Panel) → q.sessions ≡ p.sessions → Adds id q t → Adds id p t
Adds-same id p q t same (inl e) = inl (e ∙ same)
Adds-same id p q t same (inr (s, (mine, e))) = inr (s, (mine, e ∙ ap (λ ss. s ∷ ss) same))

module _ (check_password : String → String → Bool) where
  -- A session from `handleLoginSubmit` is the admin's, who is not blocked, has given the password and
  -- has no second factor.
  abbrev pub AdmitsPassword : Request → String → String → ℕ → Panel → Panel → Type 0
  AdmitsPassword r login password now p q =
      (q.sessions ≡ p.sessions)
      ⊎ ((is_blocked now r.ip p.limiter ≡ false)
          × ((knows_password check_password login password p.admin ≡ true)
              × ((totp_enabled check_password p.admin ≡ false) × Adds 1 p q)))

  pub login_submit-Admits :
      (r : Request) (login password : String) (fresh : Option String) (f : Faults) (now : ℕ)
      (p : Panel)
      → f.load_totp ≡ false
      → AdmitsPassword r login password now p
          (handle_login_submit check_password r login password fresh f now p).0
  unfolding handle_login_submit
  login_submit-Admits r login password fresh f now p loads =
      elim (Bool-cases (is_blocked now r.ip p.limiter)) [
        | inl blocked ↦ rw blocked (inl refl)
        | inr free ↦ elim (Bool-cases r.csrf_valid) [
          | inr off ↦ rw (free, off) (inl refl)
          | inl valid ↦
              elim (Bool-cases
                (f.query || not (knows_password check_password login password p.admin))) [
                  | inl wrong ↦ rw (free, valid, wrong) (inl refl)
                  | inr right ↦ elim (Bool-cases (totp_enabled check_password p.admin)) [
                    | inl two ↦ rw (free, valid, right, loads, two) (inl refl)
                    | inr one ↦
                        let known : knows_password check_password login password p.admin ≡ true =
                          ground (arith, right) in
                        rw (free, valid, right, loads, one)
                          (inr (
                            refl,
                            (known, (refl, finalize_login-Adds now r.ip 1 fresh f.insert p)),
                          ))
                  ]
                ]
        ]
      ]
