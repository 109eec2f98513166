-- ===== src/Login/Handlers/Admission.antt =====
-- Who gets a session.
use mtproxy_orchestrator.Base.{
  ℕ, ◌≤◌, String, Bool, true, false, ◌||◌, Option, none, some, List, ◌≡◌, ◌⊎◌, refl, sym, ap, ◌∙◌,
  inl, inr, arith, str_eq, Bool-cases, Option-cases, subst,
}
use mtproxy_orchestrator.RateLimit.{is_blocked}
use mtproxy_orchestrator.Login.{Admin, PendingTotp, Panel, admin_row}
use mtproxy_orchestrator.Login.Pending.{get, get-live}
use mtproxy_orchestrator.Login.Factor.{
  RecoveryFaults, validate, remove_match, consume_recovery_code,
}
use mtproxy_orchestrator.Login.Handlers.{
  Request, Faults, finalize_login, handle_login_submit, drop_cookie, verify_code, finish_verify,
  verify_pending, verify_entry, verify_cookie, handle_totp_verify_submit,
}
use mtproxy_orchestrator.Login.Handlers.Password.{
  Adds, finalize_login-Adds, Adds-same, AdmitsPassword, login_submit-Admits,
}

module _ (code_valid : ℕ → String → String → Bool) (hash_matches : String → String → Bool) where
  -- The code is a one-time code of the admin's secret, or matches one of the recovery codes left.
  abbrev pub IsCode : ℕ → String → Admin → Type 0
  IsCode now code a =
      (validate code_valid hash_matches now a.totp_secret code ≡ true)
      ⊎ ((hashes : List String) × (remove_match code_valid hash_matches code a.recovery_hashes
            ≡ some hashes))

  consume-IsCode :
      (f : RecoveryFaults) (id : ℕ) (now : ℕ) (code : String) (p : Panel) {a : Admin}
      → admin_row id p ≡ some a
      → (consume_recovery_code code_valid hash_matches f id code p).1 ≡ true
      → IsCode now code a
  unfolding consume_recovery_code
  consume-IsCode f id now code p {a} row ok =
      elim (Bool-cases (str_eq code "" || (f.begin || f.read))) [
        | inl e ↦
            let is : (consume_recovery_code code_valid hash_matches f id code p).1 ≡ false =
              rw (e, consume_recovery_code) refl in
            absurd (ground (arith, is, ok))
        | inr e ↦
            elim (Option-cases (remove_match code_valid hash_matches code a.recovery_hashes)) [
              | inr (hashes, found) ↦ inr (hashes, found)
              | inl missing ↦
                  let is : (consume_recovery_code code_valid hash_matches f id code p).1 ≡ false =
                    rw (e, row, missing, consume_recovery_code) refl in
                  absurd (ground (arith, is, ok))
            ]
      ]

  verify_code-IsCode :
      (now id : ℕ) (code : String) (f : RecoveryFaults) (a : Admin) (p : Panel)
      → admin_row id p ≡ some a
      → (verify_code code_valid hash_matches now id code f a p).1 ≡ true
      → (a.totp_enabled ≡ true) × IsCode now code a
  unfolding verify_code
  verify_code-IsCode now id code f a p row ok = elim (Bool-cases a.totp_enabled) [
    | inr off ↦
        let is : (verify_code code_valid hash_matches now id code f a p).1 ≡ false =
          rw (off, verify_code) refl in
        absurd (ground (arith, is, ok))
    | inl on ↦ elim (Bool-cases (validate code_valid hash_matches now a.totp_secret code)) [
      | inl valid ↦ (on, inl valid)
      | inr wrong ↦
          let is : verify_code code_valid hash_matches now id code f a p
              ≡ consume_recovery_code code_valid hash_matches f id code p =
            rw (on, wrong, verify_code) refl in
          (on, consume-IsCode f id now code p row (sym (ap (λ (x : Panel × Bool). x.1) is) ∙ ok))
    ]
  ]

  verify_code-sessions :
      (now id : ℕ) (code : String) (f : RecoveryFaults) (a : Admin) (p : Panel)
      → (verify_code code_valid hash_matches now id code f a p).0.sessions ≡ p.sessions
  unfolding verify_code consume_recovery_code
  verify_code-sessions now id code f a p = ground arith

  drop_cookie-sessions : (c : Option String) (p : Panel) → (drop_cookie c p).sessions ≡ p.sessions
  drop_cookie-sessions none p = refl
  drop_cookie-sessions (some c) p = ground arith

  -- A session from `handleTOTPVerifySubmit` is of an admin who is not blocked, whose second factor is
  -- on, who has a pending login that is not expired, and who has given a code.
  abbrev pub AdmitsCode : Request → String → ℕ → Panel → Panel → Type 0
  AdmitsCode r code now p q =
      (q.sessions ≡ p.sessions)
      ⊎ ((is_blocked now r.ip p.limiter ≡ false)
          × ((c : String) × ((e : PendingTotp) × ((a : Admin) × (((r.pending_cookie ≡ some c)
                      × ((e.id ≡ c) × (now ≤ e.expires_at)))
                    × (((get now c p.pending).1 ≡ some e)
                        × ((admin_row e.admin_id p ≡ some a)
                            × ((a.totp_enabled ≡ true)
                                × (IsCode now code a × Adds e.admin_id p q)))))))))

  finish_verify-Adds :
      (r : Request) (fresh : Option String) (f : Faults) (now id : ℕ) (p : Panel)
      (done : Panel × Bool)
      → done.0.sessions ≡ p.sessions
      → let q = (finish_verify code_valid hash_matches r fresh f now id done).0 in
        (q.sessions ≡ p.sessions) ⊎ ((done.1 ≡ true) × Adds id p q)
  unfolding finish_verify
  finish_verify-Adds r fresh f now id p (q, false) same = inl same
  finish_verify-Adds r fresh f now id p (q, true) same =
      let dropped = drop_cookie r.pending_cookie q in
      inr (
        refl,
        Adds-same id p dropped (finalize_login now r.ip id fresh f.insert dropped).0
            (drop_cookie-sessions r.pending_cookie q ∙ same)
            (finalize_login-Adds now r.ip id fresh f.insert dropped),
      )

  verify_pending-Admits :
      (r : Request) (code : String) (fresh : Option String) (f : Faults) (now id : ℕ)
      (row : Option Admin) (p : Panel)
      → admin_row id p ≡ row
      → let q = (verify_pending code_valid hash_matches r code fresh f now id row p).0 in
        (q.sessions ≡ p.sessions)
        ⊎ ((a : Admin) × ((admin_row id p ≡ some a)
              × ((a.totp_enabled ≡ true) × (IsCode now code a × Adds id p q))))
  unfolding verify_pending
  verify_pending-Admits r code fresh f now id none p is_row = inl refl
  verify_pending-Admits r code fresh f now id (some a) p is_row = elim (Bool-cases f.load_totp) [
    | inl lost ↦ rw lost (inl refl)
    | inr loaded ↦
        let done = verify_code code_valid hash_matches now id code f.recovery a p in
        rw loaded
          (elim (finish_verify-Adds r fresh f now id p done
            (verify_code-sessions now id code f.recovery a p)) [
              | inl same ↦ inl same
              | inr (right, adds) ↦
                  let (on, is_code) = verify_code-IsCode now id code f.recovery a p is_row right in
                  inr (a, (is_row, (on, (is_code, adds))))
            ])
  ]

  verify_entry-Admits :
      (r : Request) (code : String) (fresh : Option String) (f : Faults) (now : ℕ) (c : String)
      (entry : Option PendingTotp) (p : Panel)
      → let (es, found) = get now c p.pending in
        let q =
          (verify_entry code_valid hash_matches r code fresh f now c entry
            (record p { pending = es })).0 in
        found ≡ entry
        → (q.sessions ≡ p.sessions)
          ⊎ ((e : PendingTotp) × ((a : Admin) × ((entry ≡ some e)
                  × ((admin_row e.admin_id p ≡ some a)
                      × ((a.totp_enabled ≡ true) × (IsCode now code a × Adds e.admin_id p q))))))
  unfolding verify_entry
  verify_entry-Admits r code fresh f now c none p h =
      inl (drop_cookie-sessions (some c) (record p { pending = (get now c p.pending).0 }))
  verify_entry-Admits r code fresh f now c (some e) p h =
      let kept : Panel = record p { pending = (get now c p.pending).0 } in
      elim (verify_pending-Admits r code fresh f now e.admin_id (admin_row e.admin_id kept) kept
        refl) [
          | inl same ↦ inl same
          | inr (a, (row, (on, (is_code, adds)))) ↦
              inr (e, (a, (refl, (row, (on, (is_code, adds))))))
        ]

  verify_cookie-Admits :
      (r : Request) (code : String) (fresh : Option String) (f : Faults) (now : ℕ) (p : Panel)
      → is_blocked now r.ip p.limiter ≡ false
      → (cookie : Option String) → r.pending_cookie ≡ cookie
      → AdmitsCode r code now p
          (verify_cookie code_valid hash_matches r code fresh f now cookie p).0
  unfolding verify_cookie
  verify_cookie-Admits r code fresh f now p free none is_cookie = inl refl
  verify_cookie-Admits r code fresh f now p free (some c) is_cookie =
      elim (Bool-cases (str_eq c "")) [
        | inl empty ↦ rw empty (inl refl)
        | inr set ↦
            rw set (elim (verify_entry-Admits r code fresh f now c (get now c p.pending).1 p refl) [
              | inl same ↦ inl same
              | inr (e, (a, (found, (row, (on, (is_code, adds)))))) ↦
                  let (named, live) = get-live now c p.pending e found in
                  inr (
                    free,
                    (
                      c,
                      (e, (a, ((is_cookie, (named, live)), (found, (row, (on, (is_code, adds))))))),
                    ),
                  )
            ])
      ]

  verify_submit-Admits :
      (r : Request) (code : String) (fresh : Option String) (f : Faults) (now : ℕ) (p : Panel)
      → AdmitsCode r code now p
          (handle_totp_verify_submit code_valid hash_matches r code fresh f now p).0
  unfolding handle_totp_verify_submit
  verify_submit-Admits r code fresh f now p = elim (Bool-cases (is_blocked now r.ip p.limiter)) [
    | inl blocked ↦
        let is : (handle_totp_verify_submit code_valid hash_matches r code fresh f now p).0 ≡ p =
          rw (blocked, handle_totp_verify_submit) refl in
        inl (ap (λ (x : Panel). x.sessions) is)
    | inr free ↦ elim (Bool-cases r.csrf_valid) [
      | inr off ↦
          let is : (handle_totp_verify_submit code_valid hash_matches r code fresh f now p).0 ≡ p =
            rw (free, off, handle_totp_verify_submit) refl in
          inl (ap (λ (x : Panel). x.sessions) is)
      | inl valid ↦
          let is : handle_totp_verify_submit code_valid hash_matches r code fresh f now p
              ≡ verify_cookie code_valid hash_matches r code fresh f now r.pending_cookie p =
            rw (free, valid, handle_totp_verify_submit) refl in
          subst (λ x. AdmitsCode r code now p x.0) (sym is)
            (verify_cookie-Admits r code fresh f now p free r.pending_cookie refl)
    ]
  ]

-- When `loadAdminTOTP` does not fail, a session that a login adds is of an admin whose IP is not
-- blocked and who has given the password and has no second factor, or who has a pending login that is
-- not expired, has the second factor, and has given a one-time code or a recovery code that is left.
pub logins-Admit :
    (check_password : String → String → Bool) (code_valid : ℕ → String → String → Bool)
    (hash_matches : String → String → Bool) (r : Request) (login password code : String)
    (fresh : Option String) (f : Faults) (now : ℕ) (p : Panel)
    → f.load_totp ≡ false
    → AdmitsPassword check_password r login password now p
        (handle_login_submit check_password r login password fresh f now p).0
      × AdmitsCode code_valid hash_matches r code now p
          (handle_totp_verify_submit code_valid hash_matches r code fresh f now p).0
logins-Admit check_password code_valid hash_matches r login password code fresh f now p loads = (
  login_submit-Admits check_password r login password fresh f now p loads,
  verify_submit-Admits code_valid hash_matches r code fresh f now p,
)
