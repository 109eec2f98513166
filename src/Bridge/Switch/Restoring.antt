-- ===== src/Bridge/Switch/Restoring.antt =====
-- What the rollback of `Disable` of internal/bridge/service.go leaves on the machine.
use mtproxy_orchestrator.Base.{
  Bool, true, false, Option, none, some, List, [], ◌≡◌, refl, sym, ap, ◌∙◌, inl, inr, Bool-cases,
  arith, subst,
}
use mtproxy_orchestrator.Bridge.Host.{
  Env, Host, File, FileName, Bytes, teleproxy_toml, singbox, teleproxy, snapshot, flag, same_unit,
  write_file, set_running, service_active,
}
use mtproxy_orchestrator.Bridge.Plan.{Cause, Common, Result, rolled_back, run_steps, when}
use mtproxy_orchestrator.Bridge.Switch.{
  stop_steps, direct_steps, restore_teleproxy, disable_rollback_steps, disable_rollback,
  finish_disable, switch_direct, disable, disable_snapped,
}
use mtproxy_orchestrator.Bridge.Switch.Steps.{
  Sets, Keeps, here, run_steps-Reaches, run_all-run_steps, contents, Holds, IsRunning,
}
use mtproxy_orchestrator.Bridge.Switch.Effects.{write_file-Sets, set_running-Sets, set_running-disk}

is_rolled_back : Result → Bool
is_rolled_back (rolled_back _ _) = true
is_rolled_back _ = false

rolled_back_errors : Result → List Cause
rolled_back_errors (rolled_back c errs) = errs
rolled_back_errors _ = []

-- The teleproxy.toml that teleproxy was last started with has the content of a file.
abbrev pub StartedOn : File → Host → Type 0
StartedOn f h = contents h.started_on ≡ some f.content

module _ (env : Env) where
  restore_teleproxy-Sets :
      (f : File) → Sets (Holds teleproxy_toml (some f.content)) (restore_teleproxy env f)
  unfolding restore_teleproxy
  restore_teleproxy-Sets f h e =
      elim (Bool-cases (write_file env teleproxy_toml f.content f.mode h).0) [
        | inl ok ↦
            let h1 = (write_file env teleproxy_toml f.content f.mode h).1 in
            rw ok (
              subst (λ d. contents (d teleproxy_toml) ≡ some f.content)
                (sym (set_running-disk env teleproxy true h1))
                (write_file-Sets env teleproxy_toml f.content f.mode h ok))
        | inr torn ↦ absurd (ground (arith, torn, e))
      ]

  restore_teleproxy-IsRunning :
      (f : File) → Sets (IsRunning teleproxy true) (restore_teleproxy env f)
  unfolding restore_teleproxy
  restore_teleproxy-IsRunning f h e =
      elim (Bool-cases (write_file env teleproxy_toml f.content f.mode h).0) [
        | inl ok ↦
            let h1 = (write_file env teleproxy_toml f.content f.mode h).1 in
            let restarted : (set_running env teleproxy true h1).0 ≡ true = ground (arith, ok, e) in
            rw ok (set_running-Sets env teleproxy true h1 restarted)
        | inr torn ↦ absurd (ground (arith, torn, e))
      ]

  restore_teleproxy-StartedOn : (f : File) → Sets (StartedOn f) (restore_teleproxy env f)
  unfolding restore_teleproxy set_running same_unit
  restore_teleproxy-StartedOn f h e =
      elim (Bool-cases (write_file env teleproxy_toml f.content f.mode h).0) [
        | inl ok ↦
            let h1 = (write_file env teleproxy_toml f.content f.mode h).1 in
            let restarted : (set_running env teleproxy true h1).0 ≡ true = ground (arith, ok, e) in
            let wrote = write_file-Sets env teleproxy_toml f.content f.mode h ok in
            rw ok (elim (Bool-cases (env.fails h1.calls)) [
              | inl down ↦ absurd (ground (arith, down, restarted))
              | inr up ↦ rw up wrote
            ])
        | inr torn ↦ absurd (ground (arith, torn, e))
      ]

  restart-Keeps-StartedOn :
      (w : Bool) (f : File) → Keeps (StartedOn f) (when w (set_running env singbox true))
  unfolding set_running same_unit
  restart-Keeps-StartedOn true f h e p = elim (Bool-cases (env.fails h.calls)) [
    | inl down ↦ rw down p
    | inr up ↦ rw up p
  ]
  restart-Keeps-StartedOn false f h e p = p

  restart-Keeps-Holds :
      (w : Bool) (x : Option Bytes)
      → Keeps (Holds teleproxy_toml x) (when w (set_running env singbox true))
  restart-Keeps-Holds true x h e p =
      subst (λ d. contents (d teleproxy_toml) ≡ x) (sym (set_running-disk env singbox true h)) p
  restart-Keeps-Holds false x h e p = p

  restart-Keeps-IsRunning :
      (w : Bool) → Keeps (IsRunning teleproxy true) (when w (set_running env singbox true))
  unfolding set_running flag same_unit
  restart-Keeps-IsRunning true h e p = ground arith
  restart-Keeps-IsRunning false h e p = p

  abbrev pub IsRestored : File → Host → Type 0
  IsRestored f h =
      Holds teleproxy_toml (some f.content) h × (IsRunning teleproxy true h × StartedOn f h)

  disable_rollback_steps-IsRestored :
      (f : File) (w : Bool) (h : Host)
      → (run_steps (disable_rollback_steps env (some f) w) h).0 ≡ none
      → IsRestored f (run_steps (disable_rollback_steps env (some f) w) h).1
  unfolding disable_rollback_steps
  disable_rollback_steps-IsRestored f w h e = (
    run_steps-Reaches (Holds teleproxy_toml (some f.content))
        (disable_rollback_steps env (some f) w) h
        (here (restore_teleproxy-Sets f) (restart-Keeps-Holds w (some f.content), tt)) e,
    (
      run_steps-Reaches (IsRunning teleproxy true) (disable_rollback_steps env (some f) w) h
          (here (restore_teleproxy-IsRunning f) (restart-Keeps-IsRunning w, tt)) e,
      run_steps-Reaches (StartedOn f) (disable_rollback_steps env (some f) w) h
          (here (restore_teleproxy-StartedOn f) (restart-Keeps-StartedOn w f, tt)) e,
    ),
  )

  finish_disable-IsRestored :
      (f : File) (w : Bool) (r : Option Cause × Host) (k : Cause)
      → (finish_disable env (some f) w r).0 ≡ rolled_back k []
      → IsRestored f (finish_disable env (some f) w r).1
  unfolding finish_disable disable_rollback is_rolled_back rolled_back_errors
  finish_disable-IsRestored f w (none, h) k e =
      let no : false ≡ true = ap is_rolled_back e in absurd (ground arith)
  finish_disable-IsRestored f w (some k', h) k e =
      let steps = disable_rollback_steps env (some f) w in
      let (clean, ends) = run_all-run_steps steps h (ap rolled_back_errors e) in
      subst (IsRestored f) (sym ends) (disable_rollback_steps-IsRestored f w h clean)

  switch_direct-IsRestored :
      (c : Common) (f : File) (w : Bool) (r : Option Cause × Host) (k : Cause)
      → (switch_direct env c (some f) w r).0 ≡ rolled_back k []
      → IsRestored f (switch_direct env c (some f) w r).1
  unfolding switch_direct is_rolled_back
  switch_direct-IsRestored c f w (none, h) k e =
      finish_disable-IsRestored f w (run_steps (direct_steps env c) h) k e
  switch_direct-IsRestored c f w (some k', h) k e =
      let no : false ≡ true = ap is_rolled_back e in absurd (ground arith)

  disable_snapped-IsRestored :
      (c : Common) (f : File) (r : Option (Option File) × Host) (k : Cause)
      → ((x : Option File) → r.0 ≡ some x → x ≡ some f)
      → (disable_snapped env c r).0 ≡ rolled_back k []
      → IsRestored f (disable_snapped env c r).1
  unfolding disable_snapped is_rolled_back
  disable_snapped-IsRestored c f (none, h) k same e =
      let no : false ≡ true = ap is_rolled_back e in absurd (ground arith)
  disable_snapped-IsRestored c f (some x, h) k same e =
      let (w, h') = service_active env singbox h in
      let r = run_steps (stop_steps env) h' in
      subst
        (λ y.
          (switch_direct env c y w r).0 ≡ rolled_back k []
          → IsRestored f (switch_direct env c y w r).1)
        (sym (same x refl)) (switch_direct-IsRestored c f w r k) e

  snapshot-file :
      (n : FileName) (h : Host) (x : Option File) → (snapshot env n h).0 ≡ some x → x ≡ h.disk n
  unfolding snapshot
  snapshot-file n h x e = ground arith

  -- When `Disable` rolls back and the rollback meets no error of its own, a teleproxy.toml that was
  -- there has its content again, and teleproxy runs and was last started with that content.
  pub disable-IsRestored :
      (c : Common) (h : Host) (f : File) (k : Cause)
      → h.disk teleproxy_toml ≡ some f
      → (disable env c h).0 ≡ rolled_back k []
      → IsRestored f (disable env c h).1
  unfolding disable
  disable-IsRestored c h f k there_before e =
      disable_snapped-IsRestored c f (snapshot env teleproxy_toml h) k
        (λ x s. snapshot-file teleproxy_toml h x s ∙ there_before) e
