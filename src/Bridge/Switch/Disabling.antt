-- ===== src/Bridge/Switch/Disabling.antt =====
-- How `Disable` of internal/bridge/service.go ends.
use mtproxy_orchestrator.Base.{
  Bool, true, false, Option, none, some, List, [], ◌≡◌, refl, sym, ap, ◌∙◌, inl, inr, ◌+◌, ℕ,
  Bool-cases, arith, subst,
}
use mtproxy_orchestrator.Bridge.Host.{
  Env, Host, File, FileName, Bytes, teleproxy_toml, singbox, teleproxy, snapshot, flag, same_unit,
  write_file, set_running, service_active, set_enabled,
}
use mtproxy_orchestrator.Bridge.Switch.{
  stop_steps, direct_steps, disable_rollback, finish_disable, switch_direct, disable,
  disable_snapped,
}
use mtproxy_orchestrator.Bridge.Plan.{
  Cause, Common, Result, done, failed, rolled_back, run_steps, disable_singbox, snapshot_teleproxy,
  teleproxy_config,
}
use mtproxy_orchestrator.Bridge.Switch.Steps.{
  Keeps, here, there, run_steps-Reaches, run_steps-Keeps, Holds, IsEnabled, IsRunning,
}
use mtproxy_orchestrator.Bridge.Switch.Outcome.{IsDirect}
use mtproxy_orchestrator.Bridge.Switch.Effects.{
  write_file-Sets, set_running-Sets, set_enabled-Sets, service_active-Sets, set_running-disk,
  service_active-disk, write_file-enabled, set_running-enabled, service_active-enabled, Keeps-disk,
  Keeps-enabled, stays_down, teleproxy_up, disabled_down,
}

is_done : Result → Bool
is_done done = true
is_done _ = false

failure : Result → Option Cause
failure (failed k) = some k
failure _ = none

rolled_back_errors : Result → List Cause
rolled_back_errors (rolled_back c errs) = errs
rolled_back_errors _ = []

module _ (env : Env) where
  abbrev pub IsDown : Host → Type 0
  IsDown h = IsEnabled singbox false h × IsRunning singbox false h

  write_file-down :
      (n : FileName) (b : Bytes) (m : ℕ) → Keeps (IsRunning singbox false) (write_file env n b m)
  unfolding write_file
  write_file-down n b m h e p = ground arith

  stop_steps-IsDown :
      (h : Host) → (run_steps (stop_steps env) h).0 ≡ none → IsDown (run_steps (stop_steps env) h).1
  unfolding stop_steps
  stop_steps-IsDown h e = (
    run_steps-Reaches (IsEnabled singbox false) (stop_steps env) h
        (there (here (set_enabled-Sets env singbox false) tt)) e,
    run_steps-Reaches (IsRunning singbox false) (stop_steps env) h
        (here (set_running-Sets env singbox false) (disabled_down env, tt)) e,
  )

  direct_steps-IsDirect :
      (c : Common) (h : Host)
      → IsDown h
      → (run_steps (direct_steps env c) h).0 ≡ none
      → IsDirect env c (run_steps (direct_steps env c) h).1
  unfolding direct_steps
  direct_steps-IsDirect c h (off, down) e = (
    run_steps-Reaches (Holds teleproxy_toml (some (env.teleproxy_text (teleproxy_config c ""))))
        (direct_steps env c) h
        (here (write_file-Sets env teleproxy_toml _ _) (
          Keeps-disk env (set_running env teleproxy true) _ _ (set_running-disk env teleproxy true),
          (
            Keeps-disk env (service_active env teleproxy) _ _ (service_active-disk env teleproxy),
            tt,
          ),
        ))
        e,
    (
      run_steps-Keeps (IsEnabled singbox false) (direct_steps env c) h
          (
            Keeps-enabled env (write_file env teleproxy_toml _ _) _ _
                (write_file-enabled env teleproxy_toml _ _),
            (
              Keeps-enabled env (set_running env teleproxy true) _ _
                  (set_running-enabled env teleproxy true),
              (
                Keeps-enabled env (service_active env teleproxy) _ _
                    (service_active-enabled env teleproxy),
                tt,
              ),
            ),
          )
          e off,
      (
        run_steps-Keeps (IsRunning singbox false) (direct_steps env c) h
            (
              write_file-down teleproxy_toml _ _,
              (teleproxy_up env, (stays_down env singbox teleproxy, tt)),
            )
            e down,
        run_steps-Reaches (IsRunning teleproxy true) (direct_steps env c) h
            (there (there (here (service_active-Sets env teleproxy) tt))) e,
      ),
    ),
  )

  finish_disable-IsDirect :
      (c : Common) (snap : Option File) (w : Bool) (r : Option Cause × Host)
      → (r.0 ≡ none → IsDirect env c r.1)
      → (finish_disable env snap w r).0 ≡ done
      → IsDirect env c (finish_disable env snap w r).1
  unfolding finish_disable disable_rollback is_done
  finish_disable-IsDirect c snap w (none, h) direct e = direct refl
  finish_disable-IsDirect c snap w (some k, h) direct e =
      let no : false ≡ true = ap is_done e in absurd (ground arith)

  switch_direct-IsDirect :
      (c : Common) (snap : Option File) (w : Bool) (r : Option Cause × Host)
      → (r.0 ≡ none → IsDown r.1)
      → (switch_direct env c snap w r).0 ≡ done
      → IsDirect env c (switch_direct env c snap w r).1
  unfolding switch_direct is_done
  switch_direct-IsDirect c snap w (none, h) down e =
      finish_disable-IsDirect c snap w (run_steps (direct_steps env c) h)
        (direct_steps-IsDirect c h (down refl)) e
  switch_direct-IsDirect c snap w (some k, h) down e =
      let no : false ≡ true = ap is_done e in absurd (ground arith)

  disable_snapped-IsDirect :
      (c : Common) (r : Option (Option File) × Host)
      → (disable_snapped env c r).0 ≡ done
      → IsDirect env c (disable_snapped env c r).1
  unfolding disable_snapped is_done
  disable_snapped-IsDirect c (none, h) e =
      let no : false ≡ true = ap is_done e in absurd (ground arith)
  disable_snapped-IsDirect c (some snap, h) e =
      let (w, h') = service_active env singbox h in
      switch_direct-IsDirect c snap w (run_steps (stop_steps env) h') (stop_steps-IsDown h') e

  -- When `Disable` returns no error, teleproxy has the configuration without an upstream and ran at
  -- the last check, and sing-box is stopped and disabled.
  pub disable-IsDirect :
      (c : Common) (h : Host) → (disable env c h).0 ≡ done → IsDirect env c (disable env c h).1
  unfolding disable
  disable-IsDirect c h e = disable_snapped-IsDirect c (snapshot env teleproxy_toml h) e

  stop_steps-strands :
      (h : Host)
      → (run_steps (stop_steps env) h).0 ≡ some disable_singbox
      → IsRunning singbox false (run_steps (stop_steps env) h).1
        × ((run_steps (stop_steps env) h).1.disk ≡ h.disk)
  unfolding stop_steps run_steps set_running set_enabled flag same_unit
  stop_steps-strands h e = elim (Bool-cases (env.fails h.calls)) [
    | inl f ↦ absurd (ground arith)
    | inr f ↦ elim (Bool-cases (env.fails (h.calls + 1))) [
      | inl g ↦ rw f (rw g (refl, refl))
      | inr g ↦ absurd (ground arith)
    ]
  ]

  finish_disable-failure :
      (snap : Option File) (w : Bool) (r : Option Cause × Host)
      → failure (finish_disable env snap w r).0 ≡ none
  unfolding finish_disable disable_rollback failure
  finish_disable-failure snap w (none, h) = refl
  finish_disable-failure snap w (some k, h) = refl

  switch_direct-failed :
      (c : Common) (snap : Option File) (w : Bool) (r : Option Cause × Host) (k : Cause)
      → (switch_direct env c snap w r).0 ≡ failed k
      → (r.0 ≡ some k) × ((switch_direct env c snap w r).1 ≡ r.1)
  unfolding switch_direct failure
  switch_direct-failed c snap w (none, h) k e =
      let no : none ≡ some k =
        sym (finish_disable-failure snap w (run_steps (direct_steps env c) h)) ∙ ap failure e in
      absurd (ground arith)
  switch_direct-failed c snap w (some k', h) k e = (ap failure e, refl)

  disable_snapped-strands :
      (c : Common) (r : Option (Option File) × Host)
      → (disable_snapped env c r).0 ≡ failed disable_singbox
      → IsRunning singbox false (disable_snapped env c r).1
        × ((disable_snapped env c r).1.disk ≡ r.1.disk)
  unfolding disable_snapped failure
  disable_snapped-strands c (none, h) e =
      let no : some snapshot_teleproxy ≡ some disable_singbox = ap failure e in
      absurd (ground arith)
  disable_snapped-strands c (some snap, h) e =
      let (w, h') = service_active env singbox h in
      let (stopped, ends) =
        switch_direct-failed c snap w (run_steps (stop_steps env) h') disable_singbox e in
      let (down, same) = stop_steps-strands h' stopped in
      (
        subst (IsRunning singbox false) (sym ends) down,
        ap (λ x. x.disk) ends ∙ same ∙ service_active-disk env singbox h,
      )

  snapshot-disk : (n : FileName) (h : Host) → (snapshot env n h).1.disk ≡ h.disk
  unfolding snapshot
  snapshot-disk n h = elim (Bool-cases (env.fails h.calls)) [
    | inl f ↦ rw f refl
    | inr f ↦ rw f refl
  ]

  -- `Disable` that fails at the `systemctl disable` of sing-box returns at once: sing-box is stopped,
  -- and no file is changed, so teleproxy.toml keeps the upstream that it had.
  disable-strands :
      (c : Common) (h : Host)
      → (disable env c h).0 ≡ failed disable_singbox
      → IsRunning singbox false (disable env c h).1 × ((disable env c h).1.disk ≡ h.disk)
  unfolding disable
  disable-strands c h e =
      let (down, same) = disable_snapped-strands c (snapshot env teleproxy_toml h) e in
      (down, same ∙ snapshot-disk teleproxy_toml h)
