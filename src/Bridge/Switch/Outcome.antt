-- ===== src/Bridge/Switch/Outcome.antt =====
-- What `Enable` and `Disable` of internal/bridge/service.go leave on the machine.
use mtproxy_orchestrator.Base.{
  ℕ, ◌+◌, true, false, Option, none, some, ◌≡◌, refl, inl, inr, Bool-cases, arith,
}
use mtproxy_orchestrator.Bridge.Node.{NodeList}
use mtproxy_orchestrator.Bridge.Host.{
  Env, Host, file_index, File, FileName, Bytes, node_file, node_rollback, teleproxy_toml, singbox,
  teleproxy, put, write_file, set_enabled, set_running, service_active, rename, remove,
  write_rename, restore,
}
use mtproxy_orchestrator.Bridge.Switch.{rollback_steps, enable_steps}
use mtproxy_orchestrator.Bridge.Plan.{Common, EnableConfig, run_steps, teleproxy_config, socks_addr}
use mtproxy_orchestrator.Bridge.Switch.Steps.{
  Sets, Keeps, here, there, run_steps-Reaches, contents, Holds, IsRunning, IsEnabled,
}
use mtproxy_orchestrator.Bridge.Switch.Effects.{
  Keeps-disk, Keeps-enabled, disabled_down, service_active-Sets, service_active-disk,
  service_active-enabled, set_enabled-Sets, set_enabled-disk, set_running-Sets, set_running-disk,
  set_running-enabled, teleproxy_up, write_file-Sets,
}

module _ (env : Env) where
  abbrev pub IsBridged : EnableConfig → Host → Type 0
  IsBridged cfg h =
      Holds teleproxy_toml (some (env.teleproxy_text (teleproxy_config cfg.common socks_addr))) h
      × (IsEnabled singbox true h × IsRunning teleproxy true h)

  pub enable_steps-IsBridged :
      (cfg : EnableConfig) (nl : NodeList) (h : Host)
      → (run_steps (enable_steps env cfg nl) h).0 ≡ none
      → IsBridged cfg (run_steps (enable_steps env cfg nl) h).1
  unfolding enable_steps
  enable_steps-IsBridged cfg nl h e = (
    run_steps-Reaches
        (Holds teleproxy_toml (some (env.teleproxy_text (teleproxy_config cfg.common socks_addr))))
        (enable_steps env cfg nl) h
        (there (
          there (
            there (
              there (
                there (
                  here (write_file-Sets env teleproxy_toml _ _) (
                    Keeps-disk env (set_enabled env singbox true) _ _
                        (set_enabled-disk env singbox true),
                    (
                      Keeps-disk env (set_running env singbox true) _ _
                          (set_running-disk env singbox true),
                      (
                        Keeps-disk env (set_running env teleproxy true) _ _
                            (set_running-disk env teleproxy true),
                        (
                          Keeps-disk env (service_active env singbox) _ _
                              (service_active-disk env singbox),
                          (
                            Keeps-disk env (service_active env teleproxy) _ _
                                (service_active-disk env teleproxy),
                            tt,
                          ),
                        ),
                      ),
                    ),
                  )))))))
        e,
    (
      run_steps-Reaches (IsEnabled singbox true) (enable_steps env cfg nl) h
          (there (
            there (
              there (
                there (
                  there (
                    there (
                      here (set_enabled-Sets env singbox true) (
                        Keeps-enabled env (set_running env singbox true) _ _
                            (set_running-enabled env singbox true),
                        (
                          Keeps-enabled env (set_running env teleproxy true) _ _
                              (set_running-enabled env teleproxy true),
                          (
                            Keeps-enabled env (service_active env singbox) _ _
                                (service_active-enabled env singbox),
                            (
                              Keeps-enabled env (service_active env teleproxy) _ _
                                  (service_active-enabled env teleproxy),
                              tt,
                            ),
                          ),
                        ),
                      ))))))))
          e,
      run_steps-Reaches (IsRunning teleproxy true) (enable_steps env cfg nl) h
          (there (
            there (
              there (
                there (
                  there (
                    there (
                      there
                        (there (there (there (here (service_active-Sets env teleproxy) tt)))))))))))
          e,
    ),
  )

  -- sing-box off and disabled, teleproxy running on a configuration without an upstream.
  abbrev pub IsDirect : Common → Host → Type 0
  IsDirect c h =
      Holds teleproxy_toml (some (env.teleproxy_text (teleproxy_config c ""))) h
      × (IsEnabled singbox false h × (IsRunning singbox false h × IsRunning teleproxy true h))

  write_file-Keeps :
      (name : FileName) (b : Bytes) (m : ℕ) (x : Option Bytes)
      → Keeps (Holds node_file x) (write_file env teleproxy_toml b m)
  unfolding write_file put file_index
  write_file-Keeps name b m x h e p = elim (Bool-cases (env.fails h.calls)) [
    | inl f ↦ rw f p
    | inr f ↦ rw f p
  ]

  restore-Sets :
      (nodes : Option File)
      → Sets (Holds node_file (contents nodes)) (restore env node_rollback node_file nodes)
  unfolding restore remove write_rename write_file rename put file_index
  restore-Sets none h e = elim (Bool-cases (env.fails h.calls)) [
    | inl f ↦ absurd (ground arith)
    | inr f ↦ rw f refl
  ]
  restore-Sets (some n) h e = elim (Bool-cases (env.fails h.calls)) [
    | inl f ↦ absurd (ground arith)
    | inr f ↦ elim (Bool-cases (env.fails (h.calls + 1))) [
      | inl g ↦ absurd (ground arith)
      | inr g ↦ rw f (rw g refl)
    ]
  ]

  pub rollback_steps-IsDirect :
      (c : Common) (nodes : Option File) (h : Host)
      → (run_steps (rollback_steps env c nodes) h).0 ≡ none
      → IsDirect c (run_steps (rollback_steps env c nodes) h).1
        × Holds node_file (contents nodes) (run_steps (rollback_steps env c nodes) h).1
  unfolding rollback_steps
  rollback_steps-IsDirect c nodes h e = (
    (
      run_steps-Reaches (Holds teleproxy_toml (some (env.teleproxy_text (teleproxy_config c ""))))
          (rollback_steps env c nodes) h
          (there (
            here (write_file-Sets env teleproxy_toml _ _) (
              Keeps-disk env (set_running env singbox false) _ _
                  (set_running-disk env singbox false),
              (
                Keeps-disk env (set_enabled env singbox false) _ _
                    (set_enabled-disk env singbox false),
                (
                  Keeps-disk env (set_running env teleproxy true) _ _
                      (set_running-disk env teleproxy true),
                  tt,
                ),
              ),
            )))
          e,
      (
        run_steps-Reaches (IsEnabled singbox false) (rollback_steps env c nodes) h
            (there (
              there (
                there (
                  here (set_enabled-Sets env singbox false) (
                    Keeps-enabled env (set_running env teleproxy true) _ _
                        (set_running-enabled env teleproxy true),
                    tt,
                  )))))
            e,
        (
          run_steps-Reaches (IsRunning singbox false) (rollback_steps env c nodes) h
              (there (
                there (
                  here (set_running-Sets env singbox false)
                    (disabled_down env, (teleproxy_up env, tt)))))
              e,
          run_steps-Reaches (IsRunning teleproxy true) (rollback_steps env c nodes) h
              (there (there (there (there (here (set_running-Sets env teleproxy true) tt))))) e,
        ),
      ),
    ),
    run_steps-Reaches (Holds node_file (contents nodes)) (rollback_steps env c nodes) h
        (here (restore-Sets nodes) (
          write_file-Keeps teleproxy_toml _ _ _,
          (
            Keeps-disk env (set_running env singbox false) _ _ (set_running-disk env singbox false),
            (
              Keeps-disk env (set_enabled env singbox false) _ _
                  (set_enabled-disk env singbox false),
              (
                Keeps-disk env (set_running env teleproxy true) _ _
                    (set_running-disk env teleproxy true),
                tt,
              ),
            ),
          ),
        ))
        e,
  )
