-- ===== src/Bridge/Switch/Enabling.antt =====
-- The two ways `Enable` of internal/bridge/service.go ends behind its first save.
use mtproxy_orchestrator.Base.{
  Bool, true, false, Option, none, some, List, [], ◌≡◌, refl, sym, ap, ◌∙◌, inl, inr, ◌⊎◌,
  Bool-cases, arith, subst,
}
use mtproxy_orchestrator.Bridge.Node.{NodeList}
use mtproxy_orchestrator.Bridge.Host.{Env, Host, File, FileName, node_file, save, load, snapshot}
use mtproxy_orchestrator.Bridge.Switch.{
  rollback_steps, rollback, enable_steps, finish_enable, enable_from, enable_snapped, enable_loaded,
  enable, with_node,
}
use mtproxy_orchestrator.Bridge.Plan.{
  load_nodes, snapshot_nodes, save_nodes, Cause, EnableConfig, Result, done, failed, rolled_back,
  run_steps,
}
use mtproxy_orchestrator.Bridge.Switch.Steps.{run_all-run_steps, contents, Holds}
use mtproxy_orchestrator.Bridge.Switch.Outcome.{
  IsBridged, IsDirect, enable_steps-IsBridged, rollback_steps-IsDirect,
}

rolled_back_errors : Result → List Cause
rolled_back_errors (rolled_back c errs) = errs
rolled_back_errors _ = []

is_done : Result → Bool
is_done done = true
is_done _ = false

is_stopped : Result → Bool
is_stopped (failed _) = true
is_stopped _ = false

module _ (env : Env) where
  finish_enable-IsBridged :
      (cfg : EnableConfig) (nodes : Option File) (r : Option Cause × Host)
      → (r.0 ≡ none → IsBridged env cfg r.1)
      → (finish_enable env cfg nodes r).0 ≡ done
      → IsBridged env cfg (finish_enable env cfg nodes r).1
  unfolding finish_enable rollback is_done
  finish_enable-IsBridged cfg nodes (none, h) k e = k refl
  finish_enable-IsBridged cfg nodes (some c, h) k e =
      let no : false ≡ true = ap is_done e in absurd (ground arith)

  abbrev pub Ends : EnableConfig → Option File → Result × Host → Type 0
  Ends cfg d r =
      ((nl : NodeList) × ((h' : Host) × (r
            ≡ finish_enable env cfg d (run_steps (enable_steps env cfg nl) h'))))
      ⊎ ((c : Cause) × (r.0 ≡ failed c))

  enable_from-Ends :
      (cfg : EnableConfig) (nl : NodeList) (d : Option File) (h : Host)
      → Ends cfg d (enable_from env cfg nl d h)
  unfolding enable_from
  enable_from-Ends cfg nl d h = elim (Bool-cases (save env (with_node env cfg nl) h).0) [
    | inl s ↦
        inl
          (with_node env cfg nl, ((save env (with_node env cfg nl) h).1, rw (s, enable_from) refl))
    | inr s ↦ inr (save_nodes, rw (s, enable_from) refl)
  ]

  enable_snapped-Ends :
      (cfg : EnableConfig) (nl : NodeList) (d : Option File) (r : Option (Option File) × Host)
      → ((x : Option File) → r.0 ≡ some x → x ≡ d)
      → Ends cfg d (enable_snapped env cfg nl r)
  unfolding enable_snapped
  enable_snapped-Ends cfg nl d (none, h) same = inr (snapshot_nodes, refl)
  enable_snapped-Ends cfg nl d (some x, h) same =
      subst (λ y. Ends cfg y (enable_from env cfg nl x h)) (same x refl)
        (enable_from-Ends cfg nl x h)

  snapshot-disk :
      (n : FileName) (h : Host) (x : Option File) → (snapshot env n h).0 ≡ some x → x ≡ h.disk n
  unfolding snapshot
  snapshot-disk n h x e = ground arith

  enable_loaded-Ends :
      (cfg : EnableConfig) (r : Option NodeList × Host)
      → Ends cfg (r.1.disk node_file) (enable_loaded env cfg r)
  unfolding enable_loaded
  enable_loaded-Ends cfg (none, h) = inr (load_nodes, refl)
  enable_loaded-Ends cfg (some nl, h) =
      enable_snapped-Ends cfg nl (h.disk node_file) (snapshot env node_file h)
        (snapshot-disk node_file h)

  load-disk : (h : Host) → (load env h).1.disk ≡ h.disk
  unfolding load
  load-disk h = elim (Bool-cases (env.fails h.calls)) [ inl f ↦ rw f refl | inr f ↦ rw f refl ]

  -- The branches of `Enable`.
  enable-Ends : (cfg : EnableConfig) (h : Host) → Ends cfg (h.disk node_file) (enable env cfg h)
  unfolding enable
  enable-Ends cfg h =
      subst (λ d. Ends cfg (d node_file) (enable_loaded env cfg (load env h))) (load-disk h)
        (enable_loaded-Ends cfg (load env h))

  -- When `Enable` returns no error, the configuration of teleproxy is the one with the SOCKS5
  -- upstream of sing-box, sing-box is enabled, and teleproxy ran at the last check.
  pub enable-IsBridged :
      (cfg : EnableConfig) (h : Host)
      → (enable env cfg h).0 ≡ done
      → IsBridged env cfg (enable env cfg h).1
  unfolding is_stopped
  enable-IsBridged cfg h e = elim (enable-Ends cfg h) [
    | inl (nl, (h', eq)) ↦
        subst (λ r. r.0 ≡ done → IsBridged env cfg r.1) (sym eq)
          (finish_enable-IsBridged cfg (h.disk node_file) (run_steps (enable_steps env cfg nl) h')
            (enable_steps-IsBridged env cfg nl h'))
          e
    | inr (c', stopped) ↦
        let no : false ≡ true = ap is_stopped (sym e ∙ stopped) in absurd (ground arith)
  ]

  finish_enable-IsDirect :
      (cfg : EnableConfig) (nodes : Option File) (r : Option Cause × Host) (c : Cause)
      → (finish_enable env cfg nodes r).0 ≡ rolled_back c []
      → IsDirect env cfg.common (finish_enable env cfg nodes r).1
        × Holds node_file (contents nodes) (finish_enable env cfg nodes r).1
  unfolding finish_enable rollback is_done rolled_back_errors
  finish_enable-IsDirect cfg nodes (none, h) c e =
      let no : true ≡ false = ap is_done e in absurd (ground arith)
  finish_enable-IsDirect cfg nodes (some c', h) c e =
      let steps = rollback_steps env cfg.common nodes in
      let (clean, ends) = run_all-run_steps steps h (ap rolled_back_errors e) in
      subst (λ h'. IsDirect env cfg.common h' × Holds node_file (contents nodes) h') (sym ends)
        (rollback_steps-IsDirect env cfg.common nodes h clean)

  -- When `Enable` rolls back and the rollback meets no error of its own, the node file holds what it
  -- held before the call, teleproxy has the configuration without an upstream and runs, and sing-box
  -- is stopped and disabled, whichever step of `Enable` failed.
  pub enable-IsDirect :
      (cfg : EnableConfig) (h : Host) (c : Cause)
      → (enable env cfg h).0 ≡ rolled_back c []
      → IsDirect env cfg.common (enable env cfg h).1
        × Holds node_file (contents (h.disk node_file)) (enable env cfg h).1
  unfolding is_stopped
  enable-IsDirect cfg h c e = elim (enable-Ends cfg h) [
    | inl (nl, (h', eq)) ↦
        subst
          (λ r.
            r.0 ≡ rolled_back c []
            → IsDirect env cfg.common r.1 × Holds node_file (contents (h.disk node_file)) r.1)
          (sym eq)
          (finish_enable-IsDirect cfg (h.disk node_file) (run_steps (enable_steps env cfg nl) h') c)
          e
    | inr (c', stopped) ↦
        let no : false ≡ true = ap is_stopped (sym e ∙ stopped) in absurd (ground arith)
  ]
