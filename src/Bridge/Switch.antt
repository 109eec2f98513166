-- ===== src/Bridge/Switch.antt =====
-- `BridgeService` of internal/bridge/service.go: `Enable`, `Disable`, their rollbacks, and
-- `RerenderConfig`.
pub mod Steps
pub mod Effects
pub mod Outcome
pub mod Enabling
pub mod Disabling
pub mod Restoring
use mtproxy_orchestrator.Base.{
  ℕ, zero, suc, ◌+◌, String, Bool, true, false, ◌&&◌, not, Option, none, some, List, [], ◌∷◌, ◌++◌,
  str_eq, ◌==◌, if◌then◌else◌, length,
}
use mtproxy_orchestrator.Base.Int.{ℤ, pos, negsuc}
use mtproxy_orchestrator.Bridge.Node.{Node, NodeList, active, next_id}
use mtproxy_orchestrator.Bridge.Rotation.{
  Strategy, SingboxConfig, normalize_strategy, strategy_name, render_outbounds, config_is_valid,
}
use mtproxy_orchestrator.Bridge.Host.{
  Env, Host, Action, File, FileName, UnitName, UserEntry, TeleproxyConfig, node_file, node_rollback,
  singbox_json, singbox_json_rollback, singbox_unit, teleproxy_toml, singbox, teleproxy, write_file,
  download, set_enabled, set_running, service_active, save, load, snapshot, restore,
}
use mtproxy_orchestrator.Bridge.Plan.{
  load_nodes, snapshot_nodes, save_nodes, download_singbox, render_singbox, write_singbox_json,
  Cause, Common, EnableConfig, Result, Step, config_invalid, disable_singbox, done, enable_singbox,
  failed, no_enabled_nodes, refuse, restart_teleproxy, restore_nodes, rolled_back, run_all,
  run_steps, same_cursor, save_cursor, singbox_not_active, skip, snapshot_teleproxy, socks_addr,
  start_singbox, step, stop_singbox, teleproxy_config, teleproxy_not_active, when,
  write_singbox_service, write_teleproxy,
}

module _ (env : Env) where
  unfoldable pub rollback_steps : Common → Option File → List Step
  rollback_steps c nodes =
      step restore_nodes (restore env node_rollback node_file nodes)
      ∷ step write_teleproxy
          (write_file env teleproxy_toml (env.teleproxy_text (teleproxy_config c "")) 384)
      ∷ step stop_singbox (set_running env singbox false)
      ∷ step disable_singbox (set_enabled env singbox false)
      ∷ step restart_teleproxy (set_running env teleproxy true)
      ∷ []

  unfoldable pub rollback : Common → Cause → Option File → Host → Result × Host
  unfolding run_all rollback_steps
  rollback c cause nodes h =
      let (errs, h') = run_all (rollback_steps c nodes) h in (rolled_back cause errs, h')

  -- The node list that `Enable` saves first.
  unfoldable pub with_node : EnableConfig → NodeList → NodeList
  with_node cfg nl =
      let added = record nl {
        nodes = nl.nodes ++ record cfg.node { id = next_id nl; enabled = true } ∷ [];
      } in
      if str_eq cfg.strategy ""
      then added
      else record added { strategy = strategy_name (normalize_strategy cfg.strategy) }

  -- From the download to the health check; `sbCfg.Render` fails exactly on an invalid configuration.
  unfoldable pub enable_steps : EnableConfig → NodeList → List Step
  enable_steps cfg nl =
      let strategy = normalize_strategy nl.strategy in
      let (outbounds, rendered) = render_outbounds nl strategy in
      let sb : SingboxConfig = record { strategy = strategy; outbounds = outbounds } in
      step download_singbox
        (when (not (str_eq cfg.singbox_url "")) (download env cfg.singbox_url cfg.singbox_sha256))
      ∷ step render_singbox (when (not (config_is_valid sb)) refuse)
      ∷ step write_singbox_json (write_file env singbox_json (env.singbox_text sb) 384)
      ∷ step save_cursor (
          when (not (same_cursor rendered.round_robin_cursor nl.round_robin_cursor))
            (save env rendered))
      ∷ step write_singbox_service (write_file env singbox_unit env.unit_text 420)
      ∷ step write_teleproxy (
          write_file env teleproxy_toml
            (env.teleproxy_text (teleproxy_config cfg.common socks_addr)) 384)
      ∷ step enable_singbox (set_enabled env singbox true)
      ∷ step start_singbox (set_running env singbox true)
      ∷ step restart_teleproxy (set_running env teleproxy true)
      ∷ step singbox_not_active (service_active env singbox)
      ∷ step teleproxy_not_active (service_active env teleproxy)
      ∷ []

  unfoldable pub finish_enable : EnableConfig → Option File → Option Cause × Host → Result × Host
  finish_enable cfg nodes (none, h) = (done, h)
  finish_enable cfg nodes (some cause, h) = rollback cfg.common cause nodes h

  unfoldable pub enable_from : EnableConfig → NodeList → Option File → Host → Result × Host
  unfolding enable_steps finish_enable
  enable_from cfg nl nodes h =
      let nl' = with_node cfg nl in
      let (saved, h1) = save env nl' h in
      let rest = finish_enable cfg nodes (run_steps (enable_steps cfg nl') h1) in
      if saved then rest else (failed save_nodes, h1)

  unfoldable pub enable_snapped :
      EnableConfig → NodeList → Option (Option File) × Host → Result × Host
  enable_snapped cfg nl (none, h) = (failed snapshot_nodes, h)
  enable_snapped cfg nl (some nodes, h) = enable_from cfg nl nodes h

  unfoldable pub enable_loaded : EnableConfig → Option NodeList × Host → Result × Host
  enable_loaded cfg (none, h) = (failed load_nodes, h)
  enable_loaded cfg (some nl, h) = enable_snapped cfg nl (snapshot env node_file h)

  -- `Enable`: nothing is rolled back when the load, the snapshot or the first save fails.
  unfoldable pub enable : EnableConfig → Host → Result × Host
  unfolding enable_loaded enable_snapped enable_from
  enable cfg h = enable_loaded cfg (load env h)

  -- The write of the snapshot, and the restart behind it.
  unfoldable pub restore_teleproxy : File → Action
  restore_teleproxy f h =
      let (ok, h1) = write_file env teleproxy_toml f.content f.mode h in
      let restarted = set_running env teleproxy true h1 in if ok then restarted else (false, h1)

  unfoldable pub disable_rollback_steps : Option File → Bool → List Step
  unfolding restore_teleproxy
  disable_rollback_steps (some f) was_active =
      step write_teleproxy (restore_teleproxy f)
      ∷ step start_singbox (when was_active (set_running env singbox true))
      ∷ []
  disable_rollback_steps none was_active =
      step start_singbox (when was_active (set_running env singbox true)) ∷ []

  unfoldable pub disable_rollback : Option File → Bool → Cause → Host → Result × Host
  unfolding run_all disable_rollback_steps
  disable_rollback snap was_active cause h =
      let (errs, h') = run_all (disable_rollback_steps snap was_active) h in
      (rolled_back cause errs, h')

  -- The stop and the disable of sing-box, which `Disable` does not roll back.
  unfoldable pub stop_steps : List Step
  stop_steps =
      step stop_singbox (set_running env singbox false)
      ∷ step disable_singbox (set_enabled env singbox false)
      ∷ []

  unfoldable pub direct_steps : Common → List Step
  direct_steps c =
      step write_teleproxy
        (write_file env teleproxy_toml (env.teleproxy_text (teleproxy_config c "")) 384)
      ∷ step restart_teleproxy (set_running env teleproxy true)
      ∷ step teleproxy_not_active (service_active env teleproxy)
      ∷ []

  unfoldable pub finish_disable : Option File → Bool → Option Cause × Host → Result × Host
  finish_disable snap was_active (none, h) = (done, h)
  finish_disable snap was_active (some cause, h) = disable_rollback snap was_active cause h

  unfoldable pub switch_direct : Common → Option File → Bool → Option Cause × Host → Result × Host
  unfolding finish_disable
  switch_direct c snap was_active (none, h) =
      finish_disable snap was_active (run_steps (direct_steps c) h)
  switch_direct c snap was_active (some cause, h) = (failed cause, h)

  unfoldable pub disable_snapped : Common → Option (Option File) × Host → Result × Host
  unfolding switch_direct stop_steps
  disable_snapped c (none, h) = (failed snapshot_teleproxy, h)
  disable_snapped c (some snap, h) =
      let (was_active, h') = service_active env singbox h in
      switch_direct c snap was_active (run_steps stop_steps h')

  unfoldable pub disable : Common → Host → Result × Host
  unfolding disable_snapped
  disable c h = disable_snapped c (snapshot env teleproxy_toml h)

  -- `if snapErr == nil && snap.existed { _ = restoreFile(...) }`
  unfoldable pub restore_snapshot : Option (Option File) → Host → Host
  restore_snapshot none h = h
  restore_snapshot (some none) h = h
  restore_snapshot (some (some f)) h = (restore env singbox_json_rollback singbox_json (some f) h).1

  unfoldable pub rerender_config : NodeList → Host → Result × Host
  unfolding restore_snapshot
  rerender_config nl h =
      let strategy = normalize_strategy nl.strategy in
      let (outbounds, rendered) = render_outbounds nl strategy in
      let sb : SingboxConfig = record { strategy = strategy; outbounds = outbounds } in
      let (snap, h1) = snapshot env singbox_json h in
      let (written, h2) = write_file env singbox_json (env.singbox_text sb) 384 h1 in
      let (saved, h3) =
        when (not (same_cursor rendered.round_robin_cursor nl.round_robin_cursor))
          (save env rendered) h2 in
      if length (active nl) == 0
      then (failed no_enabled_nodes, h)
      else if not (config_is_valid sb)
      then (failed config_invalid, h)
      else if not written
      then (failed write_singbox_json, restore_snapshot snap h2)
      else if not saved
      then (failed save_cursor, restore_snapshot snap h3)
      else (done, h3)
