-- ===== src/Panel/Nodes/Handlers.antt =====
-- The handlers of internal/panel/bridge.go that change the outbound nodes and the mode, each from the
-- request to the status of its answer.
use mtproxy_orchestrator.Base.{
  ℕ, String, Bool, true, false, not, ◌&&◌, ◌||◌, Option, none, some, str_eq, ◌==◌, if◌then◌else◌,
  length,
}
use mtproxy_orchestrator.Bridge.Node.{Node, NodeList, active}
use mtproxy_orchestrator.Bridge.Host.{Env, Host, singbox, service_active, save, load}
use mtproxy_orchestrator.Panel.Actions.{
  Status, forbidden, bad_request, internal_error, not_found, see_other,
}
use mtproxy_orchestrator.Panel.Nodes.Form.{NodeForm, EditForm, node_of_form, port_of_form}
use mtproxy_orchestrator.Panel.Nodes.Edits.{
  append_node, edit_node, toggle_node, delete_node, ping_node, is_strategy, too_few,
}
use mtproxy_orchestrator.Panel.Nodes.{
  Desk, Request, Server, enable_node, disable_bridge_mode, save_with_rollback, singbox_installed,
  ensure_singbox_installed,
}

module _ (env : Env) (srv : Server) where
  abbrev answer : Bool × Desk → Desk × Status
  answer (true, d) = (d, see_other)
  answer (false, d) = (d, internal_error)

  -- `node` is what `ImportVLESS` makes of the URL.
  unfoldable pub handle_bridge_enable : Request → Option Node → Desk → Desk × Status
  unfolding enable_node
  handle_bridge_enable r node d =
      if r.csrf_valid
      then elim node [
        | none ↦ (d, bad_request)
        | some n ↦ answer (enable_node env srv r n srv.singbox_url srv.singbox_sha256 d)
      ]
      else (d, forbidden)

  unfoldable pub handle_bridge_disable : Request → Desk → Desk × Status
  unfolding disable_bridge_mode
  handle_bridge_disable r d =
      if r.csrf_valid then answer (disable_bridge_mode env srv r d) else (d, forbidden)

  abbrev pub saved_answer : Bool × Host → Desk → Desk × Status
  saved_answer (true, h) d = (record d { host = h }, see_other)
  saved_answer (false, h) d = (record d { host = h }, internal_error)

  -- The load of the node list, and what follows it.
  unfoldable pub with_nodes :
      (NodeList → Desk → Desk × Status) → Option NodeList × Host → Desk → Desk × Status
  with_nodes change (none, h) d = (record d { host = h }, internal_error)
  with_nodes change (some nl, h) d = change nl (record d { host = h })

  -- The handler from the valid form on.
  unfoldable pub add_node : Request → Node → Desk → Desk × Status
  unfolding enable_node save_with_rollback with_nodes append_node ensure_singbox_installed
      singbox_installed
  add_node r node d =
      let (is_active, h1) = service_active env singbox d.host in
      let d1 = record d { host = h1 } in
      let (installed, h2) = ensure_singbox_installed env srv h1 in
      if not is_active
      then answer (
          if singbox_installed env srv h1
          then enable_node env srv r node "" "" d1
          else enable_node env srv r node srv.singbox_url srv.singbox_sha256 d1)
      else if not installed
      then (record d { host = h2 }, internal_error)
      else with_nodes
          (λ nl d2. saved_answer (save_with_rollback env srv nl (append_node node nl) d2.host) d2)
          (load env h2) (record d { host = h2 })

  -- `previous` and the changed list, where the node was found.
  unfoldable pub save_changed : (NodeList → Option NodeList) → Desk → Desk × Status
  unfolding save_with_rollback with_nodes
  save_changed change d =
      with_nodes
        (λ nl d1. elim (change nl) [
          | none ↦ (d1, not_found)
          | some updated ↦ saved_answer (save_with_rollback env srv nl updated d1.host) d1
        ])
        (load env d.host) d

  -- `disableBridgeMode` behind the save, and the list's restoring where that fails.
  unfoldable pub leave_bridge : Request → NodeList → NodeList → Desk → Desk × Status
  unfolding disable_bridge_mode
  leave_bridge r previous updated d =
      let (saved, h1) = save env updated d.host in
      let (left, d1) = disable_bridge_mode env srv r (record d { host = h1 }) in
      if not saved
      then (record d { host = h1 }, internal_error)
      else if left
      then (d1, see_other)
      else (record d1 { host = (save env previous d1.host).1 }, internal_error)

  -- The ends of the toggle and of the deletion: without an enabled node Bridge mode is left.
  unfoldable pub save_or_leave : Request → NodeList → NodeList → Desk → Desk × Status
  unfolding leave_bridge save_with_rollback
  save_or_leave r previous updated d =
      let (is_active, h1) = service_active env singbox d.host in
      let d1 = record d { host = h1 } in
      if is_active && length (active updated) == 0
      then leave_bridge r previous updated d1
      else saved_answer (save_with_rollback env srv previous updated h1) d1

  unfoldable pub change_or_leave : Request → (NodeList → Option NodeList) → Desk → Desk × Status
  unfolding save_or_leave with_nodes
  change_or_leave r change d =
      with_nodes
        (λ nl d1. elim (change nl) [
          | none ↦ (d1, not_found)
          | some updated ↦ save_or_leave r nl updated d1
        ])
        (load env d.host) d

  abbrev guarded : Request → (ℕ → Desk → Desk × Status) → Desk → Desk × Status
  guarded r body d =
      if r.csrf_valid
      then elim r.id [ none ↦ (d, bad_request) | some id ↦ body id d ]
      else (d, forbidden)

  -- `node` is what `Import` makes of the URL.
  unfoldable pub handle_bridge_add_node : Request → Option Node → Desk → Desk × Status
  unfolding add_node
  handle_bridge_add_node r node d =
      if r.csrf_valid
      then elim node [
        | none ↦ (d, bad_request)
        | some n ↦ add_node r (record n { enabled = true }) d
      ]
      else (d, forbidden)

  -- `trim` is `strings.TrimSpace`.
  unfoldable pub handle_bridge_add_node_manual :
      (String → String) → Request → NodeForm → Desk → Desk × Status
  unfolding add_node
  handle_bridge_add_node_manual trim r form d =
      if r.csrf_valid
      then elim (node_of_form trim form) [ none ↦ (d, bad_request) | some node ↦ add_node r node d ]
      else (d, forbidden)

  -- The edit from the id on.
  unfoldable pub edit_by_id : (String → String) → EditForm → ℕ → Desk → Desk × Status
  unfolding save_changed
  edit_by_id trim form id d =
      if str_eq (trim form.tag) "" || str_eq (trim form.host) ""
      then (d, bad_request)
      else elim (port_of_form form.port) [
        | none ↦ (d, bad_request)
        | some port ↦ save_changed (edit_node trim form port id) d
      ]

  unfoldable pub handle_bridge_edit_node :
      (String → String) → Request → EditForm → Desk → Desk × Status
  unfolding edit_by_id
  handle_bridge_edit_node trim r form d = guarded r (edit_by_id trim form) d

  unfoldable pub handle_bridge_toggle_node : Request → Desk → Desk × Status
  unfolding change_or_leave
  handle_bridge_toggle_node r d = guarded r (λ id. change_or_leave r (toggle_node id)) d

  unfoldable pub handle_bridge_delete_node : Request → Desk → Desk × Status
  unfolding change_or_leave
  handle_bridge_delete_node r d = guarded r (λ id. change_or_leave r (delete_node id)) d

  -- `probe` is the latency that the dial finds in milliseconds, `none` for an error; `now` the clock.
  unfoldable pub handle_bridge_ping_node : Request → (Node → Option ℕ) → ℕ → Desk → Desk × Status
  unfolding with_nodes
  handle_bridge_ping_node r probe now d =
      guarded r
        (λ id d1.
          with_nodes
            (λ nl d2. elim (ping_node probe now id nl) [
              | none ↦ (d2, not_found)
              | some updated ↦ saved_answer (save env updated d2.host) d2
            ])
            (load env d1.host) d1)
        d

  -- The strategy from the loaded list on.
  unfoldable pub set_strategy : String → NodeList → Desk → Desk × Status
  unfolding save_with_rollback
  set_strategy strategy nl d =
      if too_few strategy (length (active nl))
      then (d, bad_request)
      else saved_answer (save_with_rollback env srv nl (record nl { strategy = strategy }) d.host) d

  unfoldable pub handle_bridge_set_strategy : Request → String → Desk → Desk × Status
  unfolding set_strategy with_nodes
  handle_bridge_set_strategy r strategy d =
      if not r.csrf_valid
      then (d, forbidden)
      else if not (is_strategy strategy)
      then (d, bad_request)
      else with_nodes (set_strategy strategy) (load env d.host) d
