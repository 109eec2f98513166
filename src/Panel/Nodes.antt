-- ===== src/Panel/Nodes.antt =====
-- What the handlers of internal/panel/bridge.go share: the configuration they hand on, the switching
-- of the mode over the transitions of Bridge.Switch, and the saving of the nodes. Handlers has the
-- handlers. The audit log and the pages are left out, as in Panel.Actions.
pub mod Form
pub mod Handlers
pub mod Edits
pub mod Ids
pub mod Rollback
pub mod Choice
use mtproxy_orchestrator.Base.{
  ℕ, String, Bool, true, false, not, ◌&&◌, ◌||◌, Option, none, some, List, [], ◌∷◌, ◌++◌, str_eq,
  ltb, ◌==◌, if◌then◌else◌, length, find,
}
use mtproxy_orchestrator.Bridge.Node.{Node, NodeList, active, next_id}
use mtproxy_orchestrator.Bridge.Host.{
  Env, Host, UserEntry, singbox, singbox_bin, service_active, save, load, download,
}
use mtproxy_orchestrator.Bridge.Plan.{Common, EnableConfig, Result, done, failed, rolled_back}
use mtproxy_orchestrator.Bridge.Switch.{enable, disable, rerender_config}
use mtproxy_orchestrator.Panel.Actions.{
  Status, forbidden, bad_request, internal_error, not_found, see_other,
}
use mtproxy_orchestrator.Panel.Nodes.Form.{NodeForm, EditForm, node_of_form, port_of_form}
use mtproxy_orchestrator.Panel.Nodes.Edits.{
  append_node, edit_node, toggle_node, delete_node, ping_node, is_strategy,
}

-- `BridgeConfig`, less its paths.
pub record BridgeConfig : Type 0 where
  pub mtproto_port : ℕ
  pub mask_host : String
  pub tls_backend : String
  pub wildcard_mask : String
  pub mss_clamp : Bool
  pub ja4_log : Bool
  pub stats_port : ℕ

unfoldable pub bridge_mtproto_port : Option BridgeConfig → ℕ
bridge_mtproto_port none = 443
bridge_mtproto_port (some c) = if c.mtproto_port == 0 then 443 else c.mtproto_port

unfoldable pub bridge_mask_host : Option BridgeConfig → String
bridge_mask_host none = "www.microsoft.com"
bridge_mask_host (some c) = if str_eq c.mask_host "" then "www.microsoft.com" else c.mask_host

abbrev stub_backend : String → String → String
stub_backend domain mask =
    if not (str_eq domain "") && str_eq mask domain then "127.0.0.1:9443" else ""

-- `domain` is that of the settings.
unfoldable pub bridge_tls_backend : String → Option BridgeConfig → String
unfolding bridge_mask_host
bridge_tls_backend domain none = stub_backend domain (bridge_mask_host none)
bridge_tls_backend domain (some c) =
    if str_eq c.tls_backend ""
    then stub_backend domain (bridge_mask_host (some c))
    else c.tls_backend

abbrev wildcard : Option BridgeConfig → String
wildcard none = ""
wildcard (some c) = c.wildcard_mask

abbrev clamp : Option BridgeConfig → Bool
clamp none = true
clamp (some c) = c.mss_clamp

abbrev ja4 : Option BridgeConfig → Bool
ja4 none = true
ja4 (some c) = c.ja4_log

abbrev stats : Option BridgeConfig → ℕ
stats none = 9091
stats (some c) = if c.stats_port == 0 then 9091 else c.stats_port

unfoldable pub bridge_common : String → Option BridgeConfig → List UserEntry → Common
unfolding bridge_mtproto_port bridge_mask_host bridge_tls_backend
bridge_common domain c entries = record {
  teleproxy_users = entries;
  mtproto_port = bridge_mtproto_port c;
  mask_host = bridge_mask_host c;
  tls_backend = bridge_tls_backend domain c;
  wildcard_mask = wildcard c;
  mss_clamp = clamp c;
  ja4_log = ja4 c;
  stats_port = stats c;
}

-- The machine and the stored `bridge_mode`.
pub record Desk : Type 0 where
  pub host : Host
  pub mode : Option String

-- The form's CSRF token and id; the entries that are read from the users, `none` for an error; and
-- whether the mode can be stored, which the handlers do not look at.
pub record Request : Type 0 where
  pub csrf_valid : Bool
  pub id : Option ℕ
  pub entries : Option (List UserEntry)
  pub mode_stored : Bool

abbrev pub with_mode : Request → String → Host → Desk → Desk
with_mode r mode h d = record { host = h; mode = if r.mode_stored then some mode else d.mode }

abbrev pub is_done : Result → Bool
is_done done = true
is_done (failed c) = false
is_done (rolled_back c cs) = false

-- The server's settings that do not change: the configuration, the domain, and the pinned download.
pub record Server : Type 0 where
  pub config : Option BridgeConfig
  pub domain : String
  pub singbox_url : String
  pub singbox_sha256 : String

module _ (env : Env) (srv : Server) where
  -- `enableBridgeModeWithNode` with a URL, and the end of `handleBridgeEnable`: true without an error.
  unfoldable pub enable_node : Request → Node → String → String → Desk → Bool × Desk
  unfolding bridge_common
  enable_node r node url sha256 d = elim r.entries [
    | none ↦ (false, d)
    | some entries ↦
        let cfg : EnableConfig = record {
          node = node;
          common = bridge_common srv.domain srv.config entries;
          strategy = "";
          singbox_url = url;
          singbox_sha256 = sha256;
        } in
        let (result, h) = enable env cfg d.host in
        if is_done result then (true, with_mode r "bridge" h d) else (false, record d { host = h })
  ]

  -- `disableBridgeMode`
  unfoldable pub disable_bridge_mode : Request → Desk → Bool × Desk
  unfolding bridge_common
  disable_bridge_mode r d = elim r.entries [
    | none ↦ (false, d)
    | some entries ↦
        let (result, h) = disable env (bridge_common srv.domain srv.config entries) d.host in
        if is_done result then (true, with_mode r "single" h d) else (false, record d { host = h })
  ]

  -- `rerenderSingboxIfActive`
  unfoldable pub rerender_if_active : NodeList → Host → Bool × Host
  rerender_if_active nl h =
      let (is_active, h1) = service_active env singbox h in
      let (result, h2) = rerender_config env nl h1 in
      if is_active then (is_done result, h2) else (true, h1)

  -- `saveNodeListWithRerenderRollback`
  unfoldable pub save_with_rollback : NodeList → NodeList → Host → Bool × Host
  unfolding rerender_if_active
  save_with_rollback current updated h =
      let (saved, h1) = save env updated h in
      let (rendered, h2) = rerender_if_active updated h1 in
      if not saved
      then (false, h1)
      else if rendered
      then (true, h2)
      else (false, (save env current h2).1)

  unfoldable pub singbox_installed : Host → Bool
  singbox_installed h = elim (h.disk singbox_bin) [ none ↦ false | some f ↦ true ]

  -- `ensureSingboxInstalled`
  unfoldable pub ensure_singbox_installed : Host → Bool × Host
  unfolding singbox_installed
  ensure_singbox_installed h =
      if singbox_installed h then (true, h) else download env srv.singbox_url srv.singbox_sha256 h
