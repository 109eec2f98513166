-- ===== src/Reconcile.antt =====
-- internal/reconcile/reconcile.go, with `MigrateStubIfLegacy` of internal/stub/embed.go, `DaemonReload`,
-- `Restart` and `RestartNginx` of internal/service/manager.go. The links of nginx's sites and the web
-- root are files here, of no content. Each call that can fail stands once in the run, and fails where
-- `fails` says so; the texts of units and sites are parameters, that of teleproxy.toml is `render`.
pub mod Files
pub mod Sync
pub mod Applied
pub mod Runs
pub mod Order
pub mod Complete
pub mod Again
use mtproxy_orchestrator.Base.{
  ℕ, String, Bool, true, false, not, ◌&&◌, ◌||◌, Option, none, some, List, [], ◌∷◌, ◌++◌, str_eq,
  if◌then◌else◌,
}
use mtproxy_orchestrator.Bridge.Host.{UserEntry, TeleproxyConfig}
use mtproxy_orchestrator.Settings.{
  Table, Config, RuntimeSettings, read_runtime_settings, merge_into,
}
use mtproxy_orchestrator.Teleproxy.{render, detect_mode}
use mtproxy_orchestrator.Update.Text.{Text}
use mtproxy_orchestrator.Reconcile.Files.{
  Act, Call, Command, World, ◌>>=◌, ◌>>◌, pure, stop, read, command, FileName, teleproxy_toml,
  teleproxy_service, panel_service, singbox_service, users_json, acme_webroot, acme_snippet,
  stub_site, stub_link, tls_site, tls_link, panel_site, panel_link, daemon_reload,
  restart_teleproxy, restart_panel, check_nginx, restart_nginx,
}
use mtproxy_orchestrator.Reconcile.Sync.{
  Stubs, Item, always, if_changed, made, main_conf, linked, migrate, no_default, sync, sync_all,
}

-- What `ReadConfig` returns: the fields that the stored settings touch, and the others that are used.
pub record Install : Type 0 where
  pub settings : Config
  pub panel_domain : String
  pub panel_cert : String
  pub panel_key : String
  pub acme_email : String

-- The fields of `PanelUnitConfig` that depend on the configuration.
pub record PanelUnit : Type 0 where
  pub panel_path : String
  pub mtproto_port : ℕ
  pub mask_host : String
  pub tls_backend : String
  pub wildcard_mask : String
  pub mss_clamp : Bool
  pub random_padding : Bool
  pub ja4_log : Bool
  pub domain : String
  pub acme_email : String

-- The renderings of internal/systemd and internal/nginx, and `UnmarshalUsersJSON`. A stub site has the
-- ACME snippet or not; the two others have a domain, a certificate and a key.
pub record Templates : Type 0 where
  pub stubs : Stubs
  pub teleproxy_unit : Text
  pub panel_unit : PanelUnit → Text
  pub singbox_unit : Text
  pub acme_challenge : Text
  pub stub : Bool → Text
  pub tls_stub : String → String → String → Text
  pub panel_proxy : String → String → String → Text
  pub unmarshal_users : Text → Option (List UserEntry)

unfoldable pub has_tls_stub_backend : Install → Bool
has_tls_stub_backend i =
    not (str_eq i.panel_domain "") && (not (str_eq i.panel_cert "") && not (str_eq i.panel_key ""))

-- The merged configuration, with the domain as the mask of an installation that has a certificate.
unfoldable pub effective_config : Install → RuntimeSettings → Config
unfolding has_tls_stub_backend merge_into
effective_config i rt =
    let cfg = merge_into rt i.settings in
    if has_tls_stub_backend i
    then record cfg { mask_host = i.panel_domain; tls_backend = "127.0.0.1:9443" }
    else cfg

abbrev pub or_mode : String → Option String → String
or_mode mode none = mode
or_mode mode (some detected) = detected

-- The stored mode, and where there is none that of the file.
unfoldable pub effective_mode : RuntimeSettings → Config → Option Text → String
unfolding detect_mode
effective_mode rt cfg toml =
    if str_eq rt.mode "" then or_mode cfg.mode (detect_mode toml) else cfg.mode

-- `effectiveMode == config.ModeBridge`
abbrev pub is_bridge : RuntimeSettings → Config → Option Text → Bool
is_bridge rt cfg toml = str_eq (effective_mode rt cfg toml) "bridge"

unfoldable pub teleproxy_config : Config → Bool → List UserEntry → TeleproxyConfig
teleproxy_config cfg bridge users = record {
  port = cfg.mtproto_port;
  mask_host = cfg.mask_host;
  tls_backend = cfg.tls_backend;
  wildcard_mask = cfg.wildcard_mask;
  stats_port = 9091;
  socks5_addr = if bridge then "127.0.0.1:1080" else "";
  mss_clamp = cfg.mss_clamp;
  ja4_log = cfg.ja4_log;
  users = users;
}

unfoldable pub panel_unit_config : Install → Config → PanelUnit
panel_unit_config i cfg = record {
  panel_path = cfg.panel_path;
  mtproto_port = cfg.mtproto_port;
  mask_host = cfg.mask_host;
  tls_backend = cfg.tls_backend;
  wildcard_mask = cfg.wildcard_mask;
  mss_clamp = cfg.mss_clamp;
  random_padding = cfg.random_padding;
  ja4_log = cfg.ja4_log;
  domain = i.panel_domain;
  acme_email = i.acme_email;
}

abbrev pub when_listed : Bool → List Item → List Item
when_listed true items = items
when_listed false items = []

abbrev pub has_acme : Install → Bool
has_acme i = not (str_eq i.acme_email "") && not (str_eq i.panel_domain "")

-- The files of nginx and the stub page, in the order of the run.
unfoldable pub nginx_items : Templates → Install → List Item
unfolding has_tls_stub_backend
nginx_items t i =
    main_conf
    ∷ (when_listed (has_acme i) (made acme_webroot ∷ if_changed acme_snippet t.acme_challenge ∷ [])
        ++ (if_changed stub_site (t.stub (has_acme i))
            ∷ linked stub_link
            ∷ (when_listed (has_tls_stub_backend i) (
                  if_changed tls_site (t.tls_stub i.panel_domain i.panel_cert i.panel_key)
                  ∷ linked tls_link
                  ∷ if_changed panel_site (t.panel_proxy i.panel_domain i.panel_cert i.panel_key)
                  ∷ linked panel_link
                  ∷ [])
                ++ (migrate ∷ no_default ∷ []))))

abbrev pub when_changed : Bool → Act (Unit {0}) → Act (Unit {0})
when_changed true a = a
when_changed false a = pure tt

module _ (fails : Call → Bool) (t : Templates) where
  -- From the daemon's reload on.
  unfoldable pub restart : Bool → Bool → Bool → Act (Unit {0})
  unfolding command
  restart teleproxy_changed panel_changed nginx_changed = do
    command fails daemon_reload
    when_changed teleproxy_changed (command fails restart_teleproxy)
    when_changed panel_changed (command fails restart_panel)
    when_changed nginx_changed (command fails check_nginx >> command fails restart_nginx)

  -- From the rendering on.
  unfoldable pub apply : Install → Config → Bool → List UserEntry → Act (Unit {0})
  unfolding teleproxy_config panel_unit_config nginx_items sync sync_all restart
  apply i cfg bridge users = do
    teleproxy_changed ←
        sync fails t.stubs (always teleproxy_toml (render (teleproxy_config cfg bridge users)))
    unit_changed ← sync fails t.stubs (always teleproxy_service t.teleproxy_unit)
    panel_changed ←
        sync fails t.stubs (always panel_service (t.panel_unit (panel_unit_config i cfg)))
    singbox_changed ←
        sync_all fails t.stubs (when_listed bridge (always singbox_service t.singbox_unit ∷ []))
    nginx_changed ← sync_all fails t.stubs (nginx_items t i)
    restart teleproxy_changed panel_changed nginx_changed

  abbrev pub parse_users : Option Text → Option (List UserEntry)
  parse_users none = none
  parse_users (some s) = t.unmarshal_users s

  unfoldable pub apply_users : Install → Config → Bool → Option (List UserEntry) → Act (Unit {0})
  unfolding apply
  apply_users i cfg bridge none = stop
  apply_users i cfg bridge (some users) = apply i cfg bridge users

  -- `Reconcile`: `none` for a configuration or settings that cannot be read.
  unfoldable pub reconcile : Option Install → Option Table → Act (Unit {0})
  unfolding effective_config effective_mode apply_users read
  reconcile none m w = (none, w)
  reconcile (some i) none w = (none, w)
  reconcile (some i) (some m) w =
      let rt = read_runtime_settings m in
      let cfg = effective_config i rt in
      let bridge = is_bridge rt cfg (read fails teleproxy_toml w) in
      apply_users i cfg bridge (parse_users (read fails users_json w)) w
