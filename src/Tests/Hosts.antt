-- ===== src/Tests/Hosts.antt =====
-- The results on the system's files at concrete inputs: Reconcile, Teleproxy and Nginx.
use mtproxy_orchestrator.Base.{
  ℕ, Bool, true, false, Option, none, some, List, [], ◌∷◌, ◌++◌, ◌≡◌, ◌⊎◌, refl, if◌then◌else◌,
  ◌==◌,
}
use mtproxy_orchestrator.Bridge.Host.{UserEntry, TeleproxyConfig}
use mtproxy_orchestrator.Settings.{Table, read_runtime_settings}
use mtproxy_orchestrator.Update.Text.{Text, codes}
use mtproxy_orchestrator.Nginx.MainConf.{patch_main_conf}
use mtproxy_orchestrator.Nginx.MainConf.Stable.{patch_main_conf_idempotent}
use mtproxy_orchestrator.Teleproxy.{render, detect_mode, domain_name}
use mtproxy_orchestrator.Teleproxy.Mode.{IsQuotable, detect_mode-render, is_plain-IsPlain}
use mtproxy_orchestrator.Reconcile.Files.{
  World, file_index, daemon_reload, restart_teleproxy, restart_panel, check_nginx, restart_nginx,
}
use mtproxy_orchestrator.Reconcile.Sync.{is_legacy}
use mtproxy_orchestrator.Reconcile.Applied.{IsReadable}
use mtproxy_orchestrator.Reconcile.Runs.{AllHold}
use mtproxy_orchestrator.Reconcile.Order.{items}
use mtproxy_orchestrator.Reconcile.Complete.{cfg_of, bridge_of, reconcile_writes_first}
use mtproxy_orchestrator.Reconcile.Again.{calm, reconcile_again}
use mtproxy_orchestrator.Reconcile.{
  Install, Templates, reconcile, teleproxy_config, effective_config,
}

abbrev conf : Text
conf = codes "worker_processes auto;\nevents {\n  worker_connections 768;\n}"

patched_conf :
    patch_main_conf conf
    ≡ codes
        "worker_processes auto;\nworker_rlimit_nofile 16384; # managed by tgproxy\nevents {\n  worker_connections 4096; # managed by tgproxy\n}"
unfolding patch_main_conf
patched_conf = refl

patch_main_conf_idempotent_example : patch_main_conf (patch_main_conf conf) ≡ patch_main_conf conf
patch_main_conf_idempotent_example = patch_main_conf_idempotent conf

abbrev users : List UserEntry
users = record { label = "anna"; secret = "00112233445566778899aabbccddeeff" } ∷ []

abbrev teleproxy : TeleproxyConfig
teleproxy = record {
  port = 443;
  mask_host = "www.microsoft.com";
  tls_backend = "";
  wildcard_mask = "";
  stats_port = 9091;
  socks5_addr = "127.0.0.1:1080";
  mss_clamp = true;
  ja4_log = true;
  users = users;
}

quotable : IsQuotable teleproxy
unfolding domain_name
quotable = record {
  domain = is_plain-IsPlain (codes "www.microsoft.com") refl;
  backend = tt;
  users = (
    (
      is_plain-IsPlain (codes "00112233445566778899aabbccddeeff") refl,
      is_plain-IsPlain (codes "anna") refl,
    ),
    tt,
  );
}

detect_mode-render_example : detect_mode (some (render teleproxy)) ≡ some "bridge"
detect_mode-render_example = detect_mode-render teleproxy quotable

-- A host in Bridge mode without a domain, whose mode is in its configuration alone.
abbrev install : Install
install = record {
  settings = record {
    mode = "bridge";
    mtproto_port = 443;
    mask_host = "www.microsoft.com";
    tls_backend = "";
    wildcard_mask = "";
    mss_clamp = true;
    random_padding = false;
    ja4_log = true;
    log_level = "info";
    panel_path = "/p/";
  };
  panel_domain = "";
  panel_cert = "";
  panel_key = "";
  acme_email = "";
}

abbrev templates : Templates
templates = record {
  stubs = record { legacy_stub_html = codes "old"; default_stub_html = codes "new"; torn = none };
  teleproxy_unit = codes "t";
  panel_unit = λ u. codes "p";
  singbox_unit = codes "s";
  acme_challenge = codes "a";
  stub = λ acme. codes "stub";
  tls_stub = λ domain cert key. codes "tls";
  panel_proxy = λ domain cert key. codes "panel";
  unmarshal_users = λ s. some users;
}

abbrev table : Table
table = λ name. none

abbrev content : ℕ → Option Text
content n =
    if n == 4
    then some (codes "{}")
    else if n == 5
    then some conf
    else if n == 14
    then some (codes "old\n")
    else if n == 15
    then some []
    else none

abbrev before : World
before = record { files = λ name. content (file_index name); commands = [] }

abbrev behind : World
behind = (reconcile calm templates (some install) (some table) before).1

abbrev readable : IsReadable calm
readable = record { reads = λ name. refl; compares = λ name. refl; removes = refl }

embedded_is_new : is_legacy templates.stubs templates.stubs.default_stub_html ≡ false
unfolding is_legacy
embedded_is_new = refl

first_run : (reconcile calm templates (some install) (some table) before).0 ≡ some tt
unfolding reconcile read_runtime_settings patch_main_conf render
first_run = refl

-- The first run restarts all three services.
first_run_commands :
    behind.commands
    ≡ daemon_reload ∷ restart_teleproxy ∷ restart_panel ∷ check_nginx ∷ restart_nginx ∷ []
unfolding reconcile read_runtime_settings patch_main_conf render
first_run_commands = refl

plain : (b : Bool) → IsQuotable (teleproxy_config (cfg_of install table) b users)
unfolding domain_name teleproxy_config effective_config read_runtime_settings
plain b = record {
  domain = is_plain-IsPlain (codes "www.microsoft.com") refl;
  backend = tt;
  users = quotable.users;
}

reconcile_writes_first_example :
    let r = reconcile calm templates (some install) (some table) before in
    ((r.0 ≡ none) × (r.1.commands ≡ before.commands))
    ⊎ AllHold templates.stubs
        (items templates install (cfg_of install table) (bridge_of install table before) users)
        r.1
reconcile_writes_first_example =
    reconcile_writes_first calm templates install table before (codes "{}") users readable
      embedded_is_new refl refl

reconcile_again_example :
    reconcile calm templates (some install) (some table) behind
    ≡ (some tt, record behind { commands = behind.commands ++ daemon_reload ∷ [] })
reconcile_again_example =
    reconcile_again calm templates install table before behind (codes "{}") users readable
      embedded_is_new refl refl plain (λ i. (first_run i, behind))
