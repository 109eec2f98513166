-- ===== src/Tests/Forms.antt =====
-- Forms of the settings.
use mtproxy_orchestrator.Base.{◌≤◌, ℕ, Bool, true, false, none, some, ◌≡◌, refl}
use mtproxy_orchestrator.Update.Text.{codes, atoi}
use mtproxy_orchestrator.Settings.{Table, Config, read_runtime_settings, merge_into, ProxyForm}
use mtproxy_orchestrator.Settings.Safe.{IsHostText}
use mtproxy_orchestrator.Settings.Validation.{
  is_valid_mask_host, is_valid_panel_path, is_valid_log_level, is_valid_ipv4, is_valid_tls_backend,
}
use mtproxy_orchestrator.Settings.System.{
  accepted, handle_settings_proxy_post, SystemForm, handle_settings_system_post,
}
use mtproxy_orchestrator.Settings.Forms.{
  handle_settings_proxy_post-merged, handle_settings_system_post-merged,
}

abbrev file : Config
file = record {
  mode = "single";
  mtproto_port = 443;
  mask_host = "www.microsoft.com";
  tls_backend = "127.0.0.1:9443";
  wildcard_mask = "";
  mss_clamp = true;
  random_padding = false;
  ja4_log = true;
  log_level = "info";
  panel_path = "/p/";
}

-- The TLS backend is cleared.
abbrev form : ProxyForm
form = record {
  mask_host = "example.org";
  tls_backend = "";
  wildcard_mask = "";
  mss_clamp = false;
  random_padding = true;
  ja4_log = false;
  port = "8443";
  server_addr = "";
}

abbrev empty_table : Table
empty_table = λ key. none

proxy_accepted : (handle_settings_proxy_post true none form empty_table).0 ≡ accepted
unfolding handle_settings_proxy_post is_valid_mask_host atoi
proxy_accepted = refl

handle_settings_proxy_post-merged_example :
    IsHostText (codes "example.org")
    × ((p : ℕ) × ((atoi (codes "8443") ≡ some p)
          × ((1 ≤ p)
              × ((p ≤ 65535)
                  × (merge_into
                        (read_runtime_settings
                          (handle_settings_proxy_post true none form empty_table).1)
                        file
                      ≡ record (merge_into (read_runtime_settings empty_table) file) {
                        mask_host = "example.org";
                        mtproto_port = p;
                        mss_clamp = false;
                        random_padding = true;
                        ja4_log = false;
                        tls_backend = "127.0.0.1:9443";
                        wildcard_mask = "";
                      })))))
handle_settings_proxy_post-merged_example =
    handle_settings_proxy_post-merged true none form empty_table file proxy_accepted

abbrev system_form : SystemForm
system_form = record {
  panel_path = "/secret/";
  log_level = "warn";
  retention_minutes = "14";
  retention_hourly = "90";
}

abbrev all_work : ℕ → Bool
all_work k = false

system_accepted : (handle_settings_system_post true all_work system_form empty_table).0 ≡ accepted
unfolding handle_settings_system_post is_valid_panel_path is_valid_log_level atoi
system_accepted = refl

handle_settings_system_post-merged_example :
    (is_valid_panel_path (codes "/secret/") ≡ true)
    × ((is_valid_log_level (codes "warn") ≡ true)
        × (merge_into
              (read_runtime_settings
                (handle_settings_system_post true all_work system_form empty_table).1)
              file
            ≡ record (merge_into (read_runtime_settings empty_table) file) {
              panel_path = "/secret/";
              log_level = "warn";
            }))
handle_settings_system_post-merged_example =
    handle_settings_system_post-merged true all_work system_form empty_table file system_accepted

-- A signed part of an address and a port out of range are accepted.
signed_ipv4 : is_valid_ipv4 (codes "+1.2.3.4") ≡ true
unfolding is_valid_ipv4 atoi
signed_ipv4 = refl

large_port : is_valid_tls_backend (codes "example.org:99999") ≡ true
unfolding is_valid_tls_backend is_valid_mask_host atoi
large_port = refl
