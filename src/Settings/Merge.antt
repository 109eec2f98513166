-- ===== src/Settings/Merge.antt =====
-- What a saved form makes of the configuration.
use mtproxy_orchestrator.Base.{
  ℕ, ◌≤◌, Bool, true, false, some, ltb, str_eq, if◌then◌else◌, ◌≡◌, refl, ap, ◌∙◌, arith,
}
use mtproxy_orchestrator.Base.Int.{two63}
use mtproxy_orchestrator.Update.Text.{codes, atoi}
use mtproxy_orchestrator.Settings.{
  Table, Config, read_runtime_settings, merge_into, unless_empty, unless_none, bool_value, positive,
  bool_setting, ProxyForm, save_proxy_settings,
}

bool_value-bool_setting : (b : Bool) → bool_value (some (bool_setting b)) ≡ some b
bool_value-bool_setting true = refl
bool_value-bool_setting false = refl

-- A saved form with a mask host and a port from 1 to 65535 comes back: the merged configuration has
-- its mask host, port and flags, and its TLS backend and wildcard mask where these are not empty; where
-- they are empty it has those of the file. The mode, the log level and the panel path are as before.
pub merge_into-save_proxy_settings :
    (f : ProxyForm) (m : Table) (cfg : Config) (port : ℕ)
    → str_eq f.mask_host "" ≡ false
    → atoi (codes f.port) ≡ some port
    → 1 ≤ port
    → port ≤ 65535
    → merge_into (read_runtime_settings (save_proxy_settings f m)) cfg
      ≡ record (merge_into (read_runtime_settings m) cfg) {
        mask_host = f.mask_host;
        mtproto_port = port;
        mss_clamp = f.mss_clamp;
        random_padding = f.random_padding;
        ja4_log = f.ja4_log;
        tls_backend = if str_eq f.tls_backend "" then cfg.tls_backend else f.tls_backend;
        wildcard_mask = if str_eq f.wildcard_mask "" then cfg.wildcard_mask else f.wildcard_mask;
      }
unfolding merge_into read_runtime_settings save_proxy_settings
merge_into-save_proxy_settings f m cfg port host number low high =
    let fits : ltb port two63 ≡ true = ground (arith, high) in
    let above : ltb 0 port ≡ true = ground (arith, low) in
    let is_port : positive (atoi (codes f.port)) ≡ port = ap positive number ∙ rw fits refl in
    let port_kept : (if ltb 0 (positive (atoi (codes f.port)))
          then positive (atoi (codes f.port))
          else cfg.mtproto_port)
        ≡ port =
      ap (λ p. if ltb 0 p then p else cfg.mtproto_port) is_port ∙ rw above refl in
    let host_kept : unless_empty f.mask_host cfg.mask_host ≡ f.mask_host = rw host refl in
    let mss = ap (λ o. unless_none o cfg.mss_clamp) (bool_value-bool_setting f.mss_clamp) in
    let padding =
      ap (λ o. unless_none o cfg.random_padding) (bool_value-bool_setting f.random_padding) in
    let log = ap (λ o. unless_none o cfg.ja4_log) (bool_value-bool_setting f.ja4_log) in
    let rest = merge_into (read_runtime_settings m) cfg in
    λ i. record rest {
      mask_host = host_kept i;
      mtproto_port = port_kept i;
      mss_clamp = mss i;
      random_padding = padding i;
      ja4_log = log i;
      tls_backend = if str_eq f.tls_backend "" then cfg.tls_backend else f.tls_backend;
      wildcard_mask = if str_eq f.wildcard_mask "" then cfg.wildcard_mask else f.wildcard_mask;
    }
