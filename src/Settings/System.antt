-- ===== src/Settings/System.antt =====
-- `handleSettingsProxyPost` and `handleSettingsSystemPost` of internal/panel/proxy_settings.go, from
-- the trimmed fields to the stored settings. The page that answers is left out.
use mtproxy_orchestrator.Base.{
  ℕ, String, Bool, false, not, ◌&&◌, ◌||◌, Option, none, some, str_eq, ltb, if◌then◌else◌,
}
use mtproxy_orchestrator.Update.Text.{codes, atoi}
use mtproxy_orchestrator.Settings.{Table, set_setting, ProxyForm, save_proxy_settings}
use mtproxy_orchestrator.Settings.Validation.{
  is_valid_mask_host, is_valid_tls_backend, is_valid_wildcard_mask, is_valid_panel_path,
  is_valid_log_level,
}

-- `refused` is the form with its message, `unsaved` an internal error.
pub data Answer : Type 0 where
  forbidden refused unsaved accepted : Answer

-- `strconv.Atoi`, and a range of at most 65535; the pattern of a negative number is above it.
abbrev pub in_range : ℕ → ℕ → Option ℕ → Bool
in_range low high none = false
in_range low high (some n) = not (ltb n low || ltb high n)

unfoldable pub number_in : ℕ → ℕ → String → Bool
unfolding atoi
number_in low high s = in_range low high (atoi (codes s))

-- The checks of the proxy form.
unfoldable pub is_valid_proxy_form : ProxyForm → Bool
unfolding number_in is_valid_mask_host is_valid_tls_backend is_valid_wildcard_mask
is_valid_proxy_form f =
    not (str_eq f.mask_host "")
    && (is_valid_mask_host (codes f.mask_host)
        && ((str_eq f.tls_backend "" || is_valid_tls_backend (codes f.tls_backend))
            && ((str_eq f.wildcard_mask "" || is_valid_wildcard_mask (codes f.wildcard_mask))
                && ((str_eq f.wildcard_mask "" || not (str_eq f.tls_backend ""))
                    && number_in 1 65535 f.port))))

-- `broken` is what a statement that fails has left, where one fails.
unfoldable pub handle_settings_proxy_post : Bool → Option Table → ProxyForm → Table → Answer × Table
unfolding is_valid_proxy_form save_proxy_settings
handle_settings_proxy_post csrf_valid broken f m =
    if not csrf_valid
    then (forbidden, m)
    else if not (is_valid_proxy_form f)
    then (refused, m)
    else elim broken [ none ↦ (accepted, save_proxy_settings f m) | some left ↦ (unsaved, left) ]

pub record SystemForm : Type 0 where
  pub panel_path : String
  pub log_level : String
  pub retention_minutes : String
  pub retention_hourly : String

unfoldable pub is_valid_system_form : SystemForm → Bool
unfolding number_in is_valid_panel_path is_valid_log_level
is_valid_system_form f =
    is_valid_panel_path (codes f.panel_path)
    && (is_valid_log_level (codes f.log_level)
        && (number_in 1 30 f.retention_minutes && number_in 7 365 f.retention_hourly))

-- The four statements in their order, `fails k` where the statement behind `k` others fails.
unfoldable pub save_system_settings : (ℕ → Bool) → SystemForm → Table → Answer × Table
unfolding set_setting
save_system_settings fails f m =
    let m1 = set_setting "panel_path" f.panel_path m in
    let m2 = set_setting "log_level" f.log_level m1 in
    let m3 = set_setting "retention_minutes_days" f.retention_minutes m2 in
    if fails 0
    then (unsaved, m)
    else if fails 1
    then (unsaved, m1)
    else if fails 2
    then (unsaved, m2)
    else if fails 3
    then (unsaved, m3)
    else (accepted, set_setting "retention_hourly_days" f.retention_hourly m3)

unfoldable pub handle_settings_system_post : Bool → (ℕ → Bool) → SystemForm → Table → Answer × Table
unfolding is_valid_system_form save_system_settings
handle_settings_system_post csrf_valid fails f m =
    if not csrf_valid
    then (forbidden, m)
    else if not (is_valid_system_form f)
    then (refused, m)
    else save_system_settings fails f m
