-- ===== src/Settings/Forms.antt =====
-- What an accepted form of internal/panel/proxy_settings.go makes of the configuration, and what the
-- other answers leave.
use mtproxy_orchestrator.Base.{
  ℕ, ◌≤◌, String, Bool, true, false, not, ◌&&◌, ◌||◌, Option, some, str_eq, if◌then◌else◌, ◌≡◌,
  refl, ap, sym, ◌∙◌, inl, inr, arith, Bool-cases, Option-cases, eq_iff,
}
use mtproxy_orchestrator.Update.Text.{codes, atoi}
use mtproxy_orchestrator.Settings.{
  Table, Config, read_runtime_settings, merge_into, unless_empty, set_setting, ProxyForm,
}
use mtproxy_orchestrator.Settings.Merge.{merge_into-save_proxy_settings}
use mtproxy_orchestrator.Settings.Validation.{
  is_valid_mask_host, is_valid_panel_path, is_valid_log_level, is_valid_tls_backend,
  is_valid_wildcard_mask,
}
use mtproxy_orchestrator.Settings.Safe.{IsHostText, is_valid_mask_host-IsHostText}
use mtproxy_orchestrator.Settings.System.{
  accepted, number_in, in_range, is_valid_proxy_form, handle_settings_proxy_post, SystemForm,
  is_valid_system_form, handle_settings_system_post, save_system_settings,
}

number_in-port :
    (s : String)
    → number_in 1 65535 s ≡ true
    → (p : ℕ) × ((atoi (codes s) ≡ some p) × ((1 ≤ p) × (p ≤ 65535)))
unfolding number_in
number_in-port s h = elim (Option-cases (atoi (codes s))) [
  | inl e ↦ cc (ap (in_range 1 65535) (sym e) ∙ h)
  | inr (p, e) ↦
      let fits : in_range 1 65535 (some p) ≡ true = ap (in_range 1 65535) (sym e) ∙ h in
      (p, (e, (ground (arith, fits), ground (arith, fits))))
]

both : (a b : Bool) → (a && b) ≡ true → (a ≡ true) × (b ≡ true)
both true b h = (refl, h)
both false b h = cc

not-true : (b : Bool) → not b ≡ true → b ≡ false
not-true true h = cc
not-true false h = refl

-- What the checks of the proxy form make sure of.
is_valid_proxy_form-parts :
    (f : ProxyForm)
    → is_valid_proxy_form f ≡ true
    → (str_eq f.mask_host "" ≡ false)
      × ((is_valid_mask_host (codes f.mask_host) ≡ true) × (number_in 1 65535 f.port ≡ true))
unfolding is_valid_proxy_form
is_valid_proxy_form-parts f h =
    let (filled, h1) = both (not (str_eq f.mask_host "")) _ h in
    let (host, h2) = both (is_valid_mask_host (codes f.mask_host)) _ h1 in
    let backend = str_eq f.tls_backend "" || is_valid_tls_backend (codes f.tls_backend) in
    let wildcard = str_eq f.wildcard_mask "" || is_valid_wildcard_mask (codes f.wildcard_mask) in
    let pair = str_eq f.wildcard_mask "" || not (str_eq f.tls_backend "") in
    let (_, h3) = both backend _ h2 in
    let (_, h4) = both wildcard _ h3 in
    let (_, port) = both pair _ h4 in (not-true (str_eq f.mask_host "") filled, (host, port))

-- The settings that a proxy form is accepted with come back in the configuration, which has its mask
-- host, a port from 1 to 65535 that its text writes, its flags, and its TLS backend and wildcard mask
-- where these are not empty; the mask host has only letters, digits, hyphens and dots.
pub handle_settings_proxy_post-merged :
    (csrf_valid : Bool) (broken : Option Table) (f : ProxyForm) (m : Table) (cfg : Config)
    → (handle_settings_proxy_post csrf_valid broken f m).0 ≡ accepted
    → IsHostText (codes f.mask_host)
      × ((p : ℕ) × ((atoi (codes f.port) ≡ some p)
            × ((1 ≤ p)
                × ((p ≤ 65535)
                    × (merge_into
                          (read_runtime_settings
                            (handle_settings_proxy_post csrf_valid broken f m).1)
                          cfg
                        ≡ record (merge_into (read_runtime_settings m) cfg) {
                          mask_host = f.mask_host;
                          mtproto_port = p;
                          mss_clamp = f.mss_clamp;
                          random_padding = f.random_padding;
                          ja4_log = f.ja4_log;
                          tls_backend =
                              if str_eq f.tls_backend "" then cfg.tls_backend else f.tls_backend;
                          wildcard_mask =
                              if str_eq f.wildcard_mask ""
                              then cfg.wildcard_mask
                              else f.wildcard_mask;
                        })))))
unfolding handle_settings_proxy_post
handle_settings_proxy_post-merged csrf_valid broken f m cfg h = elim (Bool-cases csrf_valid) [
  | inr e1 ↦ absurd (cc (rw e1 at h))
  | inl e1 ↦ elim (Bool-cases (is_valid_proxy_form f)) [
    | inr e2 ↦ absurd (cc (rw (e1, e2) at h))
    | inl e2 ↦ elim (Option-cases broken) [
      | inr (left, e3) ↦ absurd (cc (rw (e1, e2, e3) at h))
      | inl e3 ↦
          let (filled, (host, in_range_port)) = is_valid_proxy_form-parts f e2 in
          let (p, (number, (low, high))) = number_in-port f.port in_range_port in
          rw (e1, e2, e3)
            (
              is_valid_mask_host-IsHostText (codes f.mask_host) host,
              (
                p,
                (
                  number,
                  (low, (high, merge_into-save_proxy_settings f m cfg p filled number low high)),
                ),
              ),
            )
    ]
  ]
]

is_valid_system_form-parts :
    (f : SystemForm)
    → is_valid_system_form f ≡ true
    → (is_valid_panel_path (codes f.panel_path) ≡ true)
      × (is_valid_log_level (codes f.log_level) ≡ true)
unfolding is_valid_system_form
is_valid_system_form-parts f h = ground (arith, h)

path_refuses : is_valid_panel_path (codes "") ≡ false
unfolding is_valid_panel_path
path_refuses = refl

level_refuses : is_valid_log_level (codes "") ≡ false
unfolding is_valid_log_level
level_refuses = refl

-- A text that a check accepts, and that refuses the empty text, is not empty.
not_empty :
    (check : String → Bool) (s : String) → check "" ≡ false → check s ≡ true → str_eq s "" ≡ false
not_empty check s refuses h = elim (Bool-cases (str_eq s "")) [
  | inr e ↦ e
  | inl e ↦ cc (sym refuses ∙ ap check (sym ((eq_iff s "").0 e)) ∙ h)
]

save_system_settings-merged :
    (fails : ℕ → Bool) (f : SystemForm) (m : Table) (cfg : Config)
    → str_eq f.panel_path "" ≡ false
    → str_eq f.log_level "" ≡ false
    → (save_system_settings fails f m).0 ≡ accepted
    → merge_into (read_runtime_settings (save_system_settings fails f m).1) cfg
      ≡ record (merge_into (read_runtime_settings m) cfg) {
        panel_path = f.panel_path;
        log_level = f.log_level;
      }
unfolding save_system_settings set_setting merge_into read_runtime_settings
save_system_settings-merged fails f m cfg path level h = elim (Bool-cases (fails 0)) [
  | inl e0 ↦ cc (rw e0 at h)
  | inr e0 ↦ elim (Bool-cases (fails 1)) [
    | inl e1 ↦ cc (rw (e0, e1) at h)
    | inr e1 ↦ elim (Bool-cases (fails 2)) [
      | inl e2 ↦ cc (rw (e0, e1, e2) at h)
      | inr e2 ↦ elim (Bool-cases (fails 3)) [
        | inl e3 ↦ cc (rw (e0, e1, e2, e3) at h)
        | inr e3 ↦
            let path_kept : unless_empty f.panel_path cfg.panel_path ≡ f.panel_path =
              rw path refl in
            let level_kept : unless_empty f.log_level cfg.log_level ≡ f.log_level = rw level refl in
            let rest = merge_into (read_runtime_settings m) cfg in
            rw (e0, e1, e2, e3)
              (λ i. record rest { panel_path = path_kept i; log_level = level_kept i })
      ]
    ]
  ]
]

-- The settings that a system form is accepted with come back in the configuration, which has its
-- panel path and log level, both valid, and is otherwise as before.
pub handle_settings_system_post-merged :
    (csrf_valid : Bool) (fails : ℕ → Bool) (f : SystemForm) (m : Table) (cfg : Config)
    → (handle_settings_system_post csrf_valid fails f m).0 ≡ accepted
    → (is_valid_panel_path (codes f.panel_path) ≡ true)
      × ((is_valid_log_level (codes f.log_level) ≡ true)
          × (merge_into
                (read_runtime_settings (handle_settings_system_post csrf_valid fails f m).1)
                cfg
              ≡ record (merge_into (read_runtime_settings m) cfg) {
                panel_path = f.panel_path;
                log_level = f.log_level;
              }))
unfolding handle_settings_system_post
handle_settings_system_post-merged csrf_valid fails f m cfg h = elim (Bool-cases csrf_valid) [
  | inr e1 ↦ absurd (cc (rw e1 at h))
  | inl e1 ↦ elim (Bool-cases (is_valid_system_form f)) [
    | inr e2 ↦ absurd (cc (rw (e1, e2) at h))
    | inl e2 ↦
        let (path, level) = is_valid_system_form-parts f e2 in
        rw (e1, e2)
          (
            path,
            (
              level,
              save_system_settings-merged fails f m cfg
                  (not_empty (λ s. is_valid_panel_path (codes s)) f.panel_path path_refuses path)
                  (not_empty (λ s. is_valid_log_level (codes s)) f.log_level level_refuses level)
                  (rw (e1, e2) at h),
            ),
          )
  ]
]
