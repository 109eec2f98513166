-- ===== src/Reconcile/Complete.antt =====
-- `Reconcile` of internal/reconcile/reconcile.go as a whole: what holds behind a run.
use mtproxy_orchestrator.Base.{
  Bool, true, false, Option, none, some, List, [], ◌∷◌, ◌++◌, ◌≡◌, ◌⊎◌, sym, ap, ◌∙◌, inl, inr,
  arith, subst,
}
use mtproxy_orchestrator.Base.Sql.{Distinct}
use mtproxy_orchestrator.Bridge.Host.{UserEntry}
use mtproxy_orchestrator.Settings.{Table, Config, read_runtime_settings}
use mtproxy_orchestrator.Update.Text.{Text}
use mtproxy_orchestrator.Teleproxy.{render}
use mtproxy_orchestrator.Reconcile.Files.{
  Call, World, read, FileName, teleproxy_toml, teleproxy_service, panel_service, singbox_service,
  users_json, acme_webroot, acme_snippet, stub_site, stub_link, tls_site, tls_link, panel_site,
  panel_link,
}
use mtproxy_orchestrator.Reconcile.Sync.{
  always, if_changed, linked, made, main_conf, migrate, no_default, is_legacy,
}
use mtproxy_orchestrator.Reconcile.Applied.{IsReadable, read_file}
use mtproxy_orchestrator.Reconcile.Runs.{key, AllHold, Syncs-AllHold}
use mtproxy_orchestrator.Reconcile.Order.{items, apply-Ends}
use mtproxy_orchestrator.Reconcile.{
  Install, Templates, effective_config, is_bridge, teleproxy_config, panel_unit_config, when_listed,
  nginx_items, apply, apply_users, parse_users, reconcile, has_acme, has_tls_stub_backend,
}

-- No two writes are of one file, and none is of users.json.
pub Distinct-items :
    (t : Templates) (i : Install) (cfg : Config) (bridge : Bool) (users : List UserEntry)
    → Distinct key (always users_json [] ∷ items t i cfg bridge users)
unfolding nginx_items
Distinct-items t i cfg bridge users = behind bridge (has_acme i) (has_tls_stub_backend i)
  where
    behind :
        (a b c : Bool)
        → Distinct key (
            always users_json []
            ∷ always teleproxy_toml (render (teleproxy_config cfg bridge users))
            ∷ always teleproxy_service t.teleproxy_unit
            ∷ always panel_service (t.panel_unit (panel_unit_config i cfg))
            ∷ (when_listed a (always singbox_service t.singbox_unit ∷ [])
                ++ main_conf
                  ∷ (when_listed b
                        (made acme_webroot ∷ if_changed acme_snippet t.acme_challenge ∷ [])
                      ++ (if_changed stub_site (t.stub (has_acme i))
                          ∷ linked stub_link
                          ∷ (when_listed c (
                                if_changed tls_site
                                  (t.tls_stub i.panel_domain i.panel_cert i.panel_key)
                                ∷ linked tls_link
                                ∷ if_changed panel_site
                                    (t.panel_proxy i.panel_domain i.panel_cert i.panel_key)
                                ∷ linked panel_link
                                ∷ [])
                              ++ (migrate ∷ no_default ∷ []))))))
    behind true true true = omega arith
    behind true true false = omega arith
    behind true false true = omega arith
    behind true false false = omega arith
    behind false true true = omega arith
    behind false true false = omega arith
    behind false false true = omega arith
    behind false false false = omega arith

-- The merged configuration, and whether a run that begins on some files is for Bridge mode.
abbrev pub cfg_of : Install → Table → Config
cfg_of i m = effective_config i (read_runtime_settings m)

abbrev pub bridge_of : Install → Table → World → Bool
bridge_of i m w = is_bridge (read_runtime_settings m) (cfg_of i m) (w.files teleproxy_toml)

module _ (fails : Call → Bool) (t : Templates) (i : Install) (m : Table) where
  pub reconcile_known :
      (w : World) (s : Text) (users : List UserEntry)
      → IsReadable fails
      → w.files users_json ≡ some s
      → t.unmarshal_users s ≡ some users
      → reconcile fails t (some i) (some m) w
        ≡ apply fails t i (cfg_of i m) (bridge_of i m w) users w
  unfolding reconcile apply_users
  reconcile_known w s users ok e parsed =
      let toml = read_file fails t.stubs teleproxy_toml w ok in
      let listed = read_file fails t.stubs users_json w ok ∙ e in
      ap
        (λ f.
          apply_users fails t i (cfg_of i m) (is_bridge (read_runtime_settings m) (cfg_of i m) f)
            (parse_users fails t (read fails users_json w)) w)
        toml
      ∙ ap (λ f. apply_users fails t i (cfg_of i m) (bridge_of i m w) (parse_users fails t f) w)
          listed
      ∙ ap (λ us. apply_users fails t i (cfg_of i m) (bridge_of i m w) us w) parsed

  -- Where the configuration and the settings can be read, every file can be read and compared and the
  -- default site removed, which the code does not insist on, and where the users can be parsed and the
  -- embedded page is not itself the legacy one, a run ends in one of two ways: with an error before it has run any command, or with
  -- every file as the configuration has it, whatever the commands then do.
  pub reconcile_writes_first :
      (w : World) (s : Text) (users : List UserEntry)
      → IsReadable fails
      → is_legacy t.stubs t.stubs.default_stub_html ≡ false
      → w.files users_json ≡ some s
      → t.unmarshal_users s ≡ some users
      → let r = reconcile fails t (some i) (some m) w in
        ((r.0 ≡ none) × (r.1.commands ≡ w.commands))
        ⊎ AllHold t.stubs (items t i (cfg_of i m) (bridge_of i m w) users) r.1
  reconcile_writes_first w s users ok new e parsed =
      let bridge = bridge_of i m w in
      subst
        (λ (r : Option (Unit {0}) × World).
          ((r.0 ≡ none) × (r.1.commands ≡ w.commands))
          ⊎ AllHold t.stubs (items t i (cfg_of i m) bridge users) r.1)
        (sym (reconcile_known w s users ok e parsed))
        (elim (apply-Ends fails t i (cfg_of i m) bridge users w) [
          | inl failed ↦ inl failed
          | inr (w', (done, same)) ↦ inr (
              subst
                (λ (files : FileName → Option Text).
                  AllHold t.stubs (items t i (cfg_of i m) bridge users)
                    (record w' { files = files }))
                (sym same)
                (Syncs-AllHold fails t.stubs (items t i (cfg_of i m) bridge users) w w' ok new
                  (Distinct-items t i (cfg_of i m) bridge users).1 done))
        ])
