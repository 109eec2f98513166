-- ===== src/Reconcile/Again.antt =====
-- `Reconcile` of internal/reconcile/reconcile.go as a whole, run once and again.
use mtproxy_orchestrator.Base.{
  String, Bool, true, false, Option, some, List, [], ◌∷◌, ◌++◌, if◌then◌else◌, ◌≡◌, refl, sym, ap,
  ◌∙◌, inl, inr, subst, All, Bool-cases, str_eq,
}
use mtproxy_orchestrator.Bridge.Host.{UserEntry}
use mtproxy_orchestrator.Settings.{Table, Config, RuntimeSettings, read_runtime_settings}
use mtproxy_orchestrator.Update.Text.{Text}
use mtproxy_orchestrator.Teleproxy.{render, detect_mode}
use mtproxy_orchestrator.Teleproxy.Mode.{IsQuotable, detect_mode-render}
use mtproxy_orchestrator.Reconcile.Files.{
  Call, World, bind_at, ◌>>=◌, FileName, teleproxy_toml, teleproxy_service, panel_service,
  singbox_service, users_json, command, daemon_reload,
}
use mtproxy_orchestrator.Reconcile.Sync.{Item, always, is_legacy, sync, sync_all}
use mtproxy_orchestrator.Reconcile.Applied.{Holds, IsReadable, sync_again, target}
use mtproxy_orchestrator.Reconcile.Runs.{AllHold, Syncs-others, Syncs-AllHold, Ends, sync_all_again}
use mtproxy_orchestrator.Reconcile.Complete.{Distinct-items, reconcile_known, cfg_of, bridge_of}
use mtproxy_orchestrator.Reconcile.Order.{items, apply-Ends}
use mtproxy_orchestrator.Reconcile.{
  Install, Templates, is_bridge, effective_mode, or_mode, teleproxy_config, panel_unit_config,
  when_listed, nginx_items, restart, apply, reconcile,
}

All-unappend {ℓ κ} :
    {A : Type ℓ} (P : A → Type κ) (xs ys : List A) → All P (xs ++ ys) → All P xs × All P ys
All-unappend P [] ys h = (tt, h)
All-unappend P (x ∷ xs) ys h = let (left, right) = All-unappend P xs ys h.1 in ((h.0, left), right)

-- The mode that a second run finds is that of the first.
is_bridge_again :
    (rt : RuntimeSettings) (cfg : Config) (toml : Option Text) (users : List UserEntry) (b : Bool)
    → is_bridge rt cfg toml ≡ b
    → IsQuotable (teleproxy_config cfg b users)
    → is_bridge rt cfg (some (render (teleproxy_config cfg b users))) ≡ b
unfolding effective_mode teleproxy_config
is_bridge_again rt cfg toml users b old plain = elim (Bool-cases (str_eq rt.mode "")) [
  | inl e ↦
      ap (λ o. str_eq (if str_eq rt.mode "" then or_mode cfg.mode o else cfg.mode) "bridge")
        (detect_mode-render (teleproxy_config cfg b users) plain)
      ∙ rw e (modes b)
  | inr e ↦
      at e (detect_mode (some (render (teleproxy_config cfg b users))))
      ∙ sym (at e (detect_mode toml))
      ∙ old
]
  where
    modes :
        (x : Bool)
        → str_eq
            (if str_eq (if x then "127.0.0.1:1080" else "") "" then "single" else "bridge")
            "bridge"
          ≡ x
    modes true = refl
    modes false = refl

    at :
        str_eq rt.mode "" ≡ false
        → (o : Option String)
        → str_eq (if str_eq rt.mode "" then or_mode cfg.mode o else cfg.mode) "bridge"
          ≡ str_eq cfg.mode "bridge"
    at e o = rw e refl

-- Nothing fails.
abbrev pub calm : Call → Bool
calm c = false

calm-IsReadable : IsReadable calm
calm-IsReadable = record { reads = λ name. refl; compares = λ name. refl; removes = refl }

abbrev singbox_items : Templates → Bool → List Item
singbox_items t bridge = when_listed bridge (always singbox_service t.singbox_unit ∷ [])

apply_again :
    (t : Templates) (i : Install) (cfg : Config) (bridge : Bool) (users : List UserEntry)
    (w : World)
    → AllHold t.stubs (items t i cfg bridge users) w
    → apply calm t i cfg bridge users w
      ≡ (some tt, record w { commands = w.commands ++ daemon_reload ∷ [] })
unfolding apply restart command
apply_again t i cfg bridge users w (toml, (unit, (panel, h))) =
    let again = λ (item : Item) (ok : Holds t.stubs item (w.files (target item))).
      sync_again calm t.stubs item w calm-IsReadable (λ name. refl) ok in
    let (singbox, nginx) =
      All-unappend (λ item. Holds t.stubs item (w.files (target item))) (singbox_items t bridge)
        (nginx_items t i) h in
    let nginx_run =
      λ (a b : Bool). sync_all calm t.stubs (nginx_items t i) >>= λ c. restart calm t a b c in
    let singbox_run =
      λ (a b : Bool). sync_all calm t.stubs (singbox_items t bridge) >>= λ _. nginx_run a b in
    let panel_item = always panel_service (t.panel_unit (panel_unit_config i cfg)) in
    let unit_item = always teleproxy_service t.teleproxy_unit in
    let panel_run = λ (a : Bool). sync calm t.stubs panel_item >>= λ b. singbox_run a b in
    let unit_run = λ (a : Bool). sync calm t.stubs unit_item >>= λ _. panel_run a in
    ap (λ (r : Option Bool × World). bind_at r.0 unit_run r.1)
      (again (always teleproxy_toml (render (teleproxy_config cfg bridge users))) toml)
    ∙ ap (λ (r : Option Bool × World). bind_at r.0 (λ _. panel_run false) r.1)
        (again unit_item unit)
    ∙ ap (λ (r : Option Bool × World). bind_at r.0 (λ b. singbox_run false b) r.1)
        (again panel_item panel)
    ∙ ap (λ (r : Option Bool × World). bind_at r.0 (λ _. nginx_run false false) r.1)
        (sync_all_again calm t.stubs (singbox_items t bridge) w calm-IsReadable (λ name. refl)
          singbox)
    ∙ ap (λ (r : Option Bool × World). bind_at r.0 (λ c. restart calm t false false c) r.1)
        (sync_all_again calm t.stubs (nginx_items t i) w calm-IsReadable (λ name. refl) nginx)

-- A run that succeeds where every file can be read and compared, and the default site can be removed,
-- on users that can be parsed and whose quoted fields have no space, is repeated without a change: a
-- second run, where nothing fails, changes no file, and runs no command but the daemon's reload. That
-- needs an embedded page that is not itself the legacy one.
pub reconcile_again :
    (fails : Call → Bool) (t : Templates) (i : Install) (m : Table) (w w1 : World) (s : Text)
    (users : List UserEntry)
    → IsReadable fails
    → is_legacy t.stubs t.stubs.default_stub_html ≡ false
    → w.files users_json ≡ some s
    → t.unmarshal_users s ≡ some users
    → ((b : Bool) → IsQuotable (teleproxy_config (cfg_of i m) b users))
    → reconcile fails t (some i) (some m) w ≡ (some tt, w1)
    → reconcile calm t (some i) (some m) w1
      ≡ (some tt, record w1 { commands = w1.commands ++ daemon_reload ∷ [] })
reconcile_again fails t i m w w1 s users ok new e parsed plain h =
    let bridge = bridge_of i m w in
    let run = sym (reconcile_known fails t i m w s users ok e parsed) ∙ h in
    elim (subst (λ r. Ends fails t.stubs (items t i (cfg_of i m) bridge users) w r) run
      (apply-Ends fails t i (cfg_of i m) bridge users w)) [
        | inl (failed, _) ↦ cc
        | inr (w', (done, same)) ↦
            let distinct = Distinct-items t i (cfg_of i m) bridge users in
            let held =
              Syncs-AllHold fails t.stubs (items t i (cfg_of i m) bridge users) w w' ok new
                distinct.1 done in
            let holds : AllHold t.stubs (items t i (cfg_of i m) bridge users) w1 =
              subst
                (λ (files : FileName → Option Text).
                  AllHold t.stubs (items t i (cfg_of i m) bridge users)
                    (record w1 { files = files }))
                (sym same) held in
            let listed =
              ap (λ (files : FileName → Option Text). files users_json) same
              ∙ Syncs-others fails t.stubs (items t i (cfg_of i m) bridge users) users_json w w'
                  done distinct.0
              ∙ e in
            let mode =
              ap (λ f. is_bridge (read_runtime_settings m) (cfg_of i m) f) holds.0
              ∙ is_bridge_again (read_runtime_settings m) (cfg_of i m) (w.files teleproxy_toml)
                  users bridge refl (plain bridge) in
            reconcile_known calm t i m w1 s users calm-IsReadable listed parsed
            ∙ ap (λ b. apply calm t i (cfg_of i m) b users w1) mode
            ∙ apply_again t i (cfg_of i m) bridge users w1 holds
      ]
