-- ===== src/Reconcile/Order.antt =====
-- What `Reconcile` of internal/reconcile/reconcile.go writes, in its order, and that it runs no command
-- before all of it is written.
use mathlib.Core.List.{append-nil}
use mtproxy_orchestrator.Base.{
  Bool, true, false, Option, none, some, List, [], ◌∷◌, ◌++◌, ◌≡◌, refl, ◌∙◌, inr, subst,
}
use mtproxy_orchestrator.Bridge.Host.{UserEntry}
use mtproxy_orchestrator.Settings.{Config}
use mtproxy_orchestrator.Teleproxy.{render}
use mtproxy_orchestrator.Reconcile.Files.{
  Act, Call, World, bind_at, ◌>>=◌, ◌>>◌, teleproxy_toml, teleproxy_service, panel_service,
  singbox_service, Command, command, daemon_reload, restart_teleproxy, restart_panel, check_nginx,
  restart_nginx,
}
use mtproxy_orchestrator.Reconcile.Sync.{Item, always, sync, sync_all}
use mtproxy_orchestrator.Reconcile.Runs.{Ends, sync-Ends, sync_all-Ends}
use mtproxy_orchestrator.Reconcile.{
  Install, Templates, teleproxy_config, panel_unit_config, when_listed, when_changed, nginx_items,
  restart, apply,
}

-- What a run writes, in its order.
abbrev pub items : Templates → Install → Config → Bool → List UserEntry → List Item
items t i cfg bridge users =
    always teleproxy_toml (render (teleproxy_config cfg bridge users))
    ∷ always teleproxy_service t.teleproxy_unit
    ∷ always panel_service (t.panel_unit (panel_unit_config i cfg))
    ∷ (when_listed bridge (always singbox_service t.singbox_unit ∷ []) ++ nginx_items t i)

-- An action that leaves the files alone.
abbrev Keeps : {A : Type 0} → Act A → Type 0
Keeps m = (w : World) → (m w).1.files ≡ w.files

>>=-Keeps :
    {A B : Type 0} (m : Act A) (f : A → Act B) → Keeps m → ((a : A) → Keeps (f a)) → Keeps (m >>= f)
>>=-Keeps {A} {B} m f hm hf w = behind (m w).0 (m w).1 ∙ hm w
  where
    behind : (o : Option A) (u : World) → (bind_at o f u).1.files ≡ u.files
    behind none u = refl
    behind (some a) u = hf a u

command-Keeps : (fails : Call → Bool) (c : Command) → Keeps (command fails c)
unfolding command
command-Keeps fails c w = refl

when_changed-Keeps : (b : Bool) (m : Act (Unit {0})) → Keeps m → Keeps (when_changed b m)
when_changed-Keeps true m h w = h w
when_changed-Keeps false m h w = refl

restart-Keeps : (fails : Call → Bool) (t : Templates) (a b c : Bool) → Keeps (restart fails t a b c)
unfolding restart
restart-Keeps fails t a b c =
    let run = command-Keeps fails in
    let nginx : Act (Unit {0}) = command fails check_nginx >> command fails restart_nginx in
    let nginx_kept =
      >>=-Keeps (command fails check_nginx) (λ _. command fails restart_nginx) (run check_nginx)
        (λ _. run restart_nginx) in
    let panel = when_changed b (command fails restart_panel) in
    let panel_kept =
      >>=-Keeps panel (λ _. when_changed c nginx)
        (when_changed-Keeps b (command fails restart_panel) (run restart_panel))
        (λ _. when_changed-Keeps c nginx nginx_kept) in
    let teleproxy = when_changed a (command fails restart_teleproxy) in
    let teleproxy_kept =
      >>=-Keeps teleproxy (λ _. panel >> when_changed c nginx)
        (when_changed-Keeps a (command fails restart_teleproxy) (run restart_teleproxy))
        (λ _. panel_kept) in
    >>=-Keeps (command fails daemon_reload) (λ _. teleproxy >> (panel >> when_changed c nginx))
      (run daemon_reload) (λ _. teleproxy_kept)

module _ (fails : Call → Bool) (t : Templates) (i : Install) (cfg : Config) (bridge : Bool) where
  -- The run from the nginx files on.
  abbrev from_nginx : Bool → Bool → Act (Unit {0})
  from_nginx a b = sync_all fails t.stubs (nginx_items t i) >>= λ c. restart fails t a b c

  from_nginx-Ends :
      (a b : Bool) (w : World) → Ends fails t.stubs (nginx_items t i) w (from_nginx a b w)
  from_nginx-Ends a b w =
      subst (λ is. Ends fails t.stubs is w (from_nginx a b w)) (append-nil (nginx_items t i))
        (sync_all-Ends fails t.stubs (nginx_items t i) [] (λ c. restart fails t a b c) w
          (λ c u. inr (u, (refl, restart-Keeps fails t a b c u))))

  singbox_items : List Item
  singbox_items = when_listed bridge (always singbox_service t.singbox_unit ∷ [])

  pub apply-Ends :
      (users : List UserEntry) (w : World)
      → Ends fails t.stubs (items t i cfg bridge users) w (apply fails t i cfg bridge users w)
  unfolding apply singbox_items
  apply-Ends users w =
      sync-Ends fails t.stubs (always teleproxy_toml (render (teleproxy_config cfg bridge users)))
        (always teleproxy_service t.teleproxy_unit
          ∷ always panel_service (t.panel_unit (panel_unit_config i cfg))
          ∷ (singbox_items ++ nginx_items t i))
        (λ a. sync fails t.stubs (always teleproxy_service t.teleproxy_unit) >>= λ _.
          sync fails t.stubs (always panel_service (t.panel_unit (panel_unit_config i cfg)))
          >>= λ b. sync_all fails t.stubs singbox_items >>= λ _. from_nginx a b)
        w
        (λ a u1.
          sync-Ends fails t.stubs (always teleproxy_service t.teleproxy_unit)
            (always panel_service (t.panel_unit (panel_unit_config i cfg))
              ∷ (singbox_items ++ nginx_items t i))
            (λ _.
              sync fails t.stubs (always panel_service (t.panel_unit (panel_unit_config i cfg)))
              >>= λ b. sync_all fails t.stubs singbox_items >>= λ _. from_nginx a b)
            u1
            (λ _ u2.
              sync-Ends fails t.stubs
                (always panel_service (t.panel_unit (panel_unit_config i cfg)))
                (singbox_items ++ nginx_items t i)
                (λ b. sync_all fails t.stubs singbox_items >>= λ _. from_nginx a b) u2
                (λ b u3.
                  sync_all-Ends fails t.stubs singbox_items (nginx_items t i) (λ _. from_nginx a b)
                    u3 (λ _ u4. from_nginx-Ends a b u4))))
