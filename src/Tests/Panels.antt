-- ===== src/Tests/Panels.antt =====
-- The panel's handlers on two users.
use mtproxy_orchestrator.Base.{find, true, false, some, [], ◌∷◌, ◌≡◌, refl, arith, str_eq}
use mtproxy_orchestrator.Schema.{UserRow, Db, empty_db}
use mtproxy_orchestrator.Panel.Users.{new_user}
use mtproxy_orchestrator.Quota.Service.{has_id}
use mtproxy_orchestrator.Bridge.Host.{TeleproxyConfig}
use mtproxy_orchestrator.Panel.Apply.{Panel, applied, reload_failed, entries, rendered}
use mtproxy_orchestrator.Panel.Batches
use mtproxy_orchestrator.Panel.Batches.{
  bulk_delete, handle_user_rotate_all, handle_user_bulk_suspend, handle_user_bulk_rotate,
  handle_user_bulk_delete,
}
use mtproxy_orchestrator.Panel.Batches.Revival.{bulk_delete_revives}
use mtproxy_orchestrator.Panel.Batches.Refused.{batches-IsUndone, IsUndone, without_rotation}
use mtproxy_orchestrator.Panel.Outcome.Steps.{IsAnswered, IsAnsweredBulk, IsRotated}
use mtproxy_orchestrator.Panel.Outcome.{handlers-IsAnswered}
use mtproxy_orchestrator.Panel.Actions.{
  apply_failed, Request, Faults, handle_user_toggle, handle_user_delete, handle_user_rotate,
  handle_user_suspend_toggle, handle_user_quota_reset, handle_user_quota_set,
}
use mtproxy_orchestrator.Panel.Actions.Undo.{IsRefreshed, handlers-undo}

abbrev users : Db
users = record empty_db {
  users =
      new_user 1 "alice" "aa"
      ∷ record (new_user 2 "bob" "bb") { deleted = true }
      ∷ new_user 3 "carol" "cc"
      ∷ [];
}

abbrev request : Request
request = record { csrf_valid = true; id = some 3 }

abbrev settings : TeleproxyConfig
settings = record {
  port = 443;
  mask_host = "example.org";
  tls_backend = "";
  wildcard_mask = "";
  stats_port = 8888;
  socks5_addr = "";
  mss_clamp = false;
  ja4_log = false;
  users = [];
}

abbrev panel : Panel
panel = record {
  db = users;
  users_json = some (entries users);
  teleproxy_toml = some (rendered settings users);
  loaded = rendered settings users;
}

abbrev reload_fails : Faults
reload_fails = record {
  list = false;
  change = false;
  reload = reload_failed settings;
  undo = false;
}

handlers-undo_example :
    ((handle_user_toggle settings request reload_fails panel).0.db ≡ users)
    × (((handle_user_delete settings request reload_fails panel).0.db ≡ users)
        × (((handle_user_suspend_toggle settings (λ label db. db) request reload_fails panel).0.db
              ≡ users)
            × (IsRefreshed request.id users
                  (handle_user_quota_reset settings
                    (λ label db. db)
                    request
                    reload_fails
                    8640000
                    panel).0.db
                × IsRefreshed request.id users
                    (handle_user_quota_set settings
                      (λ label db. db)
                      request
                      (some 1000)
                      "daily"
                      (some 90)
                      reload_fails
                      8640000
                      panel).0.db)))
handlers-undo_example =
    handlers-undo settings (λ label db. db) request (some 1000) "daily" (some 90) reload_fails
      8640000 panel (ground arith) refl refl

abbrev second_fails : Batches.Faults
second_fails = record {
  list = false;
  change = λ u. str_eq u.label "carol";
  undo = λ u. false;
  reload = applied settings;
}

batches-IsUndone_example :
    IsUndone
      (λ u. u)
      panel
      (handle_user_bulk_suspend settings true (some 1 ∷ some 3 ∷ []) second_fails panel)
    × (IsUndone without_rotation panel (
          handle_user_bulk_rotate settings true
            (some 1 ∷ some 3 ∷ [])
            (λ u. some "dd")
            5
            6
            second_fails
            panel)
        × IsUndone without_rotation panel
            (handle_user_rotate_all settings true (λ u. some "dd") 5 6 second_fails panel))
batches-IsUndone_example =
    batches-IsUndone settings true (some 1 ∷ some 3 ∷ []) (λ u. some "dd") 5 6 second_fails panel
      (ground arith) (λ u. refl)

handlers-IsAnswered_example :
    (IsAnswered settings
        (reload_failed settings)
        panel
        (handle_user_toggle settings request reload_fails panel)
      × (IsAnswered settings
            (reload_failed settings)
            panel
            (handle_user_delete settings request reload_fails panel)
          × IsRotated settings
              (reload_failed settings)
              true
              panel
              (handle_user_rotate settings request (some "dd") reload_fails true 5 6 panel)))
    × (IsAnswered settings
          (applied settings)
          panel
          (handle_user_rotate_all settings true (λ u. some "dd") 5 6 second_fails panel)
        × (IsAnsweredBulk settings
              (applied settings)
              panel
              (handle_user_bulk_suspend settings true (some 1 ∷ some 3 ∷ []) second_fails panel)
            × (IsAnsweredBulk settings (applied settings) panel (
                  handle_user_bulk_rotate settings true
                    (some 1 ∷ some 3 ∷ [])
                    (λ u. some "dd")
                    5
                    6
                    second_fails
                    panel)
                × IsAnsweredBulk settings (applied settings) panel (
                    handle_user_bulk_delete settings true
                      (some 1 ∷ some 3 ∷ [])
                      false
                      (λ id. false)
                      (λ id. false)
                      (applied settings)
                      panel))))
handlers-IsAnswered_example =
    handlers-IsAnswered settings request (some "dd") reload_fails true 5 6 panel
      (some 1 ∷ some 3 ∷ []) (λ u. some "dd") second_fails (λ id. false) (λ id. false)

abbrev limited : UserRow
limited = record (new_user 1 "alice" "aa") {
  quota_bytes = 1000;
  quota_period = "daily";
  quota_warn_pct = 90;
  quota_period_start = 8640000;
}

abbrev limited_users : Db
limited_users = record users {
  users =
      limited ∷ record (new_user 2 "bob" "bb") { deleted = true } ∷ new_user 3 "carol" "cc" ∷ [];
}

-- Bob was deleted before.
bulk_delete_revives_example :
    let (q, status) =
      bulk_delete settings
        (3 ∷ 2 ∷ [])
        (λ id. false)
        (λ id. false)
        (reload_failed settings)
        panel in
    (status ≡ apply_failed)
    × ((v : UserRow) × ((find (has_id 2) q.db.users ≡ some v) × (v.deleted ≡ false)))
bulk_delete_revives_example =
    bulk_delete_revives settings (3 ∷ 2 ∷ []) (λ id. false) (reload_failed settings) 2 panel
      {u = record (new_user 2 "bob" "bb") { deleted = true }} refl refl refl refl
