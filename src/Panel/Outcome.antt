-- ===== src/Panel/Outcome.antt =====
-- What a handler leaves of the running Teleproxy and of its files.
pub mod Steps
use mtproxy_orchestrator.Base.{
  ℕ, String, Bool, true, false, not, Option, none, some, List, [], ◌∷◌, ◌≡◌, ◌⊎◌, refl, ◌∙◌, inl,
  inr, if◌then◌else◌, Bool-cases, Option-cases, List-cases, filter, str_eq,
}
use mtproxy_orchestrator.Schema.{UserRow, Db}
use mtproxy_orchestrator.Quota.Service.{list_users}
use mtproxy_orchestrator.Bridge.Host.{TeleproxyConfig}
use mtproxy_orchestrator.Panel.Apply.{
  Panel, Course, fails, apply_teleproxy_config, IsInStep, entries, rendered, reload_failed,
}
use mtproxy_orchestrator.Panel.Apply.Laws.{apply-fails, apply-loaded, apply-IsInStep}
use mtproxy_orchestrator.Panel.Users.{listed, set_enabled, delete, restore, update_secret}
use mtproxy_orchestrator.Panel.Actions.{
  Status, internal_error, not_found, apply_failed, see_other, Request, Faults, with_db, nothing,
  change_user, guarded, handle_user_toggle, handle_user_delete, rotate_listed, rotate_user,
  handle_user_rotate,
}
use mtproxy_orchestrator.Panel.Batches.{
  Plan, change_all, undo_all, delete_all, restore_all, chosen, parsed_ids, rotation, suspension,
  change_users, on_form, bulk_delete, handle_user_rotate_all, handle_user_bulk_suspend,
  handle_user_bulk_rotate, handle_user_bulk_delete,
}
use mtproxy_orchestrator.Panel.Batches
use mtproxy_orchestrator.Base.Sql.{Distinct}
use mtproxy_orchestrator.Panel.Actions.Undo.{handlers-undo}
use mtproxy_orchestrator.Panel.Outcome.Steps.{
  IsAnswered, IsAnsweredBulk, IsRotated, handle_user_rotate-IsRotated, change_user-IsAnswered,
  guarded-IsAnswered, rotate_user-IsAnswered, change_users-IsAnswered, bulk_delete-IsAnswered,
  on_form-IsAnswered,
}

module _ (settings : TeleproxyConfig) where
  one-IsAnswered :
      (r : Request) (secret : Option String) (f : Faults) (made : Bool) (now later : ℕ) (p : Panel)
      → IsAnswered settings f.reload p (handle_user_toggle settings r f p)
        × (IsAnswered settings f.reload p (handle_user_delete settings r f p)
            × IsRotated settings f.reload made p
                (handle_user_rotate settings r secret f made now later p))
  unfolding handle_user_toggle handle_user_delete
  one-IsAnswered r secret f made now later p = (
    guarded-IsAnswered settings f.reload r
        (λ id.
          change_user settings f internal_error (λ u. set_enabled id (not u.enabled))
            (λ u. set_enabled id u.enabled) nothing id)
        p
        (λ id.
          change_user-IsAnswered settings f (λ u. set_enabled id (not u.enabled))
            (λ u. set_enabled id u.enabled) id p),
    (
      guarded-IsAnswered settings f.reload r
          (λ id.
            change_user settings f internal_error (λ u. delete id) (λ u. restore id) nothing id)
          p (λ id. change_user-IsAnswered settings f (λ u. delete id) (λ u. restore id) id p),
      handle_user_rotate-IsRotated settings r secret f made now later p,
    ),
  )

  several-IsAnswered :
      (csrf_valid : Bool) (ids : List (Option ℕ)) (secret : UserRow → Option String) (now later : ℕ)
      (f : Batches.Faults) (fails unrestored : ℕ → Bool) (p : Panel)
      → IsAnswered settings f.reload p
          (handle_user_rotate_all settings csrf_valid secret now later f p)
        × (IsAnsweredBulk settings f.reload p (handle_user_bulk_suspend settings csrf_valid ids f p)
            × (IsAnsweredBulk settings f.reload p
                  (handle_user_bulk_rotate settings csrf_valid ids secret now later f p)
                × IsAnsweredBulk settings f.reload p (
                    handle_user_bulk_delete settings csrf_valid ids f.list fails unrestored f.reload
                      p)))
  unfolding handle_user_rotate_all handle_user_bulk_suspend handle_user_bulk_rotate
      handle_user_bulk_delete
  several-IsAnswered csrf_valid ids secret now later f fails unrestored p = (
    elim (Bool-cases csrf_valid) [
      | inr off ↦ rw off (inl (refl, inl refl))
      | inl on ↦ elim (Bool-cases f.list) [
        | inl e ↦ rw on (rw e (inl (refl, inl refl)))
        | inr e ↦ rw on (
            rw e (
              change_users-IsAnswered settings f (rotation false secret now later)
                (filter (λ u. u.enabled) (list_users p.db)) p))
      ]
    ],
    (
      on_form-IsAnswered settings f.reload csrf_valid ids f.list
          (λ js q. change_users settings f suspension (chosen js q.db) q) p
          (λ js. change_users-IsAnswered settings f suspension (chosen js p.db) p),
      (
        on_form-IsAnswered settings f.reload csrf_valid ids f.list
            (λ js q. change_users settings f (rotation true secret now later) (chosen js q.db) q) p
            (λ js.
              change_users-IsAnswered settings f (rotation true secret now later) (chosen js p.db)
                p),
        on_form-IsAnswered settings f.reload csrf_valid ids f.list
            (λ js q. bulk_delete settings js fails unrestored f.reload q) p
            (λ js. bulk_delete-IsAnswered settings js fails unrestored f.reload p),
      ),
    ),
  )

  -- Whatever the request and whatever fails: if a handler that enables or disables a user, deletes it
  -- or rotates its secret, or that rotates the secrets of all users, answers with an error, then the
  -- running Teleproxy is as before, or it was the reload that failed, or the page of a rotation that
  -- was applied cannot be made; and if it answers with the plain redirect or that page, then users.json,
  -- teleproxy.toml and the running Teleproxy have exactly the users of the tables that are enabled, not
  -- deleted and not suspended. The same holds of the bulk handlers, which may also leave the panel as
  -- it was. That a reload that succeeds takes over the users of the file is a property of Teleproxy.
  pub handlers-IsAnswered :
      (r : Request) (new_secret : Option String) (g : Faults) (made : Bool) (now later : ℕ)
      (p : Panel) (ids : List (Option ℕ)) (secret : UserRow → Option String) (f : Batches.Faults)
      (fails unrestored : ℕ → Bool)
      → (IsAnswered settings g.reload p (handle_user_toggle settings r g p)
          × (IsAnswered settings g.reload p (handle_user_delete settings r g p)
              × IsRotated settings g.reload made p
                  (handle_user_rotate settings r new_secret g made now later p)))
        × (IsAnswered settings f.reload p
              (handle_user_rotate_all settings r.csrf_valid secret now later f p)
            × (IsAnsweredBulk settings f.reload p
                  (handle_user_bulk_suspend settings r.csrf_valid ids f p)
                × (IsAnsweredBulk settings f.reload p
                      (handle_user_bulk_rotate settings r.csrf_valid ids secret now later f p)
                    × IsAnsweredBulk settings f.reload p (
                        handle_user_bulk_delete settings r.csrf_valid ids f.list fails unrestored
                          f.reload p))))
  handlers-IsAnswered r new_secret g made now later p ids secret f fails unrestored = (
    one-IsAnswered r new_secret g made now later p,
    several-IsAnswered r.csrf_valid ids secret now later f fails unrestored p,
  )

  -- With distinct ids, when a user is listed and the reload is the only call that fails, enabling or
  -- disabling it leaves the tables as they were, while users.json and
  -- teleproxy.toml keep the users of the tables with the change.
  toggle_reload_failed :
      (id : ℕ) (u : UserRow) (after : TeleproxyConfig) (p : Panel)
      → Distinct (λ x. x.id) p.db.users
      → listed id p.db ≡ some u
      → let f : Faults = record {
        list = false;
        change = false;
        reload = reload_failed after;
        undo = false;
      } in
        let (q, status) =
          handle_user_toggle settings (record { csrf_valid = true; id = some id }) f p in
        let changed = set_enabled id (not u.enabled) p.db in
        (status ≡ apply_failed)
        × ((q.db ≡ p.db)
            × ((q.users_json ≡ some (entries changed))
                × (q.teleproxy_toml ≡ some (rendered settings changed))))
  unfolding handle_user_toggle change_user apply_teleproxy_config
  toggle_reload_failed id u after p d found =
      let f : Faults = record {
        list = false;
        change = false;
        reload = reload_failed after;
        undo = false;
      } in
      let r : Request = record { csrf_valid = true; id = some id } in
      let put_back = (handlers-undo settings (λ label db. db) r none "" none f 0 p d refl refl).0 in
      rw found (refl, (rw found at put_back, (refl, refl)))
