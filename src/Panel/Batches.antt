-- ===== src/Panel/Batches.antt =====
-- The handlers of internal/panel/user_actions.go that change several users with one reload. The list of
-- a form's ids is what `ParseInt` makes of its texts.
pub mod Revival
pub mod Rows
pub mod Undo
pub mod Refused
use mtproxy_orchestrator.Base.{
  ℕ, String, Bool, true, false, not, ◌&&◌, Option, none, some, List, [], ◌∷◌, ◌++◌, if◌then◌else◌,
  filter,
}
use mtproxy_orchestrator.Schema.{UserRow, Db}
use mtproxy_orchestrator.Quota.Service.{list_users}
use mtproxy_orchestrator.Bridge.Host.{TeleproxyConfig}
use mtproxy_orchestrator.Panel.Apply.{Panel, Course, apply_teleproxy_config}
use mtproxy_orchestrator.Panel.Users.{live_row, delete, restore, update_secret, set_suspended}
use mtproxy_orchestrator.Panel.Actions.{
  Status, forbidden, internal_error, apply_failed, see_other, with_db,
}

-- Which calls fail: `List`, the change of a user and its undo; and how `reloadTeleproxy` goes.
pub record Faults : Type 0 where
  pub list : Bool
  pub change : UserRow → Bool
  pub undo : UserRow → Bool
  pub reload : Course

-- What a handler does to one user: the new secret may be missing, and the change may be noted for the
-- undo before or after it is tried.
pub record Plan : Type 0 where
  pub change : UserRow → Option (Db → Db)
  pub undo : UserRow → Db → Db
  pub noted_first : Bool

-- The loop over the users, with those to undo so far, and whether it broke off.
unfoldable pub change_all :
    (UserRow → Bool) → Plan → List UserRow → List UserRow → Db → Db × (List UserRow × Bool)
change_all fails plan [] noted db = (db, (noted, false))
change_all fails plan (u ∷ us) noted db = elim (plan.change u) [
  | none ↦ (db, (noted, true))
  | some f ↦
      let rest = change_all fails plan us (noted ++ u ∷ []) (f db) in
      if fails u then (db, (if plan.noted_first then noted ++ u ∷ [] else noted, true)) else rest
]

-- `restore`: its errors are dropped.
unfoldable pub undo_all : (UserRow → Bool) → Plan → List UserRow → Db → Db
undo_all fails plan [] db = db
undo_all fails plan (u ∷ us) db = undo_all fails plan us (if fails u then db else plan.undo u db)

-- `userMap[id]` for the ids in turn: the listed users among them, whose usage is not read here.
abbrev pub chosen : List ℕ → Db → List UserRow
chosen [] db = []
chosen (id ∷ ids) db =
    let rest = chosen ids db in elim (live_row id db) [ none ↦ rest | some u ↦ u ∷ rest ]

-- The texts that `ParseInt` takes.
abbrev pub parsed_ids : List (Option ℕ) → List ℕ
parsed_ids [] = []
parsed_ids (none ∷ ids) = parsed_ids ids
parsed_ids (some id ∷ ids) = id ∷ parsed_ids ids

-- `handleUserRotateAll` and the bulk handlers note the row that they go back to.
abbrev pub rotation : Bool → (UserRow → Option String) → ℕ → ℕ → Plan
rotation first secret now later = record {
  change = λ u. elim (secret u) [ none ↦ none | some s ↦ some (update_secret u.id s now) ];
  undo = λ u. update_secret u.id u.secret_hex later;
  noted_first = first;
}

abbrev pub suspension : Plan
suspension = record {
  change = λ u. some (set_suspended u.id true);
  undo = λ u. set_suspended u.id u.quota_suspended;
  noted_first = true;
}

abbrev pub delete_all : (ℕ → Bool) → List ℕ → Db → Db × Bool
delete_all fails [] db = (db, false)
delete_all fails (id ∷ ids) db =
    let rest = delete_all fails ids (delete id db) in if fails id then (db, true) else rest

-- `restore`: the errors of `Restore` are dropped.
abbrev pub restore_all : (ℕ → Bool) → List ℕ → Db → Db
restore_all fails [] db = db
restore_all fails (id ∷ ids) db = restore_all fails ids (if fails id then db else restore id db)

module _ (settings : TeleproxyConfig) where
  -- The shape that the handlers share behind `List`. A redirect carries the error of a failing reload.
  unfoldable pub change_users : Faults → Plan → List UserRow → Panel → Panel × Status
  unfolding change_all undo_all
  change_users f plan us p =
      let (db, (noted, broke)) = change_all f.change plan us [] p.db in
      let changed = record p { db = db } in
      let back = λ (q : Panel). with_db (undo_all f.undo plan noted) q in
      let (q, failed) = apply_teleproxy_config settings f.reload changed in
      if broke
      then (back changed, internal_error)
      else if failed
      then (back q, apply_failed)
      else (q, see_other)

  unfoldable pub handle_user_rotate_all :
      Bool → (UserRow → Option String) → ℕ → ℕ → Faults → Panel → Panel × Status
  unfolding change_users
  handle_user_rotate_all csrf_valid secret now later f p =
      let us = filter (λ u. u.enabled) (list_users p.db) in
      if not csrf_valid
      then (p, forbidden)
      else if f.list
      then (p, internal_error)
      else change_users f (rotation false secret now later) us p

  -- The bulk handlers from the form on.
  abbrev pub on_form :
      Bool → List (Option ℕ) → Bool → (List ℕ → Panel → Panel × Status) → Panel → Panel × Status
  on_form csrf_valid ids list_fails body p = if not csrf_valid then (p, forbidden) else elim ids [
    | [] ↦ (p, see_other)
    | i ∷ is ↦
        if list_fails
        then (p, internal_error)
        else elim (parsed_ids (i ∷ is)) [ [] ↦ (p, see_other) | j ∷ js ↦ body (j ∷ js) p ]
  ]

  unfoldable pub handle_user_bulk_suspend : Bool → List (Option ℕ) → Faults → Panel → Panel × Status
  unfolding change_users
  handle_user_bulk_suspend csrf_valid ids f p =
      on_form csrf_valid ids f.list (λ ids q. change_users f suspension (chosen ids q.db) q) p

  unfoldable pub handle_user_bulk_rotate :
      Bool → List (Option ℕ) → (UserRow → Option String) → ℕ → ℕ → Faults → Panel → Panel × Status
  unfolding change_users
  handle_user_bulk_rotate csrf_valid ids secret now later f p =
      on_form csrf_valid ids f.list
        (λ ids q. change_users f (rotation true secret now later) (chosen ids q.db) q) p

  -- `handleUserBulkDelete` behind `List`: `fails` says which `Delete` fails,
  -- and `unrestored` which `Restore`.
  unfoldable pub bulk_delete : List ℕ → (ℕ → Bool) → (ℕ → Bool) → Course → Panel → Panel × Status
  bulk_delete ids fails unrestored reload p =
      let (db, failed) = delete_all fails ids p.db in
      let deleted = record p { db = db } in
      let (q, refused) = apply_teleproxy_config settings reload deleted in
      if failed
      then (with_db (restore_all unrestored ids) deleted, internal_error)
      else if refused
      then (with_db (restore_all unrestored ids) q, apply_failed)
      else (q, see_other)

  unfoldable pub handle_user_bulk_delete :
      Bool → List (Option ℕ) → Bool → (ℕ → Bool) → (ℕ → Bool) → Course → Panel → Panel × Status
  unfolding bulk_delete
  handle_user_bulk_delete csrf_valid ids list_fails fails unrestored reload p =
      on_form csrf_valid ids list_fails (λ ids q. bulk_delete ids fails unrestored reload q) p
