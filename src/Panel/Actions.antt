-- ===== src/Panel/Actions.antt =====
-- The handlers of internal/panel/user_actions.go that change users, and `reloadTeleproxy` behind them.
-- The audit log and the page that is sent are left out; a status stands for the response, `see_other`
-- for the page of a new secret too.
pub mod Rows
pub mod Undo
use mtproxy_orchestrator.Base.{
  ℕ, String, Bool, true, false, not, Option, none, some, List, [], ◌∷◌, str_eq, if◌then◌else◌,
}
use mtproxy_orchestrator.Schema.{UserRow, Db}
use mtproxy_orchestrator.Bridge.Host.{TeleproxyConfig}
use mtproxy_orchestrator.Panel.Apply.{Panel, Course, apply_teleproxy_config}
use mtproxy_orchestrator.Panel.Users.{
  listed, set_enabled, delete, restore, update_secret, set_suspended, restore_quota_state,
  reset_quota, set_quota,
}

pub data Status : Type 0 where
  forbidden bad_request internal_error not_found apply_failed see_other : Status

-- The form: whether its CSRF token is valid, and the id in the path.
pub record Request : Type 0 where
  pub csrf_valid : Bool
  pub id : Option ℕ

-- Which of the handler's calls fail: `List`, the change, and the undo; and how `reloadTeleproxy` goes.
pub record Faults : Type 0 where
  pub list : Bool
  pub change : Bool
  pub reload : Course
  pub undo : Bool

abbrev pub with_db : (Db → Db) → Panel → Panel
with_db f p = record p { db = f p.db }

abbrev pub nothing : UserRow → Db → Db
nothing u db = db

module _ (settings : TeleproxyConfig) where
  -- The shape that the handlers of one user share, from `List` on: the answer to an error of `List`,
  -- the change, its undo, and what follows a reload that succeeded.
  unfoldable pub change_user :
      Faults
      → Status
      → (UserRow → Db → Db)
      → (UserRow → Db → Db)
      → (UserRow → Db → Db)
      → ℕ
      → Panel
      → Panel × Status
  change_user f unlisted change undo after id p =
      if f.list then (p, unlisted) else elim (listed id p.db) [
        | none ↦ (p, not_found)
        | some u ↦
            let (q, failed) = apply_teleproxy_config settings f.reload (with_db (change u) p) in
            if f.change
            then (p, internal_error)
            else if failed
            then (if f.undo then q else with_db (undo u) q, apply_failed)
            else (with_db (after u) q, see_other)
      ]

  abbrev pub guarded : Request → (ℕ → Panel → Panel × Status) → Panel → Panel × Status
  guarded r body p =
      if r.csrf_valid
      then elim r.id [ none ↦ (p, bad_request) | some id ↦ body id p ]
      else (p, forbidden)

  unfoldable pub handle_user_toggle : Request → Faults → Panel → Panel × Status
  unfolding change_user
  handle_user_toggle r f p =
      guarded r
        (λ id.
          change_user f internal_error (λ u. set_enabled id (not u.enabled))
            (λ u. set_enabled id u.enabled) nothing id)
        p

  unfoldable pub handle_user_delete : Request → Faults → Panel → Panel × Status
  unfolding change_user
  handle_user_delete r f p =
      guarded r (λ id. change_user f internal_error (λ u. delete id) (λ u. restore id) nothing id) p

  -- The rotation from `List` on, at the listed row of the id. A user with an empty secret is not found.
  unfoldable pub rotate_listed :
      Faults → (Panel → Panel × Status) → Option UserRow → Panel → Panel × Status
  rotate_listed f change none p = (p, if f.list then internal_error else not_found)
  rotate_listed f change (some v) p =
      if f.list
      then (p, internal_error)
      else if str_eq v.secret_hex ""
      then (p, not_found)
      else change p

  unfoldable pub rotate_user : Option String → Faults → ℕ → ℕ → ℕ → Panel → Panel × Status
  unfolding change_user rotate_listed
  rotate_user none f now later id p = (p, internal_error)
  rotate_user (some secret) f now later id p =
      rotate_listed f
        (change_user f internal_error (λ u. update_secret id secret now)
          (λ u. update_secret id u.secret_hex later) nothing id)
        (listed id p.db) p

  -- The page behind a rotation needs a new CSRF token: `made` says whether `NewCSRFToken` succeeds.
  abbrev pub with_page : Bool → Panel × Status → Panel × Status
  with_page made (p, see_other) = if made then (p, see_other) else (p, internal_error)
  with_page made (p, status) = (p, status)

  -- `secret` is the new secret, `none` where it cannot be generated, which is asked before `List`;
  -- `now` and `later` are the clock at the two writes.
  unfoldable pub handle_user_rotate :
      Request → Option String → Faults → Bool → ℕ → ℕ → Panel → Panel × Status
  unfolding rotate_user
  handle_user_rotate r secret f made now later p =
      guarded r (λ id q. with_page made (rotate_user secret f now later id q)) p

  -- `recalc` is `s.RecalcUser`, the identity where that is nil. An error of `List` leaves no users,
  -- and the answer is "not found".
  unfoldable pub handle_user_suspend_toggle :
      (String → Db → Db) → Request → Faults → Panel → Panel × Status
  unfolding change_user
  handle_user_suspend_toggle recalc r f p =
      guarded r
        (λ id.
          change_user f not_found (λ u. set_suspended id (not u.quota_suspended))
            (λ u. set_suspended id u.quota_suspended) (λ u. recalc u.label) id)
        p

  -- `day` is `quota.DayFloor` of the present.
  unfoldable pub handle_user_quota_reset :
      (String → Db → Db) → Request → Faults → ℕ → Panel → Panel × Status
  unfolding change_user
  handle_user_quota_reset recalc r f day p =
      guarded r
        (λ id.
          change_user f not_found (λ u. reset_quota id day) (λ u. restore_quota_state id u)
            (λ u. recalc u.label) id)
        p

  -- The quota form from `List` on, at the listed row of the id; `set` is what `SetQuota` makes.
  unfoldable pub quota_listed :
      Faults → Option Db → (Db → Panel → Panel × Status) → Option UserRow → Panel → Panel × Status
  quota_listed f set change none p = (p, not_found)
  quota_listed f set change (some u) p =
      if f.list
      then (p, not_found)
      else if f.change
      then (p, bad_request)
      else elim set [ none ↦ (p, bad_request) | some db ↦ change db p ]

  unfoldable pub set_user_quota :
      (String → Db → Db) → Option ℕ → String → Option ℕ → Faults → ℕ → ℕ → Panel → Panel × Status
  unfolding change_user quota_listed
  set_user_quota recalc (some bytes) period (some warn) f day id p =
      quota_listed f (set_quota id bytes period warn day p.db)
        (λ db.
          change_user (record f { change = false }) not_found (λ u prev. db)
            (λ u. restore_quota_state id u) (λ u. recalc u.label) id)
        (listed id p.db) p
  set_user_quota recalc _ period _ f day id p = (p, bad_request)

  -- `bytes` is what the form's `gb` comes to, 0 for a negative one and `none` for no number or one
  -- that is too large; `warn` is `none` for no number, and 80 where the form is empty. `SetQuota`
  -- refuses a period that it does not know and a percentage above 100.
  unfoldable pub handle_user_quota_set :
      (String → Db → Db)
      → Request
      → Option ℕ
      → String
      → Option ℕ
      → Faults
      → ℕ
      → Panel
      → Panel × Status
  unfolding set_user_quota
  handle_user_quota_set recalc r bytes period warn f day p =
      guarded r (set_user_quota recalc bytes period warn f day) p
