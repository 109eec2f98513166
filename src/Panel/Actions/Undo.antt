-- ===== src/Panel/Actions/Undo.antt =====
-- A change that Teleproxy does not take is undone.
use mtproxy_orchestrator.Base.{
  ℕ, String, true, false, not, Option, none, some, ◌≡◌, ◌⊎◌, refl, ap, sym, subst, ◌∙◌, inl, inr,
  Bool-cases, Option-cases,
}
use mtproxy_orchestrator.Base.Sql.{Distinct}
use mtproxy_orchestrator.Schema.{UserRow, Db}
use mtproxy_orchestrator.Bridge.Host.{TeleproxyConfig}
use mtproxy_orchestrator.Panel.Apply.{Panel, fails}
use mtproxy_orchestrator.Panel.Apply.Laws.{apply-db, apply-fails}
use mtproxy_orchestrator.Panel.Actions.{
  with_db, Status, internal_error, not_found, nothing, Request, Faults, change_user, guarded,
  handle_user_toggle, handle_user_delete, handle_user_suspend_toggle, handle_user_quota_reset,
  handle_user_quota_set, set_user_quota, quota_listed,
}
use mtproxy_orchestrator.Panel.Users.{
  set_quota, listed, live_row, with_usage, found_usage, set_enabled, delete, restore, set_suspended,
  restore_quota_state, reset_quota,
}
use mtproxy_orchestrator.Panel.Actions.Rows.{
  set_enabled-undo, set_suspended-undo, reset_quota-undo, delete-undo, set_quota-undo, refreshed,
}

-- A listed row is the stored one with the usage brought up to date.
listed-live_row :
    (id : ℕ) (db : Db) (u : UserRow)
    → listed id db ≡ some u
    → (w : UserRow) × ((live_row id db ≡ some w) × (with_usage db w ≡ u))
listed-live_row id db u e = behind (live_row id db) e
  where
    behind :
        (o : Option UserRow)
        → found_usage db o ≡ some u
        → (w : UserRow) × ((o ≡ some w) × (with_usage db w ≡ u))
    behind none h = cc
    behind (some w) h = (w, (refl, cc))

-- The tables are as they were, or the live user of an id has its usage brought up to date.
abbrev pub IsRefreshed : Option ℕ → Db → Db → Type 0
IsRefreshed asked before after =
    (after ≡ before) ⊎ ((id : ℕ) × ((asked ≡ some id) × (after ≡ refreshed id before)))

module _ (settings : TeleproxyConfig) (p : Panel) (P : Db → Type 0) (same : P p.db) where
  change_user-undo :
      (f : Faults) (unlisted : Status) (change undo after : UserRow → Db → Db) (id : ℕ)
      → fails f.reload ≡ true
      → f.undo ≡ false
      → ((u : UserRow)
          → live_row id p.db ≡ some u
          → P (undo (with_usage p.db u) (change (with_usage p.db u) p.db)))
      → P (change_user settings f unlisted change undo after id p).0.db
  unfolding change_user
  change_user-undo f unlisted change undo after id failed undone back = elim (Bool-cases f.list) [
    | inl e ↦ rw e same
    | inr e ↦ elim (Option-cases (listed id p.db)) [
      | inl none_found ↦ rw e (rw none_found same)
      | inr (u, found) ↦ elim (Bool-cases f.change) [
        | inl c ↦ rw e (rw found (rw c same))
        | inr c ↦
            let q : Panel = with_db (change u) p in
            let (w, (stored, is)) = listed-live_row id p.db u found in
            let put_back : P (undo u (change u p.db)) =
              subst (λ x. P (undo x (change x p.db))) is (back w stored) in
            rw e (
              rw found (
                rw c (
                  rw (apply-fails settings f.reload q ∙ failed) (
                    rw undone
                      (subst P (ap (undo u) (sym (apply-db settings f.reload q))) put_back)))))
      ]
    ]
  ]

  guarded-same :
      (r : Request) (body : ℕ → Panel → Panel × Status)
      → ((id : ℕ) → r.id ≡ some id → P (body id p).0.db)
      → P (guarded settings r body p).0.db
  guarded-same r body behind = elim (Bool-cases r.csrf_valid) [
    | inl e ↦
        rw e (elim (Option-cases r.id) [ inl i ↦ rw i same | inr (id, i) ↦ rw i (behind id i) ])
    | inr e ↦ rw e same
  ]

  quota_listed-same :
      (f : Faults) (set : Option Db) (change : Db → Panel → Panel × Status) (found : Option UserRow)
      → ((db : Db) → set ≡ some db → P (change db p).0.db)
      → P (quota_listed settings f set change found p).0.db
  unfolding quota_listed
  quota_listed-same f set change none behind = same
  quota_listed-same f set change (some u) behind = elim (Bool-cases f.list) [
    | inl e ↦ rw e same
    | inr e ↦ elim (Bool-cases f.change) [
      | inl c ↦ rw e (rw c same)
      | inr c ↦ elim (Option-cases set) [
        | inl refused ↦ rw e (rw c (rw refused same))
        | inr (db, taken) ↦ rw e (rw c (rw taken (behind db taken)))
      ]
    ]
  ]

module _ (settings : TeleproxyConfig) where
  set_user_quota-undo :
      (recalc : String → Db → Db) (bytes : Option ℕ) (period : String) (warn : Option ℕ)
      (f : Faults) (day id : ℕ) (p : Panel)
      → Distinct (λ u. u.id) p.db.users
      → fails f.reload ≡ true
      → f.undo ≡ false
      → IsRefreshed
          (some id)
          p.db
          (set_user_quota settings recalc bytes period warn f day id p).0.db
  unfolding set_user_quota
  set_user_quota-undo recalc none period none f day id p d failed undone = inl refl
  set_user_quota-undo recalc none period (some w) f day id p d failed undone = inl refl
  set_user_quota-undo recalc (some b) period none f day id p d failed undone = inl refl
  set_user_quota-undo recalc (some b) period (some w) f day id p d failed undone =
      quota_listed-same settings p (IsRefreshed (some id) p.db) (inl refl) f
        (set_quota id b period w day p.db)
        (λ db.
          change_user settings (record f { change = false }) not_found (λ u prev. db)
            (λ u. restore_quota_state id u) (λ u. recalc u.label) id)
        (listed id p.db)
        (λ db taken.
          change_user-undo settings p (IsRefreshed (some id) p.db) (inl refl)
            (record f { change = false }) not_found (λ u prev. db) (λ u. restore_quota_state id u)
            (λ u. recalc u.label) id failed undone
            (λ u found. inr (id, (refl, set_quota-undo id p.db u d found b period w day db taken))))

  -- With distinct ids, when `reloadTeleproxy` fails and the statement that undoes the change does not,
  -- the handlers that enable or disable, delete, suspend or resume a user leave the tables as they
  -- were, whatever the request; those that reset its quota and that set it leave them as they were but
  -- for the stored usage of the request's user, which is brought up to date with the traffic of its period.
  pub handlers-undo :
      (recalc : String → Db → Db) (r : Request) (bytes : Option ℕ) (period : String)
      (warn : Option ℕ) (f : Faults) (day : ℕ) (p : Panel)
      → Distinct (λ u. u.id) p.db.users
      → fails f.reload ≡ true
      → f.undo ≡ false
      → ((handle_user_toggle settings r f p).0.db ≡ p.db)
        × (((handle_user_delete settings r f p).0.db ≡ p.db)
            × (((handle_user_suspend_toggle settings recalc r f p).0.db ≡ p.db)
                × (IsRefreshed r.id p.db (handle_user_quota_reset settings recalc r f day p).0.db
                    × IsRefreshed r.id p.db
                        (handle_user_quota_set settings recalc r bytes period warn f day p).0.db)))
  unfolding handle_user_toggle handle_user_delete handle_user_suspend_toggle handle_user_quota_reset
      handle_user_quota_set
  handlers-undo recalc r bytes period warn f day p d failed undone =
      let undoes =
        λ (P : Db → Type 0) (same : P p.db) (unlisted : Status)
            (change undo after : ℕ → UserRow → Db → Db)
            (back : (id : ℕ) (u : UserRow)
              → r.id ≡ some id
              → live_row id p.db ≡ some u
              → P (undo id (with_usage p.db u) (change id (with_usage p.db u) p.db))).
          guarded-same settings p P same r
            (λ id. change_user settings f unlisted (change id) (undo id) (after id) id)
            (λ id asked.
              change_user-undo settings p P same f unlisted (change id) (undo id) (after id) id
                failed undone (λ u. back id u asked)) in
      let undoes_all = undoes (λ db. db ≡ p.db) refl in
      (
        undoes_all internal_error (λ id u. set_enabled id (not u.enabled))
            (λ id u. set_enabled id u.enabled) (λ id. nothing)
            (λ id u asked found. set_enabled-undo id p.db u d found),
        (
          undoes_all internal_error (λ id u. delete id) (λ id u. restore id) (λ id. nothing)
              (λ id u asked found. delete-undo id p.db u d found),
          (
            undoes_all not_found (λ id u. set_suspended id (not u.quota_suspended))
                (λ id u. set_suspended id u.quota_suspended) (λ id u. recalc u.label)
                (λ id u asked found. set_suspended-undo id p.db u d found),
            (
              undoes (IsRefreshed r.id p.db) (inl refl) not_found (λ id u. reset_quota id day)
                  (λ id u. restore_quota_state id u) (λ id u. recalc u.label)
                  (λ id u asked found. inr (id, (asked, reset_quota-undo id p.db u d found day))),
              guarded-same settings p (IsRefreshed r.id p.db) (inl refl) r
                  (set_user_quota settings recalc bytes period warn f day)
                  (λ id asked.
                    subst
                      (λ o.
                        IsRefreshed o p.db
                          (set_user_quota settings recalc bytes period warn f day id p).0.db)
                      (sym asked)
                      (set_user_quota-undo recalc bytes period warn f day id p d failed undone)),
            ),
          ),
        ),
      )
