-- ===== src/Panel/Users/Limits.antt =====
-- `SetQuota` of internal/panel/users.go.
use mtproxy_orchestrator.Base.{
  ℕ, String, Bool, false, not, ◌||◌, none, some, ◌≡◌, ◌≢◌, ◌⊎◌, ◌==◌, inl, inr, refl, sym, ◌∙◌,
  arith, str_eq, eq_iff, find, Bool-cases, Option-cases, subst, ltb,
}
use mtproxy_orchestrator.Base.Sql.{find-update, find-pass, find-Distinct, Distinct}
use mtproxy_orchestrator.Schema.{UserRow, Db}
use mtproxy_orchestrator.Quota.Service.{has_id}
use mtproxy_orchestrator.Panel.Users.{
  live_id, live_row, quota_update, set_quota, known_period, update_users,
}

-- What `SetQuota` does to a row: the limit and the warning are stored; a new period, or one that has
-- not begun, starts the usage again; an unlimited quota ends the suspension and the warning.
pub record IsLimited (bytes : ℕ) (period : String) (pct now : ℕ) (u v : UserRow) : Type 0 where
  pub limit : (v.quota_bytes ≡ bytes) × ((v.quota_warn_pct ≡ pct) × (v.quota_period ≡ period))
  pub restarted :
      (u.quota_period ≢ period) ⊎ (u.quota_period_start ≡ 0)
      → (v.quota_used_bytes ≡ 0) × ((v.quota_suspended ≡ false) × (v.quota_period_start ≡ now))
  pub kept :
      u.quota_period ≡ period
      → u.quota_period_start ≢ 0
      → (v.quota_used_bytes ≡ u.quota_used_bytes) × (v.quota_period_start ≡ u.quota_period_start)
  pub unlimited : bytes ≡ 0 → (v.quota_suspended ≡ false) × (v.quota_warned ≡ false)

restarts : UserRow → String → Bool
restarts u period = not (str_eq u.quota_period period) || u.quota_period_start == 0

quota_update-IsLimited :
    (bytes : ℕ) (period : String) (pct now : ℕ) (u : UserRow)
    → IsLimited bytes period pct now u (quota_update (restarts u period) bytes period pct now u)
unfolding quota_update restarts
quota_update-IsLimited bytes period pct now u = record {
  limit = (ground (arith), (ground (arith), ground (arith, eq_iff u.quota_period period)));
  restarted = λ h. (
    ground (arith, eq_iff u.quota_period period),
    (ground (arith, eq_iff u.quota_period period), ground (arith, eq_iff u.quota_period period)),
  );
  kept = λ same begun.
      (ground (arith, eq_iff u.quota_period period), ground (arith, eq_iff u.quota_period period));
  unlimited = λ h. (ground (arith), ground (arith));
}

pub quota_update-live :
    (b : Bool) (id bytes : ℕ) (period : String) (pct now : ℕ) (x : UserRow)
    → live_id id (quota_update b bytes period pct now x) ≡ live_id id x
unfolding quota_update
quota_update-live b id bytes period pct now x = ground (arith)

listed-set_quota :
    (b : Bool) (id bytes : ℕ) (period : String) (pct now : ℕ) (db : Db) (u : UserRow)
    → live_row id db ≡ some u
    → live_row id (update_users (live_id id) (quota_update b bytes period pct now) db)
      ≡ some (quota_update b bytes period pct now u)
listed-set_quota b id bytes period pct now db u found =
    find-update (live_id id) (live_id id) (quota_update b bytes period pct now) db.users
      (quota_update-live b id bytes period pct now)
    ∙ rw found (rw (find-pass (live_id id) db.users found) refl)

set_quota-found :
    (id bytes : ℕ) (period : String) (pct now : ℕ) (db db' : Db) (w : UserRow)
    → find (has_id id) db.users ≡ some w
    → set_quota id bytes period pct now db ≡ some db'
    → update_users (live_id id) (quota_update (restarts w period) bytes period pct now) db ≡ db'
unfolding set_quota restarts
set_quota-found id bytes period pct now db db' w found e = elim (Bool-cases (known_period period)) [
  | inr unknown ↦
      let refused : set_quota id bytes period pct now db ≡ none = rw unknown refl in
      absurd (ground (arith, refused, e))
  | inl known ↦ elim (Bool-cases (ltb 100 pct)) [
    | inl high ↦
        let refused : set_quota id bytes period pct now db ≡ none = rw known (rw high refl) in
        absurd (ground (arith, refused, e))
    | inr low ↦
        let accepted : set_quota id bytes period pct now db
            ≡ some (
                update_users (live_id id) (quota_update (restarts w period) bytes period pct now)
                  db) =
          rw known (rw low (rw found refl)) in
        cc (accepted, e)
  ]
]

set_quota-missing :
    (id bytes : ℕ) (period : String) (pct now : ℕ) (db : Db)
    → find (has_id id) db.users ≡ none
    → set_quota id bytes period pct now db ≡ none
unfolding set_quota
set_quota-missing id bytes period pct now db missing = ground (arith, missing)

-- A `SetQuota` that returns no error is one update of the live row.
pub set_quota-update :
    (id bytes : ℕ) (period : String) (pct now : ℕ) (db db' : Db)
    → set_quota id bytes period pct now db ≡ some db'
    → (b : Bool) × (update_users (live_id id) (quota_update b bytes period pct now) db ≡ db')
set_quota-update id bytes period pct now db db' e =
    elim (Option-cases (find (has_id id) db.users)) [
      | inl missing ↦
          let refused = set_quota-missing id bytes period pct now db missing in
          absurd (ground (arith, refused, e))
      | inr (w, has) ↦ (restarts w period, set_quota-found id bytes period pct now db db' w has e)
    ]

-- With distinct ids, a `SetQuota` of a live user that returns no error stores the limit, the period
-- and the warning; a changed period, or one that has not begun, starts the usage again without a
-- suspension, and the same period keeps usage and start; an unlimited quota ends the suspension and
-- the warning.
set_quota-IsLimited :
    (id bytes : ℕ) (period : String) (pct now : ℕ) (db db' : Db) {u : UserRow}
    → Distinct (λ r. r.id) db.users
    → live_row id db ≡ some u
    → set_quota id bytes period pct now db ≡ some db'
    → (v : UserRow) × ((live_row id db' ≡ some v) × IsLimited bytes period pct now u v)
set_quota-IsLimited id bytes period pct now db db' {u} d found e =
    elim (Option-cases (find (has_id id) db.users)) [
      | inl missing ↦
          let refused = set_quota-missing id bytes period pct now db missing in
          absurd (ground (arith, refused, e))
      | inr (w, has) ↦
          let is_u : u.id ≡ id = ground (arith, find-pass (live_id id) db.users found) in
          let is_w : w.id ≡ id = ground (arith, find-pass (has_id id) db.users has) in
          let same : u ≡ w =
            find-Distinct (λ r. r.id) (live_id id) (has_id id) db.users d found has
              (is_u ∙ sym is_w) in
          let written = set_quota-found id bytes period pct now db db' w has e in
          (
            quota_update (restarts w period) bytes period pct now u,
            (
              subst
                  (λ x.
                    live_row id x ≡ some (quota_update (restarts w period) bytes period pct now u))
                  written (listed-set_quota (restarts w period) id bytes period pct now db u found),
              subst
                  (λ x.
                    IsLimited bytes period pct now u
                      (quota_update (restarts x period) bytes period pct now u))
                  same (quota_update-IsLimited bytes period pct now u),
            ),
          )
    ]
