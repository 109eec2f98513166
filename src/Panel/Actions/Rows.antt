-- ===== src/Panel/Actions/Rows.antt =====
-- The undo of each change of a user's row.
use mtproxy_orchestrator.Base.{
  ◌==◌, ℕ, String, Bool, true, false, not, some, List, [], ◌∷◌, ◌≡◌, ◌≢◌, refl, sym, ap, ◌∙◌, inl,
  inr, arith, if◌then◌else◌, find, Bool-cases, All, All-map, subst,
}
use mtproxy_orchestrator.Base.Sql.{update, Distinct, find-pass, All-find}
use mtproxy_orchestrator.Schema.{UserRow, Db}
use mtproxy_orchestrator.Quota.Service.{has_id}
use mtproxy_orchestrator.Panel.Users.Limits.{quota_update-live, set_quota-update}
use mtproxy_orchestrator.Panel.Users.{
  quota_update, set_quota, live_id, live_row, set_enabled, delete, restore, set_suspended,
  restore_quota_state, reset_quota, fresh_quota, with_quota, with_usage, live_usage,
}

-- The tables with the usage of a live user brought up to date.
abbrev pub refreshed : ℕ → Db → Db
refreshed id db = record db { users = update (live_id id) (with_usage db) db.users }

-- The row of an id is the only row with it.
pub only_row :
    (id : ℕ) (xs : List UserRow) (u : UserRow)
    → Distinct (λ r. r.id) xs
    → find (live_id id) xs ≡ some u
    → All (λ x. x.id ≡ id → x ≡ u) xs
only_row id [] u d e = tt
only_row id (x ∷ xs) u d e = elim (Bool-cases (live_id id x)) [
  | inl now ↦
      let same : x ≡ u = cc (rw now at e) in
      let is : x.id ≡ id = ground arith in
      (
        λ h. same,
        All-map (λ y. x.id ≢ y.id) (λ y. y.id ≡ id → y ≡ u) xs (λ y ne h. absurd (ne (is ∙ sym h)))
            d.0,
      )
  | inr later ↦
      let rest : find (live_id id) xs ≡ some u = rw later at e in
      let found : u.id ≡ id = ground (arith, find-pass (live_id id) xs rest) in
      (
        λ h. absurd (All-find (λ y. x.id ≢ y.id) (live_id id) xs d.0 rest (h ∙ sym found)),
        only_row id xs u d.1 rest,
      )
]

-- A row comes back from two updates.
abbrev Returns :
    (UserRow → Bool)
    → (UserRow → UserRow)
    → (UserRow → Bool)
    → (UserRow → UserRow)
    → UserRow
    → Type 0
Returns p f q g x =
    (if q (if p x then f x else x) then g (if p x then f x else x) else (if p x then f x else x))
    ≡ x

update-undo :
    (p : UserRow → Bool) (f : UserRow → UserRow) (q : UserRow → Bool) (g : UserRow → UserRow)
    (xs : List UserRow)
    → All (Returns p f q g) xs
    → update q g (update p f xs) ≡ xs
update-undo p f q g [] a = refl
update-undo p f q g (x ∷ xs) a = cc (a.0, update-undo p f q g xs a.1)

-- The row of an update that goes back to another one than it began with.
abbrev ReturnsAs :
    (UserRow → Bool)
    → (UserRow → UserRow)
    → (UserRow → Bool)
    → (UserRow → UserRow)
    → (UserRow → UserRow)
    → UserRow
    → Type 0
ReturnsAs p f q g k x =
    (if q (if p x then f x else x) then g (if p x then f x else x) else (if p x then f x else x))
    ≡ (if p x then k x else x)

update-as :
    (p : UserRow → Bool) (f : UserRow → UserRow) (q : UserRow → Bool) (g k : UserRow → UserRow)
    (xs : List UserRow)
    → All (ReturnsAs p f q g k) xs
    → update q g (update p f xs) ≡ update p k xs
update-as p f q g k [] a = refl
update-as p f q g k (x ∷ xs) a = cc (a.0, update-as p f q g k xs a.1)

-- The quota state of a row comes back, with another usage where that is put in.
quota_update-undo :
    (b : Bool) (bytes : ℕ) (period : String) (pct now used : ℕ) (u : UserRow)
    → with_quota (record u { quota_used_bytes = used }) (quota_update b bytes period pct now u)
      ≡ record u { quota_used_bytes = used }
unfolding quota_update
quota_update-undo b bytes period pct now used u = elim (Bool-cases (bytes == 0)) [
  | inl z ↦ elim (Bool-cases b) [ inl y ↦ rw z (rw y refl) | inr n ↦ rw z (rw n refl) ]
  | inr z ↦ elim (Bool-cases b) [ inl y ↦ rw z (rw y refl) | inr n ↦ rw z (rw n refl) ]
]

module _ (id : ℕ) (db : Db) (u : UserRow) (distinct : Distinct (λ r. r.id) db.users)
    (found : live_row id db ≡ some u) where
  -- An update of the live row of an id is undone by one that takes its new row back and that no
  -- other row answers to.
  undo_listed :
      (f : UserRow → UserRow) (q : UserRow → Bool) (g : UserRow → UserRow)
      → q (f u) ≡ true
      → g (f u) ≡ u
      → ((x : UserRow) → live_id id x ≡ false → (x.id ≡ id → x ≡ u) → q x ≡ false)
      → update q g (update (live_id id) f db.users) ≡ db.users
  undo_listed f q g hit back miss = update-undo (live_id id) f q g db.users (
      All-map (λ x. x.id ≡ id → x ≡ u) (Returns (live_id id) f q g) db.users
        (λ x only. elim (Bool-cases (live_id id x)) [
          | inl now ↦
              let same : x ≡ u = only (ground (arith, now)) in
              subst (λ y. Returns (live_id id) f q g y) (sym same)
                (rw (find-pass (live_id id) db.users found) (rw hit back))
          | inr gone ↦ rw gone (rw (miss x gone only) refl)
        ])
        (only_row id db.users u distinct found))

  undo_as :
      (f g k : UserRow → UserRow)
      → live_id id (f u) ≡ true
      → g (f u) ≡ k u
      → update (live_id id) g (update (live_id id) f db.users) ≡ update (live_id id) k db.users
  undo_as f g k hit back = update-as (live_id id) f (live_id id) g k db.users (
      All-map (λ x. x.id ≡ id → x ≡ u) (ReturnsAs (live_id id) f (live_id id) g k) db.users
        (λ x only. elim (Bool-cases (live_id id x)) [
          | inl now ↦
              let same : x ≡ u = only (ground (arith, now)) in
              subst (λ y. ReturnsAs (live_id id) f (live_id id) g k y) (sym same)
                (rw (find-pass (live_id id) db.users found) (rw hit back))
          | inr gone ↦ rw gone (rw gone refl)
        ])
        (only_row id db.users u distinct found))

  live : live_id id u ≡ true
  live = find-pass (live_id id) db.users found

  put_back : {a : List UserRow} → a ≡ db.users → record db { users = a } ≡ db
  put_back e = ap (λ users. record db { users = users }) e

  pub set_enabled-undo : set_enabled id u.enabled (set_enabled id (not u.enabled) db) ≡ db
  unfolding set_enabled
  set_enabled-undo = put_back (
      undo_listed (λ r. record r { enabled = not u.enabled }) (live_id id)
        (λ r. record r { enabled = u.enabled }) live refl (λ x gone only. gone))

  pub set_suspended-undo :
      set_suspended id u.quota_suspended (set_suspended id (not u.quota_suspended) db) ≡ db
  unfolding set_suspended
  set_suspended-undo = put_back (
      undo_listed (λ r. record r { quota_suspended = not u.quota_suspended }) (live_id id)
        (λ r. record r { quota_suspended = u.quota_suspended }) live refl (λ x gone only. gone))

  pub reset_quota-undo :
      (day : ℕ) → restore_quota_state id (with_usage db u) (reset_quota id day db) ≡ refreshed id db
  unfolding reset_quota restore_quota_state
  reset_quota-undo day =
      ap (λ users. record db { users = users })
        (undo_as (fresh_quota day) (with_quota (with_usage db u)) (with_usage db) live refl)

  pub delete-undo : restore id (delete id db) ≡ db
  unfolding delete restore
  delete-undo =
      let is : has_id id u ≡ true = ground (arith, live) in
      let kept : u.deleted ≡ false = ground (arith, live) in
      put_back (
        undo_listed (λ r. record r { deleted = true }) (has_id id)
          (λ r. record r { deleted = false }) is (ap (λ b. record u { deleted = b }) (sym kept))
          (λ x gone only. elim (Bool-cases (has_id id x)) [
            | inl has ↦
                let same : x ≡ u = only (ground (arith, has)) in
                let clash : false ≡ true = sym gone ∙ ap (live_id id) same ∙ live in
                absurd (ground arith)
            | inr other ↦ other
          ]))

  pub set_quota-undo :
      (bytes : ℕ) (period : String) (pct now : ℕ) (db' : Db)
      → set_quota id bytes period pct now db ≡ some db'
      → restore_quota_state id (with_usage db u) db' ≡ refreshed id db
  unfolding restore_quota_state
  set_quota-undo bytes period pct now db' e =
      let (b, is) = set_quota-update id bytes period pct now db db' e in
      rw (← is) (
        ap (λ users. record db { users = users })
          (undo_as (quota_update b bytes period pct now) (with_quota (with_usage db u))
            (with_usage db) (quota_update-live b id bytes period pct now u ∙ live)
            (quota_update-undo b bytes period pct now (live_usage db u) u)))
