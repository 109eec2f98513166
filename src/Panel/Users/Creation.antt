-- ===== src/Panel/Users/Creation.antt =====
-- `Create` of internal/panel/users.go.
use mtproxy_orchestrator.Base.{
  ℕ, ◌+◌, ◌<◌, String, true, false, not, ◌&&◌, some, List, [], ◌∷◌, ◌++◌, ◌≡◌, ◌↔◌, refl, arith,
  leb, str_eq, length, filter,
}
use mtproxy_orchestrator.Base.Sql.{exists}
use mtproxy_orchestrator.Schema.{UserRow, Db}
use mtproxy_orchestrator.Panel.Users.{max_active_users, active_count, new_user, create}

active_count-concat :
    (xs : List UserRow) (u : UserRow)
    → u.deleted ≡ false
    → u.enabled ≡ true
    → length (filter (λ r. not r.deleted && r.enabled) (xs ++ u ∷ []))
      ≡ length (filter (λ r. not r.deleted && r.enabled) xs) + 1
active_count-concat [] u d e = ground (arith, d, e)
active_count-concat (x ∷ xs) u d e = ground (arith, active_count-concat xs u d e)

exists-live :
    (label : String) (xs : List UserRow)
    → exists (λ (u : UserRow). str_eq u.label label) xs ≡ false
    → exists (λ (u : UserRow). str_eq u.label label && not u.deleted) xs ≡ false
exists-live label [] h = refl
exists-live label (x ∷ xs) h = ground (arith, exists-live label xs)

create-inserts :
    (id : ℕ) (label secret : String) (db : Db)
    → active_count db < max_active_users
    → exists (λ (u : UserRow). str_eq u.label label) db.users ≡ false
    → create id label secret db
      ≡ some (record db { users = db.users ++ new_user id label secret ∷ [] })
unfolding create
create-inserts id label secret db few unused =
    let room : leb max_active_users (active_count db) ≡ false = ground (arith, few) in
    rw room (rw (exists-live label db.users unused) (rw unused refl))

create-needs :
    (id : ℕ) (label secret : String) (db db' : Db)
    → create id label secret db ≡ some db'
    → (active_count db < max_active_users)
      × (exists (λ (u : UserRow). str_eq u.label label) db.users ≡ false)
unfolding create
create-needs id label secret db db' e = ground (arith)

-- `Create` returns no error exactly if fewer than 16 users are active and no row, a deleted one
-- included, has the label; the table then has one active user more.
create_iff :
    (id : ℕ) (label secret : String) (db : Db)
    → ((db' : Db) × (create id label secret db ≡ some db')
        × (active_count db' ≡ active_count db + 1))
      ↔ ((active_count db < max_active_users)
          × (exists (λ (u : UserRow). str_eq u.label label) db.users ≡ false))
unfolding active_count
create_iff id label secret db = (
  λ (db', made, more). create-needs id label secret db db' made,
  λ (few, unused). (
    record db { users = db.users ++ new_user id label secret ∷ [] },
    create-inserts id label secret db few unused,
    active_count-concat db.users (new_user id label secret) refl refl,
  ),
)
