-- ===== src/Panel/Batches/Revival.antt =====
-- The undo of a bulk delete.
use mtproxy_orchestrator.Base.{
  ap, sym, subst, ==_iff, ℕ, Bool, true, false, ◌==◌, some, List, [], ◌∷◌, ◌≡◌, ◌⊎◌, refl, ◌∙◌, inl,
  inr, arith, if◌then◌else◌, find, Bool-cases,
}
use mtproxy_orchestrator.Base.Sql.{exists, find-update, find-pass}
use mtproxy_orchestrator.Schema.{UserRow, Db}
use mtproxy_orchestrator.Quota.Service.{has_id}
use mtproxy_orchestrator.Panel.Users.{live_id, delete, restore}
use mtproxy_orchestrator.Panel.Actions.{apply_failed}
use mtproxy_orchestrator.Panel.Batches.{delete_all, restore_all, bulk_delete}
use mtproxy_orchestrator.Bridge.Host.{TeleproxyConfig}
use mtproxy_orchestrator.Panel.Apply.{Panel, Course, fails}
use mtproxy_orchestrator.Panel.Apply.Laws.{apply-db, apply-fails}

find-delete :
    (i id : ℕ) (db : Db) (u : UserRow)
    → find (has_id i) db.users ≡ some u
    → find (has_id i) (delete id db).users
      ≡ some (if live_id id u then record u { deleted = true } else u)
unfolding delete
find-delete i id db u found =
    find-update (has_id i) (live_id id) (λ r. record r { deleted = true }) db.users (λ x. refl)
    ∙ rw found refl

find-restore :
    (i id : ℕ) (db : Db) (u : UserRow)
    → find (has_id i) db.users ≡ some u
    → find (has_id i) (restore id db).users
      ≡ some (if has_id id u then record u { deleted = false } else u)
unfolding restore
find-restore i id db u found =
    find-update (has_id i) (has_id id) (λ r. record r { deleted = false }) db.users (λ x. refl)
    ∙ rw found refl

find-delete_all :
    (fails : ℕ → Bool) (i : ℕ) (ids : List ℕ) (db : Db) (u : UserRow)
    → find (has_id i) db.users ≡ some u
    → (v : UserRow) × (find (has_id i) (delete_all fails ids db).0.users ≡ some v)
find-delete_all fails i [] db u found = (u, found)
find-delete_all fails i (id ∷ ids) db u found = elim (Bool-cases (fails id)) [
  | inl failed ↦ (u, rw failed found)
  | inr went ↦ rw went (
      find-delete_all fails i ids (delete id db)
        (if live_id id u then record u { deleted = true } else u) (find-delete i id db u found))
]

abbrev Revived : (ℕ → Bool) → ℕ → List ℕ → Db → Type 0
Revived unrestored i ids db =
    (v : UserRow) × ((find (has_id i) (restore_all unrestored ids db).users ≡ some v)
      × (v.deleted ≡ false))

-- A row that is live, or whose id is restored without an error, is live in the end.
find-restore_all :
    (unrestored : ℕ → Bool) (i : ℕ) (ids : List ℕ) (db : Db) (u : UserRow)
    → unrestored i ≡ false
    → find (has_id i) db.users ≡ some u
    → (exists (λ id. id == i) ids ≡ true) ⊎ (u.deleted ≡ false)
    → Revived unrestored i ids db
find-restore_all unrestored i [] db u works found (inl none_left) = absurd (ground arith)
find-restore_all unrestored i [] db u works found (inr live) = (u, (found, live))
find-restore_all unrestored i (id ∷ ids) db u works found h =
    let same : has_id i u ≡ true = find-pass (has_id i) db.users found in
    elim (Bool-cases (unrestored id)) [
      | inl failed ↦
          let other : (id == i) ≡ false = elim (Bool-cases (id == i)) [
            | inr e ↦ e
            | inl e ↦ absurd (cc (sym failed ∙ ap unrestored ((==_iff id i).0 e) ∙ works))
          ] in
          subst (λ b. Revived unrestored i ids (if b then db else restore id db)) (sym failed)
            (find-restore_all unrestored i ids db u works found
              (elim h [ inr live ↦ inr live | inl listed ↦ inl (ground (arith, other, listed)) ]))
      | inr went ↦
          subst (λ b. Revived unrestored i ids (if b then db else restore id db)) (sym went)
            (find-restore_all unrestored i ids (restore id db)
              (if has_id id u then record u { deleted = false } else u) works
              (find-restore i id db u found)
              (elim (Bool-cases (has_id id u)) [
                | inl hit ↦ inr (rw hit refl)
                | inr miss ↦ elim h [
                  | inr live ↦ inr (rw miss live)
                  | inl listed ↦ inl (ground (arith, same, miss, listed))
                ]
              ]))
    ]

delete_all-succeeds : (ids : List ℕ) (db : Db) → (delete_all (λ id. false) ids db).1 ≡ false
delete_all-succeeds [] db = refl
delete_all-succeeds (id ∷ ids) db = delete_all-succeeds ids (delete id db)

-- When no `Delete` fails but the reload of Teleproxy does, every row whose id is in the form and whose
-- own `Restore` does not fail ends up live, a row that was deleted before the request too.
pub bulk_delete_revives :
    (settings : TeleproxyConfig) (ids : List ℕ) (unrestored : ℕ → Bool) (reload : Course) (i : ℕ)
    (p : Panel) {u : UserRow}
    → fails reload ≡ true
    → unrestored i ≡ false
    → exists (λ id. id == i) ids ≡ true
    → find (has_id i) p.db.users ≡ some u
    → let (q, status) = bulk_delete settings ids (λ id. false) unrestored reload p in
      (status ≡ apply_failed)
      × ((v : UserRow) × ((find (has_id i) q.db.users ≡ some v) × (v.deleted ≡ false)))
unfolding bulk_delete
bulk_delete_revives settings ids unrestored reload i p {u} failed works listed found =
    let db : Db = (delete_all (λ id. false) ids p.db).0 in
    let deleted : Panel = record p { db = db } in
    let (w, there) = find-delete_all (λ id. false) i ids p.db u found in
    let (v, (is_v, live)) = find-restore_all unrestored i ids db w works there (inl listed) in
    rw (delete_all-succeeds ids p.db) (
      rw (apply-fails settings reload deleted ∙ failed) (
        refl,
        (
          v,
          (
            ap (λ d. find (has_id i) (restore_all unrestored ids d).users)
                  (apply-db settings reload deleted)
                ∙ is_v,
            live,
          ),
        ),
      ))
