-- ===== src/Panel/Batches/Refused.antt =====
-- The handlers that rotate or suspend several users, when they answer with an error.
use mtproxy_orchestrator.Base.{
  ℕ, String, Bool, true, false, not, Option, some, List, [], ◌∷◌, ◌≡◌, ◌≢◌, ◌⊎◌, refl, sym, ap, inl,
  inr, arith, Bool-cases, Option-cases, List-cases, All, All-map, map, filter, subst,
}
use mtproxy_orchestrator.Base.Sql.{Distinct, find-pass}
use mtproxy_orchestrator.Schema.{UserRow, Db}
use mtproxy_orchestrator.Quota.Service.{list_users}
use mtproxy_orchestrator.Bridge.Host.{TeleproxyConfig}
use mtproxy_orchestrator.Panel.Apply.{Panel, apply_teleproxy_config}
use mtproxy_orchestrator.Panel.Apply.Laws.{apply-db}
use mtproxy_orchestrator.Panel.Users.{live_id, live_row, set_suspended, update_secret}
use mtproxy_orchestrator.Panel.Actions.{Status, see_other}
use mtproxy_orchestrator.Panel.Actions.Rows.{only_row}
use mtproxy_orchestrator.Panel.Batches.{
  Plan, Faults, change_all, undo_all, chosen, parsed_ids, rotation, suspension, change_users,
  on_form, handle_user_rotate_all, handle_user_bulk_suspend, handle_user_bulk_rotate,
}
use mtproxy_orchestrator.Panel.Batches.Rows.{Pairwise, Pairwise-map, Pairwise-refl, Owns, IsField}
use mtproxy_orchestrator.Panel.Batches.Undo.{Changed, Undone, change_all-Kept, undo_all-erase}

abbrev unsuspended : UserRow → UserRow
unsuspended r = record r { quota_suspended = false }

abbrev pub without_rotation : UserRow → UserRow
without_rotation r = record r { rotated_at = 0 }

abbrev without_secret : UserRow → UserRow
without_secret r = record r { secret_hex = ""; rotated_at = 0 }

some-injective {ℓ} : {A : Type ℓ} {x y : A} → some x ≡ some y → x ≡ y
some-injective e = cc

suspension-IsField : IsField suspension unsuspended (λ r. r)
unfolding set_suspended
suspension-IsField = record {
  changes =
      λ u h e. (λ r. record r { quota_suspended = true }, (sym (some-injective e), λ r. refl));
  back = λ u r. record r { quota_suspended = u.quota_suspended };
  undoes = λ u. refl;
  back_blank = λ u r. refl;
  restores = λ u r e. ap (λ (z : UserRow). record z { quota_suspended = u.quota_suspended }) e;
  same_key = λ x y e. (ap (λ (z : UserRow). z.id) e, ap (λ (z : UserRow). z.deleted) e);
}

rotation-IsField :
    (first : Bool) (secret : UserRow → Option String) (now later : ℕ)
    → IsField (rotation first secret now later) without_secret without_rotation
unfolding update_secret
rotation-IsField first secret now later = record {
  changes = λ u h e. elim (Option-cases (secret u)) [
    | inl missing ↦ absurd (cc (rw missing at e))
    | inr (s, found) ↦ (
      λ r. record r { secret_hex = s; rotated_at = now },
      (sym (some-injective (rw found at e)), λ r. refl),
    )
  ];
  back = λ u r. record r { secret_hex = u.secret_hex; rotated_at = later };
  undoes = λ u. refl;
  back_blank = λ u r. refl;
  restores = λ u r e. ap (λ (z : UserRow). record z { secret_hex = u.secret_hex }) e;
  same_key = λ x y e. (ap (λ (z : UserRow). z.id) e, ap (λ (z : UserRow). z.deleted) e);
}

chosen-Owns :
    (ids : List ℕ) (db : Db) → Distinct (λ u. u.id) db.users → All (Owns db.users) (chosen ids db)
chosen-Owns [] db d = tt
chosen-Owns (id ∷ ids) db d = elim (Option-cases (live_row id db)) [
  | inl missing ↦
      let is : chosen (id ∷ ids) db ≡ chosen ids db = rw (missing, chosen) refl in
      subst (All (Owns db.users)) (sym is) (chosen-Owns ids db d)
  | inr (u, found) ↦
      let is : chosen (id ∷ ids) db ≡ u ∷ chosen ids db = rw (found, chosen) refl in
      let at_id : live_id id u ≡ true = find-pass (live_id id) db.users found in
      subst (All (Owns db.users)) (sym is) (
        All-map (λ x. x.id ≡ id → x ≡ u) (λ x. live_id u.id x ≡ true → x ≡ u) db.users
            (λ x only l. only (ground (arith, at_id, l))) (only_row id db.users u d found),
        chosen-Owns ids db d,
      )
]

Owns-cons :
    (x : UserRow) (xs us : List UserRow)
    → All (λ y. x.id ≢ y.id) us
    → All (Owns xs) us
    → All (Owns (x ∷ xs)) us
Owns-cons x xs [] d a = tt
Owns-cons x xs (u ∷ us) d a =
    ((λ l. absurd (d.0 (ground (arith, l))), a.0), Owns-cons x xs us d.1 a.1)

rows-Owns : (xs : List UserRow) → Distinct (λ u. u.id) xs → All (Owns xs) xs
rows-Owns [] d = tt
rows-Owns (x ∷ xs) d = (
  (
    λ l. refl,
    All-map (λ y. x.id ≢ y.id) (λ y. live_id x.id y ≡ true → y ≡ x) xs
        (λ y ne l. absurd (ne (sym (ground (arith, l))))) d.0,
  ),
  Owns-cons x xs xs d.0 (rows-Owns xs d.1),
)

All-filter :
    (P : UserRow → Type 0) (q : UserRow → Bool) (xs : List UserRow) → All P xs → All P (filter q xs)
All-filter P q [] a = tt
All-filter P q (x ∷ xs) a = elim (Bool-cases (q x)) [
  | inl e ↦ rw e (a.0, All-filter P q xs a.1)
  | inr e ↦ rw e (All-filter P q xs a.1)
]

-- The answer is the redirect without an error, or the rows are as before, up to what `erase` drops.
abbrev pub IsUndone : (UserRow → UserRow) → Panel → Panel × Status → Type 0
IsUndone erase p r = (r.1 ≡ see_other) ⊎ (map erase r.0.db.users ≡ map erase p.db.users)

module _ (settings : TeleproxyConfig) (plan : Plan) (blank erase : UserRow → UserRow)
    (field : IsField plan blank erase) where
  change_users-IsUndone :
      (f : Faults) (us : List UserRow) (p : Panel)
      → All (Owns p.db.users) us
      → (λ u. false) ≡ f.undo
      → IsUndone erase p (change_users settings f plan us p)
  unfolding change_users
  change_users-IsUndone f us p own undone =
      let kept = change_all-Kept plan blank erase field p.db.users f.change us [] p.db tt own (
        Pairwise-refl (Changed plan blank erase field p.db.users []) p.db.users
          (λ x. (refl, inl refl))) in
      let noted = (change_all f.change plan us [] p.db).1.0 in
      let changed : Panel = record p { db = (change_all f.change plan us [] p.db).0 } in
      let put_back : (db : Db)
          → db ≡ changed.db
          → map erase (undo_all f.undo plan noted db).users ≡ map erase p.db.users =
        λ db same.
          subst (λ g. map erase (undo_all g plan noted db).users ≡ map erase p.db.users) undone
            (undo_all-erase plan blank erase field p.db.users noted db kept.0 (
              subst
                (λ d. Pairwise (Undone plan blank erase field p.db.users noted) p.db.users d.users)
                (sym same)
                (Pairwise-map (Changed plan blank erase field p.db.users noted)
                  (Undone plan blank erase field p.db.users noted) p.db.users changed.db.users
                  (λ x y (e, h). (e, elim h [ inl s ↦ inl (ap erase s) | inr r ↦ inr r ]))
                  kept.1))) in
      elim (Bool-cases (change_all f.change plan us [] p.db).1.1) [
        | inl broke ↦ rw broke (inr (put_back changed.db refl))
        | inr went ↦ elim (Bool-cases (apply_teleproxy_config settings f.reload changed).1) [
          | inl failed ↦ rw went (
              rw failed (
                inr (
                  put_back (apply_teleproxy_config settings f.reload changed).0.db
                    (apply-db settings f.reload changed))))
          | inr fine ↦ rw went (rw fine (inl refl))
        ]
      ]

on_form-IsUndone :
    (settings : TeleproxyConfig) (erase : UserRow → UserRow) (csrf_valid : Bool)
    (ids : List (Option ℕ)) (list_fails : Bool) (body : List ℕ → Panel → Panel × Status) (p : Panel)
    → ((js : List ℕ) → IsUndone erase p (body js p))
    → IsUndone erase p (on_form settings csrf_valid ids list_fails body p)
on_form-IsUndone settings erase false ids list_fails body p undone = inr refl
on_form-IsUndone settings erase true [] list_fails body p undone = inl refl
on_form-IsUndone settings erase true (i ∷ is) true body p undone = inr refl
on_form-IsUndone settings erase true (i ∷ is) false body p undone =
    elim (List-cases (parsed_ids (i ∷ is))) [
      | inl none_left ↦ rw none_left (inl refl)
      | inr (j, (js, e)) ↦ rw e (undone (j ∷ js))
    ]

-- With distinct ids and no failing undo, whatever fails and whatever the form holds: unless the handler
-- that suspends several users answers with the plain redirect, every row is as before, and unless
-- those that rotate all or several secrets do, every row is as before but for the time of its rotation.
pub batches-IsUndone :
    (settings : TeleproxyConfig) (csrf_valid : Bool) (ids : List (Option ℕ))
    (secret : UserRow → Option String) (now later : ℕ) (f : Faults) (p : Panel)
    → Distinct (λ u. u.id) p.db.users
    → ((u : UserRow) → f.undo u ≡ false)
    → IsUndone (λ u. u) p (handle_user_bulk_suspend settings csrf_valid ids f p)
      × (IsUndone without_rotation p
            (handle_user_bulk_rotate settings csrf_valid ids secret now later f p)
          × IsUndone without_rotation p
              (handle_user_rotate_all settings csrf_valid secret now later f p))
unfolding handle_user_bulk_suspend handle_user_bulk_rotate handle_user_rotate_all
batches-IsUndone settings csrf_valid ids secret now later f p d undone =
    let back : (λ (u : UserRow). false) ≡ f.undo = λ i u. sym (undone u) i in
    (
      on_form-IsUndone settings (λ u. u) csrf_valid ids f.list
          (λ js q. change_users settings f suspension (chosen js q.db) q) p
          (λ js.
            change_users-IsUndone settings suspension unsuspended (λ u. u) suspension-IsField f
              (chosen js p.db) p (chosen-Owns js p.db d) back),
      (
        on_form-IsUndone settings without_rotation csrf_valid ids f.list
            (λ js q. change_users settings f (rotation true secret now later) (chosen js q.db) q) p
            (λ js.
              change_users-IsUndone settings (rotation true secret now later) without_secret
                without_rotation (rotation-IsField true secret now later) f (chosen js p.db) p
                (chosen-Owns js p.db d) back),
        elim (Bool-cases csrf_valid) [
          | inr off ↦ rw off (inr refl)
          | inl on ↦ elim (Bool-cases f.list) [
            | inl e ↦ rw on (rw e (inr refl))
            | inr e ↦ rw on (
                rw e (
                  change_users-IsUndone settings (rotation false secret now later) without_secret
                    without_rotation (rotation-IsField false secret now later) f
                    (filter (λ u. u.enabled) (list_users p.db)) p
                    (All-filter (Owns p.db.users) (λ u. u.enabled) (list_users p.db)
                      (All-filter (Owns p.db.users) (λ u. not u.deleted) p.db.users
                        (rows-Owns p.db.users d)))
                    back))
          ]
        ],
      ),
    )
