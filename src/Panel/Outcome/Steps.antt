-- ===== src/Panel/Outcome/Steps.antt =====
-- The steps of a handler: what each leaves of the running Teleproxy and of its files.
use mtproxy_orchestrator.Base.{
  ℕ, String, Bool, true, false, Option, none, some, List, [], ◌∷◌, ◌≡◌, ◌⊎◌, refl, ◌∙◌, inl, inr,
  if◌then◌else◌, Bool-cases, Option-cases, List-cases, str_eq,
}
use mtproxy_orchestrator.Schema.{UserRow, Db}
use mtproxy_orchestrator.Bridge.Host.{TeleproxyConfig}
use mtproxy_orchestrator.Panel.Apply.{
  Panel, Course, fails, apply_teleproxy_config, IsInStep, IsLeft,
}
use mtproxy_orchestrator.Panel.Apply.Laws.{apply-fails, apply-loaded, apply-IsInStep}
use mtproxy_orchestrator.Panel.Users.{listed, update_secret}
use mtproxy_orchestrator.Panel.Actions.{
  Status, internal_error, not_found, apply_failed, see_other, Request, Faults, with_db, nothing,
  change_user, guarded, rotate_listed, rotate_user, with_page, handle_user_rotate, forbidden,
  bad_request,
}
use mtproxy_orchestrator.Panel.Batches.{
  Plan, change_all, undo_all, delete_all, restore_all, chosen, parsed_ids, rotation, suspension,
  change_users, on_form, bulk_delete, handle_user_rotate_all, handle_user_bulk_suspend,
  handle_user_bulk_rotate, handle_user_bulk_delete,
}
use mtproxy_orchestrator.Panel.Batches

abbrev pub is_see_other : Status → Bool
is_see_other see_other = true
is_see_other _ = false

module _ (settings : TeleproxyConfig) where
  -- The answer is an error, and the running Teleproxy is as before, unless the reload has failed; or it
  -- is the plain redirect, and Teleproxy and its files have the users of the tables.
  abbrev pub IsAnswered : Course → Panel → Panel × Status → Type 0
  IsAnswered c p r =
      ((is_see_other r.1 ≡ false) × IsLeft c p r.0)
      ⊎ ((is_see_other r.1 ≡ true) × IsInStep settings r.0)

  reloaded :
      (c : Course) (p q : Panel) (back : Panel → Panel)
      → q.loaded ≡ p.loaded
      → ((x : Panel) → (back x).loaded ≡ x.loaded)
      → IsAnswered c p (
          let (x, failed) = apply_teleproxy_config settings c q in
          if failed then (back x, apply_failed) else (x, see_other))
  reloaded c p q back same keeps = elim (Bool-cases (fails c)) [
    | inl failed ↦
        let kept = keeps (apply_teleproxy_config settings c q).0 in
        rw (apply-fails settings c q ∙ failed) (
          inl (
            refl,
            elim (apply-loaded settings c q failed) [
              | inl before ↦ inl (kept ∙ before ∙ same)
              | inr (after, (is, left)) ↦ inr (after, (is, kept ∙ left))
            ],
          ))
    | inr fine ↦ rw (apply-fails settings c q ∙ fine) (inr (refl, apply-IsInStep settings c q fine))
  ]

  pub change_user-IsAnswered :
      (f : Faults) (change undo : UserRow → Db → Db) (id : ℕ) (p : Panel)
      → IsAnswered f.reload p (change_user settings f internal_error change undo nothing id p)
  unfolding change_user
  change_user-IsAnswered f change undo id p = elim (Bool-cases f.list) [
    | inl e ↦ rw e (inl (refl, inl refl))
    | inr e ↦ elim (Option-cases (listed id p.db)) [
      | inl missing ↦ rw e (rw missing (inl (refl, inl refl)))
      | inr (u, found) ↦ elim (Bool-cases f.change) [
        | inl c ↦ rw e (rw found (rw c (inl (refl, inl refl))))
        | inr c ↦ rw e (
            rw found (
              rw c (
                reloaded f.reload p (with_db (change u) p)
                  (λ q. if f.undo then q else with_db (undo u) q) refl
                  (λ q. elim (Bool-cases f.undo) [ inl b ↦ rw b refl | inr b ↦ rw b refl ]))))
      ]
    ]
  ]

  pub guarded-IsAnswered :
      (c : Course) (r : Request) (body : ℕ → Panel → Panel × Status) (p : Panel)
      → ((id : ℕ) → IsAnswered c p (body id p))
      → IsAnswered c p (guarded settings r body p)
  guarded-IsAnswered c r body p answered = elim (Bool-cases r.csrf_valid) [
    | inl e ↦ rw e (elim (Option-cases r.id) [
      | inl i ↦ rw i (inl (refl, inl refl))
      | inr (id, i) ↦ rw i (answered id)
    ])
    | inr e ↦ rw e (inl (refl, inl refl))
  ]

  if-IsAnswered :
      (c : Course) (p : Panel) (b : Bool) (x y : Panel × Status)
      → IsAnswered c p x
      → IsAnswered c p y
      → IsAnswered c p (if b then x else y)
  if-IsAnswered c p true x y hx hy = hx
  if-IsAnswered c p false x y hx hy = hy

  rotate_listed-IsAnswered :
      (f : Faults) (change : Panel → Panel × Status) (found : Option UserRow) (p : Panel)
      → IsAnswered f.reload p (change p)
      → IsAnswered f.reload p (rotate_listed settings f change found p)
  unfolding rotate_listed
  rotate_listed-IsAnswered f change none p h = elim (Bool-cases f.list) [
    | inl e ↦ rw e (inl (refl, inl refl))
    | inr e ↦ rw e (inl (refl, inl refl))
  ]
  rotate_listed-IsAnswered f change (some u) p h =
      if-IsAnswered f.reload p f.list (p, internal_error)
        (if str_eq u.secret_hex "" then (p, not_found) else change p) (inl (refl, inl refl))
        (if-IsAnswered f.reload p (str_eq u.secret_hex "") (p, not_found) (change p)
          (inl (refl, inl refl)) h)

  pub rotate_user-IsAnswered :
      (secret : Option String) (f : Faults) (now later id : ℕ) (p : Panel)
      → IsAnswered f.reload p (rotate_user settings secret f now later id p)
  unfolding rotate_user
  rotate_user-IsAnswered none f now later id p = inl (refl, inl refl)
  rotate_user-IsAnswered (some s) f now later id p =
      rotate_listed-IsAnswered f
        (change_user settings f internal_error (λ u. update_secret id s now)
          (λ u. update_secret id u.secret_hex later) nothing id)
        (listed id p.db) p
        (change_user-IsAnswered f (λ u. update_secret id s now)
          (λ u. update_secret id u.secret_hex later) id p)

  -- A rotation's answer is an error too where its page cannot be made.
  abbrev pub IsRotated : Course → Bool → Panel → Panel × Status → Type 0
  IsRotated c made p r =
      IsAnswered c p r ⊎ ((made ≡ false) × ((r.1 ≡ internal_error) × IsInStep settings r.0))

  with_page-IsRotated :
      (c : Course) (made : Bool) (p : Panel) (r : Panel × Status)
      → IsAnswered c p r
      → IsRotated c made p (with_page settings made r)
  with_page-IsRotated c true p (q, see_other) h = inl h
  with_page-IsRotated c false p (q, see_other) (inl h) = absurd (cc (h.0))
  with_page-IsRotated c false p (q, see_other) (inr h) = inr (refl, (refl, h.1))
  with_page-IsRotated c made p (q, forbidden) h = inl h
  with_page-IsRotated c made p (q, bad_request) h = inl h
  with_page-IsRotated c made p (q, internal_error) h = inl h
  with_page-IsRotated c made p (q, not_found) h = inl h
  with_page-IsRotated c made p (q, apply_failed) h = inl h

  pub handle_user_rotate-IsRotated :
      (r : Request) (secret : Option String) (f : Faults) (made : Bool) (now later : ℕ) (p : Panel)
      → IsRotated f.reload made p (handle_user_rotate settings r secret f made now later p)
  unfolding handle_user_rotate
  handle_user_rotate-IsRotated r secret f made now later p = elim (Bool-cases r.csrf_valid) [
    | inr e ↦ rw e (inl (inl (refl, inl refl)))
    | inl e ↦ rw e (elim (Option-cases r.id) [
      | inl i ↦ rw i (inl (inl (refl, inl refl)))
      | inr (id, i) ↦ rw i (
          with_page-IsRotated f.reload made p (rotate_user settings secret f now later id p)
            (rotate_user-IsAnswered secret f now later id p))
    ])
  ]

  pub change_users-IsAnswered :
      (f : Batches.Faults) (plan : Plan) (us : List UserRow) (p : Panel)
      → IsAnswered f.reload p (change_users settings f plan us p)
  unfolding change_users
  change_users-IsAnswered f plan us p =
      let noted = (change_all f.change plan us [] p.db).1.0 in
      let changed : Panel = record p { db = (change_all f.change plan us [] p.db).0 } in
      elim (Bool-cases (change_all f.change plan us [] p.db).1.1) [
        | inl broke ↦ rw broke (inl (refl, inl refl))
        | inr went ↦ rw went (
            reloaded f.reload p changed (λ q. with_db (undo_all f.undo plan noted) q) refl
              (λ q. refl))
      ]

  pub bulk_delete-IsAnswered :
      (ids : List ℕ) (fails unrestored : ℕ → Bool) (c : Course) (p : Panel)
      → IsAnswered c p (bulk_delete settings ids fails unrestored c p)
  unfolding bulk_delete
  bulk_delete-IsAnswered ids fails unrestored c p =
      let deleted : Panel = record p { db = (delete_all fails ids p.db).0 } in
      elim (Bool-cases (delete_all fails ids p.db).1) [
        | inl broke ↦ rw broke (inl (refl, inl refl))
        | inr went ↦
            rw went
              (reloaded c p deleted (λ q. with_db (restore_all unrestored ids) q) refl (λ q. refl))
      ]

  -- Unless a form without a user has left the panel as it was.
  abbrev pub IsAnsweredBulk : Course → Panel → Panel × Status → Type 0
  IsAnsweredBulk c p r = (r.0 ≡ p) ⊎ IsAnswered c p r

  pub on_form-IsAnswered :
      (c : Course) (csrf_valid : Bool) (ids : List (Option ℕ)) (list_fails : Bool)
      (body : List ℕ → Panel → Panel × Status) (p : Panel)
      → ((js : List ℕ) → IsAnswered c p (body js p))
      → IsAnsweredBulk c p (on_form settings csrf_valid ids list_fails body p)
  on_form-IsAnswered c false ids list_fails body p answered = inl refl
  on_form-IsAnswered c true [] list_fails body p answered = inl refl
  on_form-IsAnswered c true (i ∷ is) true body p answered = inl refl
  on_form-IsAnswered c true (i ∷ is) false body p answered =
      elim (List-cases (parsed_ids (i ∷ is))) [
        | inl none_left ↦ rw none_left (inl refl)
        | inr (j, (js, e)) ↦ rw e (inr (answered (j ∷ js)))
      ]
