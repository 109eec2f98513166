-- ===== src/Panel/Batches/Undo.antt =====
-- A batch that is refused puts back every row.
use mtproxy_orchestrator.Base.{
  Bool, true, false, ◌==◌, List, [], ◌∷◌, ◌++◌, ◌≡◌, ◌⊎◌, refl, sym, ap, ◌∙◌, inl, inr, arith,
  if◌then◌else◌, Bool-cases, Option-cases, All, All-append, map, subst,
}
use mtproxy_orchestrator.Schema.{UserRow, Db}
use mtproxy_orchestrator.Panel.Users.{live_id, update_users}
use mtproxy_orchestrator.Panel.Batches.{Plan, change_all, undo_all}
use mtproxy_orchestrator.Panel.Batches.Rows.{
  Pairwise, Pairwise-update, Pairwise-map, Pairwise-erase, Owns, hit, hit-concat, hit_last, IsField,
}

All-Unit : (us : List UserRow) → All {0, 0} (λ u. Unit) us
All-Unit [] = tt
All-Unit (u ∷ us) = (tt, All-Unit us)

module _ (plan : Plan) (blank erase : UserRow → UserRow) (field : IsField plan blank erase)
    (xs : List UserRow) where
  abbrev pub Changed : List UserRow → UserRow → UserRow → Type 0
  Changed noted x y = (blank y ≡ blank x) × ((y ≡ x) ⊎ ((hit noted x ≡ true) × (x.deleted ≡ false)))

  change-step :
      (noted : List UserRow) (u : UserRow) (g : UserRow → UserRow)
      → ((r : UserRow) → blank (g r) ≡ blank r)
      → (x y : UserRow) → Changed noted x y
      → Changed (noted ++ u ∷ []) x (if live_id u.id y then g y else y)
  change-step noted u g keeps x y (e, h) = elim (Bool-cases (live_id u.id y)) [
    | inl now ↦
        let key = field.same_key x y e in
        let same : (u.id == x.id) ≡ true = ground (arith, now, key.0) in
        rw now (keeps y ∙ e, inr (hit_last noted u x same, ground (arith, now, key.1)))
    | inr off ↦ rw off (e, elim h [ inl p ↦ inl p | inr (p, d) ↦ inr (hit-concat noted u x p, d) ])
  ]

  note-step :
      (noted : List UserRow) (u x y : UserRow) → Changed noted x y → Changed (noted ++ u ∷ []) x y
  note-step noted u x y (e, h) =
      (e, elim h [ inl p ↦ inl p | inr (p, d) ↦ inr (hit-concat noted u x p, d) ])

  abbrev pub Kept : Db × (List UserRow × Bool) → Type 0
  Kept r = All (Owns xs) r.1.0 × Pairwise (Changed r.1.0) xs r.0.users

  pub change_all-Kept :
      (fails : UserRow → Bool) (us noted : List UserRow) (db : Db)
      → All (Owns xs) noted
      → All (Owns xs) us
      → Pairwise (Changed noted) xs db.users
      → Kept (change_all fails plan us noted db)
  unfolding change_all
  change_all-Kept fails [] noted db own ours p = (own, p)
  change_all-Kept fails (u ∷ us) noted db own ours p = elim (Option-cases (plan.change u)) [
    | inl missing ↦
        let is : change_all fails plan (u ∷ us) noted db ≡ (db, (noted, true)) =
          rw (missing, change_all) refl in
        subst Kept (sym is) (own, p)
    | inr (h, found) ↦ elim (Bool-cases (fails u)) [
      | inl failed ↦
          let is : change_all fails plan (u ∷ us) noted db
              ≡ (db, (if plan.noted_first then noted ++ u ∷ [] else noted, true)) =
            rw (found, change_all) (rw failed refl) in
          subst Kept (sym is) (elim (Bool-cases plan.noted_first) [
            | inl first ↦ rw first (
              All-append (Owns xs) noted (u ∷ []) own (ours.0, tt),
              Pairwise-map (Changed noted) (Changed (noted ++ u ∷ [])) xs db.users
                  (note-step noted u) p,
            )
            | inr after ↦ rw after (own, p)
          ])
      | inr went ↦
          let (g, (same, keeps)) = field.changes u h found in
          let step : Pairwise (Changed (noted ++ u ∷ [])) xs
              (update_users (live_id u.id) g db).users =
            Pairwise-update (λ x. Unit) (Changed noted) (Changed (noted ++ u ∷ [])) (live_id u.id) g
              xs db.users (λ x y t c. change-step noted u g keeps x y c) (All-Unit xs) p in
          let is : change_all fails plan (u ∷ us) noted db
              ≡ change_all fails plan us (noted ++ u ∷ []) (h db) =
            rw (found, change_all) (rw went refl) in
          subst Kept (sym is) (
            change_all-Kept fails us (noted ++ u ∷ []) (h db)
              (All-append (Owns xs) noted (u ∷ []) own (ours.0, tt)) ours.1
              (subst (λ k. Pairwise (Changed (noted ++ u ∷ [])) xs (k db).users) (sym same) step))
    ]
  ]

  abbrev pub Undone : List UserRow → UserRow → UserRow → Type 0
  Undone noted x y =
      (blank y ≡ blank x) × ((erase y ≡ erase x) ⊎ ((hit noted x ≡ true) × (x.deleted ≡ false)))

  undo-step :
      (u : UserRow) (us : List UserRow) (x y : UserRow)
      → (live_id u.id x ≡ true → x ≡ u)
      → Undone (u ∷ us) x y
      → Undone us x (if live_id u.id y then field.back u y else y)
  undo-step u us x y own (e, h) =
      let key = field.same_key x y e in
      elim (Bool-cases (live_id u.id y)) [
        | inl now ↦
            let same : x ≡ u = own (ground (arith, now, key.0, key.1)) in
            rw now (
              field.back_blank u y ∙ e,
              inl (field.restores u y (e ∙ ap blank same) ∙ sym (ap erase same)),
            )
        | inr off ↦ rw off (
          e,
          elim h [ inl p ↦ inl p | inr (p, d) ↦ inr (ground (arith, off, p, d, key.0, key.1), d) ],
        )
      ]

  pub undo_all-erase :
      (noted : List UserRow) (db : Db)
      → All (Owns xs) noted
      → Pairwise (Undone noted) xs db.users
      → map erase (undo_all (λ u. false) plan noted db).users ≡ map erase xs
  unfolding undo_all
  undo_all-erase [] db own p = Pairwise-erase erase xs db.users (
      Pairwise-map (Undone []) (λ x y. erase y ≡ erase x) xs db.users
        (λ x y (e, h). elim h [ inl same ↦ same | inr (none_left, d) ↦ absurd (ground arith) ]) p)
  undo_all-erase (u ∷ us) db own p = undo_all-erase us (plan.undo u db) own.1 (
      subst (λ k. Pairwise (Undone us) xs (k db).users) (sym (field.undoes u))
        (Pairwise-update (λ x. live_id u.id x ≡ true → x ≡ u) (Undone (u ∷ us)) (Undone us)
          (live_id u.id) (field.back u) xs db.users (undo-step u us) own.0 p))
