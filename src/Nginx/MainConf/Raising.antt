-- ===== src/Nginx/MainConf/Raising.antt =====
-- One half of `PatchMainConf`, internal/nginx/mainconf.go: what the raising or the insertion of a
-- directive leaves, and when it changes nothing.
use mtproxy_orchestrator.Base.{
  Bool, true, false, Option, none, some, List, [], ◌∷◌, ◌++◌, if◌then◌else◌, ◌≡◌, refl, ap, ◌∙◌,
  ◌⊎◌, inl, inr, arith, subst, All, Bool-cases, Option-cases, sym,
}
use mtproxy_orchestrator.Update.Text.{Text, atoi}
use mtproxy_orchestrator.Nginx.MainConf.{
  is_blank, match_directive, managed, Setting, below, raise, patch_directive, first, insert_after,
  insert_missing, settle, or_else, raise_matched,
}
use mtproxy_orchestrator.Nginx.MainConf.Lines.{match_directive-blank}

-- The directive that a search found is not below the floor.
abbrev pub Kept : Setting → Option (Text × Text) → Type 0
Kept st none = Unit
Kept st (some m) = below st.floor (atoi m.1) ≡ false

abbrev pub test : (Text → Bool) → Text → Option (Unit {0})
test p l = if p l then some tt else none

insert_after-none :
    (p : Text → Bool) (new : Text) (ls : List Text)
    → first (test p) ls ≡ none
    → insert_after p new ls ≡ ls
unfolding first insert_after
insert_after-none p new [] h = refl
insert_after-none p new (l ∷ ls) h = ground (arith, h, insert_after-none p new ls)

-- An insertion is not seen by a matcher that does not match the new line.
first-insert_after {ℓ} :
    {A : Type ℓ} (match : Text → Option A) (p : Text → Bool) (new : Text) (ls : List Text)
    → match new ≡ none
    → first match (insert_after p new ls) ≡ first match ls
unfolding first insert_after
first-insert_after match p new [] h = refl
first-insert_after match p new (l ∷ ls) h = ground (arith, h, first-insert_after match p new ls h)

-- A matcher that matched nothing finds the new line, where it is inserted.
first-insert_after_new {ℓ} :
    {A : Type ℓ} (match : Text → Option A) (p : Text → Bool) (new : Text) (ls : List Text) {m : A}
    → first match ls ≡ none
    → match new ≡ some m
    → (first match (insert_after p new ls) ≡ some m)
      ⊎ ((insert_after p new ls ≡ ls) × (first (test p) ls ≡ none))
unfolding first insert_after
first-insert_after_new match p new [] h is = inr (refl, refl)
first-insert_after_new match p new (l ∷ ls) {m} h is =
    grind (arith, first-insert_after_new match p new ls {m = m})

module _ (st : Setting) where
  patch_directive-Kept :
      (ls : List Text) → Kept st (first (match_directive st.name) ls) → patch_directive st ls ≡ ls
  unfolding first patch_directive raise
  patch_directive-Kept [] h = refl
  patch_directive-Kept (l ∷ ls) h = elim (Option-cases (match_directive st.name l)) [
    | inl e ↦
        let rest = subst (λ o. Kept st (or_else o (first (match_directive st.name) ls))) e h in
        ap (λ o. raise_matched st o l ls (patch_directive st ls)) e
        ∙ ap (λ t. l ∷ t) (patch_directive-Kept ls rest)
    | inr (m, e) ↦
        let high = subst (λ o. Kept st (or_else o (first (match_directive st.name) ls))) e h in
        ap (λ o. raise_matched st o l ls (patch_directive st ls)) e
        ∙ ap (λ (b : Bool). (if b then m.0 ++ managed st else l) ∷ ls) high
  ]

  abbrev pub Settled : (Text → Bool) → List Text → Type 0
  Settled p ls =
      Kept st (first (match_directive st.name) ls)
      × ((first (match_directive st.name) ls ≡ none) → first (test p) ls ≡ none)

  -- A half changes nothing where its directive is settled.
  pub settle-Settled' :
      (p : Text → Bool) (new : Text) (ls : List Text) → Settled p ls → settle st p new ls ≡ ls
  unfolding settle insert_missing
  settle-Settled' p new ls (kept, place) =
      ap (λ t. insert_missing (first (match_directive st.name) t) p new t)
        (patch_directive-Kept ls kept)
      ∙ elim (Option-cases (first (match_directive st.name) ls)) [
        | inl e ↦ rw e (insert_after-none p new ls (place e))
        | inr (m, e) ↦ rw e refl
      ]

  -- A matcher that sees neither the lines with the directive nor the written ones.
  abbrev pub Blind {ℓ} : {A : Type ℓ} → (Text → Option A) → Type ℓ
  Blind match =
      (l : Text) (m : Text × Text)
      → match_directive st.name l ≡ some m
      → (match l ≡ none) × (match (m.0 ++ managed st) ≡ none)

  first-patch_directive {ℓ} :
      {A : Type ℓ} (match : Text → Option A) (ls : List Text)
      → Blind match
      → first match (patch_directive st ls) ≡ first match ls
  unfolding first patch_directive raise
  first-patch_directive match [] blind = refl
  first-patch_directive match (l ∷ ls) blind = elim (Option-cases (match_directive st.name l)) [
    | inl e ↦
        ap (λ o. first match (raise_matched st o l ls (patch_directive st ls))) e
        ∙ ap (λ o. or_else (match l) o) (first-patch_directive match ls blind)
    | inr (m, e) ↦
        let (old, new) = blind l m e in
        ap (λ o. first match (raise_matched st o l ls (patch_directive st ls))) e
        ∙ elim (Bool-cases (below st.floor (atoi m.1))) [
          | inl low ↦ rw (low, old, new) refl
          | inr high ↦ rw high refl
        ]
  ]

  -- Such a matcher finds the same line behind a half.
  pub first-settle {ℓ} :
      {A : Type ℓ} (match : Text → Option A) (p : Text → Bool) (new : Text) (ls : List Text)
      → Blind match
      → match new ≡ none
      → first match (settle st p new ls) ≡ first match ls
  unfolding settle insert_missing
  first-settle match p new ls blind unseen =
      elim (Option-cases (first (match_directive st.name) (patch_directive st ls))) [
        | inl e ↦ rw e (first-insert_after match p new (patch_directive st ls) unseen)
        | inr (m, e) ↦ rw e refl
      ]
      ∙ first-patch_directive match ls blind

module _ (st : Setting)
    (found : (i : Text)
      → All (λ c. is_blank c ≡ true) i
      → match_directive st.name (i ++ managed st) ≡ some (i, st.digits))
    (enough : below st.floor (atoi st.digits) ≡ false) where
  Kept-raise :
      (m : Text × Text) (l : Text)
      → match_directive st.name l ≡ some m
      → (o : Option (Text × Text)) → Kept st (or_else (match_directive st.name (raise st m l)) o)
  unfolding raise
  Kept-raise m l e o = elim (Bool-cases (below st.floor (atoi m.1))) [
    | inl low ↦
        let again = found m.0 (match_directive-blank st.name l e) in
        rw low (subst (λ x. Kept st (or_else x o)) (sym again) enough)
    | inr high ↦ rw high (subst (λ x. Kept st (or_else x o)) (sym e) high)
  ]

  Kept-patch_directive :
      (ls : List Text) → Kept st (first (match_directive st.name) (patch_directive st ls))
  unfolding first patch_directive
  Kept-patch_directive [] = tt
  Kept-patch_directive (l ∷ ls) = elim (Option-cases (match_directive st.name l)) [
    | inl e ↦
        let rest = first (match_directive st.name) (patch_directive st ls) in
        let seen : Kept st (or_else (match_directive st.name l) rest) =
          subst (λ x. Kept st (or_else x rest)) (sym e) (Kept-patch_directive ls) in
        subst
          (λ o.
            Kept st
              (first (match_directive st.name) (raise_matched st o l ls (patch_directive st ls))))
          (sym e) seen
    | inr (m, e) ↦
        subst
          (λ o.
            Kept st
              (first (match_directive st.name) (raise_matched st o l ls (patch_directive st ls))))
          (sym e) (Kept-raise m l e (first (match_directive st.name) ls))
  ]

  insert_missing-Settled :
      (p : Text → Bool) (new : Text) (ls : List Text) {m : Text × Text}
      → match_directive st.name new ≡ some m
      → below st.floor (atoi m.1) ≡ false
      → Kept st (first (match_directive st.name) ls)
      → Settled st p (insert_missing (first (match_directive st.name) ls) p new ls)
  unfolding insert_missing
  insert_missing-Settled p new ls {m} is high kept =
      elim (Option-cases (first (match_directive st.name) ls)) [
        | inl e ↦
            subst (λ o. Settled st p (insert_missing o p new ls)) (sym e)
              (elim (first-insert_after_new (match_directive st.name) p new ls e is) [
                | inl now ↦ (subst (λ o. Kept st o) (sym now) high, λ gone. cc)
                | inr (same, away) ↦ subst (λ t. Settled st p t) (sym same) (kept, λ gone. away)
              ])
        | inr (found_m, e) ↦
            subst (λ o. Settled st p (insert_missing o p new ls)) (sym e) (kept, λ gone. cc)
      ]

  -- A half settles its directive: it is not below its floor, or there is no place for it.
  pub settle-Settled :
      (p : Text → Bool) (new : Text) (ls : List Text) {m : Text × Text}
      → match_directive st.name new ≡ some m
      → below st.floor (atoi m.1) ≡ false
      → Settled st p (settle st p new ls)
  unfolding settle
  settle-Settled p new ls is high =
      insert_missing-Settled p new (patch_directive st ls) is high (Kept-patch_directive ls)
