-- ===== src/Nginx/MainConf/Breaks.antt =====
-- The lines of a text, as the regular expressions of internal/nginx/mainconf.go see them: splitting
-- and joining, and that the patch writes no line break into a line.
use mtproxy_orchestrator.Base.{
  ℕ, Bool, true, false, not, ◌&&◌, Option, none, some, List, [], ◌∷◌, ◌++◌, ◌==◌, ◌≡◌, ◌≢◌, refl,
  sym, ap, ◌∙◌, inl, inr, arith, subst, All, All-map, All-append, Bool-cases, Option-cases,
}
use mtproxy_orchestrator.Update.Text.{Text, split, put_first, atoi}
use mtproxy_orchestrator.Nginx.MainConf.{
  is_blank, match_directive, managed, Setting, below, first, settle, join_lines, raise,
  raise_matched, patch_directive, insert_after, insert_missing,
}
use mtproxy_orchestrator.Nginx.MainConf.Lines.{match_directive-blank}

-- No line has a line break in it.
abbrev pub NoBreak : Text → Type 0
NoBreak l = All (λ c. (c == 10) ≡ false) l

abbrev pub is_unbroken : Text → Bool
is_unbroken [] = true
is_unbroken (c ∷ l) = not (c == 10) && is_unbroken l

pub is_unbroken-NoBreak : (l : Text) → is_unbroken l ≡ true → NoBreak l
is_unbroken-NoBreak [] h = tt
is_unbroken-NoBreak (c ∷ l) h = elim (Bool-cases (c == 10)) [
  | inl e ↦ cc (rw e at h)
  | inr e ↦ (e, is_unbroken-NoBreak l (rw e at h))
]

split-NoBreak : (l : Text) → NoBreak l → split 10 l ≡ l ∷ []
split-NoBreak [] h = refl
split-NoBreak (c ∷ l) h = ground (arith, h.0, split-NoBreak l h.1)

split-append : (l s : Text) → NoBreak l → split 10 (l ++ (10 ∷ s)) ≡ l ∷ split 10 s
split-append [] s h = refl
split-append (c ∷ l) s h = ground (arith, h.0, split-append l s h.1)

pub split-join_lines :
    (l : Text) (ls : List Text) → All NoBreak (l ∷ ls) → split 10 (join_lines (l ∷ ls)) ≡ l ∷ ls
split-join_lines l [] h = split-NoBreak l h.0
split-join_lines l (k ∷ ls) h =
    split-append l (join_lines (k ∷ ls)) h.0 ∙ ap (λ t. l ∷ t) (split-join_lines k ls h.1)

NoBreak-first :
    (c : ℕ) → (c == 10) ≡ false → (ls : List Text) → All NoBreak ls → All NoBreak (put_first c ls)
NoBreak-first c e [] h = ((e, tt), tt)
NoBreak-first c e (l ∷ ls) h = ((e, h.0), h.1)

put_first-cons : (c : ℕ) (ls : List Text) → put_first c ls ≢ []
put_first-cons c [] h = cc
put_first-cons c (l ∷ ls) h = cc

pub split-cons : (s : Text) → split 10 s ≢ []
split-cons [] h = cc
split-cons (c ∷ s) h = elim (Bool-cases (c == 10)) [
  | inl e ↦ cc (rw e at h)
  | inr e ↦ put_first-cons c (split 10 s) (rw e at h)
]

pub NoBreak-split : (s : Text) → All NoBreak (split 10 s)
NoBreak-split [] = (tt, tt)
NoBreak-split (c ∷ s) = elim (Bool-cases (c == 10)) [
  | inl e ↦ rw e (tt, NoBreak-split s)
  | inr e ↦ rw e (NoBreak-first c e (split 10 s) (NoBreak-split s))
]

patch_directive-NoBreak :
    (st : Setting) (ls : List Text)
    → NoBreak (managed st)
    → All NoBreak ls
    → All NoBreak (patch_directive st ls)
unfolding patch_directive raise
patch_directive-NoBreak st [] one h = tt
patch_directive-NoBreak st (l ∷ ls) one h = elim (Option-cases (match_directive st.name l)) [
  | inl e ↦
      subst (λ o. All NoBreak (raise_matched st o l ls (patch_directive st ls))) (sym e)
        (h.0, patch_directive-NoBreak st ls one h.1)
  | inr (m, e) ↦
      let indent : NoBreak m.0 =
        All-map (λ c. is_blank c ≡ true) (λ c. (c == 10) ≡ false) m.0
          (λ c blank. ground (arith, blank)) (match_directive-blank st.name l e) in
      subst (λ o. All NoBreak (raise_matched st o l ls (patch_directive st ls))) (sym e)
        (elim (Bool-cases (below st.floor (atoi m.1))) [
          | inl low ↦ rw low (All-append (λ c. (c == 10) ≡ false) m.0 (managed st) indent one, h.1)
          | inr high ↦ rw high h
        ])
]

insert_after-NoBreak :
    (p : Text → Bool) (new : Text) (ls : List Text)
    → NoBreak new
    → All NoBreak ls
    → All NoBreak (insert_after p new ls)
unfolding insert_after
insert_after-NoBreak p new [] one h = tt
insert_after-NoBreak p new (l ∷ ls) one h = elim (Bool-cases (p l)) [
  | inl e ↦ rw e (h.0, (one, h.1))
  | inr e ↦ rw e (h.0, insert_after-NoBreak p new ls one h.1)
]

pub settle-NoBreak :
    (st : Setting) (p : Text → Bool) (new : Text) (ls : List Text)
    → NoBreak (managed st)
    → NoBreak new
    → All NoBreak ls
    → All NoBreak (settle st p new ls)
unfolding settle insert_missing
settle-NoBreak st p new ls one other h =
    let patched = patch_directive-NoBreak st ls one h in
    elim (Option-cases (first (match_directive st.name) (patch_directive st ls))) [
      | inl e ↦ rw e (insert_after-NoBreak p new (patch_directive st ls) other patched)
      | inr (m, e) ↦ rw e patched
    ]

insert_missing-cons :
    (o : Option (Text × Text)) (p : Text → Bool) (new k : Text) (ks : List Text)
    → insert_missing o p new (k ∷ ks) ≢ []
unfolding insert_missing insert_after
insert_missing-cons none p new k ks h = elim (Bool-cases (p k)) [
  | inl e ↦ cc (rw e at h)
  | inr e ↦ cc (rw e at h)
]
insert_missing-cons (some m) p new k ks h = cc

-- A half leaves lines where there were lines.
pub settle-cons :
    (st : Setting) (p : Text → Bool) (new l : Text) (ls : List Text) → settle st p new (l ∷ ls) ≢ []
unfolding settle patch_directive
settle-cons st p new l ls = behind (match_directive st.name l)
  where
    behind :
        (o : Option (Text × Text))
        → (let patched = raise_matched st o l ls (patch_directive st ls) in
            insert_missing (first (match_directive st.name) patched) p new patched)
          ≢ []
    behind none =
        let patched = l ∷ patch_directive st ls in
        insert_missing-cons (first (match_directive st.name) patched) p new l
          (patch_directive st ls)
    behind (some m) =
        let patched = raise st m l ∷ ls in
        insert_missing-cons (first (match_directive st.name) patched) p new (raise st m l) ls
