-- ===== src/Nginx/MainConf/Lines.antt =====
-- How the line matchers of internal/nginx/mainconf.go read the lines that its patch writes.
use mtproxy_orchestrator.Base.{
  ℕ, Bool, true, false, Option, none, some, [], ◌∷◌, ◌++◌, ◌==◌, ◌≡◌, refl, ap, inl, inr, arith,
  All, Bool-cases, Option-cases, subst,
}
use mtproxy_orchestrator.Update.Text.{Text, codes, after_prefix}
use mtproxy_orchestrator.Nginx.MainConf.{
  is_blank, span, match_directive, directive_value, digits_of_value, ends_directive, is_events_open,
  opens_block, after_blanks, connections, nofile, managed, with_indent,
}

-- What a span returns passes the test.
All-span : (p : ℕ → Bool) (s : Text) → All (λ c. p c ≡ true) (span p s).0
unfolding span
All-span p [] = tt
All-span p (c ∷ s) = elim (Bool-cases (p c)) [ inl e ↦ rw e (e, All-span p s) | inr e ↦ rw e tt ]

span-append :
    (p : ℕ → Bool) (s : Text) (c : ℕ) (t : Text)
    → All (λ x. p x ≡ true) s
    → p c ≡ false
    → span p (s ++ (c ∷ t)) ≡ (s, c ∷ t)
unfolding span
span-append p [] c t a e = rw e refl
span-append p (x ∷ s) c t a e =
    let ih = span-append p s c t a.1 e in rw a.0 (λ i. (x ∷ (ih i).0, (ih i).1))

-- The indentation that a match returns is blank.
pub match_directive-blank :
    (name line : Text) {m : Text × Text}
    → match_directive name line ≡ some m
    → All (λ c. is_blank c ≡ true) m.0
unfolding match_directive
match_directive-blank name line {m} h =
    go (directive_value (after_prefix name (span is_blank line).1)) h
  where
    go :
        (o : Option Text)
        → with_indent (span is_blank line).0 o ≡ some m
        → All (λ c. is_blank c ≡ true) m.0
    go none e = cc
    go (some d) e =
        let is : (span is_blank line).0 ≡ m.0 =
          ap (λ o. elim o as (λ x. Text) [ none ↦ [] | some q ↦ q.0 ]) e in
        subst (λ s. All (λ c. is_blank c ≡ true) s) is (All-span is_blank line)

after_prefix-append : (p s : Text) {r : Text} → after_prefix p s ≡ some r → s ≡ p ++ r
after_prefix-append [] s {r} h = cc
after_prefix-append (c ∷ p) [] h = cc
after_prefix-append (c ∷ p) (d ∷ s) {r} h = elim (Bool-cases (c == d)) [
  | inl e ↦
      let same : c ≡ d = ground (arith, e) in
      let rest : after_prefix p s ≡ some r = rw e at h in
      rw same (ap (λ t. d ∷ t) (after_prefix-append p s rest))
  | inr e ↦ cc (rw e at h)
]

-- Behind the indentation a line that matches begins with the name.
pub match_directive-name :
    (name line : Text) {m : Text × Text}
    → match_directive name line ≡ some m
    → (r : Text) × ((span is_blank line).1 ≡ name ++ r)
unfolding match_directive directive_value
match_directive-name name line h = elim (Option-cases (after_prefix name (span is_blank line).1)) [
  | inl e ↦ absurd (cc (rw e at h))
  | inr (r, e) ↦ (r, after_prefix-append name (span is_blank line).1 e)
]

-- A line that begins with the second directive is none of the first, and does not open the block.
pub match_directive-nofile :
    (line r : Text)
    → (span is_blank line).1 ≡ nofile.name ++ r
    → match_directive connections.name line ≡ none
unfolding match_directive directive_value
match_directive-nofile line r e =
    ap (λ s. with_indent (span is_blank line).0 (directive_value (after_prefix connections.name s)))
      e

pub is_events_open-nofile :
    (line r : Text) → (span is_blank line).1 ≡ nofile.name ++ r → is_events_open line ≡ false
unfolding is_events_open opens_block
is_events_open-nofile line r e =
    ap (λ s. opens_block (after_blanks (after_prefix (codes "events") s))) e

-- A line that the patch writes is found again with the floor.
pub match_directive-connections :
    (i : Text)
    → All (λ c. is_blank c ≡ true) i
    → match_directive connections.name (i ++ managed connections) ≡ some (i, connections.digits)
unfolding match_directive directive_value digits_of_value ends_directive span managed
match_directive-connections i blank =
    ap (λ (q : Text × Text). with_indent q.0 (directive_value (after_prefix connections.name q.1)))
      (span-append is_blank i b'w' (codes "orker_connections 4096; # managed by tgproxy") blank
        refl)

pub match_directive-managed-nofile :
    (i : Text)
    → All (λ c. is_blank c ≡ true) i
    → match_directive nofile.name (i ++ managed nofile) ≡ some (i, nofile.digits)
unfolding match_directive directive_value digits_of_value ends_directive span managed
match_directive-managed-nofile i blank =
    ap (λ (q : Text × Text). with_indent q.0 (directive_value (after_prefix nofile.name q.1)))
      (span-append is_blank i b'w' (codes "orker_rlimit_nofile 16384; # managed by tgproxy") blank
        refl)

pub span-managed-nofile :
    (i : Text)
    → All (λ c. is_blank c ≡ true) i
    → (span is_blank (i ++ managed nofile)).1 ≡ nofile.name ++ codes " 16384; # managed by tgproxy"
unfolding managed
span-managed-nofile i blank =
    ap (λ (q : Text × Text). q.1)
      (span-append is_blank i b'w' (codes "orker_rlimit_nofile 16384; # managed by tgproxy") blank
        refl)
