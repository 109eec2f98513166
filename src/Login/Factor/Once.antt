-- ===== src/Login/Factor/Once.antt =====
-- How often a recovery code is taken.
use mtproxy_orchestrator.Base.{
  ℕ, suc, ◌≤◌, String, Bool, true, false, ◌||◌, Option, none, some, List, [], ◌∷◌, ◌≡◌, ◌⊎◌, refl,
  sym, ap, ◌∙◌, inl, inr, arith, str_eq, ◌==◌, if◌then◌else◌, Bool-cases, Option-cases, subst,
}
use mtproxy_orchestrator.Login.{Admin, Panel, admin_row}
use mtproxy_orchestrator.Login.Factor.{RecoveryFaults, remove_match, consume_recovery_code}

module _ (code_valid : ℕ → String → String → Bool) (hash_matches : String → String → Bool)
    (code : String) where
  -- How many hashes match the code.
  abbrev pub count_matches : List String → ℕ
  count_matches [] = 0
  count_matches (h ∷ hs) =
      let rest = count_matches hs in if hash_matches h code then suc rest else rest

  remove_match-count :
      (hs ks : List String)
      → remove_match code_valid hash_matches code hs ≡ some ks
      → count_matches hs ≡ suc (count_matches ks)
  unfolding remove_match
  remove_match-count [] ks h = absurd (cc h)
  remove_match-count (x ∷ hs) ks h = elim (Bool-cases (hash_matches x code)) [
    | inl hit ↦
        let same : hs ≡ ks = cc (rw hit at h) in rw hit (ap (λ l. suc (count_matches l)) same)
    | inr miss ↦ elim (Option-cases (remove_match code_valid hash_matches code hs)) [
      | inl gone ↦ absurd (cc (rw (miss, gone) at h))
      | inr (ls, found) ↦
          let same : x ∷ ls ≡ ks = cc (rw (miss, found) at h) in
          rw (← same) (rw miss (remove_match-count hs ls found))
    ]
  ]

  remove_match-none :
      (hs : List String)
      → count_matches hs ≡ 0
      → remove_match code_valid hash_matches code hs ≡ none
  unfolding remove_match
  remove_match-none [] h = refl
  remove_match-none (x ∷ hs) h = elim (Bool-cases (hash_matches x code)) [
    | inl hit ↦ absurd (omega (arith, rw hit at h))
    | inr miss ↦ rw (miss, remove_match-none hs (rw miss at h)) refl
  ]

  abbrev pub admin_hashes : Option Admin → List String
  admin_hashes none = []
  admin_hashes (some a) = a.recovery_hashes

  abbrev pub Taken : RecoveryFaults → ℕ → Panel → Type 0
  Taken f id p =
      (a : Admin) × ((hashes : List String) × ((admin_row id p ≡ some a)
          × ((remove_match code_valid hash_matches code a.recovery_hashes ≡ some hashes)
              × (consume_recovery_code code_valid hash_matches f id code p ≡ (
                if f.commit
                    then p
                    else record p { admin = some (record a { recovery_hashes = hashes }) },
                true,
              )))))

  refused :
      (f : RecoveryFaults) (id : ℕ) (p : Panel)
      → consume_recovery_code code_valid hash_matches f id code p ≡ (p, false)
      → (consume_recovery_code code_valid hash_matches f id code p).1 ≡ true
      → Taken f id p
  refused f id p is ok = absurd (ground (arith, sym (ap (λ (x : Panel × Bool). x.1) is) ∙ ok))

  pub consume-Taken :
      (f : RecoveryFaults) (id : ℕ) (p : Panel)
      → (consume_recovery_code code_valid hash_matches f id code p).1 ≡ true
      → Taken f id p
  unfolding consume_recovery_code
  consume-Taken f id p ok = elim (Bool-cases (str_eq code "" || (f.begin || f.read))) [
    | inl e ↦ refused f id p (rw (e, consume_recovery_code) refl) ok
    | inr e ↦ elim (Option-cases (admin_row id p)) [
      | inl missing ↦ refused f id p (rw (e, missing, consume_recovery_code) refl) ok
      | inr (a, row) ↦
          elim (Option-cases (remove_match code_valid hash_matches code a.recovery_hashes)) [
            | inl gone ↦ refused f id p (rw (e, row, gone, consume_recovery_code) refl) ok
            | inr (hashes, found) ↦ elim (Bool-cases f.write) [
              | inl w ↦ refused f id p (rw (e, row, found, w, consume_recovery_code) refl) ok
              | inr w ↦ (
                a,
                (
                  hashes,
                  (
                    row,
                    (
                      found,
                      elim (Bool-cases f.commit) [
                        | inl c ↦ rw (e, row, found, w, c, consume_recovery_code) refl
                        | inr c ↦ rw (e, row, found, w, c, consume_recovery_code) refl
                      ],
                    ),
                  ),
                ),
              )
            ]
          ]
    ]
  ]

  -- The admin's row is the one with id 1.
  row-one : (id : ℕ) (p : Panel) {a : Admin} → admin_row id p ≡ some a → (id == 1) ≡ true
  row-one id p row = ground (arith, row)

  consume-once :
      (f g : RecoveryFaults) (id : ℕ) (p : Panel) {a : Admin}
      → admin_row id p ≡ some a
      → count_matches a.recovery_hashes ≤ 1
      → f.commit ≡ false
      → (consume_recovery_code code_valid hash_matches f id code p).1 ≡ true
      → let q = (consume_recovery_code code_valid hash_matches f id code p).0 in
        (consume_recovery_code code_valid hash_matches g id code q).1 ≡ false
  consume-once f g id p {a} row once commits ok =
      let q = (consume_recovery_code code_valid hash_matches f id code p).0 in
      let (b, (hashes, (is_b, (found, is)))) = consume-Taken f id p ok in
      let same : a ≡ b = cc (sym row ∙ is_b) in
      let count = remove_match-count b.recovery_hashes hashes found in
      let left : count_matches hashes ≡ 0 =
        omega
          (arith, count, subst (λ (x : Admin). count_matches x.recovery_hashes ≤ 1) same once) in
      let is_q : q ≡ record p { admin = some (record b { recovery_hashes = hashes }) } =
        ap (λ (x : Panel × Bool). x.0) is ∙ rw commits refl in
      elim (Bool-cases (consume_recovery_code code_valid hash_matches g id code q).1) [
        | inr no_more ↦ no_more
        | inl again ↦
            let (c, (ks, (is_c, (twice, e)))) = consume-Taken g id q again in
            let new_row : admin_row id q ≡ some (record b { recovery_hashes = hashes }) =
              ap (admin_row id) is_q ∙ rw (row-one id p row) refl in
            let new_same : c.recovery_hashes ≡ hashes = ap admin_hashes (sym is_c ∙ new_row) in
            absurd (
              cc (
                sym (
                  ap (remove_match code_valid hash_matches code) new_same
                  ∙ remove_match-none hashes left)
                ∙ twice))
      ]

  -- When a code that matches one of the admin's hashes at most is taken, then either the transaction
  -- does not commit, and the tables are as before, so that the code is taken again, or the code is
  -- refused the next time, whatever fails then.
  pub consume_recovery_code-once :
      (f g : RecoveryFaults) (id : ℕ) (p : Panel) {a : Admin}
      → admin_row id p ≡ some a
      → count_matches a.recovery_hashes ≤ 1
      → (consume_recovery_code code_valid hash_matches f id code p).1 ≡ true
      → let q = (consume_recovery_code code_valid hash_matches f id code p).0 in
        ((f.commit ≡ true)
          × ((q ≡ p) × ((consume_recovery_code code_valid hash_matches f id code q).1 ≡ true)))
        ⊎ ((f.commit ≡ false)
            × ((consume_recovery_code code_valid hash_matches g id code q).1 ≡ false))
  consume_recovery_code-once f g id p row once ok = elim (Bool-cases f.commit) [
    | inr commits ↦ inr (commits, consume-once f g id p row once commits ok)
    | inl lost ↦
        let (a, (hashes, (is_a, (found, is)))) = consume-Taken f id p ok in
        let same : (consume_recovery_code code_valid hash_matches f id code p).0 ≡ p =
          ap (λ (x : Panel × Bool). x.0) is ∙ rw lost refl in
        inl (
          lost,
          (same, ap (λ x. (consume_recovery_code code_valid hash_matches f id code x).1) same ∙ ok),
        )
  ]
