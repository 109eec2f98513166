-- ===== src/Login/Settings/Guard.antt =====
-- What it takes to change the second factor.
use mtproxy_orchestrator.Base.{
  ℕ, String, Bool, true, false, not, Option, none, some, List, ◌≡◌, ◌⊎◌, refl, sym, ap, ◌∙◌, inl,
  inr, arith, ◌==◌, if◌then◌else◌, Bool-cases, Option-cases, subst,
}
use mtproxy_orchestrator.Login.{Admin, Panel, admin_row, session_admin_id}
use mtproxy_orchestrator.Login.Factor.{validate, remove_match, consume_recovery_code}
use mtproxy_orchestrator.Login.Factor.Once.{consume-Taken}
use mtproxy_orchestrator.Login.Handlers.{Status, invalid, to_settings, Request, Faults}
use mtproxy_orchestrator.Login.Handlers.Admission.{IsCode}
use mtproxy_orchestrator.Login.Settings.{
  with_row, begin_totp, confirm_totp, disable_totp, clear_totp, regenerate_totp, store_codes,
  handle_totp_begin, handle_totp_confirm, handle_totp_disable, handle_totp_regenerate,
}

-- The second factor of the admin is as it was.
abbrev pub SameFactor : Option Admin → Option Admin → Type 0
SameFactor none none = Unit
SameFactor (some a) (some b) = (b.totp_enabled ≡ a.totp_enabled) × (b.totp_secret ≡ a.totp_secret)
SameFactor _ _ = ⊥

SameFactor-refl : (o : Option Admin) → SameFactor o o
SameFactor-refl none = tt
SameFactor-refl (some a) = (refl, refl)

with_row-holds :
    (P : Panel → Type 0) (r : Request) (f : Faults) (body : ℕ → Admin → Panel → Panel × Status)
    (p : Panel)
    → P p
    → ((id : ℕ) (a : Admin) → admin_row id p ≡ some a → P (body id a p).0)
    → P (with_row r f body p).0
with_row-holds P r f body p here step = elim (Bool-cases r.csrf_valid) [
  | inr off ↦ rw off here
  | inl on ↦ elim (Bool-cases f.load_totp) [
    | inl lost ↦ rw (on, lost) here
    | inr loaded ↦ elim (Option-cases (admin_row (session_admin_id r.session_cookie p) p)) [
      | inl missing ↦ rw (on, loaded, missing) here
      | inr (a, row) ↦ rw (on, loaded, row) (step (session_admin_id r.session_cookie p) a row)
    ]
  ]
]

if-holds :
    (P : Panel → Type 0) (b : Bool) (x y : Panel × Status)
    → P x.0
    → P y.0
    → P (if b then x else y).0
if-holds P true x y hx hy = hx
if-holds P false x y hx hy = hy

same_row : (id : ℕ) (p : Panel) (a b : Admin) → p.admin ≡ some a → admin_row id p ≡ some b → b ≡ a
same_row id p a b is row = elim (Bool-cases (id == 1)) [
  | inl one ↦ cc (rw one at row, is)
  | inr other ↦ absurd (cc (rw other at row))
]

module _ (code_valid : ℕ → String → String → Bool) (hash_matches : String → String → Bool) where
  -- The factor is as before, or the code is one of the admin's.
  abbrev Kept : ℕ → String → Admin → Panel → Type 0
  Kept now code a q = SameFactor (some a) q.admin ⊎ IsCode code_valid hash_matches now code a

  consume-admin :
      (code : String) (f : Faults) (id : ℕ) (p : Panel)
      → (consume_recovery_code code_valid hash_matches f.recovery id code p).1 ≡ false
      → (consume_recovery_code code_valid hash_matches f.recovery id code p).0.admin ≡ p.admin
  unfolding consume_recovery_code
  consume-admin code f id p refused = ground arith

  clear-admin :
      (f : Faults) (id : ℕ) (r : Panel × Bool)
      → r.1 ≡ false
      → (clear_totp code_valid hash_matches f id r).0 ≡ r.0
  unfolding clear_totp
  clear-admin f id (p, false) h = refl
  clear-admin f id (p, true) h = absurd (ground arith)

  disable-Kept :
      (code : String) (f : Faults) (now id : ℕ) (a : Admin) (p : Panel)
      → p.admin ≡ some a
      → admin_row id p ≡ some a
      → a.totp_enabled ≡ true
      → Kept now code a (disable_totp code_valid hash_matches code f now id a p).0
  unfolding disable_totp clear_totp
  disable-Kept code f now id a p is row on =
      elim (Bool-cases (validate code_valid hash_matches now a.totp_secret code)) [
        | inl valid ↦ inr (inl valid)
        | inr wrong ↦
            elim (Bool-cases
              (consume_recovery_code code_valid hash_matches f.recovery id code p).1) [
                | inl taken ↦
                    let (b, (hashes, (is_b, (found, e)))) =
                      consume-Taken code_valid hash_matches code f.recovery id p taken in
                    let same : b ≡ a = cc (sym is_b ∙ row) in
                    inr (
                      inr (
                        hashes,
                        ap
                              (λ (x : Admin).
                                remove_match code_valid hash_matches code x.recovery_hashes)
                              (sym same)
                            ∙ found,
                      ))
                | inr refused ↦
                    let q = consume_recovery_code code_valid hash_matches f.recovery id code p in
                    let result : disable_totp code_valid hash_matches code f now id a p
                        ≡ clear_totp code_valid hash_matches f id q =
                      rw (on, wrong, disable_totp) refl in
                    let kept : (disable_totp code_valid hash_matches code f now id a p).0.admin
                        ≡ some a =
                      ap (λ (x : Panel × Status). x.0.admin) result
                      ∙ ap (λ (x : Panel). x.admin) (clear-admin f id q refused)
                      ∙ consume-admin code f id p refused
                      ∙ is in
                    inl (subst (SameFactor (some a)) (sym kept) (refl, refl))
              ]
      ]

  store_codes-SameFactor :
      (hashes : Option (List String)) (f : Faults) (a : Admin) (p : Panel)
      → p.admin ≡ some a
      → SameFactor
          (some a)
          (store_codes code_valid hash_matches hashes
            (λ hs. record a { recovery_hashes = hs })
            f
            p).0.admin
  store_codes-SameFactor none f a p is = subst (SameFactor (some a)) (sym is) (refl, refl)
  store_codes-SameFactor (some hs) f a p is = elim (Bool-cases f.update) [
    | inl e ↦ rw e (subst (SameFactor (some a)) (sym is) (refl, refl))
    | inr e ↦ rw e (refl, refl)
  ]

  regenerate-SameFactor :
      (code : String) (hashes : Option (List String)) (f : Faults) (now id : ℕ) (a : Admin)
      (p : Panel)
      → p.admin ≡ some a
      → SameFactor
          (some a)
          (regenerate_totp code_valid hash_matches code hashes f now id a p).0.admin
  unfolding regenerate_totp
  regenerate-SameFactor code hashes f now id a p is =
      let same : SameFactor (some a) p.admin = subst (SameFactor (some a)) (sym is) (refl, refl) in
      let P = λ (q : Panel). SameFactor (some a) q.admin in
      let stored =
        store_codes code_valid hash_matches hashes (λ hs. record a { recovery_hashes = hs }) f p in
      let valid = validate code_valid hash_matches now a.totp_secret code in
      if-holds P (not a.totp_enabled) (p, to_settings) (if not valid then (p, invalid) else stored)
        same
        (if-holds P (not valid) (p, invalid) stored same (store_codes-SameFactor hashes f a p is))

  -- Once the second factor is on, whatever the requests, the handlers that begin, confirm and
  -- regenerate leave it and its secret as they are, and the one that turns it off does so only for a
  -- one-time code or a recovery code that is left.
  pub factor-Kept :
      (r : Request) (code : String) (secret : Option String) (hashes : Option (List String))
      (f : Faults) (now : ℕ) (p : Panel) (a : Admin)
      → p.admin ≡ some a
      → a.totp_enabled ≡ true
      → SameFactor (some a) (handle_totp_begin r secret f p).0.admin
        × (SameFactor
              (some a)
              (handle_totp_confirm code_valid hash_matches r code hashes f now p).0.admin
            × (SameFactor
                  (some a)
                  (handle_totp_regenerate code_valid hash_matches r code hashes f now p).0.admin
                × (SameFactor
                      (some a)
                      (handle_totp_disable code_valid hash_matches r code f now p).0.admin
                    ⊎ IsCode code_valid hash_matches now code a)))
  unfolding handle_totp_begin handle_totp_confirm handle_totp_disable handle_totp_regenerate
      begin_totp confirm_totp
  factor-Kept r code secret hashes f now p a is on =
      let same : SameFactor (some a) p.admin = subst (SameFactor (some a)) (sym is) (refl, refl) in
      let P = λ (q : Panel). SameFactor (some a) q.admin in
      (
        with_row-holds P r f (begin_totp secret f) p same (λ id b row.
            let b_on : b.totp_enabled ≡ true =
              ap (λ (x : Admin). x.totp_enabled) (same_row id p a b is row) ∙ on in
            rw b_on same),
        (
          with_row-holds P r f (confirm_totp code_valid hash_matches code hashes f now) p same
              (λ id b row.
                let b_on : b.totp_enabled ≡ true =
                  ap (λ (x : Admin). x.totp_enabled) (same_row id p a b is row) ∙ on in
                rw b_on same),
          (
            with_row-holds P r f (regenerate_totp code_valid hash_matches code hashes f now) p same
                (λ id b row.
                  subst
                    (λ x. P (regenerate_totp code_valid hash_matches code hashes f now id x p).0)
                    (sym (same_row id p a b is row))
                    (regenerate-SameFactor code hashes f now id a p is)),
            with_row-holds (Kept now code a) r f (disable_totp code_valid hash_matches code f now) p
                (inl same)
                (λ id b row.
                  let same_b = same_row id p a b is row in
                  subst
                    (λ x.
                      Kept now code a (disable_totp code_valid hash_matches code f now id x p).0)
                    (sym same_b) (disable-Kept code f now id a p is (row ∙ ap some same_b) on)),
          ),
        ),
      )
