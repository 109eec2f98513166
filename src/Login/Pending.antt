-- ===== src/Login/Pending.antt =====
-- `pendingTOTPStore` of internal/panel/totp.go: logins that wait for the second factor. Every method
-- holds the mutex, and reads one instant.
use mtproxy_orchestrator.Base.{
  ℕ, ◌+◌, ◌≤◌, String, true, false, not, Option, none, some, List, [], ◌∷◌, ◌≡◌, ltb, str_eq,
  filter, find, if◌then◌else◌, refl, arith, eq_iff, inl, inr, Bool-cases, Option-cases, subst, ◌∙◌,
  sym, ap,
}
use mtproxy_orchestrator.Login.{PendingTotp, pending_ttl}

-- `gcLocked`
abbrev pub gc : ℕ → List PendingTotp → List PendingTotp
gc now es = filter (λ e. not (ltb e.expires_at now)) es

abbrev pub without : String → List PendingTotp → List PendingTotp
without id es = filter (λ e. not (str_eq e.id id)) es

abbrev pub lookup : String → List PendingTotp → Option PendingTotp
lookup id es = find (λ e. str_eq e.id id) es

-- `id` is what `rand.Read` gives, `none` for its error.
unfoldable pub put :
    ℕ → Option String → ℕ → String → List PendingTotp → List PendingTotp × Option String
put now none admin_id login es = (es, none)
put now (some id) admin_id login es =
    let entry : PendingTotp = record {
      id = id;
      admin_id = admin_id;
      login = login;
      expires_at = now + pending_ttl;
    } in
    (entry ∷ without id (gc now es), some id)

-- The entry that `gcLocked` leaves is not expired, so the test behind it never holds.
unfoldable pub get : ℕ → String → List PendingTotp → List PendingTotp × Option PendingTotp
get now id es = elim (lookup id (gc now es)) [
  | none ↦ (gc now es, none)
  | some e ↦ if ltb e.expires_at now then (without id (gc now es), none) else (gc now es, some e)
]

unfoldable pub drop : String → List PendingTotp → List PendingTotp
drop id es = without id es

lookup-gc :
    (now : ℕ) (id : String) (es : List PendingTotp) (e : PendingTotp)
    → lookup id (gc now es) ≡ some e
    → (ltb e.expires_at now ≡ false) × (str_eq e.id id ≡ true)
lookup-gc now id [] e h = absurd (ground (arith, h))
lookup-gc now id (x ∷ es) e h = elim (Bool-cases (ltb x.expires_at now)) [
  | inl old ↦ lookup-gc now id es e (rw old at h)
  | inr live ↦ elim (Bool-cases (str_eq x.id id)) [
    | inr other ↦ lookup-gc now id es e (rw (live, other) at h)
    | inl here ↦
        let same : x ≡ e = cc (rw (live, here) at h) in
        (
          sym (ap (λ (y : PendingTotp). ltb y.expires_at now) same) ∙ live,
          sym (ap (λ (y : PendingTotp). str_eq y.id id) same) ∙ here,
        )
  ]
]

-- What `get` returns has the id and is not expired.
pub get-live :
    (now : ℕ) (id : String) (es : List PendingTotp) (e : PendingTotp)
    → (get now id es).1 ≡ some e
    → (e.id ≡ id) × (now ≤ e.expires_at)
unfolding get
get-live now id es e h = elim (Option-cases (lookup id (gc now es))) [
  | inl missing ↦
      let is : (get now id es).1 ≡ none = rw (missing, get) refl in absurd (cc (sym is ∙ h))
  | inr (x, found) ↦ elim (Bool-cases (ltb x.expires_at now)) [
    | inl old ↦
        let is : (get now id es).1 ≡ none = rw (found, get) (rw old refl) in
        absurd (cc (sym is ∙ h))
    | inr live ↦
        let is : (get now id es).1 ≡ some x = rw (found, get) (rw live refl) in
        let same : x ≡ e = cc (sym is ∙ h) in
        let (kept, named) = lookup-gc now id es x found in
        (
          sym (ap (λ (y : PendingTotp). y.id) same) ∙ (eq_iff x.id id).0 named,
          subst (λ (y : PendingTotp). now ≤ y.expires_at) same (ground (arith, kept)),
        )
  ]
]
