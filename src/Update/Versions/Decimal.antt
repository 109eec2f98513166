-- ===== src/Update/Versions/Decimal.antt =====
-- Numbers in decimal digits, as the loops of `parseVersion` and `strconv.Atoi` read them. It models no
-- code of its own.
use mtproxy_orchestrator.Base.{
  ℕ, zero, suc, ◌+◌, ◌*◌, ◌-◌, ◌/◌, ◌%◌, ◌<◌, ◌≤◌, Bool, true, false, Option, none, some, [], ◌∷◌,
  ◌++◌, ◌≡◌, refl, ap, ◌∙◌, inl, inr, arith, ltb, if◌then◌else◌, Bool-cases, All, All-map,
  All-append, subst,
}
use mtproxy_orchestrator.Update.Text.{Text, is_digit, digits_value}

-- The decimal digits of a number, the last one first found.
unfoldable pub digits_of : ℕ → ℕ → Text
digits_of zero n = []
digits_of (suc fuel) n =
    let rest = digits_of fuel (n / 10) ++ (b'0' + n % 10) ∷ [] in
    if ltb n 10 then (b'0' + n) ∷ [] else rest

abbrev pub decimal : ℕ → Text
decimal n = digits_of (suc n) n

abbrev pub IsDigits : Text → Type 0
IsDigits s = All (λ c. is_digit c ≡ true) s

digits_of-IsDigits : (fuel n : ℕ) → IsDigits (digits_of fuel n)
unfolding digits_of
digits_of-IsDigits zero n = tt
digits_of-IsDigits (suc fuel) n = elim (Bool-cases (ltb n 10)) [
  | inl e ↦ rw e (ground (arith, e), tt)
  | inr e ↦ rw e (
      All-append (λ c. is_digit c ≡ true) (digits_of fuel (n / 10)) ((b'0' + n % 10) ∷ [])
        (digits_of-IsDigits fuel (n / 10)) (ground (arith), tt))
]

value-append :
    (wrap : ℕ → ℕ) (acc n : ℕ) (s t : Text)
    → digits_value wrap acc s ≡ some n
    → digits_value wrap acc (s ++ t) ≡ digits_value wrap n t
unfolding digits_value
value-append wrap acc n [] t h =
    ap (λ o. elim o as (λ x. Option ℕ) [ none ↦ none | some m ↦ digits_value wrap m t ]) h
value-append wrap acc n (c ∷ s) t h = elim (Bool-cases (is_digit c)) [
  | inl e ↦ rw e (value-append wrap (wrap (acc * 10 + (c - b'0'))) n s t (rw e at h))
  | inr e ↦ absurd (ground (arith, rw e at h))
]

value-digits_of :
    (wrap : ℕ → ℕ) (fuel n : ℕ)
    → n < fuel
    → ((m : ℕ) → m ≤ n → wrap m ≡ m)
    → digits_value wrap 0 (digits_of fuel n) ≡ some n
unfolding digits_value digits_of
value-digits_of wrap zero n l keeps = absurd (omega (arith, l))
value-digits_of wrap (suc fuel) n l keeps = elim (Bool-cases (ltb n 10)) [
  | inl e ↦
      let is : digits_value wrap 0 ((b'0' + n) ∷ []) ≡ some (wrap n) = ground (arith, e) in
      rw e (is ∙ ap some (keeps n (omega arith)))
  | inr e ↦
      let high =
        value-digits_of wrap fuel (n / 10) (ground (arith, e, l))
          (λ m k. keeps m (omega (arith, k))) in
      let low : digits_value wrap (n / 10) ((b'0' + n % 10) ∷ []) ≡ some (wrap n) =
        ground (arith) in
      rw e (
        value-append wrap 0 (n / 10) (digits_of fuel (n / 10)) ((b'0' + n % 10) ∷ []) high
        ∙ low
        ∙ ap some (keeps n (omega arith)))
]

pub value-decimal :
    (wrap : ℕ → ℕ) (n : ℕ)
    → ((m : ℕ) → m ≤ n → wrap m ≡ m)
    → digits_value wrap 0 (decimal n) ≡ some n
value-decimal wrap n keeps = value-digits_of wrap (suc n) n (omega arith) keeps

pub IsDigits-decimal : (n : ℕ) → IsDigits (decimal n)
IsDigits-decimal n = digits_of-IsDigits (suc n) n

append-cons : (s : Text) (d : ℕ) → (c : ℕ) × ((t : Text) × (s ++ d ∷ [] ≡ c ∷ t))
append-cons [] d = (d, ([], refl))
append-cons (c ∷ s) d = (c, (s ++ d ∷ [], refl))

digits_of-cons : (fuel n : ℕ) → (c : ℕ) × ((s : Text) × (digits_of (suc fuel) n ≡ c ∷ s))
unfolding digits_of
digits_of-cons fuel n = elim (Bool-cases (ltb n 10)) [
  | inl e ↦ (b'0' + n, ([], rw e refl))
  | inr e ↦
      let (c, (s, is)) = append-cons (digits_of fuel (n / 10)) (b'0' + n % 10) in (c, (s, rw e is))
]

-- A number has a first digit.
pub decimal-cons : (n : ℕ) → (c : ℕ) × ((s : Text) × ((decimal n ≡ c ∷ s) × (is_digit c ≡ true)))
decimal-cons n =
    let (c, (s, e)) = digits_of-cons n n in (c, (s, (e, (subst IsDigits e (IsDigits-decimal n)).0)))

pub IsDigits-All :
    (p : ℕ → Bool) (s : Text)
    → ((c : ℕ) → is_digit c ≡ true → p c ≡ false)
    → IsDigits s
    → All (λ c. p c ≡ false) s
IsDigits-All p s h d = All-map (λ c. is_digit c ≡ true) (λ c. p c ≡ false) s h d
