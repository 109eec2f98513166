-- ===== src/Base/Sql.antt =====
-- The SQL statement forms that the source's queries use, on a table that is a list of rows.
use Prim.Native.Nat.{ℕ, ◌+◌, max}
use mathlib.Core.Path.{◌≡◌, refl, ◌∙◌, subst}
use mathlib.Core.Logic.{◌≢◌, inl, inr}
use mathlib.Core.List.{List, [], ◌∷◌, ◌++◌}
use mathlib.Core.Bool.{Bool, true, false, not}
use mathlib.Core.Option
use mathlib.Core.Option.{Option, none, some}
use mtproxy_orchestrator.Base.Lists.{find, filter, All, All-append}
use native.Mathlib.Omega.{arith}
use mtproxy_orchestrator.Base.Tests.{if◌then◌else◌, Bool-cases}

-- `UPDATE t SET … WHERE p`
abbrev pub update {ℓ} : {A : Type ℓ} → (A → Bool) → (A → A) → List A → List A
update p f [] = []
update p f (x ∷ xs) = (if p x then f x else x) ∷ update p f xs

-- `SELECT SUM(f) FROM t WHERE p`, with COALESCE(…, 0) round it
abbrev pub sum {ℓ} : {A : Type ℓ} → (A → Bool) → (A → ℕ) → List A → ℕ
sum p f [] = 0
sum p f (x ∷ xs) = (if p x then f x else 0) + sum p f xs

-- `SELECT MAX(f) FROM t WHERE p`, 0 where no row passes
abbrev pub greatest {ℓ} : {A : Type ℓ} → (A → Bool) → (A → ℕ) → List A → ℕ
greatest p f [] = 0
greatest p f (x ∷ xs) = max (if p x then f x else 0) (greatest p f xs)

-- `EXISTS (SELECT 1 FROM t WHERE p)`
abbrev pub exists {ℓ} : {A : Type ℓ} → (A → Bool) → List A → Bool
exists p [] = false
exists p (x ∷ xs) = if p x then true else exists p xs

-- A search behind an UPDATE that leaves the searched columns alone finds the same row, updated.
pub find-update {ℓ} :
    {A : Type ℓ} (p q : A → Bool) (f : A → A) (xs : List A)
    → ((x : A) → p (f x) ≡ p x)
    → find p (update q f xs) ≡ Option.map (λ x. if q x then f x else x) (find p xs)
find-update p q f [] h = refl
find-update p q f (x ∷ xs) h = ground (arith, h x, find-update p q f xs h)

-- No two rows have the same key: a PRIMARY KEY.
abbrev pub Distinct {ℓ} : {A : Type ℓ} → (A → ℕ) → List A → Type 0
Distinct key [] = Unit
Distinct key (x ∷ xs) = All (λ y. key x ≢ key y) xs × Distinct key xs

pub find-pass {ℓ} :
    {A : Type ℓ} (p : A → Bool) (xs : List A) {u : A} → find p xs ≡ some u → p u ≡ true
find-pass p [] h = cc
find-pass p (x ∷ xs) {u} h = elim (Bool-cases (p x)) [
  | inl e ↦ let same : x ≡ u = cc (rw e at h) in rw (← same) e
  | inr e ↦ find-pass p xs (rw e at h)
]

pub All-find {ℓ κ} :
    {A : Type ℓ} (P : A → Type κ) (p : A → Bool) (xs : List A) {u : A}
    → All P xs
    → find p xs ≡ some u
    → P u
All-find P p [] a h = cc
All-find P p (x ∷ xs) {u} a h = elim (Bool-cases (p x)) [
  | inl e ↦ let same : x ≡ u = cc (rw e at h) in subst P same a.0
  | inr e ↦ All-find P p xs a.1 (rw e at h)
]

-- Two searches whose rows have one key found one row.
pub find-Distinct {ℓ} :
    {A : Type ℓ} (key : A → ℕ) (p q : A → Bool) (xs : List A) {u v : A}
    → Distinct key xs
    → find p xs ≡ some u
    → find q xs ≡ some v
    → key u ≡ key v
    → u ≡ v
find-Distinct key p q [] d hu hv e = cc
find-Distinct key p q (x ∷ xs) {u} {v} d hu hv e = elim (Bool-cases (p x)) [
  | inl px ↦ elim (Bool-cases (q x)) [
    | inl qx ↦ cc (rw px at hu, rw qx at hv)
    | inr qx ↦ absurd (All-find (λ y. key x ≢ key y) q xs d.0 (rw qx at hv) (cc (rw px at hu)))
  ]
  | inr px ↦ elim (Bool-cases (q x)) [
    | inl qx ↦ absurd (All-find (λ y. key x ≢ key y) p xs d.0 (rw px at hu) (cc (rw qx at hv)))
    | inr qx ↦ find-Distinct key p q xs d.1 (rw px at hu) (rw qx at hv) e
  ]
]

All-update {ℓ κ} :
    {A : Type ℓ} (P : A → Type κ) (q : A → Bool) (f : A → A) (xs : List A)
    → ((x : A) → P x → P (f x))
    → All P xs
    → All P (update q f xs)
All-update P q f [] h a = tt
All-update P q f (x ∷ xs) h a = (
  elim (Bool-cases (q x)) [ inl e ↦ rw e (h x a.0) | inr e ↦ rw e a.0 ],
  All-update P q f xs h a.1,
)

-- An UPDATE that leaves the keys alone keeps them distinct.
pub Distinct-update {ℓ} :
    {A : Type ℓ} (key : A → ℕ) (q : A → Bool) (f : A → A) (xs : List A)
    → ((x : A) → key (f x) ≡ key x)
    → Distinct key xs
    → Distinct key (update q f xs)
Distinct-update key q f [] h d = tt
Distinct-update key q f (x ∷ xs) h d = (
  rw key-if (All-update (λ y. key x ≢ key y) q f xs (λ y ne e. ne (e ∙ h y)) d.0),
  Distinct-update key q f xs h d.1,
)
  where
    key-if : key (if q x then f x else x) ≡ key x
    key-if = ground (arith, h x)

-- `INSERT … ON CONFLICT(key) DO UPDATE`: the row with the key is rewritten, or a row is added.
abbrev pub upsert {ℓ} : {A : Type ℓ} → (A → Bool) → (A → A) → A → List A → List A
upsert p f row [] = row ∷ []
upsert p f row (x ∷ xs) = let rest = x ∷ upsert p f row xs in if p x then f x ∷ xs else rest

-- `INSERT OR REPLACE`: the rows with the key go, and the new row is added.
abbrev pub replace {ℓ} : {A : Type ℓ} → (A → Bool) → A → List A → List A
replace p row xs = filter (λ x. not (p x)) xs ++ row ∷ []

-- A row with a key of its own at the end keeps the keys distinct.
pub Distinct-concat {ℓ} :
    {A : Type ℓ} (key : A → ℕ) (xs : List A) (x : A)
    → Distinct key xs
    → All (λ y. key y ≢ key x) xs
    → Distinct key (xs ++ x ∷ [])
Distinct-concat key [] x d a = (tt, tt)
Distinct-concat key (y ∷ xs) x d a =
    (All-append (λ z. key y ≢ key z) xs (x ∷ []) d.0 (a.0, tt), Distinct-concat key xs x d.1 a.1)
