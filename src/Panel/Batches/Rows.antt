-- ===== src/Panel/Batches/Rows.antt =====
-- The undo of the handlers that change several users: rows compared pair by pair with those before.
use mtproxy_orchestrator.Base.{
  Bool, true, ◌==◌, some, List, [], ◌∷◌, ◌++◌, ◌≡◌, refl, arith, if◌then◌else◌, All, map,
}
use mtproxy_orchestrator.Base.Sql.{update, exists}
use mtproxy_orchestrator.Schema.{UserRow, Db}
use mtproxy_orchestrator.Panel.Users.{live_id, update_users}
use mtproxy_orchestrator.Panel.Batches.{Plan}

abbrev pub Pairwise : (UserRow → UserRow → Type 0) → List UserRow → List UserRow → Type 0
Pairwise R [] [] = Unit
Pairwise R [] (y ∷ ys) = ⊥
Pairwise R (x ∷ xs) [] = ⊥
Pairwise R (x ∷ xs) (y ∷ ys) = R x y × Pairwise R xs ys

pub Pairwise-update :
    (H : UserRow → Type 0) (R S : UserRow → UserRow → Type 0) (q : UserRow → Bool)
    (f : UserRow → UserRow) (xs ys : List UserRow)
    → ((x y : UserRow) → H x → R x y → S x (if q y then f y else y))
    → All H xs
    → Pairwise R xs ys
    → Pairwise S xs (update q f ys)
Pairwise-update H R S q f [] [] step h p = tt
Pairwise-update H R S q f [] (y ∷ ys) step h p = elim p [ ]
Pairwise-update H R S q f (x ∷ xs) [] step h p = elim p [ ]
Pairwise-update H R S q f (x ∷ xs) (y ∷ ys) step h p =
    (step x y h.0 p.0, Pairwise-update H R S q f xs ys step h.1 p.1)

pub Pairwise-map :
    (R S : UserRow → UserRow → Type 0) (xs ys : List UserRow)
    → ((x y : UserRow) → R x y → S x y)
    → Pairwise R xs ys
    → Pairwise S xs ys
Pairwise-map R S [] [] step p = tt
Pairwise-map R S [] (y ∷ ys) step p = elim p [ ]
Pairwise-map R S (x ∷ xs) [] step p = elim p [ ]
Pairwise-map R S (x ∷ xs) (y ∷ ys) step p = (step x y p.0, Pairwise-map R S xs ys step p.1)

pub Pairwise-refl :
    (R : UserRow → UserRow → Type 0) (xs : List UserRow)
    → ((x : UserRow) → R x x)
    → Pairwise R xs xs
Pairwise-refl R [] r = tt
Pairwise-refl R (x ∷ xs) r = (r x, Pairwise-refl R xs r)

pub Pairwise-erase :
    (erase : UserRow → UserRow) (xs ys : List UserRow)
    → Pairwise (λ x y. erase y ≡ erase x) xs ys
    → map erase ys ≡ map erase xs
Pairwise-erase erase [] [] p = refl
Pairwise-erase erase [] (y ∷ ys) p = elim p [ ]
Pairwise-erase erase (x ∷ xs) [] p = elim p [ ]
Pairwise-erase erase (x ∷ xs) (y ∷ ys) p = cc (p.0, Pairwise-erase erase xs ys p.1)

-- `u` is the only row of `xs` that an update of its id changes.
abbrev pub Owns : List UserRow → UserRow → Type 0
Owns xs u = All (λ x. live_id u.id x ≡ true → x ≡ u) xs

abbrev pub hit : List UserRow → UserRow → Bool
hit us x = exists (λ u. u.id == x.id) us

pub hit-concat : (us : List UserRow) (u x : UserRow) → hit us x ≡ true → hit (us ++ u ∷ []) x ≡ true
hit-concat [] u x h = ground (arith)
hit-concat (v ∷ us) u x h = ground (arith, hit-concat us u x)

pub hit_last :
    (us : List UserRow) (u x : UserRow) → (u.id == x.id) ≡ true → hit (us ++ u ∷ []) x ≡ true
hit_last [] u x h = ground (arith)
hit_last (v ∷ us) u x h = ground (arith, hit_last us u x h)

-- A plan changes one field of the live row of a user: what `blank` keeps of a row is never changed,
-- and the undo puts back all that `erase` keeps.
pub record IsField (plan : Plan) (blank erase : UserRow → UserRow) : Type 0 where
  pub changes :
      (u : UserRow) (h : Db → Db)
      → plan.change u ≡ some h
      → (g : UserRow → UserRow) × ((h ≡ update_users (live_id u.id) g)
          × ((r : UserRow) → blank (g r) ≡ blank r))
  pub back : UserRow → UserRow → UserRow
  pub undoes : (u : UserRow) → plan.undo u ≡ update_users (live_id u.id) (back u)
  pub back_blank : (u r : UserRow) → blank (back u r) ≡ blank r
  pub restores : (u r : UserRow) → blank r ≡ blank u → erase (back u r) ≡ erase u
  pub same_key : (x y : UserRow) → blank y ≡ blank x → (y.id ≡ x.id) × (y.deleted ≡ x.deleted)
