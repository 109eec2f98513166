-- ===== src/Update/Versions/Order.antt =====
-- The order of versions behind `isUpgrade`.
use mtproxy_orchestrator.Base.{
  ℕ, zero, suc, ltb→lt, ◌+◌, ◌%◌, ◌<◌, true, false, List, [], ◌∷◌, ◌≡◌, ◌↔◌, refl, ap, inl, inr,
  arith, ltb, Bool-cases, Option-cases,
}
use mtproxy_orchestrator.Base.Int.{two63, two64}
use mtproxy_orchestrator.Update.Text.{Text}
use mtproxy_orchestrator.Update.Versions.{
  int_less, parse_version, Sign, less, same, more, compare_part, compare_version_parts, is_less,
  is_upgrade,
}

less_trans : (a b c : ℕ) → ltb a b ≡ true → ltb b c ≡ true → ltb a c ≡ true
less_trans a b c h k = ground (arith)

-- Parts that are not ordered have the same number.
part_trans :
    (a b c : ℕ) (r s t : Sign)
    → (is_less r ≡ true → is_less s ≡ true → is_less t ≡ true)
    → is_less (compare_part a b r) ≡ true
    → is_less (compare_part b c s) ≡ true
    → is_less (compare_part a c t) ≡ true
part_trans a b c r s t step h k = ground (arith, step)

compare_irrefl : (xs : List ℕ) → is_less (compare_version_parts xs xs) ≡ false
unfolding compare_version_parts
compare_irrefl [] = refl
compare_irrefl (x ∷ xs) = ground (arith, compare_irrefl xs)

compare_trans :
    (xs ys zs : List ℕ)
    → is_less (compare_version_parts xs ys) ≡ true
    → is_less (compare_version_parts ys zs) ≡ true
    → is_less (compare_version_parts xs zs) ≡ true
unfolding compare_version_parts
compare_trans [] [] zs h k = k
compare_trans [] (y ∷ ys) [] h k = part_trans 0 y 0 _ _ same (compare_trans [] ys []) h k
compare_trans [] (y ∷ ys) (z ∷ zs) h k = part_trans 0 y z _ _ _ (compare_trans [] ys zs) h k
compare_trans (x ∷ xs) [] [] h k = h
compare_trans (x ∷ xs) [] (z ∷ zs) h k = part_trans x 0 z _ _ _ (compare_trans xs [] zs) h k
compare_trans (x ∷ xs) (y ∷ ys) [] h k = part_trans x y 0 _ _ _ (compare_trans xs ys []) h k
compare_trans (x ∷ xs) (y ∷ ys) (z ∷ zs) h k = part_trans x y z _ _ _ (compare_trans xs ys zs) h k

-- No version is an upgrade of itself, and an upgrade of an upgrade is an upgrade.
is_upgrade_trans :
    (a b c : Text)
    → is_upgrade a b ≡ true
    → is_upgrade b c ≡ true
    → (is_upgrade a c ≡ true) × (is_upgrade a a ≡ false)
unfolding is_upgrade
is_upgrade_trans a b c h k = elim (Option-cases (parse_version a)) [
  | inl no_a ↦ absurd (ground (arith, rw no_a at h))
  | inr (x, is_a) ↦ elim (Option-cases (parse_version b)) [
    | inl no_b ↦ absurd (ground (arith, rw (is_a, no_b) at h))
    | inr (y, is_b) ↦ elim (Option-cases (parse_version c)) [
      | inl no_c ↦ absurd (ground (arith, rw (is_b, no_c) at k))
      | inr (z, is_c) ↦ (
        rw (is_a, is_c) (compare_trans x y z (rw (is_a, is_b) at h) (rw (is_b, is_c) at k)),
        rw (is_a, is_a) (compare_irrefl x),
      )
    ]
  ]
]

-- Part number `i`, 0 where there is none.
abbrev pub part : List ℕ → ℕ → ℕ
part [] i = 0
part (x ∷ xs) zero = x
part (x ∷ xs) (suc i) = part xs i

-- The int that a 64-bit pattern stands for, moved up by 2 ^ 63.
abbrev pub rank : ℕ → ℕ
rank a = (a + two63) % two64

-- The first part at which two versions differ is smaller in the first.
abbrev pub IsBefore : List ℕ → List ℕ → Type 0
IsBefore xs ys =
    (i : ℕ) × ((rank (part xs i) < rank (part ys i))
      × ((j : ℕ) → j < i → rank (part xs j) ≡ rank (part ys j)))

IsBefore-later :
    (xs ys : List ℕ)
    → rank (part xs 0) ≡ rank (part ys 0)
    → (i : ℕ) → rank (part xs (suc i)) < rank (part ys (suc i))
    → ((j : ℕ) → j < i → rank (part xs (suc j)) ≡ rank (part ys (suc j)))
    → IsBefore xs ys
IsBefore-later xs ys e i l h = (suc i, (l, go))
  where
    go : (j : ℕ) → j < suc i → rank (part xs j) ≡ rank (part ys j)
    go zero k = e
    go (suc j) k = h j (omega (arith, k))

-- One step of the loop: the heads `a` and `b`, with the tails' comparison `r` and its meaning.
step_iff :
    (xs ys : List ℕ) (r : Sign)
    → ((is_less r ≡ true) ↔ (
        (i : ℕ) × ((rank (part xs (suc i)) < rank (part ys (suc i)))
          × ((j : ℕ) → j < i → rank (part xs (suc j)) ≡ rank (part ys (suc j))))))
    → (is_less (compare_part (part xs 0) (part ys 0) r) ≡ true) ↔ IsBefore xs ys
step_iff xs ys r rest = (to, from)
  where
    to : is_less (compare_part (part xs 0) (part ys 0) r) ≡ true → IsBefore xs ys
    to h = elim (Bool-cases (int_less (part xs 0) (part ys 0))) [
      | inl l ↦ (0, (ltb→lt _ _ l, λ j k. absurd (omega (arith, k))))
      | inr not_less ↦ elim (Bool-cases (int_less (part ys 0) (part xs 0))) [
        | inl above ↦ absurd (ground (arith, rw (not_less, above) at h))
        | inr equal ↦
            let (i, (l, before)) = rest.0 (rw (not_less, equal) at h) in
            IsBefore-later xs ys (ground (arith, not_less, equal)) i l before
      ]
    ]

    from : IsBefore xs ys → is_less (compare_part (part xs 0) (part ys 0) r) ≡ true
    from (zero, (l, h)) = ground (arith, l)
    from (suc i, (l, h)) =
        let e = h 0 (omega arith) in
        let tail = rest.1 (i, (l, λ j k. h (suc j) (omega (arith, k)))) in ground (arith, e, tail)

is_less_iff : (xs ys : List ℕ) → (is_less (compare_version_parts xs ys) ≡ true) ↔ IsBefore xs ys
unfolding compare_version_parts
is_less_iff [] [] = (λ h. absurd (ground arith), λ (i, (l, h)). absurd (omega (arith, l)))
is_less_iff (x ∷ xs) [] = step_iff (x ∷ xs) [] _ (is_less_iff xs [])
is_less_iff [] (y ∷ ys) = step_iff [] (y ∷ ys) _ (is_less_iff [] ys)
is_less_iff (x ∷ xs) (y ∷ ys) = step_iff (x ∷ xs) (y ∷ ys) _ (is_less_iff xs ys)

is_less-less : (s : Sign) → is_less s ≡ true → s ≡ less
is_less-less less h = refl
is_less-less same h = absurd (ground arith)
is_less-less more h = absurd (ground arith)

-- `compareVersionParts` answers -1 exactly if at the first part that differs, with 0 for what the
-- shorter list lacks, the first list's number is the smaller.
pub compare_iff : (xs ys : List ℕ) → (compare_version_parts xs ys ≡ less) ↔ IsBefore xs ys
unfolding compare_version_parts
compare_iff xs ys = (
  λ h. (is_less_iff xs ys).0 (ap is_less h),
  λ h. is_less-less (compare_version_parts xs ys) ((is_less_iff xs ys).1 h),
)
