-- ===== src/Update/Versions/RoundTrip.antt =====
-- Texts of versions: what `parseVersion` reads of a version that is written in digits.
use mtproxy_orchestrator.Base.{
  ℕ, ◌<◌, Bool, true, false, some, List, [], ◌∷◌, ◌++◌, ◌≡◌, refl, sym, ap, ◌∙◌, arith, ltb, ◌==◌,
  All, All-append, map, subst,
}
use mtproxy_orchestrator.Base.Int.{two63, two64}
use mtproxy_orchestrator.Update.Text.{
  Text, is_space, is_digit, trim_left, trim_right, trim_space, cut, split, digits_value, atoi,
}
use mtproxy_orchestrator.Update.Versions.Decimal.{
  decimal, value-decimal, IsDigits-decimal, decimal-cons, IsDigits-All,
}
use mtproxy_orchestrator.Update.Versions.{
  wrap64, part_value, part_values, prepend, append_fix, fix_number, parse_trimmed, parse_version,
  compare_version_parts, less, is_less, is_upgrade,
}

trim_left_same : (s : Text) → All (λ c. is_space c ≡ false) s → trim_left s ≡ s
trim_left_same [] a = refl
trim_left_same (c ∷ s) a = rw (a.0) refl

trim_right_same : (s : Text) → All (λ c. is_space c ≡ false) s → trim_right s ≡ s
trim_right_same [] a = refl
trim_right_same (c ∷ []) a = rw (a.0) refl
trim_right_same (c ∷ d ∷ s) a = rw (trim_right_same (d ∷ s) a.1) refl

trim_space_same : (s : Text) → All (λ c. is_space c ≡ false) s → trim_space s ≡ s
trim_space_same s a = ap trim_right (trim_left_same s a) ∙ trim_right_same s a

cut-append : (c : ℕ) (s t : Text) → All (λ x. (x == c) ≡ false) s → cut c (s ++ c ∷ t) ≡ (s, some t)
cut-append c [] t a = ground arith
cut-append c (x ∷ s) t a = rw (a.0, cut-append c s t a.1) refl

split-append :
    (c : ℕ) (s t : Text) → All (λ x. (x == c) ≡ false) s → split c (s ++ c ∷ t) ≡ s ∷ split c t
split-append c [] t a = ground arith
split-append c (x ∷ s) t a = rw (a.0, split-append c s t a.1) refl

split_same : (c : ℕ) (s : Text) → All (λ x. (x == c) ≡ false) s → split c s ≡ s ∷ []
split_same c [] a = refl
split_same c (x ∷ s) a = rw (a.0, split_same c s a.1) refl

abbrev pub joined : List ℕ → Text
joined [] = []
joined (n ∷ []) = decimal n
joined (n ∷ m ∷ ns) = decimal n ++ b'.' ∷ joined (m ∷ ns)

-- `v1.2.3-f4` for the parts 1, 2, 3 and the fix number 4
abbrev pub print_version : List ℕ → ℕ → Text
print_version parts fix = b'v' ∷ joined parts ++ b'-' ∷ b'f' ∷ decimal fix

joined-All :
    (p : ℕ → Bool) (parts : List ℕ)
    → ((c : ℕ) → is_digit c ≡ true → p c ≡ false)
    → p b'.' ≡ false
    → All (λ c. p c ≡ false) (joined parts)
joined-All p [] h dot = tt
joined-All p (n ∷ []) h dot = IsDigits-All p (decimal n) h (IsDigits-decimal n)
joined-All p (n ∷ m ∷ ns) h dot =
    All-append (λ c. p c ≡ false) (decimal n) (b'.' ∷ joined (m ∷ ns))
      (IsDigits-All p (decimal n) h (IsDigits-decimal n)) (dot, joined-All p (m ∷ ns) h dot)

part_value-decimal : (n : ℕ) → n < two64 → part_value (decimal n) ≡ some n
part_value-decimal n l =
    let (c, (s, (e, d))) = decimal-cons n in
    subst (λ t. digits_value wrap64 0 t ≡ some n → part_value t ≡ some n) (sym e) (λ h. h)
      (value-decimal wrap64 n (λ m k. omega (arith, l, k)))

split-joined : (n : ℕ) (ns : List ℕ) → split b'.' (joined (n ∷ ns)) ≡ map decimal (n ∷ ns)
split-joined n [] =
    split_same b'.' (decimal n)
      (IsDigits-All (λ c. c == b'.') (decimal n) (λ c d. ground (arith, d)) (IsDigits-decimal n))
split-joined n (m ∷ ns) =
    split-append b'.' (decimal n) (joined (m ∷ ns))
      (IsDigits-All (λ c. c == b'.') (decimal n) (λ c d. ground (arith, d)) (IsDigits-decimal n))
    ∙ ap (λ ps. decimal n ∷ ps) (split-joined m ns)

part_values-cons :
    (p : Text) (v : ℕ) (ps : List Text) (vs : List ℕ)
    → part_value p ≡ some v
    → part_values ps ≡ some vs
    → part_values (p ∷ ps) ≡ some (v ∷ vs)
part_values-cons p v ps vs h k = ap (λ o. prepend o (part_values ps)) h ∙ ap (prepend (some v)) k

part_values-map : (ns : List ℕ) → All (λ n. n < two63) ns → part_values (map decimal ns) ≡ some ns
part_values-map [] a = refl
part_values-map (n ∷ ns) a =
    part_values-cons (decimal n) n (map decimal ns) ns (part_value-decimal n (omega (arith, a.0)))
      (part_values-map ns a.1)

atoi_digits :
    (c : ℕ) (s : Text) (n : ℕ)
    → is_digit c ≡ true
    → digits_value (λ n. n) 0 (c ∷ s) ≡ some n
    → n < two63
    → atoi (c ∷ s) ≡ some n
unfolding atoi
atoi_digits c s n d value l =
    let no_plus : (c == b'+') ≡ false = ground (arith, d) in
    let no_minus : (c == b'-') ≡ false = ground (arith, d) in
    let fits : ltb n two63 ≡ true = ground (arith, l) in rw (no_plus, no_minus, value, fits) refl

fix_number-decimal : (n : ℕ) → n < two63 → fix_number (some (b'f' ∷ decimal n)) ≡ n
unfolding fix_number
fix_number-decimal n l =
    let (c, (s, (e, d))) = decimal-cons n in
    let value : digits_value (λ n. n) 0 (c ∷ s) ≡ some n =
      subst (λ t. digits_value (λ n. n) 0 t ≡ some n) e (value-decimal (λ n. n) n (λ m k. refl)) in
    let is : atoi (decimal n) ≡ some n = ap atoi e ∙ atoi_digits c s n d value l in
    rw (is, fix_number) refl

parse-main :
    (whole main suffix : Text) (vs : List ℕ)
    → cut b'-' whole ≡ (main, some suffix)
    → trim_space whole ≡ whole
    → part_values (split b'.' main) ≡ some vs
    → parse_version (b'v' ∷ whole) ≡ some (vs ++ fix_number (some suffix) ∷ [])
unfolding parse_version parse_trimmed
parse-main [] main suffix vs h t k = absurd (cc (ap (λ r. r.1) h))
parse-main (c ∷ s) main suffix vs h t k =
    ap parse_trimmed t
    ∙ ap (λ r. append_fix (fix_number r.1) (part_values (split b'.' r.0))) h
    ∙ ap (append_fix (fix_number (some suffix))) k

-- Parts, at least one, and a fix number, all below 2 ^ 63 and written in digits, are read back: no
-- part wraps to a negative number.
pub parse_version-print_version :
    (n : ℕ) (ns : List ℕ) (fix : ℕ)
    → All (λ m. m < two63) (n ∷ ns)
    → fix < two63
    → parse_version (print_version (n ∷ ns) fix) ≡ some ((n ∷ ns) ++ fix ∷ [])
parse_version-print_version n ns fix a l =
    let suffix = b'f' ∷ decimal fix in
    let blank = joined-All is_space (n ∷ ns) (λ c d. ground (arith, d)) refl in
    let dash = joined-All (λ c. c == b'-') (n ∷ ns) (λ c d. ground (arith, d)) refl in
    let digits =
      IsDigits-All is_space (decimal fix) (λ c d. ground (arith, d)) (IsDigits-decimal fix) in
    parse-main (joined (n ∷ ns) ++ b'-' ∷ suffix) (joined (n ∷ ns)) suffix (n ∷ ns)
      (cut-append b'-' (joined (n ∷ ns)) suffix dash)
      (trim_space_same (joined (n ∷ ns) ++ b'-' ∷ suffix) (
        All-append (λ c. is_space c ≡ false) (joined (n ∷ ns)) (b'-' ∷ suffix) blank
          (refl, (refl, digits))))
      (ap part_values (split-joined n ns) ∙ part_values-map (n ∷ ns) a)
    ∙ ap (λ f. some ((n ∷ ns) ++ f ∷ [])) (fix_number-decimal fix l)

compare_first : (c f : ℕ) → c < f → f < two63 → compare_version_parts (c ∷ 0 ∷ []) (f ∷ []) ≡ less
unfolding compare_version_parts
compare_first c f l k = ground (arith, l, k)

compare-prefix :
    (ns xs ys : List ℕ) → compare_version_parts (ns ++ xs) (ns ++ ys) ≡ compare_version_parts xs ys
unfolding compare_version_parts
compare-prefix [] xs ys = refl
compare-prefix (n ∷ ns) xs ys = ground (arith, compare-prefix ns xs ys)

append_assoc : (ns : List ℕ) (c d : ℕ) → (ns ++ c ∷ []) ++ d ∷ [] ≡ ns ++ c ∷ d ∷ []
append_assoc [] c d = refl
append_assoc (n ∷ ns) c d = ap (λ xs. n ∷ xs) (append_assoc ns c d)

-- A fix number stands where a further part would stand: fix `f` of a version is an upgrade of every
-- version with a further part `c` that is smaller than `f`.
is_upgrade-print_version :
    (n : ℕ) (ns : List ℕ) (c f : ℕ)
    → All (λ m. m < two63) (n ∷ ns)
    → c < f
    → f < two63
    → is_upgrade (print_version (n ∷ ns ++ c ∷ []) 0) (print_version (n ∷ ns) f) ≡ true
unfolding is_upgrade
is_upgrade-print_version n ns c f a l k =
    let older =
      parse_version-print_version n (ns ++ c ∷ []) 0
        (All-append (λ m. m < two63) (n ∷ ns) (c ∷ []) a (omega (arith, l, k), tt)) (omega arith) in
    let newer = parse_version-print_version n ns f a k in
    let order : compare_version_parts ((n ∷ ns ++ c ∷ []) ++ 0 ∷ []) ((n ∷ ns) ++ f ∷ []) ≡ less =
      ap (λ xs. compare_version_parts xs ((n ∷ ns) ++ f ∷ [])) (append_assoc (n ∷ ns) c 0)
      ∙ compare-prefix (n ∷ ns) (c ∷ 0 ∷ []) (f ∷ [])
      ∙ compare_first c f l k in
    rw (older, newer) (ap is_less order)
