-- ===== src/Update/Versions.antt =====
-- `parseVersion`, `compareVersionParts` and `isUpgrade` of internal/update/checker.go. An `int` is its
-- 64-bit pattern, and the sums of `parseVersion` wrap around.
pub mod Order
pub mod Decimal
pub mod RoundTrip
use mtproxy_orchestrator.Base.{
  ℕ, ◌+◌, ◌%◌, Bool, true, false, Option, none, some, List, [], ◌∷◌, ◌++◌, ltb, ◌==◌, if◌then◌else◌,
}
use mtproxy_orchestrator.Base.Int.{two63, two64}
use mtproxy_orchestrator.Update.Text.{
  Text, codes, trim_space, trim_prefix, cut, split, digits_value, atoi,
}

abbrev pub wrap64 : ℕ → ℕ
wrap64 n = n % two64

-- `a < b` on two `int`.
abbrev pub int_less : ℕ → ℕ → Bool
int_less a b = ltb ((a + two63) % two64) ((b + two63) % two64)

-- A part is a number without a sign, and not empty.
abbrev pub part_value : Text → Option ℕ
part_value [] = none
part_value (c ∷ s) = digits_value wrap64 0 (c ∷ s)

abbrev pub prepend : Option ℕ → Option (List ℕ) → Option (List ℕ)
prepend none vs = none
prepend (some v) none = none
prepend (some v) (some vs) = some (v ∷ vs)

abbrev pub part_values : List Text → Option (List ℕ)
part_values [] = some []
part_values (p ∷ ps) = prepend (part_value p) (part_values ps)

-- The number behind `-f` or `-`, 0 where that is no number.
unfoldable pub fix_number : Option Text → ℕ
unfolding atoi
fix_number none = 0
fix_number (some suffix) = elim (atoi (trim_prefix (codes "f") suffix)) [ none ↦ 0 | some n ↦ n ]

abbrev pub append_fix : ℕ → Option (List ℕ) → Option (List ℕ)
append_fix fix none = none
append_fix fix (some vs) = some (vs ++ fix ∷ [])

-- The text without `v` and space: its parts up to `-`, and the fix number behind.
unfoldable pub parse_trimmed : Text → Option (List ℕ)
unfolding fix_number digits_value
parse_trimmed [] = none
parse_trimmed (c ∷ s) =
    let (main, suffix) = cut b'-' (c ∷ s) in
    append_fix (fix_number suffix) (part_values (split b'.' main))

unfoldable pub parse_version : Text → Option (List ℕ)
unfolding parse_trimmed
parse_version raw = parse_trimmed (trim_space (trim_prefix (codes "v") raw))

pub data Sign : Type 0 where
  less same more : Sign

abbrev pub compare_part : ℕ → ℕ → Sign → Sign
compare_part a b rest = if int_less a b then less else if int_less b a then more else rest

-- The loop over both, with 0 for what the shorter one lacks.
unfoldable pub compare_version_parts : List ℕ → List ℕ → Sign
compare_version_parts [] [] = same
compare_version_parts (a ∷ xs) [] = let rest = compare_version_parts xs [] in compare_part a 0 rest
compare_version_parts [] (b ∷ ys) = let rest = compare_version_parts [] ys in compare_part 0 b rest
compare_version_parts (a ∷ xs) (b ∷ ys) =
    let rest = compare_version_parts xs ys in compare_part a b rest

abbrev pub is_less : Sign → Bool
is_less less = true
is_less _ = false

unfoldable pub is_upgrade : Text → Text → Bool
unfolding parse_version compare_version_parts
is_upgrade current available = elim (parse_version current) [
  | none ↦ false
  | some c ↦ elim (parse_version available) [
    | none ↦ false
    | some a ↦ is_less (compare_version_parts c a)
  ]
]
