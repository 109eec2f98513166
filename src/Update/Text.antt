-- ===== src/Update/Text.antt =====
-- The functions of packages strings and strconv that internal/update/checker.go calls, on texts as
-- lists of bytes. Texts are ASCII: space and letters beyond it are not looked at.
use Prim.Native.Char.{code}
use mtproxy_orchestrator.Base.{
  ℕ, ◌+◌, ◌-◌, ◌*◌, ◌%◌, String, Bool, true, false, ◌&&◌, ◌||◌, Option, none, some, List, [], ◌∷◌,
  leb, ltb, ◌==◌, if◌then◌else◌,
}
use mtproxy_orchestrator.Base.Int.{two63, two64}

abbrev pub Text : Type 0
Text = List ℕ

abbrev pub codes : String → Text
codes String.[] = []
codes (String.◌∷◌ c s) = code c ∷ codes s

abbrev pub is_space : ℕ → Bool
is_space c = (leb 9 c && leb c 13) || c == b' '

abbrev pub is_digit : ℕ → Bool
is_digit c = leb b'0' c && leb c b'9'

abbrev pub trim_left : Text → Text
trim_left [] = []
trim_left (c ∷ s) = let rest = trim_left s in if is_space c then rest else c ∷ s

abbrev pub put_unless_blank : ℕ → Text → Text
put_unless_blank c [] = if is_space c then [] else c ∷ []
put_unless_blank c (d ∷ s) = c ∷ d ∷ s

abbrev pub trim_right : Text → Text
trim_right [] = []
trim_right (c ∷ s) = put_unless_blank c (trim_right s)

-- `strings.TrimSpace`
abbrev pub trim_space : Text → Text
trim_space s = trim_right (trim_left s)

-- What follows a prefix, if the text has it.
abbrev pub after_prefix : Text → Text → Option Text
after_prefix [] s = some s
after_prefix (p ∷ ps) [] = none
after_prefix (p ∷ ps) (c ∷ s) = let rest = after_prefix ps s in if p == c then rest else none

-- `strings.TrimPrefix`
abbrev pub trim_prefix : Text → Text → Text
trim_prefix p s = elim (after_prefix p s) [ none ↦ s | some rest ↦ rest ]

-- The text before the first `c`, and the text behind it.
abbrev pub cut : ℕ → Text → Text × Option Text
cut c [] = ([], none)
cut c (x ∷ s) = let rest = cut c s in if x == c then ([], some s) else (x ∷ rest.0, rest.1)

abbrev pub put_first : ℕ → List Text → List Text
put_first c [] = (c ∷ []) ∷ []
put_first c (p ∷ ps) = (c ∷ p) ∷ ps

-- `strings.Split` at one byte
abbrev pub split : ℕ → Text → List Text
split c [] = [] ∷ []
split c (x ∷ s) = let rest = split c s in if x == c then [] ∷ rest else put_first x rest

-- The number that digits write, put together with `wrap`; `none` where a byte is no digit.
unfoldable pub digits_value : (ℕ → ℕ) → ℕ → Text → Option ℕ
digits_value wrap acc [] = some acc
digits_value wrap acc (c ∷ s) =
    let rest = digits_value wrap (wrap (acc * 10 + (c - b'0'))) s in
    if is_digit c then rest else none

abbrev signed : Bool → Option ℕ → Option ℕ
signed minus none = none
signed false (some n) = if ltb n two63 then some n else none
signed true (some n) = if leb n two63 then some ((two64 - n) % two64) else none

abbrev number : Bool → Text → Option ℕ
number minus [] = none
number minus (c ∷ s) = signed minus (digits_value (λ n. n) 0 (c ∷ s))

-- `strconv.Atoi`, as the 64-bit pattern of the number
unfoldable pub atoi : Text → Option ℕ
unfolding digits_value
atoi [] = none
atoi (c ∷ s) =
    let plus = number false s in
    let minus = number true s in
    if c == b'+' then plus else if c == b'-' then minus else number false (c ∷ s)

abbrev pub text_eq : Text → Text → Bool
text_eq [] [] = true
text_eq [] (d ∷ t) = false
text_eq (c ∷ s) [] = false
text_eq (c ∷ s) (d ∷ t) = c == d && text_eq s t

-- `strings.HasSuffix`
abbrev pub has_suffix : Text → Text → Bool
has_suffix p [] = text_eq p []
has_suffix p (c ∷ s) = text_eq p (c ∷ s) || has_suffix p s

abbrev pub is_some : Option Text → Bool
is_some none = false
is_some (some s) = true

-- `strings.Contains`
abbrev pub contains : Text → Text → Bool
contains p [] = is_some (after_prefix p [])
contains p (c ∷ s) = is_some (after_prefix p (c ∷ s)) || contains p s

-- `strings.ToLower`
abbrev pub to_lower : Text → Text
to_lower [] = []
to_lower (c ∷ s) = (if leb b'A' c && leb c b'Z' then c + 32 else c) ∷ to_lower s

abbrev put_field : ℕ → Text × List Text → Text × List Text
put_field c (f, fs) = (c ∷ f, fs)

abbrev end_field : Text × List Text → List Text
end_field ([], fs) = fs
end_field (c ∷ f, fs) = (c ∷ f) ∷ fs

-- The field that a text begins with, empty where it begins with space, and the fields behind.
abbrev first_field : Text → Text × List Text
first_field [] = ([], [])
first_field (c ∷ s) =
    let rest = first_field s in if is_space c then ([], end_field rest) else put_field c rest

-- `strings.Fields`
abbrev pub fields : Text → List Text
fields s = end_field (first_field s)

abbrev last_of : Text → List Text → Text
last_of p [] = p
last_of p (q ∷ qs) = last_of q qs

abbrev trim_slashes : Text → Text
trim_slashes [] = []
trim_slashes (c ∷ s) = elim (trim_slashes s) [
  | [] ↦ if c == b'/' then [] else c ∷ []
  | d ∷ t ↦ c ∷ d ∷ t
]

-- `filepath.Base`: without slashes at the end, what stands behind the last slash.
abbrev pub base : Text → Text
base [] = codes "."
base (c ∷ s) = elim (trim_slashes (c ∷ s)) [
  | [] ↦ codes "/"
  | d ∷ t ↦ last_of [] (split b'/' (d ∷ t))
]
