-- ===== src/Update/Assets.antt =====
-- The choice of a release's asset in internal/update/checker.go, and of its checksum. Names are ASCII:
-- `strings.ToLower` changes the letters A to Z.
pub mod Choice
use mtproxy_orchestrator.Base.{
  ℕ, ◌+◌, Bool, true, false, not, ◌&&◌, ◌||◌, Option, none, some, List, [], ◌∷◌, ◌++◌, leb, ◌==◌,
  length, find, if◌then◌else◌,
}
use mtproxy_orchestrator.Update.Text.{
  Text, codes, is_space, after_prefix, trim_space, trim_prefix, split, text_eq, has_suffix,
  contains, to_lower, fields, base,
}

pub data Component : Type 0 where
  cli panel teleproxy singbox : Component

abbrev pub component_name : Component → Text
component_name cli = codes "tgproxy-cli"
component_name panel = codes "tgproxy-panel"
component_name teleproxy = codes "teleproxy"
component_name singbox = codes "sing-box"

pub record Asset : Type 0 where
  pub name : Text
  pub browser_download_url : Text
  pub digest : Text

-- `isChecksumFile`
unfoldable pub is_checksum_file : Text → Bool
is_checksum_file name =
    let n = to_lower name in
    has_suffix (codes ".sha256") n
    || (has_suffix (codes "_checksums.txt") n
        || (has_suffix (codes "_checksums.sha256") n || contains (codes "checksums") n))

unfoldable pub find_checksum_url : List Asset → Text
find_checksum_url assets =
    elim (find
      (λ (a : Asset).
        let n = to_lower a.name in
        has_suffix (codes "_checksums.txt") n
        || (has_suffix (codes ".sha256") n
            || (has_suffix (codes "_checksums.sha256") n
                || (contains (codes "checksums") n || contains (codes "sha256sums") n))))
      assets) [ none ↦ [] | some a ↦ a.browser_download_url ]

abbrev is_linux_amd64 : Text → Bool
is_linux_amd64 name = contains (codes "linux") name && contains (codes "amd64") name

-- The tests of the loops on a name in lower case, but for the last loop.
abbrev pub named_tests : Component → List (Text → Bool)
named_tests c =
    (λ n.
      contains (component_name c) n
      && (is_linux_amd64 n
          && (not (contains (codes "glibc") n) && not (contains (codes "musl") n))))
    ∷ (λ n. contains (component_name c) n && is_linux_amd64 n)
    ∷ is_linux_amd64
    ∷ (λ n. contains (component_name c) n)
    ∷ []

abbrev pub name_tests : Component → List (Text → Bool)
name_tests c = named_tests c ++ (λ n. true) ∷ []

-- One loop: the first asset that is no checksum file and passes the test.
abbrev pub passes : (Text → Bool) → Asset → Bool
passes t a = not (is_checksum_file a.name) && t (to_lower a.name)

abbrev pub or_else {ℓ} : {A : Type ℓ} → Option A → Option A → Option A
or_else none b = b
or_else (some a) b = some a

-- The loops in turn, until one returns.
abbrev pub choose : List (Text → Bool) → List Asset → Option Asset
choose [] assets = none
choose (t ∷ ts) assets = or_else (find (passes t) assets) (choose ts assets)

abbrev pub url_and_name : Option Asset → Text × Text
url_and_name none = ([], [])
url_and_name (some a) = (a.browser_download_url, a.name)

unfoldable pub find_asset_url_and_name : Component → List Asset → Text × Text
find_asset_url_and_name c assets = url_and_name (choose (name_tests c) assets)

unfoldable pub parse_digest : Text → Option Text
parse_digest digest = elim (after_prefix (codes "sha256:") digest) [
  | none ↦ none
  | some hex ↦ if length hex == 64 then some hex else none
]

abbrev trim_stars : Text → Text
trim_stars [] = []
trim_stars (c ∷ s) = let rest = trim_stars s in if c == b'*' then rest else c ∷ s

-- The checksum that a line has for the name.
abbrev pub line_checksum : Text → List Text → Option Text
line_checksum needle (hash ∷ filename ∷ more) =
    if text_eq (to_lower (base (trim_stars filename))) needle then some hash else none
line_checksum needle _ = none

abbrev is_comment : Text → Bool
is_comment [] = true
is_comment (c ∷ s) = c == b'#'

abbrev pub scan_lines : Text → List Text → Option Text
scan_lines needle [] = none
scan_lines needle (line ∷ lines) =
    let rest = scan_lines needle lines in
    if is_comment (trim_space line)
    then rest
    else or_else (line_checksum needle (fields (trim_space line))) rest

-- `bufio.Scanner` splits at line feeds; a carriage return goes with the space. A line is shorter than
-- the scanner's limit of 64 KiB.
unfoldable pub parse_checksum_file : Text → Text → Option Text
parse_checksum_file content asset_name =
    scan_lines (to_lower (base asset_name)) (split b'\n' content)
