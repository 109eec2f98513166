-- ===== src/Update/Checks.antt =====
-- `fetchLatestRelease`, `CheckOne` and `CheckAll` of internal/update/checker.go on the files of
-- `FileStore`. Instants are nanoseconds; a file of the last check holds whole seconds. The answers of
-- the server are parameters: the latest release of a component and the text behind a URL, `none` for
-- any error. A request that fails leaves history and last check alone.
pub mod Spacing
use mtproxy_orchestrator.Base.{
  ℕ, ◌+◌, ◌-◌, ◌*◌, ◌/◌, Bool, true, false, not, ◌&&◌, ◌||◌, Option, none, some, List, [], ◌∷◌,
  ◌++◌, find, ltb, leb, if◌then◌else◌,
}
use mtproxy_orchestrator.Update.Text.{Text, codes, trim_prefix, text_eq}
use mtproxy_orchestrator.Update.Versions.{is_upgrade}
use mtproxy_orchestrator.Update.Assets.{
  Component, cli, panel, teleproxy, singbox, Asset, or_else, find_asset_url_and_name,
  find_checksum_url, parse_checksum_file, parse_digest,
}

pub record Release : Type 0 where
  pub tag_name : Text
  pub assets : List Asset

pub record Server : Type 0 where
  pub latest : Component → Option Release
  pub get : Text → Option Text

pub record UpdateInfo : Type 0 where
  pub component : Component
  pub current_version : Text
  pub available_version : Text
  pub download_url : Text
  pub sha256 : Text

pub record CheckRecord : Type 0 where
  pub component : Component
  pub current_version : Text
  pub available_version : Text
  pub checked_at : ℕ

-- The file of the last check: there is none, it says an instant, or a write has left it unreadable.
pub data LastCheck : Type 0 where
  missing : LastCheck
  checked : ℕ → LastCheck
  unreadable : LastCheck

pub record Store : Type 0 where
  pub last : Component → LastCheck
  pub history : List CheckRecord

-- Which calls of the store fail; a failing write of the last check may leave its file unreadable.
pub record Faults : Type 0 where
  pub load : Bool
  pub save : Bool
  pub torn : Bool
  pub append : Bool

pub data Error : Type 0 where
  load_last_check fetch_failed save_last_check append_record : Error

abbrev pub second : ℕ
second = 1000000000

-- 18 hours
abbrev pub check_interval : ℕ
check_interval = 64800 * second

-- `t.UTC().Format(time.RFC3339)`
abbrev pub whole_seconds : ℕ → ℕ
whole_seconds t = t / second * second

abbrev pub component_eq : Component → Component → Bool
component_eq cli cli = true
component_eq panel panel = true
component_eq teleproxy teleproxy = true
component_eq singbox singbox = true
component_eq _ _ = false

abbrev is_empty : Text → Bool
is_empty [] = true
is_empty (c ∷ s) = false

abbrev or_empty : Option Text → Text
or_empty none = []
or_empty (some s) = s

-- `fetchChecksumForAsset`
abbrev fetch_checksum : Server → Text → Text → Option Text
fetch_checksum server url name = elim (server.get url) [
  | none ↦ none
  | some body ↦ parse_checksum_file body name
]

-- The digest of the first asset that has the name and a digest.
abbrev asset_digest : Text → List Asset → Text
asset_digest name assets =
    elim (find (λ (a : Asset). text_eq a.name name && not (is_empty a.digest)) assets) [
      | none ↦ []
      | some a ↦ or_empty (parse_digest a.digest)
    ]

abbrev asset_sha256 : Server → List Asset → Text → Text
asset_sha256 server assets name =
    let url = find_checksum_url assets in
    let listed = if is_empty url then [] else or_empty (fetch_checksum server url name) in
    if is_empty listed then asset_digest name assets else listed

-- The tag, the URL, the asset's name and its checksum
unfoldable pub fetch_latest_release : Server → Component → Option (Text × (Text × (Text × Text)))
fetch_latest_release server c = elim (server.latest c) [
  | none ↦ none
  | some rel ↦
      let (url, name) = find_asset_url_and_name c rel.assets in
      let sha256 = asset_sha256 server rel.assets name in
      some (
        trim_prefix (codes "v") rel.tag_name,
        (url, (name, if is_empty url || is_empty name then [] else sha256)),
      )
]

-- `now.Sub(last) < checkInterval`, with the error of an unreadable file
abbrev pub is_due : LastCheck → ℕ → Bool
is_due missing now = true
is_due (checked t) now = leb (t + check_interval) now
is_due unreadable now = false

abbrev is_readable : LastCheck → Bool
is_readable unreadable = false
is_readable _ = true

abbrev pub set_last : Component → LastCheck → Store → Store
set_last c l s = record s { last = λ d. if component_eq c d then l else s.last d }

abbrev pub append_history : CheckRecord → Store → Store
append_history r s = record s { history = s.history ++ r ∷ [] }

module _ (server : Server) (current : Component → Text) where
  -- `CheckOne` behind the request.
  unfoldable pub record_check :
      Faults
      → Component
      → ℕ
      → Text × (Text × (Text × Text))
      → Store
      → Store × (Option UpdateInfo × Option Error)
  record_check f c now (available, (url, (name, sha256))) s =
      let saved = set_last c (checked (whole_seconds now)) s in
      let info : UpdateInfo = record {
        component = c;
        current_version = current c;
        available_version = available;
        download_url = url;
        sha256 = sha256;
      } in
      let rec : CheckRecord = record {
        component = c;
        current_version = current c;
        available_version = available;
        checked_at = now;
      } in
      if f.save
      then (if f.torn then set_last c unreadable s else s, (none, some save_last_check))
      else if f.append
      then (saved, (none, some append_record))
      else (
        append_history rec saved,
        (if is_upgrade (current c) available then some info else none, none),
      )

  unfoldable pub check_one :
      Bool → Faults → Component → ℕ → Store → Store × (Option UpdateInfo × Option Error)
  unfolding record_check
  check_one manual f c now s =
      if not manual && (f.load || not (is_readable (s.last c)))
      then (s, (none, some load_last_check))
      else if not manual && not (is_due (s.last c) now)
      then (s, (none, none))
      else elim (fetch_latest_release server c) [
        | none ↦ (s, (none, some fetch_failed))
        | some release ↦ record_check f c now release s
      ]

  abbrev pub add_info :
      Option UpdateInfo → List UpdateInfo × Option Error → List UpdateInfo × Option Error
  add_info none r = r
  add_info (some info) (infos, e) = (info ∷ infos, e)

  -- The answer to an error of `CheckOne`, or what the components behind it come to.
  abbrev pub stop_at :
      Option Error
      → Store
      → Option UpdateInfo
      → Store × (List UpdateInfo × Option Error)
      → Store × (List UpdateInfo × Option Error)
  stop_at (some e) t info (u, rest) = (t, ([], some e))
  stop_at none t info (u, rest) = (u, add_info info rest)

  -- The loop over the components, each with its instant and its faults.
  unfoldable pub check_each :
      Bool → List (Component × (ℕ × Faults)) → Store → Store × (List UpdateInfo × Option Error)
  unfolding check_one
  check_each manual [] s = (s, ([], none))
  check_each manual ((c, (now, f)) ∷ cs) s =
      let (t, (info, error)) = check_one manual f c now s in
      stop_at error t info (check_each manual cs t)

  unfoldable pub check_all :
      Bool → (Component → ℕ × Faults) → Store → Store × (List UpdateInfo × Option Error)
  unfolding check_each
  check_all manual at s =
      check_each manual
        ((cli, at cli) ∷ (panel, at panel) ∷ (teleproxy, at teleproxy) ∷ (singbox, at singbox) ∷ [])
        s
