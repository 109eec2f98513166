-- ===== src/Tests/Updates.antt =====
-- The update checker on a few releases.
use mtproxy_orchestrator.Base.{ℕ, true, false, some, List, [], ◌∷◌, ◌≡◌, ◌⊎◌, ◌↔◌, refl, arith, All}
use mtproxy_orchestrator.Update.Text.{Text, codes}
use mtproxy_orchestrator.Update.Versions.{less, compare_version_parts, parse_version}
use mtproxy_orchestrator.Update.Versions.Order.{IsBefore, compare_iff}
use mtproxy_orchestrator.Update.Versions.RoundTrip.{print_version, parse_version-print_version}
use mtproxy_orchestrator.Update.Versions.Decimal.{digits_of}
use mtproxy_orchestrator.Update.Assets.{
  Component, teleproxy, Asset, is_checksum_file, name_tests, find_asset_url_and_name,
  parse_checksum_file,
}
use mtproxy_orchestrator.Update.Assets.Choice.{IsFirst, find_asset_url_and_name-IsFirst}
use mtproxy_orchestrator.Update.Checks.{Server, missing, Store, Faults}
use mtproxy_orchestrator.Update.Checks.Spacing.{
  AreApart, automatic_checks, automatic_checks-AreApart,
}

compare_iff_example :
    (compare_version_parts (1 ∷ 2 ∷ []) (1 ∷ 2 ∷ 3 ∷ []) ≡ less)
    ↔ IsBefore (1 ∷ 2 ∷ []) (1 ∷ 2 ∷ 3 ∷ [])
compare_iff_example = compare_iff (1 ∷ 2 ∷ []) (1 ∷ 2 ∷ 3 ∷ [])

parse_version-print_version_example :
    parse_version (print_version (1 ∷ 12 ∷ []) 3) ≡ some (1 ∷ 12 ∷ 3 ∷ [])
parse_version-print_version_example =
    parse_version-print_version 1 (12 ∷ []) 3 (omega arith, (omega arith, tt)) (omega arith)

printed : print_version (1 ∷ 12 ∷ []) 3 ≡ codes "v1.12-f3"
unfolding digits_of
printed = refl

abbrev asset : Text → Text → Asset
asset name url = record { name = name; browser_download_url = url; digest = [] }

abbrev assets : List Asset
assets =
    asset (codes "teleproxy_checksums.txt") (codes "u0")
    ∷ asset (codes "teleproxy-linux-amd64-musl") (codes "u1")
    ∷ asset (codes "teleproxy-linux-amd64") (codes "u2")
    ∷ []

find_asset_url_and_name-IsFirst_example :
    ((find_asset_url_and_name teleproxy assets ≡ ([], []))
      × All (λ b. is_checksum_file b.name ≡ true) assets)
    ⊎ ((a : Asset) × ((find_asset_url_and_name teleproxy assets ≡ (a.browser_download_url, a.name))
          × IsFirst (name_tests teleproxy) a assets))
find_asset_url_and_name-IsFirst_example = find_asset_url_and_name-IsFirst teleproxy assets

without_libc :
    find_asset_url_and_name teleproxy assets ≡ (codes "u2", codes "teleproxy-linux-amd64")
unfolding find_asset_url_and_name is_checksum_file
without_libc = refl

-- A list of checksums by another name is taken for the program.
sums_chosen :
    find_asset_url_and_name teleproxy (asset (codes "SHA256SUMS") (codes "u0") ∷ [])
    ≡ (codes "u0", codes "SHA256SUMS")
unfolding find_asset_url_and_name is_checksum_file
sums_chosen = refl

first_sum :
    parse_checksum_file (codes "# sums\naa  x.tar\r\nbb *dir/Y.zip\n") (codes "/a/y.ZIP")
    ≡ some (codes "bb")
unfolding parse_checksum_file
first_sum = refl

abbrev server : Server
server = record {
  latest = λ c. some (record { tag_name = codes "v1.2.0"; assets = assets });
  get = λ url. some (codes "aa teleproxy-linux-amd64");
}

abbrev quiet : Faults
quiet = record { load = false; save = false; torn = false; append = false }

abbrev empty_store : Store
empty_store = record { last = λ c. missing; history = [] }

abbrev runs : List (Component → ℕ × Faults)
runs = (λ c. (5000000000, quiet)) ∷ (λ c. (70000000000000, quiet)) ∷ []

automatic_checks-AreApart_example :
    AreApart (automatic_checks server (λ c. codes "1.1") runs empty_store).history
automatic_checks-AreApart_example =
    automatic_checks-AreApart server (λ c. codes "1.1") runs empty_store
      (record { apart = tt; last = λ c. tt })
