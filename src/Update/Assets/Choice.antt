-- ===== src/Update/Assets/Choice.antt =====
-- What the loops of `findAssetURLAndName` choose.
use mtproxy_orchestrator.Base.{
  ℕ, suc, ◌<◌, ◌≤◌, Bool, true, false, none, some, List, [], ◌∷◌, ◌++◌, ◌≡◌, ◌⊎◌, sym, ap, ◌∙◌, inl,
  inr, arith, if◌then◌else◌, Bool-cases, Option-cases, All, All-map, find, subst,
}
use mtproxy_orchestrator.Update.Text.{Text}
use mtproxy_orchestrator.Update.Assets.{
  Component, Asset, is_checksum_file, name_tests, passes, or_else, choose, url_and_name,
  named_tests, find_asset_url_and_name,
}

-- The number of the first test that an asset passes; checksum files pass none.
abbrev pub rank : List (Text → Bool) → Asset → ℕ
rank [] a = 0
rank (t ∷ ts) a = let rest = rank ts a in if passes t a then 0 else suc rest

-- The first of the assets with the smallest rank.
pub record IsFirst (ts : List (Text → Bool)) (a : Asset) (assets : List Asset) : Type 0 where
  pub before : List Asset
  pub after : List Asset
  pub place : assets ≡ before ++ a ∷ after
  pub beats : All (λ b. rank ts a < rank ts b) before
  pub ties : All (λ b. rank ts a ≤ rank ts b) after
  pub no_checksum : is_checksum_file a.name ≡ false

abbrev Found : (Asset → Bool) → List Asset → Asset → Type 0
Found p xs a =
    (before : List Asset) × ((after : List Asset) × ((xs ≡ before ++ a ∷ after)
        × ((p a ≡ true) × All (λ b. p b ≡ false) before)))

find-Found : (p : Asset → Bool) (xs : List Asset) (a : Asset) → find p xs ≡ some a → Found p xs a
find-Found p [] a h = absurd (cc h)
find-Found p (x ∷ xs) a h = elim (Bool-cases (p x)) [
  | inl e ↦
      let same : x ≡ a = cc (rw e at h) in
      ([], (xs, (ap (λ y. y ∷ xs) same, (sym (ap p same) ∙ e, tt))))
  | inr e ↦
      let (before, (after, (place, (here, none_before)))) = find-Found p xs a (rw e at h) in
      (x ∷ before, (after, (ap (λ ys. x ∷ ys) place, (here, (e, none_before)))))
]

find-none : (p : Asset → Bool) (xs : List Asset) → find p xs ≡ none → All (λ b. p b ≡ false) xs
find-none p [] h = tt
find-none p (x ∷ xs) h = elim (Bool-cases (p x)) [
  | inl e ↦ absurd (cc (rw e at h))
  | inr e ↦ (e, find-none p xs (rw e at h))
]

All-both :
    (P Q R : Asset → Type 0) (xs : List Asset)
    → ((x : Asset) → P x → Q x → R x)
    → All P xs
    → All Q xs
    → All R xs
All-both P Q R [] h a b = tt
All-both P Q R (x ∷ xs) h a b = (h x a.0 b.0, All-both P Q R xs h a.1 b.1)

All-before :
    (P : Asset → Type 0) (xs ys : List Asset) (a : Asset)
    → All P (xs ++ a ∷ ys)
    → All P xs × (P a × All P ys)
All-before P [] ys a h = (tt, h)
All-before P (x ∷ xs) ys a h = let (l, r) = All-before P xs ys a h.1 in ((h.0, l), r)

All-rank : (ts : List (Text → Bool)) (xs : List Asset) → All (λ b. 0 ≤ rank ts b) xs
All-rank ts [] = tt
All-rank ts (x ∷ xs) = (omega arith, All-rank ts xs)

choose-here :
    (t : Text → Bool) (ts : List (Text → Bool)) (xs : List Asset) (a : Asset)
    → find (passes t) xs ≡ some a
    → IsFirst (t ∷ ts) a xs
choose-here t ts xs a e =
    let (before, (after, (place, (here, none_before)))) = find-Found (passes t) xs a e in
    record {
      before = before;
      after = after;
      place = place;
      beats =
          All-map (λ c. passes t c ≡ false) (λ c. rank (t ∷ ts) a < rank (t ∷ ts) c) before
            (λ c k. rw (here, k) (omega arith)) none_before;
      ties = rw here (All-rank (t ∷ ts) after);
      no_checksum = ground (arith, here);
    }

choose-IsFirst :
    (ts : List (Text → Bool)) (xs : List Asset) (a : Asset)
    → choose ts xs ≡ some a
    → IsFirst ts a xs
choose-IsFirst [] xs a h = absurd (cc h)
choose-IsFirst (t ∷ ts) xs a h = elim (Option-cases (find (passes t) xs)) [
  | inr (b, e) ↦
      let same : b ≡ a = cc (sym (ap (λ o. or_else o (choose ts xs)) e) ∙ h) in
      subst (λ c. IsFirst (t ∷ ts) c xs) same (choose-here t ts xs b e)
  | inl e ↦
      let later = choose-IsFirst ts xs a (sym (ap (λ o. or_else o (choose ts xs)) e) ∙ h) in
      let (l, (m, r)) =
        All-before (λ b. passes t b ≡ false) later.before later.after a
          (subst (All (λ b. passes t b ≡ false)) later.place (find-none (passes t) xs e)) in
      record {
        before = later.before;
        after = later.after;
        place = later.place;
        beats =
            All-both (λ b. passes t b ≡ false) (λ b. rank ts a < rank ts b)
              (λ b. rank (t ∷ ts) a < rank (t ∷ ts) b) later.before
              (λ b k q. rw (m, k) (omega (arith, q))) l later.beats;
        ties =
            All-both (λ b. passes t b ≡ false) (λ b. rank ts a ≤ rank ts b)
              (λ b. rank (t ∷ ts) a ≤ rank (t ∷ ts) b) later.after
              (λ b k q. rw (m, k) (omega (arith, q))) r later.ties;
        no_checksum = later.no_checksum;
      }
]

choose-none :
    (ts : List (Text → Bool)) (xs : List Asset) (t : Text → Bool)
    → choose (ts ++ t ∷ []) xs ≡ none
    → All (λ b. passes t b ≡ false) xs
choose-none [] xs t h = elim (Option-cases (find (passes t) xs)) [
  | inl e ↦ find-none (passes t) xs e
  | inr (b, e) ↦ absurd (cc (sym (ap (λ o. or_else o (choose [] xs)) e) ∙ h))
]
choose-none (q ∷ ts) xs t h = elim (Option-cases (find (passes q) xs)) [
  | inl e ↦ choose-none ts xs t (sym (ap (λ o. or_else o (choose (ts ++ t ∷ []) xs)) e) ∙ h)
  | inr (b, e) ↦ absurd (cc (sym (ap (λ o. or_else o (choose (ts ++ t ∷ []) xs)) e) ∙ h))
]

-- Either every asset is a checksum file and both texts are empty, or the URL and the name are those of
-- an asset that is no checksum file: the first of those with the smallest rank, which is the number of
-- the first test that the name passes: the component's for linux and amd64 without a C library in the
-- name, with one, any for linux and amd64, the component's, any.
pub find_asset_url_and_name-IsFirst :
    (c : Component) (assets : List Asset)
    → ((find_asset_url_and_name c assets ≡ ([], []))
        × All (λ b. is_checksum_file b.name ≡ true) assets)
      ⊎ ((a : Asset) × ((find_asset_url_and_name c assets ≡ (a.browser_download_url, a.name))
            × IsFirst (name_tests c) a assets))
unfolding find_asset_url_and_name
find_asset_url_and_name-IsFirst c assets = elim (Option-cases (choose (name_tests c) assets)) [
  | inl e ↦ inl (
    ap url_and_name e,
    All-map (λ b. passes (λ n. true) b ≡ false) (λ b. is_checksum_file b.name ≡ true) assets
        (λ b k. ground (arith, k)) (choose-none (named_tests c) assets (λ n. true) e),
  )
  | inr (a, e) ↦ inr (a, (ap url_and_name e, choose-IsFirst (name_tests c) assets a e))
]
