-- ===== src/Update/Checks/Spacing.antt =====
-- The distance of automatic checks.
use mtproxy_orchestrator.Base.{
  ℕ, ◌+◌, ◌≤◌, true, false, not, ◌||◌, Option, none, some, List, [], ◌∷◌, ◌++◌, ◌≡◌, refl, inl, inr,
  arith, Bool-cases, Option-cases, All, All-map, All-append, subst,
}
use mtproxy_orchestrator.Update.Text.{Text}
use mtproxy_orchestrator.Update.Assets.{Component, cli, panel, teleproxy, singbox}
use mtproxy_orchestrator.Update.Checks.{
  Server, UpdateInfo, CheckRecord, LastCheck, missing, checked, unreadable, Store, Faults, Error,
  check_interval, whole_seconds, component_eq, fetch_latest_release, is_due, is_readable, set_last,
  record_check, check_one, stop_at, check_each, check_all,
}

-- Two records of one component, the earlier one first: 18 hours or more lie between them, counted from
-- the whole second of the earlier one.
abbrev pub IsApart : CheckRecord → CheckRecord → Type 0
IsApart r later =
    component_eq r.component later.component ≡ true
    → whole_seconds r.checked_at + check_interval ≤ later.checked_at

abbrev pub AreApart : List CheckRecord → Type 0
AreApart [] = Unit
AreApart (r ∷ rs) = All (IsApart r) rs × AreApart rs

-- What the file of the last check says of the records of its component.
abbrev pub IsLast : Component → LastCheck → List CheckRecord → Type 0
IsLast c missing rs = All (λ r. component_eq r.component c ≡ false) rs
IsLast c unreadable rs = Unit
IsLast c (checked t) rs =
    All (λ r. component_eq r.component c ≡ true → whole_seconds r.checked_at ≤ t) rs

pub record IsSpaced (s : Store) : Type 0 where
  pub apart : AreApart s.history
  pub last : (c : Component) → IsLast c (s.last c) s.history

AreApart-append :
    (rs : List CheckRecord) (r : CheckRecord)
    → AreApart rs
    → All (λ x. IsApart x r) rs
    → AreApart (rs ++ r ∷ [])
AreApart-append [] r a h = (tt, tt)
AreApart-append (x ∷ rs) r a h =
    (All-append (IsApart x) rs (r ∷ []) a.0 (h.0, tt), AreApart-append rs r a.1 h.1)

component_eq_refl : (c : Component) → component_eq c c ≡ true
component_eq_refl cli = refl
component_eq_refl panel = refl
component_eq_refl teleproxy = refl
component_eq_refl singbox = refl

component_eq-≡ : (c d : Component) → component_eq c d ≡ true → c ≡ d
component_eq-≡ cli cli h = refl
component_eq-≡ panel panel h = refl
component_eq-≡ teleproxy teleproxy h = refl
component_eq-≡ singbox singbox h = refl
component_eq-≡ _ _ h = absurd (ground arith)

due-All :
    (l : LastCheck) (c : Component) (now : ℕ) (rs : List CheckRecord)
    → is_due l now ≡ true
    → IsLast c l rs
    → All
        (λ r. component_eq r.component c ≡ true → whole_seconds r.checked_at + check_interval ≤ now)
        rs
due-All missing c now rs due h =
    All-map (λ r. component_eq r.component c ≡ false)
      (λ r. component_eq r.component c ≡ true → whole_seconds r.checked_at + check_interval ≤ now)
      rs (λ r off on. absurd (ground (arith, off, on))) h
due-All (checked t) c now rs due h =
    All-map (λ r. component_eq r.component c ≡ true → whole_seconds r.checked_at ≤ t)
      (λ r. component_eq r.component c ≡ true → whole_seconds r.checked_at + check_interval ≤ now)
      rs (λ r before on. ground (arith, due, before on)) h
due-All unreadable c now rs due h = absurd (ground arith)

IsLast-append :
    (l : LastCheck) (d : Component) (rs : List CheckRecord) (r : CheckRecord)
    → component_eq r.component d ≡ false
    → IsLast d l rs
    → IsLast d l (rs ++ r ∷ [])
IsLast-append missing d rs r off h =
    All-append (λ x. component_eq x.component d ≡ false) rs (r ∷ []) h (off, tt)
IsLast-append (checked t) d rs r off h =
    All-append (λ x. component_eq x.component d ≡ true → whole_seconds x.checked_at ≤ t) rs (r ∷ [])
      h (λ on. absurd (ground (arith, off, on)), tt)
IsLast-append unreadable d rs r off h = tt

-- The file of `c` is written, those of the others are as before.
set_last-IsLast :
    (s : Store) (c d : Component) (l : LastCheck) (rs : List CheckRecord)
    → IsLast c l rs
    → (component_eq c d ≡ false → IsLast d (s.last d) rs)
    → IsLast d ((set_last c l s).last d) rs
set_last-IsLast s c d l rs now before = elim (Bool-cases (component_eq c d)) [
  | inl e ↦ rw e (subst (λ x. IsLast x l rs) (component_eq-≡ c d e) now)
  | inr e ↦ rw e (before e)
]

module _ (server : Server) (current : Component → Text) where
  checked-IsLast :
      (c : Component) (now : ℕ) (rs : List CheckRecord)
      → All
          (λ r.
            component_eq r.component c ≡ true → whole_seconds r.checked_at + check_interval ≤ now)
          rs
      → IsLast c (checked (whole_seconds now)) rs
  checked-IsLast c now rs h =
      All-map
        (λ r. component_eq r.component c ≡ true → whole_seconds r.checked_at + check_interval ≤ now)
        (λ r. component_eq r.component c ≡ true → whole_seconds r.checked_at ≤ whole_seconds now) rs
        (λ r apart on. omega (arith, apart on)) h

  record_check-IsSpaced :
      (f : Faults) (c : Component) (now : ℕ) (release : Text × (Text × (Text × Text))) (s : Store)
      → is_due (s.last c) now ≡ true
      → IsSpaced s
      → IsSpaced (record_check server current f c now release s).0
  unfolding record_check
  record_check-IsSpaced f c now release s due spaced =
      let bound = due-All (s.last c) c now s.history due (spaced.last c) in
      elim (Bool-cases f.save) [
        | inl save ↦ elim (Bool-cases f.torn) [
          | inl torn ↦
              rw (save, torn)
                (record {
                  apart = spaced.apart;
                  last = λ d. set_last-IsLast s c d unreadable s.history tt (λ off. spaced.last d);
                })
          | inr whole ↦ rw (save, whole) spaced
        ]
        | inr saved ↦ elim (Bool-cases f.append) [
          | inl append ↦
              rw (saved, append)
                (record {
                  apart = spaced.apart;
                  last = λ d.
                      set_last-IsLast s c d (checked (whole_seconds now)) s.history
                        (checked-IsLast c now s.history bound) (λ off. spaced.last d);
                })
          | inr appended ↦
              let rec : CheckRecord = record {
                component = c;
                current_version = current c;
                available_version = release.0;
                checked_at = now;
              } in
              rw (saved, appended)
                (record {
                  apart = AreApart-append s.history rec spaced.apart bound;
                  last = λ d.
                      set_last-IsLast s c d (checked (whole_seconds now)) (s.history ++ rec ∷ [])
                        (All-append
                          (λ r.
                            component_eq r.component c ≡ true
                            → whole_seconds r.checked_at ≤ whole_seconds now)
                          s.history (rec ∷ []) (checked-IsLast c now s.history bound)
                          (λ on. omega arith, tt))
                        (λ off. IsLast-append (s.last d) d s.history rec off (spaced.last d));
                })
        ]
      ]

  check_one-IsSpaced :
      (f : Faults) (c : Component) (now : ℕ) (s : Store)
      → IsSpaced s
      → IsSpaced (check_one server current false f c now s).0
  unfolding check_one
  check_one-IsSpaced f c now s spaced = elim (Bool-cases (f.load || not (is_readable (s.last c)))) [
    | inl unread ↦ rw unread spaced
    | inr read ↦ elim (Bool-cases (is_due (s.last c) now)) [
      | inr early ↦ rw (read, early) spaced
      | inl due ↦ elim (Option-cases (fetch_latest_release server c)) [
        | inl failed ↦ rw (read, due, failed) spaced
        | inr (release, fetched) ↦
            rw (read, due, fetched) (record_check-IsSpaced f c now release s due spaced)
      ]
    ]
  ]

  stop_at-IsSpaced :
      (error : Option Error) (t : Store) (info : Option UpdateInfo)
      (r : Store × (List UpdateInfo × Option Error))
      → IsSpaced t
      → IsSpaced r.0
      → IsSpaced (stop_at server current error t info r).0
  stop_at-IsSpaced none t info r h k = k
  stop_at-IsSpaced (some e) t info r h k = h

  check_each-IsSpaced :
      (cs : List (Component × (ℕ × Faults))) (s : Store)
      → IsSpaced s
      → IsSpaced (check_each server current false cs s).0
  unfolding check_each
  check_each-IsSpaced [] s spaced = spaced
  check_each-IsSpaced ((c, (now, f)) ∷ cs) s spaced =
      let r = check_one server current false f c now s in
      let one = check_one-IsSpaced f c now s spaced in
      stop_at-IsSpaced r.1.1 r.0 r.1.0 (check_each server current false cs r.0) one
        (check_each-IsSpaced cs r.0 one)

  -- Automatic checks, each with the instants and the faults of its components.
  abbrev pub automatic_checks : List (Component → ℕ × Faults) → Store → Store
  automatic_checks [] s = s
  automatic_checks (at ∷ runs) s = automatic_checks runs (check_all server current false at s).0

  -- Between two recorded checks of one component that are not manual lie 18 hours or more, counted
  -- from the whole second of the earlier one, whatever calls fail, whatever the server answers and
  -- however the clock runs, if this holds at the start and the files of the last check agree with it.
  pub automatic_checks-AreApart :
      (runs : List (Component → ℕ × Faults)) (s : Store)
      → IsSpaced s
      → AreApart (automatic_checks runs s).history
  unfolding check_all
  automatic_checks-AreApart [] s spaced = spaced.apart
  automatic_checks-AreApart (at ∷ runs) s spaced =
      automatic_checks-AreApart runs (check_all server current false at s).0 (
        check_each-IsSpaced
          ((cli, at cli)
            ∷ (panel, at panel)
            ∷ (teleproxy, at teleproxy)
            ∷ (singbox, at singbox)
            ∷ [])
          s spaced)
