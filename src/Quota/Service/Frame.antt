-- ===== src/Quota/Service/Frame.antt =====
-- What the quota service writes: the row of the user that it was called for, its quota columns only.
use mathlib.Core.Option
use mtproxy_orchestrator.Base.{
  ℕ, ◌+◌, String, Bool, true, false, Option, some, ◌≡◌, refl, ap, ◌∙◌, subst, ==_iff, ◌≢◌, ◌⊎◌, inl,
  inr, arith, ◌==◌, if◌then◌else◌, eq_iff, Bool-cases, Option-cases,
}
use mtproxy_orchestrator.Base.Sql.{
  update, Distinct, find-update, find-pass, find-Distinct, Distinct-update,
}
use mtproxy_orchestrator.Schema.{UserRow, Db}
use mtproxy_orchestrator.Quota.Period.{advance}
use mtproxy_orchestrator.Quota.Service.{
  Faults, Service, has_label, has_id, find_user, written, start_period, renew_period, store_usage,
  used_bytes, new_suspended, emit_warning, run_reload, rollover_row, rollover_if_due, announce,
  recalculate_row, recalculate,
}

-- The columns that the quota service does not write.
pub record SameSettings (x y : UserRow) : Type 0 where
  pub id : x.id ≡ y.id
  pub label : x.label ≡ y.label
  pub secret_hex : x.secret_hex ≡ y.secret_hex
  pub enabled : x.enabled ≡ y.enabled
  pub deleted : x.deleted ≡ y.deleted
  pub rotated_at : x.rotated_at ≡ y.rotated_at
  pub quota_bytes : x.quota_bytes ≡ y.quota_bytes
  pub quota_period : x.quota_period ≡ y.quota_period
  pub quota_warn_pct : x.quota_warn_pct ≡ y.quota_warn_pct

SameSettings-refl : (x : UserRow) → SameSettings x x
SameSettings-refl x = ground arith

-- `after` is `before`, or it is `before` with the row of `label` rewritten by `f`.
pub data Writes (label : String) (before after : Db) : Type 0 where
  nothing : after ≡ before → Writes label before after
  one_row :
      (u : UserRow) (f : UserRow → UserRow)
      → find_user label before ≡ some u
      → ((x : UserRow) → SameSettings (f x) x)
      → after ≡ record before { users = update (has_id u.id) f before.users }
      → Writes label before after

module _ (reload : Option (ℕ → Bool)) where
  pub db-run_reload : (s : Service) → (run_reload reload s).0.db ≡ s.db
  unfolding run_reload
  db-run_reload s = ground arith

  pub db-announce :
      (label : String) (u : UserRow) (used : ℕ) (s : Service)
      → (announce reload label u used s).0.db ≡ s.db
  unfolding announce
  db-announce label u used s = ground arith

  module _ (f : Faults) (label : String) (u : UserRow) (s : Service) where
    rollover_row-db :
        (now : ℕ)
        → let after = (rollover_row reload f now label u s).0.db in
          (after ≡ s.db)
          ⊎ ((after ≡ written u.id (start_period now) s.db)
              ⊎ (after
                  ≡ written u.id
                      (renew_period
                        (advance (now + 1) u.quota_period now u.quota_period_start false).0)
                      s.db))
    unfolding rollover_row
    rollover_row-db now = ground (arith)

    recalculate_row-db :
        let after = (recalculate_row reload f label u s).0.db in
        let used = used_bytes label u s.db in
        (after ≡ s.db)
        ⊎ (after
            ≡ written u.id
                (store_usage used
                  (new_suspended u used)
                  (if emit_warning u used then true else u.quota_warned))
                s.db)
    unfolding recalculate_row
    recalculate_row-db = ground (arith)

    rollover_row-Writes :
        (now : ℕ)
        → find_user label s.db ≡ some u
        → Writes label s.db (rollover_row reload f now label u s).0.db
    rollover_row-Writes now found = elim (rollover_row-db now) [
      | inl e ↦ nothing e
      | inr (inl e) ↦ one_row u (start_period now) found (λ x. ground arith) e
      | inr (inr e) ↦ one_row u (renew_period _) found (λ x. ground arith) e
    ]

    recalculate_row-Writes :
        find_user label s.db ≡ some u → Writes label s.db (recalculate_row reload f label u s).0.db
    recalculate_row-Writes found = elim recalculate_row-db [
      | inl e ↦ nothing e
      | inr e ↦ one_row u (store_usage _ _ _) found (λ x. ground arith) e
    ]

module _ (reload : Option (ℕ → Bool)) (f : Faults) (label : String) (s : Service) where
  pub rollover_if_due-Writes :
      (now : ℕ) → Writes label s.db (rollover_if_due reload f now label s).0.db
  unfolding rollover_if_due
  rollover_if_due-Writes now = elim (Bool-cases f.begin) [
    | inl e ↦ rw e (nothing refl)
    | inr e ↦ rw e (elim (Bool-cases f.query) [
      | inl q ↦ rw q (nothing refl)
      | inr q ↦ rw q (elim (Option-cases (find_user label s.db)) [
        | inl none_found ↦ rw none_found (nothing refl)
        | inr (u, found) ↦ rw found (rollover_row-Writes reload f label u s now found)
      ])
    ])
  ]

  pub recalculate-Writes : Writes label s.db (recalculate reload f label s).0.db
  unfolding recalculate
  recalculate-Writes = elim (Bool-cases f.begin) [
    | inl e ↦ rw e (nothing refl)
    | inr e ↦ rw e (elim (Bool-cases f.query) [
      | inl q ↦ rw q (nothing refl)
      | inr q ↦ rw q (elim (Option-cases (find_user label s.db)) [
        | inl none_found ↦ rw none_found (nothing refl)
        | inr (u, found) ↦ rw found (recalculate_row-Writes reload f label u s found)
      ])
    ])
  ]

-- What a write of one user's row leaves as it was.
pub record IsLocal (label : String) (before after : Db) : Type 0 where
  pub others : (j : String) → label ≢ j → find_user j after ≡ find_user j before
  pub settings :
      {u : UserRow}
      → find_user label before ≡ some u
      → (v : UserRow) × (find_user label after ≡ some v) × SameSettings v u
  pub distinct : Distinct (λ u. u.id) after.users
  pub traffic_daily : after.traffic_daily ≡ before.traffic_daily
  pub traffic_counters : after.traffic_counters ≡ before.traffic_counters

find_user-written :
    (j : String) (id : ℕ) (f : UserRow → UserRow) (db : Db)
    → ((x : UserRow) → SameSettings (f x) x)
    → find_user j (written id f db)
      ≡ Option.map (λ x. if has_id id x then f x else x) (find_user j db)
find_user-written j id f db keeps =
    find-update (has_label j) (has_id id) f db.users (λ x. cc ((keeps x).label, (keeps x).deleted))

has_label-label : (label : String) (u : UserRow) → has_label label u ≡ true → u.label ≡ label
has_label-label label u h = ground (arith, eq_iff u.label label)

-- Two live users with different labels have different ids.
other_id :
    (label j : String) (db : Db) {u v : UserRow}
    → Distinct (λ r. r.id) db.users
    → label ≢ j
    → find_user label db ≡ some u
    → find_user j db ≡ some v
    → (v.id == u.id) ≡ false
other_id label j db {u} {v} d ne hu hv = elim (Bool-cases (v.id == u.id)) [
  | inr e ↦ e
  | inl e ↦
      let same : v ≡ u =
        find-Distinct (λ r. r.id) (has_label j) (has_label label) db.users d hv hu (ground arith) in
      absurd (
        ne (
          ground (
            arith,
            ap (λ r. r.label) same,
            has_label-label label u (find-pass (has_label label) db.users hu),
            has_label-label j v (find-pass (has_label j) db.users hv),
          )))
]

find_user-others :
    (label j : String) (u : UserRow) (f : UserRow → UserRow) (db : Db)
    → Distinct (λ r. r.id) db.users
    → ((x : UserRow) → SameSettings (f x) x)
    → find_user label db ≡ some u
    → label ≢ j
    → find_user j (written u.id f db) ≡ find_user j db
find_user-others label j u f db d keeps hu ne = elim (Option-cases (find_user j db)) [
  | inl e ↦ find_user-written j u.id f db keeps ∙ rw e
  | inr (v, e) ↦ find_user-written j u.id f db keeps ∙ rw e (rw (other_id label j db d ne hu e))
]

pub find_user_self :
    (label : String) (u : UserRow) (f : UserRow → UserRow) (db : Db)
    → ((x : UserRow) → SameSettings (f x) x)
    → find_user label db ≡ some u
    → find_user label (written u.id f db) ≡ some (f u)
find_user_self label u f db keeps hu =
    find_user-written label u.id f db keeps ∙ rw hu (rw ((==_iff u.id u.id).1 refl))

pub Writes-IsLocal :
    {label : String} {before after : Db}
    → Distinct (λ u. u.id) before.users
    → Writes label before after
    → IsLocal label before after
Writes-IsLocal {label} {before} {after} d (nothing e) = rw e (record {
  others = λ j ne. refl;
  settings = λ {u} hu. (u, hu, SameSettings-refl u);
  distinct = d;
  traffic_daily = refl;
  traffic_counters = refl;
})
Writes-IsLocal {label} {before} {after} d (one_row u f hu keeps e) = rw e (record {
  others = λ j ne. find_user-others label j u f before d keeps hu ne;
  settings = λ {u = v} hv.
      let same : u ≡ v = cc (hu, hv) in
      (f u, find_user_self label u f before keeps hu, subst (SameSettings (f u)) same (keeps u));
  distinct = Distinct-update (λ r. r.id) (has_id u.id) f before.users (λ x. (keeps x).id) d;
  traffic_daily = refl;
  traffic_counters = refl;
})

module _ (reload : Option (ℕ → Bool)) (f : Faults) (label : String) (s : Service) where
  -- With distinct ids, whatever fails, `RolloverIfDue` writes the row of its user at most, and of that row only the quota state.
  pub rollover_if_due-IsLocal :
      (now : ℕ)
      → Distinct (λ u. u.id) s.db.users
      → IsLocal label s.db (rollover_if_due reload f now label s).0.db
  rollover_if_due-IsLocal now d = Writes-IsLocal d (rollover_if_due-Writes reload f label s now)

  -- With distinct ids, whatever fails, `Recalculate` writes the row of its user at most, and of that row only the quota state.
  pub recalculate-IsLocal :
      Distinct (λ u. u.id) s.db.users → IsLocal label s.db (recalculate reload f label s).0.db
  recalculate-IsLocal d = Writes-IsLocal d (recalculate-Writes reload f label s)

  -- With distinct ids, whatever fails, `RolloverIfDue` and `Recalculate` write the row of their user
  -- at most, and of that row only the quota state.
  pub calls-IsLocal :
      (now : ℕ)
      → Distinct (λ u. u.id) s.db.users
      → IsLocal label s.db (rollover_if_due reload f now label s).0.db
        × IsLocal label s.db (recalculate reload f label s).0.db
  calls-IsLocal now d = (rollover_if_due-IsLocal now d, recalculate-IsLocal d)
