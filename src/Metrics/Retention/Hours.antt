-- ===== src/Metrics/Retention/Hours.antt =====
-- What one aggregation leaves in each hour of each user.
use mathlib.Core.Path.{ap₂}
use mtproxy_orchestrator.Base.{
  ℕ, String, true, not, ◌&&◌, some, List, [], ◌∷◌, ltb, ◌==◌, str_eq, eq_iff, ◌≡◌, refl, ap, ◌∙◌,
  arith, inl, inr, Bool-cases, if◌then◌else◌, find, All,
}
use mtproxy_orchestrator.Base.Sql.{exists, replace}
use mtproxy_orchestrator.Schema.{TrafficRow, Db}
use mtproxy_orchestrator.Metrics.Retention.{
  hour_of, in_group, group_row, has_hour, group_rows, replace_all, aggregate_old_samples,
}

find-replace :
    (l : String) (h : ℕ) (row : TrafficRow) (xs : List TrafficRow)
    → find (has_hour l h) (replace (has_hour row.user_label row.ts) row xs)
      ≡ (if has_hour l h row then some row else find (has_hour l h) xs)
find-replace l h row [] = ground arith
find-replace l h row (x ∷ xs) = ground (
  arith,
  find-replace l h row xs,
  eq_iff x.user_label row.user_label,
  eq_iff x.user_label l,
  eq_iff row.user_label l,
)

own_group :
    (cutoff : ℕ) (l : String) (h : ℕ) (r : TrafficRow) (rest : List TrafficRow) (row : TrafficRow)
    → row.user_label ≡ r.user_label
    → row.ts ≡ hour_of r.ts
    → r.user_label ≡ l
    → hour_of r.ts ≡ h
    → exists (has_hour l h) (
        if ltb r.ts cutoff && not (exists (has_hour r.user_label (hour_of r.ts)) rest)
        then row ∷ rest
        else rest)
      ≡ (if ltb r.ts cutoff then true else exists (has_hour l h) rest)
own_group cutoff l h r rest row el et same at =
    rw (← same, ← at) (ground (arith, eq_iff row.user_label r.user_label))

module _ (cutoff : ℕ) (all : List TrafficRow) where
  abbrev group : String → ℕ → TrafficRow
  group l h = group_row cutoff all l h

  has_hour-group :
      (l : String) (h : ℕ) (row : TrafficRow)
      → row ≡ group row.user_label row.ts
      → has_hour l h row ≡ true
      → row ≡ group l h
  has_hour-group l h row e p =
      let same : row.user_label ≡ l = ground (arith, eq_iff row.user_label l) in
      let at : row.ts ≡ h = ground (arith, eq_iff row.user_label l) in e ∙ ap₂ group same at

  find-replace_all :
      (l : String) (h : ℕ) (rows hourly : List TrafficRow)
      → All (λ row. row ≡ group row.user_label row.ts) rows
      → find (has_hour l h) (replace_all rows hourly)
        ≡ (if exists (has_hour l h) rows then some (group l h) else find (has_hour l h) hourly)
  unfolding replace_all
  find-replace_all l h [] hourly a = refl
  find-replace_all l h (row ∷ rows) hourly a =
      find-replace l h row (replace_all rows hourly) ∙ (elim (Bool-cases (has_hour l h row)) [
        | inl e ↦ rw e (ap some (has_hour-group l h row a.0 e))
        | inr e ↦ rw e (find-replace_all l h rows hourly a.1)
      ])

  group_rows-group :
      (rs : List TrafficRow)
      → All (λ row. row ≡ group row.user_label row.ts) (group_rows cutoff all rs)
  unfolding group_rows
  group_rows-group [] = tt
  group_rows-group (r ∷ rs) =
      elim (Bool-cases (
        ltb r.ts cutoff
        && not (exists (has_hour r.user_label (hour_of r.ts)) (group_rows cutoff all rs)))) [
          | inl e ↦ rw e (refl, group_rows-group rs)
          | inr e ↦ rw e (group_rows-group rs)
        ]

  exists-group_rows :
      (l : String) (h : ℕ) (rs : List TrafficRow)
      → exists (has_hour l h) (group_rows cutoff all rs) ≡ exists (in_group cutoff l h) rs
  unfolding group_rows
  exists-group_rows l h [] = refl
  exists-group_rows l h (r ∷ rs) = elim (Bool-cases (str_eq r.user_label l && hour_of r.ts == h)) [
    | inl e ↦
        let same : r.user_label ≡ l = ground (arith, eq_iff r.user_label l) in
        let at : hour_of r.ts ≡ h = ground (arith, e) in
        own_group cutoff l h r (group_rows cutoff all rs) (group r.user_label (hour_of r.ts)) refl
          refl same at
        ∙ ground (arith, exists-group_rows l h rs, e)
    | inr e ↦ ground (arith, exists-group_rows l h rs)
  ]

-- An aggregation writes the sums of each hour that has rows older than the cutoff, in place of what
-- the hour's row held, and leaves every other hour alone.
pub find-aggregate_old_samples :
    (cutoff : ℕ) (l : String) (h : ℕ) (db : Db)
    → find (has_hour l h) (aggregate_old_samples cutoff db).traffic_hourly ≡ (
        if exists (in_group cutoff l h) db.traffic_samples
        then some (group_row cutoff db.traffic_samples l h)
        else find (has_hour l h) db.traffic_hourly)
unfolding aggregate_old_samples
find-aggregate_old_samples cutoff l h db =
    let samples = db.traffic_samples in
    find-replace_all cutoff samples l h (group_rows cutoff samples samples) db.traffic_hourly
      (group_rows-group cutoff samples samples)
    ∙ rw (exists-group_rows cutoff samples l h samples)
