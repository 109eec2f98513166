-- ===== src/Metrics/Retention/Cutoff.antt =====
-- Two retention runs in a row: where the first cutoff falls on an hour they are as good as one, and
-- where it cuts an hour, the second run overwrites what the first had summed up of it.
use mathlib.Core.Path.{fun_ext}
use mtproxy_orchestrator.Base.{
  ℕ, ◌+◌, ◌-◌, ◌*◌, ap, Option, none, ◌%◌, ◌≤◌, ◌<◌, String, Bool, true, false, not, ◌&&◌, some,
  List, [], ◌∷◌, ltb, ◌≡◌, refl, sym, ◌∙◌, arith, inl, inr, Bool-cases, ltb→lt, ltb→le,
  if◌then◌else◌, filter, find,
}
use mtproxy_orchestrator.Base.Sql.{exists, sum, greatest}
use mtproxy_orchestrator.Schema.{TrafficRow, Db}
use mtproxy_orchestrator.Metrics.Retention.{
  in_group, group_row, has_hour, aggregate_old_samples, delete_old_samples, delete_old_hourly,
  delete_old_ops, Faults, Retainer, minute_days, hourly_days, run,
}
use mtproxy_orchestrator.Metrics.Retention.Hours.{find-aggregate_old_samples}

-- The rows that a deletion at `cutoff` keeps.
abbrev kept : ℕ → TrafficRow → Bool
kept cutoff r = not (ltb r.ts cutoff)

sum-filter :
    (q p : TrafficRow → Bool) (f : TrafficRow → ℕ) (xs : List TrafficRow)
    → sum p f (filter q xs) ≡ sum (λ x. q x && p x) f xs
sum-filter q p f [] = refl
sum-filter q p f (x ∷ xs) = ground (arith, sum-filter q p f xs)

greatest-filter :
    (q p : TrafficRow → Bool) (f : TrafficRow → ℕ) (xs : List TrafficRow)
    → greatest p f (filter q xs) ≡ greatest (λ x. q x && p x) f xs
greatest-filter q p f [] = refl
greatest-filter q p f (x ∷ xs) = ground (arith, greatest-filter q p f xs)

exists-filter :
    (q p : TrafficRow → Bool) (xs : List TrafficRow)
    → exists p (filter q xs) ≡ exists (λ x. q x && p x) xs
exists-filter q p [] = refl
exists-filter q p (x ∷ xs) = ground (arith, exists-filter q p xs)

exists_none : (xs : List TrafficRow) → exists (λ x. false) xs ≡ false
exists_none [] = refl
exists_none (x ∷ xs) = exists_none xs

-- The first of two runs, and both.
abbrev first_run : ℕ → Db → Db
first_run c db = delete_old_samples c (aggregate_old_samples c db)

abbrev two_runs : ℕ → ℕ → Db → Db
two_runs c d db = aggregate_old_samples d (first_run c db)

samples-first_run :
    (c : ℕ) (db : Db) → (first_run c db).traffic_samples ≡ filter (kept c) db.traffic_samples
unfolding delete_old_samples aggregate_old_samples
samples-first_run c db = refl

hourly-first_run :
    (c : ℕ) (db : Db)
    → (first_run c db).traffic_hourly ≡ (aggregate_old_samples c db).traffic_hourly
unfolding delete_old_samples
hourly-first_run c db = refl

module _ (l : String) (h c d : ℕ) (le : c ≤ d) where
  -- The rows of the hour that the second run still finds.
  abbrev pub second_group : TrafficRow → Bool
  second_group x = kept c x && in_group d l h x

  in_group_split :
      (f : TrafficRow → ℕ) (xs : List TrafficRow)
      → sum (in_group d l h) f xs ≡ sum (in_group c l h) f xs + sum second_group f xs
  in_group_split f [] = refl
  in_group_split f (x ∷ xs) = ground (arith, in_group_split f xs)

  find-two_runs :
      (db : Db)
      → find (has_hour l h) (two_runs c d db).traffic_hourly ≡ (
          if exists second_group db.traffic_samples
          then some (group_row d (filter (kept c) db.traffic_samples) l h)
          else if exists (in_group c l h) db.traffic_samples
          then some (group_row c db.traffic_samples l h)
          else find (has_hour l h) db.traffic_hourly)
  find-two_runs db =
      find-aggregate_old_samples d l h (first_run c db)
      ∙ rw (samples-first_run c db, hourly-first_run c db)
          (rw (
            exists-filter (kept c) (in_group d l h) db.traffic_samples,
            find-aggregate_old_samples c l h db,
          ))

  group_row-filter :
      (xs : List TrafficRow)
      → second_group ≡ in_group d l h
      → group_row d (filter (kept c) xs) l h ≡ group_row d xs l h
  group_row-filter xs e =
      rw
        (
          sum-filter (kept c) (in_group d l h) (λ r. r.bytes_in) xs,
          sum-filter (kept c) (in_group d l h) (λ r. r.bytes_out) xs,
          greatest-filter (kept c) (in_group d l h) (λ r. r.connections) xs,
        )
        (rw e)

  -- An hour that ends by the first cutoff, where that falls on an hour.
  early_second : c % 3600 ≡ 0 → h < c → second_group ≡ (λ x. false)
  early_second aligned lt = fun_ext λ x. ground arith

  early_first : c % 3600 ≡ 0 → h < c → in_group c l h ≡ in_group d l h
  early_first aligned lt = fun_ext λ x. ground arith

  late_second : c ≤ h → second_group ≡ in_group d l h
  late_second lt = fun_ext λ x. ground arith

  late_first : c ≤ h → in_group c l h ≡ (λ x. false)
  late_first lt = fun_ext λ x. ground arith

  early_two_runs :
      (db : Db)
      → c % 3600 ≡ 0
      → h < c
      → find (has_hour l h) (two_runs c d db).traffic_hourly
        ≡ find (has_hour l h) (aggregate_old_samples d db).traffic_hourly
  early_two_runs db aligned lt =
      find-two_runs db
      ∙ rw (early_second aligned lt, exists_none db.traffic_samples, early_first aligned lt)
          (sym (find-aggregate_old_samples d l h db))

  late_two_runs :
      (db : Db)
      → c ≤ h
      → find (has_hour l h) (two_runs c d db).traffic_hourly
        ≡ find (has_hour l h) (aggregate_old_samples d db).traffic_hourly
  late_two_runs db lt =
      find-two_runs db
      ∙ rw
          (
            group_row-filter db.traffic_samples (late_second lt),
            late_second lt,
            late_first lt,
            exists_none db.traffic_samples,
          )
          (sym (find-aggregate_old_samples d l h db))

  -- As to the summing up, a run at a whole hour and a later one are as good as the later one alone.
  summed_up_twice :
      (db : Db)
      → c % 3600 ≡ 0
      → find (has_hour l h) (two_runs c d db).traffic_hourly
        ≡ find (has_hour l h) (aggregate_old_samples d db).traffic_hourly
  summed_up_twice db aligned = elim (Bool-cases (ltb h c)) [
    | inl e ↦ early_two_runs db aligned (ltb→lt h c e)
    | inr e ↦ late_two_runs db (ltb→le h c e)
  ]

  -- Where the second run finds rows of an hour that the first has summed up a part of, the hour's row
  -- lacks that part: the bytes of the hour are those of its row and those that the first run deleted.
  two_runs_lose :
      (db : Db)
      → exists second_group db.traffic_samples ≡ true
      → (row : TrafficRow) × (find (has_hour l h) (two_runs c d db).traffic_hourly ≡ some row)
        × (row.bytes_in + sum (in_group c l h) (λ r. r.bytes_in) db.traffic_samples
            ≡ sum (in_group d l h) (λ r. r.bytes_in) db.traffic_samples)
        × (row.bytes_out + sum (in_group c l h) (λ r. r.bytes_out) db.traffic_samples
            ≡ sum (in_group d l h) (λ r. r.bytes_out) db.traffic_samples)
  two_runs_lose db some_left = (
    group_row d (filter (kept c) db.traffic_samples) l h,
    find-two_runs db ∙ rw some_left,
    omega (
      arith,
      sum-filter (kept c) (in_group d l h) (λ r. r.bytes_in) db.traffic_samples,
      in_group_split (λ r. r.bytes_in) db.traffic_samples,
    ),
    omega (
      arith,
      sum-filter (kept c) (in_group d l h) (λ r. r.bytes_out) db.traffic_samples,
      in_group_split (λ r. r.bytes_out) db.traffic_samples,
    ),
  )

-- What the deletion of old hours leaves of an hour.
find-kept :
    (l : String) (h cutoff : ℕ) (rows : List TrafficRow)
    → find (has_hour l h) (filter (kept cutoff) rows)
      ≡ (if ltb h cutoff then none else find (has_hour l h) rows)
find-kept l h cutoff [] = ground arith
find-kept l h cutoff (r ∷ rs) = ground (arith, find-kept l h cutoff rs)

abbrev no_faults : Faults
no_faults = record {
  aggregate = false;
  delete_samples = false;
  delete_hourly = false;
  delete_ops = false;
}

-- Two runs of the job, where nothing fails.
abbrev pub run_twice : Retainer → ℕ → ℕ → Db → Db
run_twice r first second db = (run no_faults r second (run no_faults r first db).0).0

-- The hour of a label, of all samples that are older than a cutoff, or as it was stored where there
-- are none of it.
abbrev pub summed_hour : ℕ → String → ℕ → Db → Option TrafficRow
summed_hour cutoff l h db =
    if exists (in_group cutoff l h) db.traffic_samples
    then some (group_row cutoff db.traffic_samples l h)
    else find (has_hour l h) db.traffic_hourly

find-run :
    (r : Retainer) (now : ℕ) (l : String) (h : ℕ) (db : Db)
    → find (has_hour l h) (run no_faults r now db).0.traffic_hourly ≡ (
        if ltb h (now - hourly_days r * 86400)
        then none
        else find
            (has_hour l h)
            (aggregate_old_samples (now - minute_days r * 86400) db).traffic_hourly)
unfolding run delete_old_samples delete_old_hourly delete_old_ops
find-run r now l h db =
    find-kept l h (now - hourly_days r * 86400)
      (aggregate_old_samples (now - minute_days r * 86400) db).traffic_hourly

samples-run :
    (r : Retainer) (now : ℕ) (db : Db)
    → (run no_faults r now db).0.traffic_samples
      ≡ filter (kept (now - minute_days r * 86400)) db.traffic_samples
unfolding run delete_old_samples delete_old_hourly delete_old_ops aggregate_old_samples
samples-run r now db = refl

-- Where nothing fails and the first run's cutoff is a whole hour, a run and a later one leave in each
-- hour the sums of all the samples that are older than the later cutoff, or what was stored where
-- there are none; and of the hours that the later run takes as too old they leave nothing.
pub run_twice-summed_hour :
    (r : Retainer) (first second : ℕ) (l : String) (h : ℕ) (db : Db)
    → first ≤ second
    → (first - minute_days r * 86400) % 3600 ≡ 0
    → find (has_hour l h) (run_twice r first second db).traffic_hourly ≡ (
        if ltb h (second - hourly_days r * 86400)
        then none
        else summed_hour (second - minute_days r * 86400) l h db)
run_twice-summed_hour r first second l h db le aligned =
    let c = first - minute_days r * 86400 in
    let d = second - minute_days r * 86400 in
    let once = (run no_faults r first db).0 in
    find-run r second l h once ∙ elim (Bool-cases (ltb h (second - hourly_days r * 86400))) [
      | inl old ↦ rw old refl
      | inr new ↦
          let early : ltb h (first - hourly_days r * 86400) ≡ false = ground (arith, new, le) in
          let same : find (has_hour l h) once.traffic_hourly
              ≡ find (has_hour l h) (first_run c db).traffic_hourly =
            find-run r first l h db
            ∙ rw early refl
            ∙ ap (find (has_hour l h)) (sym (hourly-first_run c db)) in
          let samples : once.traffic_samples ≡ (first_run c db).traffic_samples =
            samples-run r first db ∙ sym (samples-first_run c db) in
          rw new (
            find-aggregate_old_samples d l h once
            ∙ rw (samples, same) (sym (find-aggregate_old_samples d l h (first_run c db)))
            ∙ summed_up_twice l h c d (omega (arith, le)) db aligned
            ∙ find-aggregate_old_samples d l h db)
    ]
