-- ===== src/Metrics/Sampler/Counters.antt =====
-- Over a run of scrapes the stored deltas of a user telescope to its cumulative counters.
use mtproxy_orchestrator.Base.{
  ℕ, ◌+◌, ◌≤◌, ◌<◌, ◌≡◌, ◌≢◌, refl, sym, subst, ◌⊎◌, String, Bool, true, false, some, List, [], ◌∷◌,
  ◌++◌, str_eq, eq_iff, eq_refl, arith, if◌then◌else◌, find,
}
use mtproxy_orchestrator.Base.Sql.{upsert, exists}
use mtproxy_orchestrator.Schema.{TrafficRow, CounterRow, Db}
use mtproxy_orchestrator.Metrics.Sampler.{
  Sample, counter_delta, has_key, has_counter, counter_row, traffic_row, day_of, store_sample,
}
use mtproxy_orchestrator.Metrics.Sampler.Usage.{added, day_mono, traffic_since-store_sample}
use mtproxy_orchestrator.Quota.Service.{traffic_since}

-- A second store of the same second changes nothing: the row of the first is found.
exists-append :
    (p : TrafficRow → Bool) (xs : List TrafficRow) (x : TrafficRow)
    → exists p (xs ++ x ∷ []) ≡ (if p x then true else exists p xs)
exists-append p [] x = ground arith
exists-append p (y ∷ xs) x = ground (arith, exists-append p xs x)

-- Storing the samples of a second again changes nothing: there is one row for a user and a second.
store_sample_idem :
    (ts : ℕ) (s : Sample) (db : Db)
    → store_sample ts s (store_sample ts s db) ≡ store_sample ts s db
unfolding store_sample
store_sample_idem ts s db = ground (
  arith,
  exists-append (has_key s.user_label ts) db.traffic_samples
      (traffic_row s ts (counter_delta db s)),
  eq_refl s.user_label,
)

find-upsert :
    (label : String) (c : CounterRow) (xs : List CounterRow)
    → find (has_counter label) (upsert (has_counter c.user_label) (λ x. c) c xs)
      ≡ (if str_eq c.user_label label then some c else find (has_counter label) xs)
find-upsert label c [] = ground arith
find-upsert label c (x ∷ xs) = ground (
  arith,
  find-upsert label c xs,
  eq_iff x.user_label label,
  eq_iff c.user_label label,
  eq_iff x.user_label c.user_label,
)

-- The stored counter of a user after a store.
counter-store_sample :
    (label : String) (ts : ℕ) (s : Sample) (db : Db)
    → exists (has_key s.user_label ts) db.traffic_samples ≡ false
    → find (has_counter label) (store_sample ts s db).traffic_counters ≡ (
        if str_eq s.user_label label
        then some (counter_row s ts)
        else find (has_counter label) db.traffic_counters)
unfolding store_sample
counter-store_sample label ts s db fresh =
    ground (arith, fresh, find-upsert label (counter_row s ts) db.traffic_counters)

-- The scrapes `(ts, sample)` bring the user's counters from `i` and `o` up, at growing times.
pub data Rising (label : String) : ℕ → ℕ → ℕ → List (ℕ × Sample) → Type 0 where
  ended : {t i o : ℕ} → Rising label t i o []
  own :
      {t i o ts : ℕ} {s : Sample} {rest : List (ℕ × Sample)}
      → s.user_label ≡ label
      → t < ts
      → i ≤ s.bytes_in
      → o ≤ s.bytes_out
      → Rising label ts s.bytes_in s.bytes_out rest
      → Rising label t i o ((ts, s) ∷ rest)
  other :
      {t i o ts : ℕ} {s : Sample} {rest : List (ℕ × Sample)}
      → s.user_label ≢ label
      → Rising label t i o rest
      → Rising label t i o ((ts, s) ∷ rest)

pub store_scrapes : List (ℕ × Sample) → Db → Db
store_scrapes [] db = db
store_scrapes ((ts, s) ∷ rest) db = store_scrapes rest (store_sample ts s db)

-- The sum of the two counters in the last scrape of the user, `n` where there is none.
pub last_total : String → ℕ → List (ℕ × Sample) → ℕ
last_total label n [] = n
last_total label n ((ts, s) ∷ rest) =
    last_total label (if str_eq s.user_label label then s.bytes_in + s.bytes_out else n) rest

-- What the tables hold of a user whose last scrape was at `t`.
pub record IsAt (label : String) (t i o : ℕ) (db : Db) : Type 0 where
  pub counter :
      (c : CounterRow) × (find (has_counter label) db.traffic_counters ≡ some c)
      × (c.bytes_in ≡ i)
      × (c.bytes_out ≡ o)
  pub fresh : (ts : ℕ) → t < ts → exists (has_key label ts) db.traffic_samples ≡ false

exists-store_sample :
    (label : String) (u ts : ℕ) (s : Sample) (db : Db)
    → exists (has_key label u) (store_sample ts s db).traffic_samples ≡ true
    → (exists (has_key label u) db.traffic_samples ≡ true) ⊎ ((s.user_label ≡ label) × (ts ≡ u))
unfolding store_sample
exists-store_sample label u ts s db = ground (
  arith,
  exists-append (has_key label u) db.traffic_samples (traffic_row s ts (counter_delta db s)),
  eq_iff s.user_label label,
)

-- A store for another user leaves the counter alone.
counter-other :
    (label : String) (ts : ℕ) (s : Sample) (db : Db)
    → s.user_label ≢ label
    → find (has_counter label) (store_sample ts s db).traffic_counters
      ≡ find (has_counter label) db.traffic_counters
unfolding store_sample
counter-other label ts s db ne =
    ground
      (arith, find-upsert label (counter_row s ts) db.traffic_counters, eq_iff s.user_label label)

own-IsAt :
    (label : String) (t i o ts : ℕ) (s : Sample) (db : Db)
    → s.user_label ≡ label
    → t < ts
    → IsAt label t i o db
    → IsAt label ts s.bytes_in s.bytes_out (store_sample ts s db)
own-IsAt label t i o ts s db e lt a =
    let unseen =
      subst (λ l. exists (has_key l ts) db.traffic_samples ≡ false) (sym e) (a.fresh ts lt) in
    record {
      counter = (
        counter_row s ts,
        ground (arith, counter-store_sample label ts s db unseen, eq_iff s.user_label label),
        refl,
        refl,
      );
      fresh =
          λ u later. ground (arith, exists-store_sample label u ts s db, a.fresh u (omega arith));
    }

other-IsAt :
    (label : String) (t i o ts : ℕ) (s : Sample) (db : Db)
    → s.user_label ≢ label
    → IsAt label t i o db
    → IsAt label t i o (store_sample ts s db)
other-IsAt label t i o ts s db ne a = record {
  counter =
      let (c, found, same_in, same_out) = a.counter in
      (c, ground (arith, counter-other label ts s db ne, found), same_in, same_out);
  fresh = λ u later.
      ground
        (arith, exists-store_sample label u ts s db, a.fresh u later, eq_iff s.user_label label);
}

-- What a store adds to the traffic of its user, and of another.
own-added :
    (label : String) (start t i o ts : ℕ) (s : Sample) (db : Db)
    → s.user_label ≡ label
    → t < ts
    → i ≤ s.bytes_in
    → o ≤ s.bytes_out
    → start ≤ day_of ts
    → IsAt label t i o db
    → added label start ts s db + i + o ≡ s.bytes_in + s.bytes_out
unfolding counter_delta
own-added label start t i o ts s db e lt hi ho day a =
    let (c, found, same_in, same_out) = a.counter in
    let unseen =
      subst (λ l. exists (has_key l ts) db.traffic_samples ≡ false) (sym e) (a.fresh ts lt) in
    let found' = subst (λ l. find (has_counter l) db.traffic_counters ≡ some c) (sym e) found in
    ground (arith, unseen, found', eq_iff s.user_label label)

other-added :
    (label : String) (start ts : ℕ) (s : Sample) (db : Db)
    → s.user_label ≢ label
    → added label start ts s db ≡ 0
other-added label start ts s db ne = ground (arith, eq_iff s.user_label label)

-- Whatever the scrapes of other users in between, the traffic that is stored for a user over scrapes
-- with rising counters, together with the counters before them, is the counters of the last scrape,
-- for a period that began by the day of the scrape before.
pub traffic_since-store_scrapes :
    (label : String) (start t i o : ℕ) (scrapes : List (ℕ × Sample)) (db : Db)
    → start ≤ day_of t
    → IsAt label t i o db
    → Rising label t i o scrapes
    → traffic_since label start (store_scrapes scrapes db) + (i + o)
      ≡ traffic_since label start db + last_total label (i + o) scrapes
unfolding store_scrapes last_total
traffic_since-store_scrapes label start t i o scrapes db day a ended = refl
traffic_since-store_scrapes label start t i o scrapes db day a (own {ts} {s} {rest} e lt hi ho r) =
    let day' : start ≤ day_of ts = omega (arith, day_mono t ts) in
    let same = (eq_iff s.user_label label).1 e in
    rw same (
      omega (
        arith,
        traffic_since-store_scrapes label start ts s.bytes_in s.bytes_out rest
            (store_sample ts s db) day' (own-IsAt label t i o ts s db e lt a) r,
        traffic_since-store_sample label start ts s db,
        own-added label start t i o ts s db e lt hi ho day' a,
      ))
traffic_since-store_scrapes label start t i o scrapes db day a (other {ts} {s} {rest} ne r) =
    let differs : str_eq s.user_label label ≡ false = ground (arith, eq_iff s.user_label label) in
    rw differs (
      omega (
        arith,
        traffic_since-store_scrapes label start t i o rest (store_sample ts s db) day
            (other-IsAt label t i o ts s db ne a) r,
        traffic_since-store_sample label start ts s db,
        other-added label start ts s db ne,
      ))
