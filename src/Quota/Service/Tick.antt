-- ===== src/Quota/Service/Tick.antt =====
-- One round of `tickAll` over all users, with no fault of the database and no failing reload.
use mathlib.Core.List.{Memᴰ}
use mtproxy_orchestrator.Base.{
  ℕ, ◌+◌, ◌≤◌, ◌<◌, String, Bool, true, false, Option, none, some, List, [], ◌∷◌, ◌≡◌, refl, sym,
  ◌∙◌, ◌≢◌, inl, inr, arith, subst, find, filter, map, not, Bool-cases, Option-cases, str_eq,
  eq_iff,
}
use mtproxy_orchestrator.Base.Sql.{Distinct}
use mtproxy_orchestrator.Schema.{UserRow, Db}
use mtproxy_orchestrator.Quota.Period.{advance}
use mtproxy_orchestrator.Quota.Service.{
  Service, Round, log, quota_rollover, write_user, renew_period, no_faults, find_user, used_bytes,
  traffic_since, run_reload, rollover_row, rollover_if_due, recalculate, tick_user, tick_users,
  tick_all, has_label,
}
use mtproxy_orchestrator.Quota.Service.Frame.{
  IsLocal, Writes-IsLocal, nothing, rollover_if_due-IsLocal, recalculate-IsLocal,
}
use mtproxy_orchestrator.Quota.Service.Enforcement.{
  recalculate-IsRecalculated, recalculate-no_faults,
}

-- The live user `label`, if there is one, has its usage stored, and is suspended if it used up its quota.
pub record IsEnforced (label : String) (db : Db) : Type 0 where
  pub usage :
      (v : UserRow) → find_user label db ≡ some v → v.quota_used_bytes ≡ used_bytes label v db
  pub limit :
      (v : UserRow)
      → find_user label db ≡ some v
      → 0 < v.quota_bytes
      → v.quota_bytes ≤ used_bytes label v db
      → v.quota_suspended ≡ true

used_bytes-daily :
    (label : String) (u : UserRow) (a b : Db)
    → a.traffic_daily ≡ b.traffic_daily
    → used_bytes label u a ≡ used_bytes label u b
unfolding used_bytes traffic_since
used_bytes-daily label u a b e = rw e

IsLocal-IsEnforced :
    {label j : String} {a b : Db} → label ≢ j → IsLocal label a b → IsEnforced j a → IsEnforced j b
IsLocal-IsEnforced {label} {j} {a} {b} ne l e = record {
  usage =
      λ v h. e.usage v (sym (l.others j ne) ∙ h) ∙ sym (used_bytes-daily j v b a l.traffic_daily);
  limit = λ v h pos over.
      e.limit v (sym (l.others j ne) ∙ h) pos
        (rw (used_bytes-daily j v b a l.traffic_daily) at over);
}

mem-list_users :
    (j : String) (users : List UserRow) {u : UserRow}
    → find (has_label j) users ≡ some u
    → Memᴰ j (map (λ r. r.label) (filter (λ r. not r.deleted) users))
mem-list_users j [] found = cc
mem-list_users j (x ∷ users) {u} found = elim (Bool-cases (not x.deleted)) [
  | inr gone ↦ rw gone (mem-list_users j users {u = u} (ground (arith, gone, found)))
  | inl live ↦ rw live (elim (Bool-cases (str_eq x.label j)) [
    | inl e ↦ Memᴰ.head (sym ((eq_iff x.label j).0 e))
    | inr e ↦ Memᴰ.tail (mem-list_users j users {u = u} (rw e at found))
  ])
]

recalculate_missing :
    (reload : Option (ℕ → Bool)) (label : String) (s : Service)
    → find_user label s.db ≡ none
    → (recalculate reload no_faults label s).0 ≡ s
unfolding recalculate
recalculate_missing reload label s e = ground (arith, e)

-- The rounds that `tickAll` makes with no fault.
abbrev pub quiet : (String → ℕ) → String → Round
quiet now label = record {
  cancelled = false;
  now = now label;
  rollover = no_faults;
  recalc = no_faults;
}

module _ (reload : Option (ℕ → Bool))
    (reliable : (s : Service) → (run_reload reload s).1 ≡ none) where
  rollover_row-err :
      (now : ℕ) (label : String) (u : UserRow) (s : Service)
      → (rollover_row reload no_faults now label u s).2 ≡ none
  unfolding rollover_row
  rollover_row-err now label u s = ground (
    arith,
    reliable (
        log (quota_rollover label u.quota_period) (
          write_user u.id
            (renew_period (advance (now + 1) u.quota_period now u.quota_period_start false).0) s)),
  )

  IsEnforced-found :
      (label : String) (u : UserRow) (s : Service)
      → find_user label s.db ≡ some u
      → IsEnforced label (recalculate reload no_faults label s).0.db
  unfolding used_bytes traffic_since
  IsEnforced-found label u s found =
      let (used, row) = recalculate-IsRecalculated reload label u s found in
      let (v, after, r) = row in
      let (stored, _, _) = recalculate-no_faults reload label u s found in
      let same : used_bytes label v (recalculate reload no_faults label s).0.db
          ≡ used_bytes label u s.db =
        rw stored (rw r.period_start) in
      record {
        usage = λ w h. let e : v ≡ w = cc (after, h) in rw (← e) (r.stored_used ∙ used ∙ sym same);
        limit = λ w h pos over.
            let e : v ≡ w = cc (after, h) in
            let full : u.quota_bytes ≤ used_bytes label u s.db = omega (
              arith,
              r.quota_bytes,
              same,
              subst
                  (λ x.
                    x.quota_bytes ≤ used_bytes label x (recalculate reload no_faults label s).0.db)
                  (sym e) over,
            ) in
            let some_quota : 0 < u.quota_bytes =
              omega
                (arith, r.quota_bytes, subst (λ (x : UserRow). 0 < x.quota_bytes) (sym e) pos) in
            rw (← e) (r.stored_suspended ∙ r.enforced.1 (inr (some_quota, rw used full)));
      }

  recalculate-IsEnforced :
      (label : String) (s : Service) → IsEnforced label (recalculate reload no_faults label s).0.db
  recalculate-IsEnforced label s = elim (Option-cases (find_user label s.db)) [
    | inr (u, found) ↦ IsEnforced-found label u s found
    | inl missing ↦
        rw (recalculate_missing reload label s missing)
          (record { usage = λ v h. cc (missing, h); limit = λ v h pos over. cc (missing, h) })
  ]

  module _ (now : String → ℕ) where
    abbrev rolled : String → Service → Service
    rolled label s = (rollover_if_due reload no_faults (now label) label s).0

    abbrev ticked : String → Service → Service
    ticked label s = tick_user reload (quiet now label) label s

    tick_user-found :
        (label : String) (u : UserRow) (s : Service)
        → find_user label s.db ≡ some u
        → ticked label s ≡ (recalculate reload no_faults label (rolled label s)).0
    unfolding tick_user rollover_if_due
    tick_user-found label u s found = ground (arith, found, rollover_row-err (now label) label u s)

    tick_user-missing :
        (label : String) (s : Service) → find_user label s.db ≡ none → ticked label s ≡ s
    unfolding tick_user rollover_if_due
    tick_user-missing label s missing = ground (arith, missing)

    tick_user-IsEnforced : (label : String) (s : Service) → IsEnforced label (ticked label s).db
    tick_user-IsEnforced label s = elim (Option-cases (find_user label s.db)) [
      | inr (u, found) ↦
          rw (tick_user-found label u s found) (recalculate-IsEnforced label (rolled label s))
      | inl missing ↦
          rw (tick_user-missing label s missing)
            (record { usage = λ v h. cc (missing, h); limit = λ v h pos over. cc (missing, h) })
    ]

    tick_user-IsLocal :
        (label : String) (s : Service)
        → Distinct (λ r. r.id) s.db.users
        → (t : Service) × IsLocal label s.db t.db × IsLocal label t.db (ticked label s).db
    tick_user-IsLocal label s d = elim (Option-cases (find_user label s.db)) [
      | inr (u, found) ↦
          let l = rollover_if_due-IsLocal reload no_faults label s (now label) d in
          rw (tick_user-found label u s found) (
            rolled label s,
            l,
            recalculate-IsLocal reload no_faults label (rolled label s) l.distinct,
          )
      | inl missing ↦
          rw (tick_user-missing label s missing)
            (s, Writes-IsLocal d (nothing refl), Writes-IsLocal d (nothing refl))
    ]

    tick_user-keeps :
        (label j : String) (s : Service)
        → Distinct (λ r. r.id) s.db.users
        → IsEnforced j s.db
        → IsEnforced j (ticked label s).db
    tick_user-keeps label j s d e = elim (Bool-cases (str_eq label j)) [
      | inl same ↦
          subst (λ k. IsEnforced k (ticked label s).db) ((eq_iff label j).0 same)
            (tick_user-IsEnforced label s)
      | inr other ↦
          let ne : label ≢ j = λ p. cc ((eq_iff label j).1 p, other) in
          let (t, l, m) = tick_user-IsLocal label s d in
          IsLocal-IsEnforced ne m (IsLocal-IsEnforced ne l e)
    ]

    tick_users-keeps :
        (labels : List String) (j : String) (s : Service)
        → Distinct (λ r. r.id) s.db.users
        → IsEnforced j s.db
        → IsEnforced j (tick_users reload (quiet now) labels s).db
    unfolding tick_users
    tick_users-keeps [] j s d e = e
    tick_users-keeps (label ∷ labels) j s d e =
        let (t, l, m) = tick_user-IsLocal label s d in
        tick_users-keeps labels j (ticked label s) m.distinct (tick_user-keeps label j s d e)

    tick_users-IsEnforced :
        (labels : List String) (j : String) (s : Service)
        → Distinct (λ r. r.id) s.db.users
        → Memᴰ j labels
        → IsEnforced j (tick_users reload (quiet now) labels s).db
    unfolding tick_users
    tick_users-IsEnforced [] j s d h = elim h [ ]
    tick_users-IsEnforced (label ∷ labels) j s d (Memᴰ.head e) =
        let (t, l, m) = tick_user-IsLocal label s d in
        tick_users-keeps labels j (ticked label s) m.distinct
          (subst (λ k. IsEnforced k (ticked label s).db) (sym e) (tick_user-IsEnforced label s))
    tick_users-IsEnforced (label ∷ labels) j s d (Memᴰ.tail h) =
        let (t, l, m) = tick_user-IsLocal label s d in
        tick_users-IsEnforced labels j (ticked label s) m.distinct h

    -- With distinct ids, no fault of the database and no failing reload, `tickAll` leaves every live
    -- user with its usage stored, and suspended if its quota is
    -- used up, whatever the rounds of the other users wrote.
    pub tick_all-IsEnforced :
        (j : String) (s : Service) {u : UserRow}
        → Distinct (λ r. r.id) s.db.users
        → find_user j s.db ≡ some u
        → IsEnforced j (tick_all reload false (quiet now) s).db
    unfolding tick_all
    tick_all-IsEnforced j s d found =
        tick_users-IsEnforced _ j s d (mem-list_users j s.db.users found)
