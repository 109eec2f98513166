-- ===== src/Tests/Updating.antt =====
-- The results on the replacing of a binary at concrete inputs.
use mtproxy_orchestrator.Base.{
  ℕ, List, ◌+◌, ◌*◌, Bool, true, false, not, none, some, [], ◌∷◌, ◌==◌, ◌≡◌, ◌≢◌, refl, arith,
  if◌then◌else◌,
}
use mtproxy_orchestrator.Update.Assets.{teleproxy}
use mtproxy_orchestrator.Update.Text.{codes}
use mtproxy_orchestrator.Update.Apply.{
  Binary, Files, Host, Call, check, done, rolled_back, unhealthy, has_service, rollback, apply,
  candidate_content, is_archive,
}
use mtproxy_orchestrator.Update.Apply.Safety.{HasContent, Left, apply_done, apply_failed}
use mtproxy_orchestrator.Update.Apply.Polling.{UnitRun, healthy, poll, poll_ends}

abbrev old : Binary
old = record { content = 1 ∷ []; owner = 1000; executable = true }

abbrev files : Files
files = record { dest = some old; backup = none; tmp = none; running = some (1 ∷ []) }

abbrev is_check : Call → Bool
is_check check = true
is_check _ = false

abbrev nothing : Call → Bool
nothing c = false

-- A host whose updater is root.
abbrev host : (Call → Bool) → Host
host fails = record {
  fails = fails;
  served = 2 ∷ [];
  hash = λ s. "abc";
  member = none;
  torn = none;
  updater = 0;
  may_update = true;
}

updated : (apply (host nothing) teleproxy (codes "https://example.org/t") "abc" files).0 ≡ done
unfolding apply is_archive has_service
updated = refl

apply_done_example :
    let g = (apply (host nothing) teleproxy (codes "https://example.org/t") "abc" files).1 in
    (content : List ℕ) × (((host nothing).hash (2 ∷ []) ≡ "abc")
      × ((candidate_content (host nothing) teleproxy (codes "https://example.org/t") ≡ some content)
          × (HasContent content g.dest
              × ((has_service teleproxy ≡ true → g.running ≡ some content) × (g.tmp ≡ none)))))
apply_done_example =
    apply_done (host nothing) teleproxy (codes "https://example.org/t") "abc" files updated

unhealthy_after :
    (apply (host is_check) teleproxy (codes "https://example.org/t") "abc" files).0
    ≡ rolled_back unhealthy false
unfolding apply is_archive has_service rollback
unhealthy_after = refl

apply_failed_example :
    let (r, g) = apply (host is_check) teleproxy (codes "https://example.org/t") "abc" files in
    HasContent (1 ∷ []) g.dest × Left old files r g
apply_failed_example =
    apply_failed (host is_check) teleproxy (codes "https://example.org/t") "abc" files old refl
      not_done refl refl refl refl
  where
    not_done :
        (apply (host is_check) teleproxy (codes "https://example.org/t") "abc" files).0 ≢ done
    not_done h = cc (unhealthy_after, h)

-- The rolled-back binary belongs to the updater, no longer to its owner.
owner_lost :
    (apply (host is_check) teleproxy (codes "https://example.org/t") "abc" files).1.dest
    ≡ some (record old { owner = 0 })
unfolding apply is_archive has_service rollback
owner_lost = refl

-- A unit that is active in the third round.
abbrev run : UnitRun
run = record {
  reading = λ k. record { state = if k == 2 then "active" else "activating"; error = not (k == 2) };
  clock = λ k. 100 + k * 250;
  start = 100;
  timeout = 15000;
  interval = 250;
}

poll_ends_example : poll run 61 0 ≢ none
poll_ends_example = poll_ends run 60 (λ k. omega arith) (omega arith) (omega arith)

becomes_active : poll run 61 0 ≡ some healthy
unfolding poll
becomes_active = refl
