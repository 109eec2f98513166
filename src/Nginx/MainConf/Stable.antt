-- ===== src/Nginx/MainConf/Stable.antt =====
-- `PatchMainConf` of internal/nginx/mainconf.go, run once and again.
use mtproxy_orchestrator.Base.{
  false, none, some, List, [], ◌∷◌, ◌++◌, if◌then◌else◌, ◌≡◌, ◌≢◌, refl, sym, ap, ◌∙◌, inl, inr,
  subst, All, List-cases,
}
use mtproxy_orchestrator.Update.Text.{Text, codes, split, atoi}
use mtproxy_orchestrator.Nginx.MainConf.{
  match_directive, managed, connections, nofile, below, settle, is_events_open, is_worker_processes,
  patch_lines, patch_main_conf, join_lines,
}
use mtproxy_orchestrator.Nginx.MainConf.Lines.{
  match_directive-blank, match_directive-name, match_directive-nofile, is_events_open-nofile,
  match_directive-connections, match_directive-managed-nofile, span-managed-nofile,
}
use mtproxy_orchestrator.Nginx.MainConf.Breaks.{
  NoBreak, split-join_lines, NoBreak-split, settle-NoBreak, settle-cons, split-cons,
  is_unbroken-NoBreak,
}
use mtproxy_orchestrator.Nginx.MainConf.Raising.{
  Kept, test, Settled, settle-Settled, settle-Settled', Blind, first-settle,
}

high_connections : below connections.floor (atoi connections.digits) ≡ false
unfolding atoi
high_connections = refl

high_nofile : below nofile.floor (atoi nofile.digits) ≡ false
unfolding atoi
high_nofile = refl

connections-Blind : Blind nofile (match_directive connections.name)
connections-Blind l m e =
    let (r, begins) = match_directive-name nofile.name l e in
    let blank = match_directive-blank nofile.name l e in
    (
      match_directive-nofile l r begins,
      match_directive-nofile (m.0 ++ managed nofile) (codes " 16384; # managed by tgproxy")
          (span-managed-nofile m.0 blank),
    )

events-Blind : Blind nofile (test is_events_open)
events-Blind l m e =
    let (r, begins) = match_directive-name nofile.name l e in
    let blank = match_directive-blank nofile.name l e in
    (
      rw (is_events_open-nofile l r begins) refl,
      rw
          (is_events_open-nofile (m.0 ++ managed nofile) (codes " 16384; # managed by tgproxy")
            (span-managed-nofile m.0 blank))
          refl,
    )

abbrev Calm : List Text → Type 0
Calm ls = Settled connections is_events_open ls × Settled nofile is_worker_processes ls

Calm-patch_lines : (ls : List Text) → Calm (patch_lines ls)
unfolding patch_lines
Calm-patch_lines ls =
    let first_half = settle connections is_events_open (codes "    " ++ managed connections) ls in
    let (kept, place) =
      settle-Settled connections match_directive-connections high_connections is_events_open
        (codes "    " ++ managed connections) ls
        (match_directive-connections (codes "    ") (refl, (refl, (refl, (refl, tt)))))
        high_connections in
    let same =
      first-settle nofile (match_directive connections.name) is_worker_processes (managed nofile)
        first_half connections-Blind
        (match_directive-nofile (managed nofile) (codes " 16384; # managed by tgproxy")
          (span-managed-nofile [] tt)) in
    let same_events =
      first-settle nofile (test is_events_open) is_worker_processes (managed nofile) first_half
        events-Blind
        (ap (λ b. if b then some tt else none)
          (is_events_open-nofile (managed nofile) (codes " 16384; # managed by tgproxy")
            (span-managed-nofile [] tt))) in
    (
      (
        subst (λ o. Kept connections o) (sym same) kept,
        λ gone. same_events ∙ place (sym same ∙ gone),
      ),
      settle-Settled nofile match_directive-managed-nofile high_nofile is_worker_processes
          (managed nofile) first_half (match_directive-managed-nofile [] tt) high_nofile,
    )

patch_lines_settled : (ls : List Text) → Calm ls → patch_lines ls ≡ ls
unfolding patch_lines
patch_lines_settled ls (c, n) =
    ap (λ t. settle nofile is_worker_processes (managed nofile) t)
      (settle-Settled' connections is_events_open (codes "    " ++ managed connections) ls c)
    ∙ settle-Settled' nofile is_worker_processes (managed nofile) ls n

NoBreak-patch_lines : (ls : List Text) → All NoBreak ls → All NoBreak (patch_lines ls)
unfolding patch_lines managed
NoBreak-patch_lines ls h =
    let new = codes "    " ++ managed connections in
    settle-NoBreak nofile is_worker_processes (managed nofile)
      (settle connections is_events_open new ls) (is_unbroken-NoBreak (managed nofile) refl)
      (is_unbroken-NoBreak (managed nofile) refl)
      (settle-NoBreak connections is_events_open new ls
        (is_unbroken-NoBreak (managed connections) refl) (is_unbroken-NoBreak new refl) h)

patch_lines-cons : (ls : List Text) → ls ≢ [] → patch_lines ls ≢ []
unfolding patch_lines
patch_lines-cons [] some_line h = some_line refl
patch_lines-cons (l ∷ ls) some_line h =
    elim (List-cases
      (settle connections is_events_open (codes "    " ++ managed connections) (l ∷ ls))) [
        | inl e ↦
            settle-cons connections is_events_open (codes "    " ++ managed connections) l ls e
        | inr (k, (ks, e)) ↦
            settle-cons nofile is_worker_processes (managed nofile) k ks
              (ap (λ t. settle nofile is_worker_processes (managed nofile) t) (sym e) ∙ h)
      ]

split_patched :
    (ls : List Text)
    → All NoBreak ls
    → ls ≢ []
    → split 10 (join_lines (patch_lines ls)) ≡ patch_lines ls
split_patched ls h some_line = elim (List-cases (patch_lines ls)) [
  | inl e ↦ absurd (patch_lines-cons ls some_line e)
  | inr (k, (ks, e)) ↦
      let whole : All NoBreak (k ∷ ks) = subst (λ t. All NoBreak t) e (NoBreak-patch_lines ls h) in
      ap (λ t. split 10 (join_lines t)) e ∙ split-join_lines k ks whole ∙ sym e
]

-- `PatchMainConf` is idempotent: a text that it made is left as it is.
pub patch_main_conf_idempotent :
    (s : Text) → patch_main_conf (patch_main_conf s) ≡ patch_main_conf s
unfolding patch_main_conf
patch_main_conf_idempotent s =
    ap (λ ls. join_lines (patch_lines ls))
      (split_patched (split 10 s) (NoBreak-split s) (split-cons s))
    ∙ ap join_lines (patch_lines_settled (patch_lines (split 10 s)) (Calm-patch_lines (split 10 s)))

-- In a text that `PatchMainConf` made, the first `worker_connections` line has no number below 4096
-- and the first `worker_rlimit_nofile` line none below 16384 (a number above the range of `int` is
-- left alone); where there is no such line, there is no line that opens `events`, or no
-- `worker_processes` line, to insert it behind.
patch_main_conf-floor :
    (s : Text)
    → let ls = split 10 (patch_main_conf s) in
      Settled connections is_events_open ls × Settled nofile is_worker_processes ls
unfolding patch_main_conf
patch_main_conf-floor s =
    subst (λ ls. Calm ls) (sym (split_patched (split 10 s) (NoBreak-split s) (split-cons s)))
      (Calm-patch_lines (split 10 s))
