-- ===== src/Update/Apply/Safety.antt =====
-- What `Apply` of internal/update/apply.go leaves, on every way out.
use mtproxy_orchestrator.Base.{
  ℕ, String, true, false, not, ◌&&◌, ◌||◌, Option, none, some, List, str_eq, if◌then◌else◌, ◌≡◌,
  ◌≢◌, refl, ap, sym, ◌∙◌, inl, inr, arith, subst, Bool-cases, Option-cases, eq_iff,
}
use mtproxy_orchestrator.Update.Assets.{Component}
use mtproxy_orchestrator.Update.Text.{Text}
use mtproxy_orchestrator.Update.Apply.{
  Binary, Files, Host, download, copy_backup, chmod_tmp, replace, stat_owner, restore_owner,
  copy_back, chmod_back, restart_back, stat_backup, own_back, restart, check, done, not_restarted,
  unhealthy, has_service, rollback, roll_back_if, restart_and_check, replace_binary, apply, copied,
  content_of, present, backup_of, owner_or, Cause, Result, failed, rolled_back, candidate_content,
  download_candidate,
}

-- The content of the binary is that of a file.
abbrev pub HasContent : List ℕ → Option Binary → Type 0
HasContent content none = ⊥
HasContent content (some b) = b.content ≡ content

copied-content : (uid : ℕ) (b : Binary) (o : Option Binary) → (copied uid b o).content ≡ b.content
copied-content uid b none = refl
copied-content uid b (some old) = refl

content_of-HasContent :
    {content : List ℕ} (o : Option Binary) → content_of o ≡ some content → HasContent content o
content_of-HasContent none h = cc
content_of-HasContent (some b) h = cc h

-- What an error leaves of the running service: behind a rollback it was started on the binary `b`, and
-- the rollback met no error; otherwise it is as before.
abbrev pub Left : Binary → Files → Result → Files → Type 0
Left b f done g = Unit
Left b f (failed k) g = g.running ≡ f.running
Left b f (rolled_back k bad) g = (bad ≡ false) × (g.running ≡ some b.content)

module _ (host : Host) where
  restart_and_check-done :
      (c : Component) (backup : Option Binary) (f : Files)
      → (restart_and_check host c backup f).0 ≡ done
      → ((restart_and_check host c backup f).1.dest ≡ f.dest)
        × (has_service c ≡ true → (restart_and_check host c backup f).1.running ≡ content_of f.dest)
  unfolding restart_and_check
  restart_and_check-done c none f h = ground (arith, h)
  restart_and_check-done c (some b) f h = ground (arith, h)

  -- The calls of the rollback work.
  abbrev CanRollBack : Type 0
  CanRollBack =
      (host.fails copy_back ≡ false)
      × ((host.fails chmod_back ≡ false) × (host.fails restart_back ≡ false))

  rollback-content :
      (b : Binary) (f : Files)
      → CanRollBack
      → HasContent b.content (rollback host b f).1.dest
        × ((rollback host b f).1.running ≡ some b.content)
  unfolding rollback
  rollback-content b f (copies, (modes, starts)) =
      let same = copied-content host.updater b f.dest in
      elim (Bool-cases (host.fails stat_backup || host.fails own_back)) [
        | inl e ↦ rw (copies, modes, starts, e) (same, ap some same)
        | inr e ↦ rw (copies, modes, starts, e) (same, ap some same)
      ]

  rollback-fine : (b : Binary) (f : Files) → CanRollBack → (rollback host b f).0 ≡ false
  unfolding rollback
  rollback-fine b f (copies, (modes, starts)) = rw (copies, modes, starts) refl

  roll_back_if-Undone :
      (k : Cause) (b : Binary) (f g : Files)
      → CanRollBack
      → HasContent b.content (roll_back_if host k (some b) f).1.dest
        × Left b g (roll_back_if host k (some b) f).0 (roll_back_if host k (some b) f).1
  unfolding roll_back_if
  roll_back_if-Undone k b f g ok =
      let (content, runs) = rollback-content b f ok in (content, (rollback-fine b f ok, runs))

  restart_and_check_failed :
      (c : Component) (b : Binary) (f g : Files)
      → CanRollBack
      → (restart_and_check host c (some b) f).0 ≢ done
      → HasContent b.content (restart_and_check host c (some b) f).1.dest
        × Left b g (restart_and_check host c (some b) f).0 (restart_and_check host c (some b) f).1
  unfolding restart_and_check
  restart_and_check_failed c b f g ok h = elim (Bool-cases (has_service c)) [
    | inr e ↦ absurd (
        h (
          ap
            (λ x.
              (if not x
                then (done, record f { backup = none })
                else if host.fails restart
                then roll_back_if host not_restarted (some b) f
                else if host.fails check
                then roll_back_if host unhealthy (some b) (record f { running = content_of f.dest })
                else (done, record f { running = content_of f.dest; backup = none })).0)
            e))
    | inl e ↦ elim (Bool-cases (host.fails restart)) [
      | inl r ↦ rw (e, r) (roll_back_if-Undone not_restarted b f g ok)
      | inr r ↦ elim (Bool-cases (host.fails check)) [
        | inl k ↦
            rw (e, r, k)
              (roll_back_if-Undone unhealthy b (record f { running = content_of f.dest }) g ok)
        | inr k ↦ absurd (h (rw (restart_and_check, e, r, k) refl))
      ]
    ]
  ]

  abbrev candidate : List ℕ → ℕ → Binary
  candidate content owner = record { content = content; owner = owner; executable = true }

  replace_binary-done :
      (c : Component) (content : List ℕ) (old : Option Binary) (f : Files)
      → (replace_binary host c content old f).0 ≡ done
      → HasContent content (replace_binary host c content old f).1.dest
        × (has_service c ≡ true → (replace_binary host c content old f).1.running ≡ some content)
  unfolding replace_binary
  replace_binary-done c content old f h = elim (Bool-cases (host.fails chmod_tmp)) [
    | inl e1 ↦ absurd (cc (rw e1 at h))
    | inr e1 ↦ elim (Bool-cases (host.fails replace)) [
      | inl e2 ↦ absurd (cc (rw (e1, e2) at h))
      | inr e2 ↦ elim (Bool-cases (present old && not (host.fails stat_owner))) [
        | inl e3 ↦ elim (Bool-cases (host.fails restore_owner)) [
          | inl e4 ↦ absurd (cc (rw (e1, e2, e3, e4) at h))
          | inr e4 ↦
              rw (e1, e2, e3, e4)
                (ends
                  (record (kept old f) {
                    dest = some (candidate content (owner_or host.updater old));
                    tmp = none;
                  })
                  refl (rw (e1, e2, e3, e4) at h))
        ]
        | inr e3 ↦
            rw (e1, e2, e3)
              (ends
                (record (kept old f) { dest = some (candidate content host.updater); tmp = none })
                refl (rw (e1, e2, e3) at h))
      ]
    ]
  ]
    where
      kept : Option Binary → Files → Files
      kept o g = record g {
        backup = if present o then backup_of host.updater o g.backup else g.backup;
      }

      ends :
          (g : Files)
          → content_of g.dest ≡ some content
          → (restart_and_check host c (backup_of host.updater old f.backup) g).0 ≡ done
          → HasContent content
              (restart_and_check host c (backup_of host.updater old f.backup) g).1.dest
            × (has_service c ≡ true
                → (restart_and_check host c (backup_of host.updater old f.backup) g).1.running
                  ≡ some content)
      ends g is h' =
          let (dest, runs) = restart_and_check-done c (backup_of host.updater old f.backup) g h' in
          (
            subst (HasContent content) (sym dest) (content_of-HasContent g.dest is),
            λ s. runs s ∙ is,
          )

  download_candidate-some :
      (c : Component) (url : Text) (sha256 : String) (content : List ℕ)
      → download_candidate host c url sha256 ≡ some content
      → (host.hash host.served ≡ sha256) × (candidate_content host c url ≡ some content)
  unfolding download_candidate
  download_candidate-some c url sha256 content e =
      elim (Bool-cases (host.fails download || not (str_eq (host.hash host.served) sha256))) [
        | inl bad ↦ absurd (cc (rw bad at e))
        | inr fine ↦ (ground (arith, fine, eq_iff (host.hash host.served) sha256), rw fine at e)
      ]

  -- What an error leaves of the binary `b`, and of the running service.
  abbrev pub Undone : Binary → Files → Result × Files → Type 0
  Undone b f r = HasContent b.content r.1.dest × Left b f r.0 r.1

  Left-same :
      (saved b : Binary) (f : Files) (r : Result) (g : Files)
      → saved.content ≡ b.content
      → Left saved f r g
      → Left b f r g
  Left-same saved b f done g same l = tt
  Left-same saved b f (failed k) g same l = l
  Left-same saved b f (rolled_back k bad) g same (fine, runs) = (fine, runs ∙ ap some same)

  replace_binary_failed :
      (c : Component) (content : List ℕ) (b : Binary) (f : Files)
      → f.dest ≡ some b
      → CanRollBack
      → host.fails restore_owner ≡ false
      → (replace_binary host c content (some b) f).0 ≢ done
      → Undone b f (replace_binary host c content (some b) f)
  unfolding replace_binary
  replace_binary_failed c content b f is ok owner h = elim (Bool-cases (host.fails chmod_tmp)) [
    | inl e1 ↦ rw e1 (there, refl)
    | inr e1 ↦ elim (Bool-cases (host.fails replace)) [
      | inl e2 ↦ rw (e1, e2) (there, refl)
      | inr e2 ↦ elim (Bool-cases (host.fails stat_owner)) [
        | inl e3 ↦
            rw (e1, e2, e3)
              (ends
                (record f {
                  backup = some saved;
                  dest = some (candidate content host.updater);
                  tmp = none;
                })
                (λ e. h (rw (replace_binary, e1, e2, e3) e)))
        | inr e3 ↦
            rw (e1, e2, e3, owner)
              (ends
                (record f {
                  backup = some saved;
                  dest = some (candidate content b.owner);
                  tmp = none;
                })
                (λ e. h (rw (replace_binary, e1, e2, e3, owner) e)))
      ]
    ]
  ]
    where
      saved : Binary
      saved = copied host.updater b f.backup

      there : HasContent b.content f.dest
      there = content_of-HasContent f.dest (ap content_of is)

      ends :
          (g : Files)
          → (restart_and_check host c (some saved) g).0 ≢ done
          → Undone b f (restart_and_check host c (some saved) g)
      ends g h' =
          let same = copied-content host.updater b f.backup in
          let r = restart_and_check host c (some saved) g in
          let (dest, left) = restart_and_check_failed c saved g f ok h' in
          (subst (λ x. HasContent x r.1.dest) same dest, Left-same saved b f r.0 r.1 same left)

-- An update that reports success was of a download with the expected hash, has put in place what was
-- served, or the member of it where it is an archive of sing-box, has restarted the component's
-- service, where it has one, on that file, and has removed the candidate.
pub apply_done :
    (host : Host) (c : Component) (url : Text) (sha256 : String) (f : Files)
    → (apply host c url sha256 f).0 ≡ done
    → let g = (apply host c url sha256 f).1 in
      (content : List ℕ) × ((host.hash host.served ≡ sha256)
        × ((candidate_content host c url ≡ some content)
            × (HasContent content g.dest
                × ((has_service c ≡ true → g.running ≡ some content) × (g.tmp ≡ none)))))
unfolding apply
apply_done host c url sha256 f h = elim (Bool-cases (str_eq sha256 "")) [
  | inl e1 ↦ absurd (cc (rw e1 at h))
  | inr e1 ↦ elim (Bool-cases host.may_update) [
    | inr e2 ↦ absurd (cc (rw (e1, e2) at h))
    | inl e2 ↦ elim (Option-cases (download_candidate host c url sha256)) [
      | inl e3 ↦ absurd (cc (rw (e1, e2, e3) at h))
      | inr (content, e3) ↦ elim (Bool-cases (present f.dest && host.fails copy_backup)) [
        | inl e4 ↦ absurd (cc (rw (e1, e2, e3, e4) at h))
        | inr e4 ↦
            let (hashed, holds) = download_candidate-some host c url sha256 content e3 in
            let (dest, runs) =
              replace_binary-done host c content f.dest f (rw (e1, e2, e3, e4) at h) in
            rw (e1, e2, e3, e4) (content, (hashed, (holds, (dest, (runs, refl)))))
      ]
    ]
  ]
]

-- Where the owner can be restored and the calls of the rollback work, an error of an update leaves the
-- content of the binary that was there as it was. Behind a rollback, which then reports no error, the
-- service has been started on that content; with any other error the service is as before.
pub apply_failed :
    (host : Host) (c : Component) (url : Text) (sha256 : String) (f : Files) (old : Binary)
    → f.dest ≡ some old
    → (apply host c url sha256 f).0 ≢ done
    → host.fails restore_owner ≡ false
    → host.fails copy_back ≡ false
    → host.fails chmod_back ≡ false
    → host.fails restart_back ≡ false
    → let (r, g) = apply host c url sha256 f in HasContent old.content g.dest × Left old f r g
unfolding apply
apply_failed host c url sha256 f old is h owner back mode again =
    elim (Bool-cases (str_eq sha256 "")) [
      | inl e1 ↦ rw e1 (there, refl)
      | inr e1 ↦ elim (Bool-cases host.may_update) [
        | inr e2 ↦ rw (e1, e2) (there, refl)
        | inl e2 ↦ elim (Option-cases (download_candidate host c url sha256)) [
          | inl e3 ↦ rw (e1, e2, e3) (there, refl)
          | inr (content, e3) ↦ elim (Bool-cases (present f.dest && host.fails copy_backup)) [
            | inl e4 ↦ rw (e1, e2, e3, e4) (there, refl)
            | inr e4 ↦
                let (dest, left) =
                  behind content f.dest is (λ e. h (rw (apply, e1, e2, e3, e4) e)) in
                rw (e1, e2, e3, e4)
                  (
                    dest,
                    removed (replace_binary host c content f.dest f).0
                        (replace_binary host c content f.dest f).1 left,
                  )
          ]
        ]
      ]
    ]
  where
    there : HasContent old.content f.dest
    there = content_of-HasContent f.dest (ap content_of is)

    removed : (r : Result) (g : Files) → Left old f r g → Left old f r (record g { tmp = none })
    removed done g l = tt
    removed (failed k) g l = l
    removed (rolled_back k bad) g l = l

    behind :
        (content : List ℕ) (o : Option Binary)
        → o ≡ some old
        → (replace_binary host c content o f).0 ≢ done
        → Undone host old f (replace_binary host c content o f)
    behind content o same h' =
        subst (λ x. Undone host old f (replace_binary host c content x f)) (sym same)
          (replace_binary_failed host c content old f is (back, (mode, again)) owner
            (subst (λ x. (replace_binary host c content x f).0 ≢ done) same h'))
