-- ===== src/Update/Apply.antt =====
-- internal/update/apply.go: `Apply` with its rollback, and the polling of `Check`. The files are the
-- binary, its backup and the candidate beside them; each call that can fail has a name, and stands once
-- in a run. `hash` is the SHA256 that the downloader verifies before it leaves a file: of the file that
-- the server sends, an archive too, whose member `sing-box` is then the candidate.
pub mod Safety
pub mod Polling
use mtproxy_orchestrator.Update.Assets.{Component, cli, singbox}
use mtproxy_orchestrator.Update.Text.{Text, codes, has_suffix, to_lower}
use mtproxy_orchestrator.Base.{
  ℕ, zero, suc, ◌+◌, String, Bool, true, false, not, ◌&&◌, ◌||◌, Option, none, some, List, [], ◌∷◌,
  str_eq, ltb, leb, if◌then◌else◌,
}

-- Whether `componentService` names a unit.
unfoldable pub has_service : Component → Bool
has_service cli = false
has_service _ = true

pub record Binary : Type 0 where
  pub content : List ℕ
  pub owner : ℕ
  pub executable : Bool

-- `running` is the content that the unit was last started with.
pub record Files : Type 0 where
  pub dest : Option Binary
  pub backup : Option Binary
  pub tmp : Option Binary
  pub running : Option (List ℕ)

pub data Call : Type 0 where
  download copy_backup stat_owner chmod_tmp replace restore_owner restart check : Call
  copy_back chmod_back stat_backup own_back restart_back : Call

-- What a run meets: the calls that fail, the served file and its hash, the member of an archive, where
-- the downloader extracts archives and there is one, what a copy that breaks off leaves, and the user
-- that the updater runs as.
pub record Host : Type 0 where
  pub fails : Call → Bool
  pub served : List ℕ
  pub hash : List ℕ → String
  pub member : Option (List ℕ → Option (List ℕ))
  pub torn : Option Binary
  pub updater : ℕ
  pub may_update : Bool

pub data Cause : Type 0 where
  no_hash not_allowed not_downloaded not_backed_up not_executable not_replaced : Cause
  owner_not_restored not_restarted unhealthy : Cause

-- `done`, or an error; behind a rollback with whether that failed.
pub data Result : Type 0 where
  done : Result
  failed : Cause → Result
  rolled_back : Cause → Bool → Result

-- `Copy` into a file: a new one belongs to the updater, an old one keeps its owner and mode.
abbrev pub copied : ℕ → Binary → Option Binary → Binary
copied updater b none = record { content = b.content; owner = updater; executable = true }
copied updater b (some old) = record old { content = b.content }

abbrev pub present : Option Binary → Bool
present none = false
present (some b) = true

-- The backup of a binary, over one that was left; `none` where there was no binary.
abbrev pub backup_of : ℕ → Option Binary → Option Binary → Option Binary
backup_of updater none left = none
backup_of updater (some b) left = some (copied updater b left)

abbrev pub content_of : Option Binary → Option (List ℕ)
content_of none = none
content_of (some b) = some b.content

abbrev pub owned : ℕ → Option Binary → Option Binary
owned uid none = none
owned uid (some b) = some (record b { owner = uid })

abbrev made_executable : Option Binary → Option Binary
made_executable none = none
made_executable (some b) = some (record b { executable = true })

abbrev pub owner_or : ℕ → Option Binary → ℕ
owner_or uid none = uid
owner_or uid (some b) = b.owner

abbrev is_singbox : Component → Bool
is_singbox singbox = true
is_singbox _ = false

-- `info.Component == ComponentSingbox` and the URL ends in ".tar.gz".
unfoldable pub is_archive : Component → Text → Bool
is_archive c url = is_singbox c && has_suffix (codes ".tar.gz") (to_lower url)

module _ (host : Host) where
  -- `rollback`: true for an error. `backup` is what the backup holds.
  unfoldable pub rollback : Binary → Files → Bool × Files
  rollback backup f =
      let back : Files = record f { dest = some (copied host.updater backup f.dest) } in
      let runnable : Files = record back { dest = made_executable back.dest } in
      let owned_back =
        if host.fails stat_backup || host.fails own_back
        then runnable
        else record runnable { dest = owned backup.owner runnable.dest } in
      if host.fails copy_back
      then (true, record f { dest = host.torn })
      else if host.fails chmod_back
      then (true, back)
      else if host.fails restart_back
      then (true, owned_back)
      else (false, record owned_back { running = content_of owned_back.dest })

  unfoldable pub roll_back_if : Cause → Option Binary → Files → Result × Files
  unfolding rollback
  roll_back_if cause none f = (failed cause, f)
  roll_back_if cause (some backup) f =
      let (bad, g) = rollback backup f in (rolled_back cause bad, g)

  -- Steps 5 and 6, and the removal of the backup.
  unfoldable pub restart_and_check : Component → Option Binary → Files → Result × Files
  unfolding roll_back_if
  restart_and_check c backup f =
      let started : Files = record f { running = content_of f.dest } in
      let without_backup =
        λ (g : Files). record g { backup = if present backup then none else g.backup } in
      if not (has_service c)
      then (done, without_backup f)
      else if host.fails restart
      then roll_back_if not_restarted backup f
      else if host.fails check
      then roll_back_if unhealthy backup started
      else (done, without_backup started)

  -- Steps 3 and 4. `old` is the binary that was backed up, `content` what the candidate holds.
  unfoldable pub replace_binary : Component → List ℕ → Option Binary → Files → Result × Files
  unfolding restart_and_check
  replace_binary c content old f =
      let backup = backup_of host.updater old f.backup in
      let kept : Files = record f { backup = if present old then backup else f.backup } in
      let candidate : Binary = record {
        content = content;
        owner = host.updater;
        executable = true;
      } in
      let replaced : Files = record kept { dest = some candidate; tmp = none } in
      let mine : Files = record replaced {
        dest = owned (owner_or host.updater old) replaced.dest;
      } in
      if host.fails chmod_tmp
      then (failed not_executable, kept)
      else if host.fails replace
      then (failed not_replaced, kept)
      else if present old && not (host.fails stat_owner)
      then (if host.fails restore_owner
          then (failed owner_not_restored, replaced)
          else restart_and_check c backup mine)
      else restart_and_check c backup replaced

  -- What the candidate holds, when the download's hash is right.
  unfoldable pub candidate_content : Component → Text → Option (List ℕ)
  unfolding is_archive
  candidate_content c url =
      if is_archive c url
      then elim host.member [ none ↦ none | some extract ↦ extract host.served ]
      else some host.served

  -- `downloadCandidate`: what is left at the candidate's path, `none` for an error.
  unfoldable pub download_candidate : Component → Text → String → Option (List ℕ)
  unfolding candidate_content
  download_candidate c url sha256 =
      if host.fails download || not (str_eq (host.hash host.served) sha256)
      then none
      else candidate_content c url

  -- `Apply`. The deferred removal of the candidate leaves `tmp` empty on every way out.
  unfoldable pub apply : Component → Text → String → Files → Result × Files
  unfolding replace_binary download_candidate
  apply c url sha256 f =
      if str_eq sha256 ""
      then (failed no_hash, f)
      else if not host.may_update
      then (failed not_allowed, f)
      else elim (download_candidate c url sha256) [
        | none ↦ (failed not_downloaded, record f { tmp = none })
        | some content ↦
            if present f.dest && host.fails copy_backup
            then (failed not_backed_up, record f { backup = host.torn; tmp = none })
            else let (r, g) = replace_binary c content f.dest f in (r, record g { tmp = none })
      ]
