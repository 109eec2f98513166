-- ===== src/Reconcile/Sync.antt =====
-- The single writes of internal/reconcile/reconcile.go: `writeFile` with the comparison in front of
-- it, `writeFileIfChanged`, `ensureNginxSiteEnabled`, the patch of nginx.conf, the removal of the
-- default site, and `MigrateStubIfLegacy` of internal/stub/embed.go.
use mtproxy_orchestrator.Base.{
  ℕ, Bool, true, false, not, ◌||◌, Option, none, some, List, [], ◌∷◌, ◌==◌, if◌then◌else◌,
}
use mtproxy_orchestrator.Update.Text.{Text, text_eq}
use mtproxy_orchestrator.Nginx.MainConf.{patch_main_conf}
use mtproxy_orchestrator.Reconcile.Files.{
  Act, Call, reading, comparing, writing, removing, World, put, ◌>>=◌, pure, read, write_file,
  FileName, nginx_conf, stub_index, default_link,
}

-- The embedded pages, and what a write of the page that fails leaves.
pub record Stubs : Type 0 where
  pub legacy_stub_html : Text
  pub default_stub_html : Text
  pub torn : Option Text

-- `always` writes in any case, `linked` makes a link unless it is there, `made` makes a directory.
pub data Item : Type 0 where
  always if_changed : FileName → Text → Item
  linked made : FileName → Item
  main_conf migrate no_default : Item

abbrev pub or_empty : Option Text → Text
or_empty none = []
or_empty (some s) = s

abbrev put_unless_end : ℕ → Text → Text
put_unless_end c [] = if c == 13 || c == 10 then [] else c ∷ []
put_unless_end c (d ∷ s) = c ∷ d ∷ s

-- `bytes.TrimRight(s, "\r\n")`
abbrev pub trim_line_ends : Text → Text
trim_line_ends [] = []
trim_line_ends (c ∷ s) = put_unless_end c (trim_line_ends s)

unfoldable pub is_legacy : Stubs → Text → Bool
is_legacy stubs s = text_eq (trim_line_ends s) (trim_line_ends stubs.legacy_stub_html)

abbrev pub flagged : Bool → Option (Unit {0}) × World → Option Bool × World
flagged changed (none, w) = (none, w)
flagged changed (some done, w) = (some changed, w)

module _ (fails : Call → Bool) (stubs : Stubs) where
  -- Whether the old content, empty where it cannot be read, differs from the new.
  unfoldable pub differs : FileName → Text → World → Bool
  differs name content w =
      not (text_eq (or_empty (if fails (comparing name) then none else w.files name)) content)

  unfoldable pub write_always : FileName → Text → Act Bool
  unfolding differs write_file
  write_always name content w = flagged (differs name content w) (write_file fails name content w)

  unfoldable pub write_file_if_changed : FileName → Text → Act Bool
  unfolding differs write_file
  write_file_if_changed name content w =
      let written = flagged true (write_file fails name content w) in
      if differs name content w then written else (some false, w)

  unfoldable pub patch_conf : Option Text → Act Bool
  unfolding write_file_if_changed
  patch_conf none w = (some false, w)
  patch_conf (some s) w = write_file_if_changed nginx_conf (patch_main_conf s) w

  -- `ensureNginxSiteEnabled`
  unfoldable pub make_link : FileName → Option Text → Act Bool
  unfolding write_file
  make_link name none w = flagged true (write_file fails name [] w)
  make_link name (some s) w = (some false, w)

  unfoldable pub migrate_stub : Option Text → Act Bool
  unfolding is_legacy
  migrate_stub none w = (some false, w)
  migrate_stub (some s) w =
      if fails (reading stub_index)
      then (none, w)
      else if not (is_legacy stubs s)
      then (some false, w)
      else if fails (writing stub_index)
      then (none, record w { files = put stub_index stubs.torn w.files })
      else (some true, record w { files = put stub_index (some stubs.default_stub_html) w.files })

  unfoldable pub remove_default : Option Text → Act Bool
  remove_default none w = (some false, w)
  remove_default (some s) w =
      if fails (removing default_link)
      then (some false, w)
      else (some true, record w { files = put default_link none w.files })

  -- Whether the item changed a file that calls for a restart.
  unfoldable pub sync : Item → Act Bool
  unfolding write_always write_file_if_changed make_link patch_conf migrate_stub remove_default read
  sync (always name content) w = write_always name content w
  sync (if_changed name content) w = write_file_if_changed name content w
  sync (linked name) w = make_link name (w.files name) w
  sync (made name) w = flagged false (write_file fails name [] w)
  sync main_conf w = patch_conf (read fails nginx_conf w) w
  sync migrate w = migrate_stub (w.files stub_index) w
  sync no_default w = remove_default (w.files default_link) w

  unfoldable pub sync_all : List Item → Act Bool
  unfolding sync
  sync_all [] = pure false
  sync_all (i ∷ is) = do changed ← sync i; rest ← sync_all is; pure (changed || rest)
