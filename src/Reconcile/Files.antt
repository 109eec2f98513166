-- ===== src/Reconcile/Files.antt =====
-- The files and commands that internal/reconcile/reconcile.go works with, and the calls that can fail.
use mtproxy_orchestrator.Base.{
  ℕ, Bool, Option, none, some, List, [], ◌∷◌, ◌++◌, ◌==◌, if◌then◌else◌,
}
use mtproxy_orchestrator.Update.Text.{Text}

pub data FileName : Type 0 where
  teleproxy_toml teleproxy_service panel_service singbox_service users_json nginx_conf : FileName
  acme_webroot acme_snippet stub_site stub_link tls_site tls_link panel_site : FileName
  panel_link stub_index default_link : FileName

abbrev pub file_index : FileName → ℕ
file_index teleproxy_toml = 0
file_index teleproxy_service = 1
file_index panel_service = 2
file_index singbox_service = 3
file_index users_json = 4
file_index nginx_conf = 5
file_index acme_webroot = 6
file_index acme_snippet = 7
file_index stub_site = 8
file_index stub_link = 9
file_index tls_site = 10
file_index tls_link = 11
file_index panel_site = 12
file_index panel_link = 13
file_index stub_index = 14
file_index default_link = 15

pub data Command : Type 0 where
  daemon_reload restart_teleproxy restart_panel check_nginx restart_nginx : Command

-- `reading` is a read whose result is used, `comparing` the read of the old content.
pub data Call : Type 0 where
  reading comparing writing removing : FileName → Call
  running : Command → Call

-- `commands` are those that were run, the failed ones too.
pub record World : Type 0 where
  pub files : FileName → Option Text
  pub commands : List Command

abbrev pub put : FileName → Option Text → (FileName → Option Text) → FileName → Option Text
put name f files q = if file_index q == file_index name then f else files q

-- `none` for an error.
abbrev pub Act : Type 0 → Type 0
Act A = World → Option A × World

abbrev pub pure : {A : Type 0} → A → Act A
pure a w = (some a, w)

abbrev pub stop : {A : Type 0} → Act A
stop w = (none, w)

-- What follows a result.
abbrev pub bind_at : {A B : Type 0} → Option A → (A → Act B) → Act B
bind_at none f w = (none, w)
bind_at (some a) f w = f a w

infixl 5 ◌>>=◌ ◌>>◌
abbrev pub ◌>>=◌ : {A B : Type 0} → Act A → (A → Act B) → Act B
◌>>=◌ m f w = bind_at (m w).0 f (m w).1

abbrev pub ◌>>◌ : {A B : Type 0} → Act A → Act B → Act B
m >> k = m >>= λ _. k

module _ (fails : Call → Bool) where
  unfoldable pub read : FileName → World → Option Text
  read name w = if fails (reading name) then none else w.files name

  -- `writeFile` goes through a temporary file, and leaves the file as it was when it fails.
  unfoldable pub write_file : FileName → Text → Act (Unit {0})
  write_file name content w =
      if fails (writing name)
      then (none, w)
      else (some tt, record w { files = put name (some content) w.files })

  unfoldable pub command : Command → Act (Unit {0})
  command c w =
      (if fails (running c) then none else some tt, record w { commands = w.commands ++ c ∷ [] })
