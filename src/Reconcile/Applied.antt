-- ===== src/Reconcile/Applied.antt =====
-- What the single writes of internal/reconcile/reconcile.go achieve, and what they leave alone.
use mathlib.Core.Path.{fun_ext}
use mtproxy_orchestrator.Base.{
  ℕ, Bool, true, false, Option, none, some, [], ◌∷◌, ◌==◌, if◌then◌else◌, ◌≡◌, ◌≢◌, refl, sym, ap,
  ◌∙◌, inl, inr, arith, subst, Bool-cases, Option-cases,
}
use mtproxy_orchestrator.Update.Text.{Text, text_eq}
use mtproxy_orchestrator.Nginx.MainConf.{patch_main_conf}
use mtproxy_orchestrator.Nginx.MainConf.Stable.{patch_main_conf_idempotent}
use mtproxy_orchestrator.Reconcile.Files.{
  Call, reading, comparing, writing, removing, World, put, read, write_file, FileName, nginx_conf,
  stub_index, default_link, file_index, teleproxy_toml, teleproxy_service, panel_service,
  singbox_service, users_json, acme_webroot, acme_snippet, stub_site, stub_link, tls_site, tls_link,
  panel_site, panel_link,
}
use mtproxy_orchestrator.Reconcile.Sync.{
  Stubs, Item, always, if_changed, linked, made, main_conf, migrate, no_default, or_empty,
  is_legacy, differs, write_always, write_file_if_changed, patch_conf, make_link, migrate_stub,
  remove_default, sync,
}

text_eq_refl : (s : Text) → text_eq s s ≡ true
text_eq_refl [] = refl
text_eq_refl (c ∷ s) = ground (arith, text_eq_refl s)

text_eq→≡ : (s t : Text) → text_eq s t ≡ true → s ≡ t
text_eq→≡ [] [] h = refl
text_eq→≡ [] (d ∷ t) h = cc
text_eq→≡ (c ∷ s) [] h = cc
text_eq→≡ (c ∷ s) (d ∷ t) h = ground (arith, h, text_eq→≡ s t)

-- The file that an item is about.
abbrev pub target : Item → FileName
target (always name content) = name
target (if_changed name content) = name
target (linked name) = name
target (made name) = name
target main_conf = nginx_conf
target migrate = stub_index
target no_default = default_link

abbrev IsPatched : Option Text → Type 0
IsPatched none = Unit
IsPatched (some s) = patch_main_conf s ≡ s

abbrev IsMigrated : Stubs → Option Text → Type 0
IsMigrated stubs none = Unit
IsMigrated stubs (some s) = is_legacy stubs s ≡ false

-- What an item makes of its file.
abbrev pub Holds : Stubs → Item → Option Text → Type 0
Holds stubs (always name content) f = f ≡ some content
Holds stubs (if_changed name content) f = or_empty f ≡ content
Holds stubs (linked name) f = f ≢ none
Holds stubs (made name) f = f ≡ some []
Holds stubs main_conf f = IsPatched f
Holds stubs migrate f = IsMigrated stubs f
Holds stubs no_default f = f ≡ none

-- Files can be read, and the default site can be removed.
pub record IsReadable (fails : Call → Bool) : Type 0 where
  pub reads : (name : FileName) → fails (reading name) ≡ false
  pub compares : (name : FileName) → fails (comparing name) ≡ false
  pub removes : fails (removing default_link) ≡ false

abbrev file_at : ℕ → FileName
file_at n =
    if n == 0
    then teleproxy_toml
    else if n == 1
    then teleproxy_service
    else if n == 2
    then panel_service
    else if n == 3
    then singbox_service
    else if n == 4
    then users_json
    else if n == 5
    then nginx_conf
    else if n == 6
    then acme_webroot
    else if n == 7
    then acme_snippet
    else if n == 8
    then stub_site
    else if n == 9
    then stub_link
    else if n == 10
    then tls_site
    else if n == 11
    then tls_link
    else if n == 12
    then panel_site
    else if n == 13
    then panel_link
    else if n == 14
    then stub_index
    else default_link

file_at-file_index : (q : FileName) → file_at (file_index q) ≡ q
file_at-file_index teleproxy_toml = refl
file_at-file_index teleproxy_service = refl
file_at-file_index panel_service = refl
file_at-file_index singbox_service = refl
file_at-file_index users_json = refl
file_at-file_index nginx_conf = refl
file_at-file_index acme_webroot = refl
file_at-file_index acme_snippet = refl
file_at-file_index stub_site = refl
file_at-file_index stub_link = refl
file_at-file_index tls_site = refl
file_at-file_index tls_link = refl
file_at-file_index panel_site = refl
file_at-file_index panel_link = refl
file_at-file_index stub_index = refl
file_at-file_index default_link = refl

-- Writing the content that a file has changes nothing.
put_same :
    (name : FileName) (content : Text) (w : World)
    → w.files name ≡ some content
    → record w { files = put name (some content) w.files } ≡ w
put_same name content w h = λ i. record w { files = fun_ext at i }
  where
    at : (q : FileName) → put name (some content) w.files q ≡ w.files q
    at q = elim (Bool-cases (file_index q == file_index name)) [
      | inl e ↦
          let index : file_index q ≡ file_index name = ground (arith, e) in
          let same = sym (file_at-file_index q) ∙ ap file_at index ∙ file_at-file_index name in
          rw e (sym h ∙ ap w.files (sym same))
      | inr e ↦ rw e refl
    ]

module _ (fails : Call → Bool) (stubs : Stubs) where
  -- An item runs no command.
  pub sync-commands : (i : Item) (w : World) → (sync fails stubs i w).1.commands ≡ w.commands
  unfolding sync write_always write_file_if_changed make_link patch_conf migrate_stub remove_default
      write_file read
  sync-commands (always name content) w = ground arith
  sync-commands (if_changed name content) w = ground arith
  sync-commands (linked name) w = ground arith
  sync-commands (made name) w = ground arith
  sync-commands main_conf w = ground arith
  sync-commands migrate w = ground arith
  sync-commands no_default w = ground arith

  -- An item changes no other file.
  pub sync-others :
      (i : Item) (q : FileName) (w : World)
      → (file_index q == file_index (target i)) ≡ false
      → (sync fails stubs i w).1.files q ≡ w.files q
  unfolding sync write_always write_file_if_changed make_link patch_conf migrate_stub remove_default
      write_file read
  sync-others (always name content) q w h = ground (arith, h)
  sync-others (if_changed name content) q w h = ground (arith, h)
  sync-others (linked name) q w h = ground (arith, h)
  sync-others (made name) q w h = ground (arith, h)
  sync-others main_conf q w h = ground (arith, h)
  sync-others migrate q w h = ground (arith, h)
  sync-others no_default q w h = ground (arith, h)

  write_file_if_changed-content :
      (name : FileName) (content : Text) (w : World) {changed : Bool}
      → fails (comparing name) ≡ false
      → (write_file_if_changed fails stubs name content w).0 ≡ some changed
      → or_empty ((write_file_if_changed fails stubs name content w).1.files name) ≡ content
  unfolding write_file_if_changed write_file differs
  write_file_if_changed-content name content w ok h =
      ground (arith, h, ok, text_eq→≡ (or_empty (w.files name)) content)

  write_file_if_changed_again :
      (name : FileName) (content : Text) (w : World)
      → fails (comparing name) ≡ false
      → or_empty (w.files name) ≡ content
      → write_file_if_changed fails stubs name content w ≡ (some false, w)
  unfolding write_file_if_changed write_file differs
  write_file_if_changed_again name content w ok h = ground (arith, h, ok, text_eq_refl content)

  pub read_file :
      (name : FileName) (w : World) → IsReadable fails → read fails name w ≡ w.files name
  unfolding read
  read_file name w ok = ground (arith, ok.reads name)

  IsPatched-or_empty : (s : Text) (f : Option Text) → or_empty f ≡ patch_main_conf s → IsPatched f
  IsPatched-or_empty s none h = tt
  IsPatched-or_empty s (some x) h =
      subst (λ y. patch_main_conf y ≡ y) (sym h) (patch_main_conf_idempotent s)

  patch_conf-IsPatched :
      (o : Option Text) (w : World) {changed : Bool}
      → fails (comparing nginx_conf) ≡ false
      → w.files nginx_conf ≡ o
      → (patch_conf fails stubs o w).0 ≡ some changed
      → IsPatched ((patch_conf fails stubs o w).1.files nginx_conf)
  unfolding patch_conf
  patch_conf-IsPatched none w ok e h = subst (λ o. IsPatched o) (sym e) tt
  patch_conf-IsPatched (some s) w ok e h =
      IsPatched-or_empty s
        ((write_file_if_changed fails stubs nginx_conf (patch_main_conf s) w).1.files nginx_conf)
        (write_file_if_changed-content nginx_conf (patch_main_conf s) w ok h)

  -- An item that succeeds has done what it is for.
  pub sync-Holds :
      (i : Item) (w : World) {changed : Bool}
      → IsReadable fails
      → is_legacy stubs stubs.default_stub_html ≡ false
      → (sync fails stubs i w).0 ≡ some changed
      → Holds stubs i ((sync fails stubs i w).1.files (target i))
  unfolding sync write_always write_file_if_changed make_link patch_conf migrate_stub remove_default
      write_file read differs
  sync-Holds (always name content) w ok new h = ground (arith, h)
  sync-Holds (if_changed name content) w ok new h =
      write_file_if_changed-content name content w (ok.compares name) h
  sync-Holds (linked name) w ok new h = ground (arith, h)
  sync-Holds (made name) w ok new h = ground (arith, h)
  sync-Holds main_conf w ok new h =
      patch_conf-IsPatched (read fails nginx_conf w) w (ok.compares nginx_conf)
        (sym (read_file nginx_conf w ok)) h
  sync-Holds migrate w ok new h = ground (arith, h, new)
  sync-Holds no_default w ok new h = ground (arith, h, ok.removes)

  -- An item whose file is as it should be changes nothing, where no write fails.
  pub sync_again :
      (i : Item) (w : World)
      → IsReadable fails
      → ((name : FileName) → fails (writing name) ≡ false)
      → Holds stubs i (w.files (target i))
      → sync fails stubs i w ≡ (some false, w)
  unfolding sync write_always write_file_if_changed make_link patch_conf migrate_stub remove_default
      write_file read differs
  sync_again (always name content) w ok writes h =
      ground
        (arith, h, ok.compares name, writes name, text_eq_refl content, put_same name content w h)
  sync_again (if_changed name content) w ok writes h =
      write_file_if_changed_again name content w (ok.compares name) h
  sync_again (linked name) w ok writes h = ground (arith, h)
  sync_again (made name) w ok writes h = ground (arith, h, writes name, put_same name [] w h)
  sync_again main_conf w ok writes h = elim (Option-cases (w.files nginx_conf)) [
    | inl e ↦ ap (λ o. patch_conf fails stubs o w) (read_file nginx_conf w ok ∙ e)
    | inr (s, e) ↦
        let settled : patch_main_conf s ≡ s = subst (λ o. IsPatched o) e h in
        ap (λ o. patch_conf fails stubs o w) (read_file nginx_conf w ok ∙ e)
        ∙ write_file_if_changed_again nginx_conf (patch_main_conf s) w (ok.compares nginx_conf)
            (ap or_empty e ∙ sym settled)
  ]
  sync_again migrate w ok writes h = ground (arith, h, ok.reads stub_index)
  sync_again no_default w ok writes h = ground (arith, h)
