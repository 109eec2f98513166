-- ===== src/Panel/Apply.antt =====
-- `applyTeleproxyConfig` of internal/panel/user_actions.go: users.json, teleproxy.toml and the
-- configuration that the running Teleproxy has read. A file is what it says, `none` where it is not
-- readable. The settings of the configuration, all but its users, are a parameter.
pub mod Laws
use mtproxy_orchestrator.Base.{
  Bool, true, false, not, ◌&&◌, Option, none, some, List, [], ◌∷◌, map, filter, ◌≡◌, ◌⊎◌,
}
use mtproxy_orchestrator.Schema.{UserRow, Db}
use mtproxy_orchestrator.Quota.Service.{list_users}
use mtproxy_orchestrator.Bridge.Host.{UserEntry, TeleproxyConfig}

pub record Panel : Type 0 where
  pub db : Db
  pub users_json : Option (List UserEntry)
  pub teleproxy_toml : Option TeleproxyConfig
  pub loaded : TeleproxyConfig

-- How far a call comes: `List`, the two writes, with what a failing one leaves in its file, and the
-- reload of the service fail, or all is well. What the running Teleproxy makes of the reload is up to
-- systemd and Teleproxy: a failing one leaves it with any configuration, and one that succeeds with the
-- users and `ja4_log` of the file, and the other settings that it had or the file has.
pub data Course : Type 0 where
  list_failed : Course
  users_json_failed : Option (List UserEntry) → Course
  teleproxy_toml_failed : Option TeleproxyConfig → Course
  reload_failed : TeleproxyConfig → Course
  applied : TeleproxyConfig → Course

-- `if u.Enabled && u.DeletedAt == nil && !u.QuotaSuspended`
abbrev pub is_served : UserRow → Bool
is_served u = u.enabled && (not u.deleted && not u.quota_suspended)

abbrev pub entry : UserRow → UserEntry
entry u = record { label = u.label; secret = u.secret_hex }

unfoldable pub entries : Db → List UserEntry
entries db = map entry (filter is_served (list_users db))

-- The users that `handleBridgeEnable`, `enableBridgeModeWithNode` and `disableBridgeMode` of
-- internal/panel/bridge.go write into teleproxy.toml.
unfoldable pub bridge_entries : Db → List UserEntry
bridge_entries db = map entry (filter (λ u. u.enabled && not u.deleted) (list_users db))

module _ (settings : TeleproxyConfig) where
  abbrev pub rendered : Db → TeleproxyConfig
  rendered db = record settings { users = entries db }

  -- The result is true for an error.
  unfoldable pub apply_teleproxy_config : Course → Panel → Panel × Bool
  apply_teleproxy_config list_failed p = (p, true)
  apply_teleproxy_config (users_json_failed torn) p = (record p { users_json = torn }, true)
  apply_teleproxy_config (teleproxy_toml_failed torn) p =
      (record p { users_json = some (entries p.db); teleproxy_toml = torn }, true)
  apply_teleproxy_config (reload_failed after) p = (
    record p {
      users_json = some (entries p.db);
      teleproxy_toml = some (rendered p.db);
      loaded = after;
    },
    true,
  )
  apply_teleproxy_config (applied kept) p = (
    record p {
      users_json = some (entries p.db);
      teleproxy_toml = some (rendered p.db);
      loaded = record kept { users = entries p.db; ja4_log = settings.ja4_log };
    },
    false,
  )

abbrev pub fails : Course → Bool
fails (applied kept) = false
fails _ = true

-- The users.json, the teleproxy.toml and the running Teleproxy have the users of the tables.
pub record IsInStep (settings : TeleproxyConfig) (p : Panel) : Type 0 where
  pub json : p.users_json ≡ some (entries p.db)
  pub toml : p.teleproxy_toml ≡ some (rendered settings p.db)
  pub served : p.loaded.users ≡ entries p.db

-- The running Teleproxy is as before, or the reload has failed and left it as it may.
abbrev pub IsLeft : Course → Panel → Panel → Type 0
IsLeft c p q =
    (q.loaded ≡ p.loaded)
    ⊎ ((after : TeleproxyConfig) × ((c ≡ reload_failed after) × (q.loaded ≡ after)))
