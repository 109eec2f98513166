-- ===== src/Bridge/Host.antt =====
-- The machine that internal/bridge/service.go works on through its `Executor` and package os, and the
-- file helpers of service.go (snapshots and restores) and model.go (`Load`, `Save`).
-- `Env` is everything outside: call number `n` fails when `fails n`; a failing write leaves `torn n`
-- in the file; `crashes n u` is true when unit `u` died between call `n` and the call before.
use mtproxy_orchestrator.Base.{
  ℕ, ◌+◌, String, Bool, true, false, ◌&&◌, not, Option, none, some, List, [], ◌∷◌, ◌++◌, ◌==◌,
  if◌then◌else◌,
}
use mtproxy_orchestrator.Base.Int.{pos}
use mtproxy_orchestrator.Bridge.Node.{NodeList}
use mtproxy_orchestrator.Bridge.Rotation.{SingboxConfig}

-- The files, with the temporary ones beside them: outbounds.json, outbounds.json.tmp,
-- outbounds.json.rollback, sing-box.json, sing-box.json.rollback, sing-box.service, the sing-box
-- binary and teleproxy.toml.
pub data FileName : Type 0 where
  node_file node_tmp node_rollback singbox_json singbox_json_rollback : FileName
  singbox_unit singbox_bin teleproxy_toml : FileName

unfoldable pub file_index : FileName → ℕ
file_index node_file = 0
file_index node_tmp = 1
file_index node_rollback = 2
file_index singbox_json = 3
file_index singbox_json_rollback = 4
file_index singbox_unit = 5
file_index singbox_bin = 6
file_index teleproxy_toml = 7

pub data UnitName : Type 0 where
  singbox teleproxy : UnitName

unfoldable pub same_unit : UnitName → UnitName → Bool
same_unit singbox singbox = true
same_unit teleproxy teleproxy = true
same_unit _ _ = false

abbrev pub Bytes : Type 0
Bytes = List ℕ

-- `nodeFileSnapshot` and `fileSnapshot` are an `Option File`: `none` for `existed: false`.
pub record File : Type 0 where
  pub content : Bytes
  pub mode : ℕ

pub record UserEntry : Type 0 where
  pub label : String
  pub secret : String

pub record TeleproxyConfig : Type 0 where
  pub port : ℕ
  pub mask_host : String
  pub tls_backend : String
  pub wildcard_mask : String
  pub stats_port : ℕ
  pub socks5_addr : String
  pub mss_clamp : Bool
  pub ja4_log : Bool
  pub users : List UserEntry

pub record Env : Type 0 where
  pub fails : ℕ → Bool
  pub torn : ℕ → Option File
  pub crashes : ℕ → UnitName → Bool
  pub fetched : String → String → File
  pub encode_nodes : NodeList → Bytes
  pub decode_nodes : Bytes → Option NodeList
  pub singbox_text : SingboxConfig → Bytes
  pub unit_text : Bytes
  pub teleproxy_text : TeleproxyConfig → Bytes

-- `started_on` is the teleproxy.toml that teleproxy was last started with.
pub record Host : Type 0 where
  pub disk : FileName → Option File
  pub enabled : UnitName → Bool
  pub running : UnitName → Bool
  pub started_on : Option File
  pub calls : ℕ

unfoldable pub put : FileName → Option File → (FileName → Option File) → FileName → Option File
unfolding file_index
put name f disk q = if file_index q == file_index name then f else disk q

unfoldable pub flag : UnitName → Bool → (UnitName → Bool) → UnitName → Bool
unfolding same_unit
flag u b units v = if same_unit v u then b else units v

-- `os.WriteFile` keeps the mode of a file that is there.
abbrev pub mode_for : Option File → ℕ → ℕ
mode_for none mode = mode
mode_for (some f) mode = f.mode

-- An operation: true for a nil error.
abbrev pub Action : Type 0
Action = Host → Bool × Host

module _ (env : Env) where
  unfoldable pub write_file : FileName → Bytes → ℕ → Action
  write_file name content mode h =
      let written : File = record { content = content; mode = mode_for (h.disk name) mode } in
      if env.fails h.calls
      then (false, record h { disk = put name (env.torn h.calls) h.disk; calls = h.calls + 1 })
      else (true, record h { disk = put name (some written) h.disk; calls = h.calls + 1 })

  unfoldable pub download : String → String → Action
  download url sha256 h = if env.fails h.calls then (false, record h { calls = h.calls + 1 }) else (
    true,
    record h { disk = put singbox_bin (some (env.fetched url sha256)) h.disk; calls = h.calls + 1 },
  )

  unfoldable pub set_enabled : UnitName → Bool → Action
  set_enabled u b h =
      if env.fails h.calls
      then (false, record h { calls = h.calls + 1 })
      else (true, record h { enabled = flag u b h.enabled; calls = h.calls + 1 })

  -- `StartService`, `StopService` and `RestartService`; a start or restart that fails may leave the
  -- unit down.
  unfoldable pub set_running : UnitName → Bool → Action
  set_running u b h =
      if env.fails h.calls
      then (
        false,
        record h { running = λ v. h.running v && not (env.crashes h.calls v); calls = h.calls + 1 },
      )
      else (
        true,
        record h {
          running = flag u b h.running;
          started_on = if same_unit u teleproxy && b then h.disk teleproxy_toml else h.started_on;
          calls = h.calls + 1;
        },
      )

  -- `ServiceActive`, true when it answers true without an error.
  unfoldable pub service_active : UnitName → Action
  service_active u h =
      let alive = record h {
        running = λ v. h.running v && not (env.crashes h.calls v);
        calls = h.calls + 1;
      } in
      (not (env.fails h.calls) && alive.running u, alive)

  -- `os.Rename(tmp, path)`, and `os.Remove(tmp)` behind a failure.
  unfoldable pub rename : FileName → FileName → Action
  rename tmp name h =
      if env.fails h.calls
      then (false, record h { disk = put tmp none h.disk; calls = h.calls + 1 })
      else (
        true,
        record h { disk = put tmp none (put name (h.disk tmp) h.disk); calls = h.calls + 1 },
      )

  -- The body that `Save` and the two restores share.
  unfoldable pub write_rename : FileName → FileName → Bytes → ℕ → Action
  unfolding write_file rename
  write_rename tmp name content mode h =
      let (ok, h1) = write_file tmp content mode h in if ok then rename tmp name h1 else (false, h1)

  unfoldable pub save : NodeList → Action
  unfolding write_rename
  save nl h = write_rename node_tmp node_file (env.encode_nodes nl ++ 10 ∷ []) 384 h

  abbrev pub parsed : Option File → Option NodeList
  parsed none = some (record { nodes = []; strategy = ""; round_robin_cursor = pos 0 })
  parsed (some f) = env.decode_nodes f.content

  unfoldable pub load : Host → Option NodeList × Host
  load h =
      let h' = record h { calls = h.calls + 1 } in
      if env.fails h.calls then (none, h') else (parsed (h.disk node_file), h')

  -- `snapshotFile` and `snapshotNodeFile`: outer `none` for an error of the read or of the stat.
  unfoldable pub snapshot : FileName → Host → Option (Option File) × Host
  snapshot name h =
      let h' = record h { calls = h.calls + 1 } in
      if env.fails h.calls then (none, h') else (some (h.disk name), h')

  -- `os.Remove(path)`, where a file that is not there is no error.
  unfoldable pub remove : FileName → Action
  remove name h =
      if env.fails h.calls
      then (false, record h { calls = h.calls + 1 })
      else (true, record h { disk = put name none h.disk; calls = h.calls + 1 })

  -- `restoreFile` and `restoreNodeFile`.
  unfoldable pub restore : FileName → FileName → Option File → Action
  unfolding remove write_rename
  restore tmp name none h = remove name h
  restore tmp name (some f) h = write_rename tmp name f.content f.mode h
