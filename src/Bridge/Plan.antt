-- ===== src/Bridge/Plan.antt =====
-- The configurations, errors and sequences of steps that the transitions of
-- internal/bridge/service.go are made of.
use mtproxy_orchestrator.Base.{
  ℕ, String, Bool, true, false, Option, none, some, List, [], ◌∷◌, ◌==◌, if◌then◌else◌,
}
use mtproxy_orchestrator.Base.Int.{ℤ, pos, negsuc}
use mtproxy_orchestrator.Bridge.Node.{Node}
use mtproxy_orchestrator.Bridge.Host.{Host, Action, UserEntry, TeleproxyConfig}

-- `EnableConfig` and `DisableConfig` have these fields in common.
pub record Common : Type 0 where
  pub teleproxy_users : List UserEntry
  pub mtproto_port : ℕ
  pub mask_host : String
  pub tls_backend : String
  pub wildcard_mask : String
  pub mss_clamp : Bool
  pub ja4_log : Bool
  pub stats_port : ℕ

pub record EnableConfig : Type 0 where
  pub node : Node
  pub common : Common
  pub strategy : String
  pub singbox_url : String
  pub singbox_sha256 : String

unfoldable pub teleproxy_config : Common → String → TeleproxyConfig
teleproxy_config c socks5 = record {
  port = c.mtproto_port;
  mask_host = c.mask_host;
  tls_backend = c.tls_backend;
  wildcard_mask = c.wildcard_mask;
  stats_port = c.stats_port;
  socks5_addr = socks5;
  mss_clamp = c.mss_clamp;
  ja4_log = c.ja4_log;
  users = c.teleproxy_users;
}

abbrev pub socks_addr : String
socks_addr = "127.0.0.1:1080"

-- What goes wrong first, by the step that fails.
pub data Cause : Type 0 where
  load_nodes snapshot_nodes save_nodes download_singbox render_singbox write_singbox_json
        save_cursor :
      Cause
  write_singbox_service write_teleproxy enable_singbox start_singbox restart_teleproxy : Cause
  singbox_not_active teleproxy_not_active snapshot_teleproxy stop_singbox disable_singbox : Cause
  no_enabled_nodes config_invalid restore_nodes : Cause

-- `failed` is a plain error, `rolled_back` an error behind a rollback with the rollback's own errors.
pub data Result : Type 0 where
  done : Result
  failed : Cause → Result
  rolled_back : Cause → List Cause → Result

pub record Step : Type 0 where
  pub cause : Cause
  pub act : Action

abbrev pub step : Cause → Action → Step
step c a = record { cause = c; act = a }

-- The steps in order, up to the first error.
unfoldable pub run_steps : List Step → Host → Option Cause × Host
run_steps [] h = (none, h)
run_steps (s ∷ ss) h =
    let (ok, h') = s.act h in let rest = run_steps ss h' in if ok then rest else (some s.cause, h')

-- All steps, whatever fails: the `rollbackErrs`.
unfoldable pub run_all : List Step → Host → List Cause × Host
run_all [] h = ([], h)
run_all (s ∷ ss) h =
    let (ok, h') = s.act h in
    let (errs, h'') = run_all ss h' in (if ok then errs else s.cause ∷ errs, h'')

abbrev pub skip : Action
skip h = (true, h)

abbrev pub refuse : Action
refuse h = (false, h)

abbrev pub when : Bool → Action → Action
when true a = a
when false a = skip

unfoldable pub same_cursor : ℤ → ℤ → Bool
same_cursor (pos m) (pos n) = m == n
same_cursor (negsuc m) (negsuc n) = m == n
same_cursor _ _ = false
