-- ===== src/Settings.antt =====
-- The stored settings: internal/config/dbsettings.go, which merges them into the configuration of the
-- file, and the saving of the form of internal/panel/proxy_settings.go, whose validators and handlers
-- are in Validation and System. The table is a function from keys to values. A statement that fails to
-- read a key is a missing key. Of the configuration, the fields that no setting touches are left out.
pub mod Merge
pub mod Validation
pub mod Safe
pub mod System
pub mod Forms
use mtproxy_orchestrator.Base.{
  ℕ, ◌<◌, String, Bool, true, false, ◌&&◌, ◌||◌, Option, none, some, ltb, str_eq, if◌then◌else◌,
}
use mtproxy_orchestrator.Base.Int.{two63}
use mtproxy_orchestrator.Update.Text.{codes, atoi}

abbrev pub Table : Type 0
Table = String → Option String

-- `SetSetting`
unfoldable pub set_setting : String → String → Table → Table
set_setting key value m = λ j. if str_eq key j then some value else m j

pub record RuntimeSettings : Type 0 where
  pub mask_host : String
  pub tls_backend : String
  pub wildcard_mask : String
  pub mss_clamp : Option Bool
  pub random_padding : Option Bool
  pub ja4_log : Option Bool
  pub mtproto_port : ℕ
  pub panel_path : String
  pub log_level : String
  pub mode : String

pub record Config : Type 0 where
  pub mode : String
  pub mtproto_port : ℕ
  pub mask_host : String
  pub tls_backend : String
  pub wildcard_mask : String
  pub mss_clamp : Bool
  pub random_padding : Bool
  pub ja4_log : Bool
  pub log_level : String
  pub panel_path : String

abbrev pub or_empty : Option String → String
or_empty none = ""
or_empty (some v) = v

abbrev pub bool_value : Option String → Option Bool
bool_value none = none
bool_value (some raw) =
    if str_eq raw "1" || (str_eq raw "true" || (str_eq raw "on" || str_eq raw "yes"))
    then some true
    else if str_eq raw "0" || (str_eq raw "false" || (str_eq raw "off" || str_eq raw "no"))
    then some false
    else none

-- `readBoolSetting`
abbrev pub read_bool_setting : Table → String → Option Bool
read_bool_setting m key = bool_value (m key)

-- A port that is no number, or not above 0, is left at 0.
abbrev pub positive : Option ℕ → ℕ
positive none = 0
positive (some p) = if ltb p two63 then p else 0

abbrev pub port_value : Option String → ℕ
port_value none = 0
port_value (some raw) = positive (atoi (codes raw))

unfoldable pub read_runtime_settings : Table → RuntimeSettings
unfolding atoi
read_runtime_settings m = record {
  mask_host = or_empty (m "mask_host");
  tls_backend = or_empty (m "tls_backend");
  wildcard_mask = or_empty (m "wildcard_mask");
  mss_clamp = read_bool_setting m "mss_clamp";
  random_padding = read_bool_setting m "random_padding";
  ja4_log = read_bool_setting m "ja4_log";
  mtproto_port = port_value (m "mtproto_port");
  panel_path = or_empty (m "panel_path");
  log_level = or_empty (m "log_level");
  mode = or_empty (m "bridge_mode");
}

abbrev pub unless_empty : String → String → String
unless_empty stored old = if str_eq stored "" then old else stored

abbrev pub unless_none : Option Bool → Bool → Bool
unless_none none old = old
unless_none (some v) old = v

unfoldable pub merge_into : RuntimeSettings → Config → Config
merge_into rs cfg = record {
  mode = unless_empty rs.mode cfg.mode;
  mtproto_port = if ltb 0 rs.mtproto_port then rs.mtproto_port else cfg.mtproto_port;
  mask_host = unless_empty rs.mask_host cfg.mask_host;
  tls_backend = unless_empty rs.tls_backend cfg.tls_backend;
  wildcard_mask = unless_empty rs.wildcard_mask cfg.wildcard_mask;
  mss_clamp = unless_none rs.mss_clamp cfg.mss_clamp;
  random_padding = unless_none rs.random_padding cfg.random_padding;
  ja4_log = unless_none rs.ja4_log cfg.ja4_log;
  log_level = unless_empty rs.log_level cfg.log_level;
  panel_path = unless_empty rs.panel_path cfg.panel_path;
}

-- `boolSetting`
abbrev pub bool_setting : Bool → String
bool_setting true = "true"
bool_setting false = "false"

pub record ProxyForm : Type 0 where
  pub mask_host : String
  pub tls_backend : String
  pub wildcard_mask : String
  pub mss_clamp : Bool
  pub random_padding : Bool
  pub ja4_log : Bool
  pub port : String
  pub server_addr : String

-- `handleSettingsProxyPost` from the saving on, where every statement succeeds; the keys of its loop
-- are different, so that their order does not matter.
unfoldable pub save_proxy_settings : ProxyForm → Table → Table
unfolding set_setting
save_proxy_settings f m = set_setting "server_ip" f.server_addr (
    set_setting "mtproto_port" f.port (
      set_setting "ja4_log" (bool_setting f.ja4_log) (
        set_setting "random_padding" (bool_setting f.random_padding) (
          set_setting "mss_clamp" (bool_setting f.mss_clamp) (
            set_setting "wildcard_mask" f.wildcard_mask
              (set_setting "tls_backend" f.tls_backend (set_setting "mask_host" f.mask_host m)))))))
