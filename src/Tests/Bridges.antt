-- ===== src/Tests/Bridges.antt =====
-- Nodes, renders, and a host on which one call fails.
use mtproxy_orchestrator.Base.{ℕ, ◌==◌, true, false, String, none, some, [], ◌∷◌, refl, length}
use mtproxy_orchestrator.Base.Int.{pos}
use mtproxy_orchestrator.Bridge.Node.{Node, NodeList, active}
use mtproxy_orchestrator.Bridge.Rotation.{
  config_is_valid, normalize_strategy, strategy_name, render_outbounds,
}
use mtproxy_orchestrator.Bridge.Host.{
  File, Env, Host, node_file, file_index, load, snapshot, save, set_enabled, set_running,
  service_active, flag, restore, write_file,
}
use mtproxy_orchestrator.Bridge.Switch.{
  disable_rollback, with_node, rollback, direct_steps, enable, disable,
}
use mtproxy_orchestrator.Bridge.Plan.{
  Common, EnableConfig, run_steps, same_cursor, restart_teleproxy,
}
use mtproxy_orchestrator.Bridge.Switch.Steps.{Holds, contents}
use mtproxy_orchestrator.Bridge.Switch.Outcome.{IsBridged, IsDirect}
use mtproxy_orchestrator.Bridge.Switch.Enabling.{enable-IsBridged, enable-IsDirect}
use mtproxy_orchestrator.Bridge.Switch.Restoring.{IsRestored, disable-IsRestored}
use mtproxy_orchestrator.Bridge.Switch.Disabling.{disable-IsDirect}

abbrev node : ℕ → String → Node
node id tag = record {
  id = id;
  type = "trojan";
  tag = tag;
  host = "198.51.100.1";
  port = 443;
  uuid = "";
  flow = "";
  sni = "example.org";
  public_key = "";
  short_id = "";
  fingerprint = "";
  password = "secret";
  method = "";
  congestion_control = "";
  enabled = true;
  last_latency = 0;
  last_checked = none;
}

abbrev three : NodeList
three = record {
  nodes = node 1 "a" ∷ record (node 2 "b") { enabled = false } ∷ node 5 "c" ∷ node 4 "d" ∷ [];
  strategy = "roundrobin";
  round_robin_cursor = pos 2;
}

abbrev fails_at : ℕ → Env
fails_at n = record {
  fails = λ k. k == n;
  torn = λ k. none;
  crashes = λ k u. false;
  fetched = λ url sum. record { content = 127 ∷ []; mode = 493 };
  encode_nodes = λ nl. length nl.nodes ∷ [];
  decode_nodes = λ bytes. some three;
  singbox_text = λ c. length c.outbounds ∷ [];
  unit_text = 1 ∷ [];
  teleproxy_text = λ c. c.port ∷ [];
}

abbrev host : Host
host = record {
  disk = λ name. some (record { content = file_index name ∷ []; mode = 384 });
  enabled = λ u. false;
  running = λ u. true;
  started_on = none;
  calls = 0;
}

abbrev common : Common
common = record {
  teleproxy_users = [];
  mtproto_port = 443;
  mask_host = "example.org";
  tls_backend = "";
  wildcard_mask = "";
  mss_clamp = false;
  ja4_log = false;
  stats_port = 8888;
}

abbrev enabling : EnableConfig
enabling = record {
  node = node 0 "new";
  common = common;
  strategy = "fallback";
  singbox_url = "";
  singbox_sha256 = "";
}

enable-IsBridged_example : IsBridged (fails_at 100) enabling (enable (fails_at 100) enabling host).1
unfolding enable load snapshot save run_steps config_is_valid normalize_strategy with_node
    strategy_name render_outbounds active same_cursor set_enabled set_running service_active flag
enable-IsBridged_example = enable-IsBridged (fails_at 100) enabling host refl

-- The tenth call is the restart of teleproxy.
enable-IsDirect_example :
    IsDirect (fails_at 9) common (enable (fails_at 9) enabling host).1
    × Holds node_file (contents (host.disk node_file)) (enable (fails_at 9) enabling host).1
unfolding enable load snapshot save run_steps config_is_valid normalize_strategy with_node
    strategy_name render_outbounds active same_cursor set_enabled set_running rollback restore
enable-IsDirect_example = enable-IsDirect (fails_at 9) enabling host restart_teleproxy refl

disable-IsDirect_example : IsDirect (fails_at 100) common (disable (fails_at 100) common host).1
unfolding disable snapshot run_steps set_running service_active set_enabled direct_steps write_file
    flag
disable-IsDirect_example = disable-IsDirect (fails_at 100) common host refl

abbrev toml : File
toml = record { content = 7 ∷ []; mode = 384 }

-- The sixth call is the restart of teleproxy.
disable-IsRestored_example : IsRestored (fails_at 5) toml (disable (fails_at 5) common host).1
unfolding disable snapshot run_steps set_running service_active set_enabled direct_steps write_file
    flag disable_rollback file_index
disable-IsRestored_example =
    disable-IsRestored (fails_at 5) common host toml restart_teleproxy refl refl
