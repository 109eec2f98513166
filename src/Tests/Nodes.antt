-- ===== src/Tests/Nodes.antt =====
-- The results on the outbound nodes of the panel at concrete inputs.
use mtproxy_orchestrator.Base.{
  ℕ, ◌+◌, String, Bool, true, false, Option, none, some, List, [], ◌∷◌, ◌≡◌, ◌↔◌, ◌⊎◌, refl, arith,
  ◌==◌, if◌then◌else◌, length,
}
use mtproxy_orchestrator.Base.Int.{ℤ, pos, negsuc}
use mtproxy_orchestrator.Update.Text.{atoi}
use mtproxy_orchestrator.Bridge.Node.{Node, NodeList, active}
use mtproxy_orchestrator.Bridge.Rotation.{normalize_strategy, render_outbounds, config_is_valid}
use mtproxy_orchestrator.Bridge.Host.{
  Env, Host, load, node_file, save, parsed, service_active, snapshot,
}
use mtproxy_orchestrator.Bridge.Switch.{rerender_config}
use mtproxy_orchestrator.Bridge.Plan.{same_cursor}
use mtproxy_orchestrator.Panel.Nodes.{Request, Server, Desk, save_with_rollback, rerender_if_active}
use mtproxy_orchestrator.Panel.Nodes.Form.{NodeForm, node_of_form}
use mtproxy_orchestrator.Panel.Nodes.Edits.{toggle_node, append_node, is_strategy}
use mtproxy_orchestrator.Panel.Nodes.Ids.{Changes, Change, HasIds, Changes-HasIds}
use mtproxy_orchestrator.Panel.Nodes.Choice.{handle_bridge_set_strategy_guard}
use mtproxy_orchestrator.Panel.Nodes.Handlers.{handle_bridge_set_strategy}
use mtproxy_orchestrator.Panel.Actions.{bad_request}
use mtproxy_orchestrator.Panel.Nodes.Rollback.{save_with_rollback_undone}

abbrev form : NodeForm
form = record {
  protocol = "trojan";
  tag = "nl";
  host = "example.org";
  port = "443";
  uuid = "";
  password = "secret";
  sni = "example.org";
  public_key = "";
  short_id = "";
  flow = "";
  method = "";
  congestion_control = "";
  fingerprint = "";
}

abbrev node : ℕ → Bool → Node
node id enabled = record {
  id = id;
  type = "trojan";
  tag = "nl";
  host = "example.org";
  port = 443;
  uuid = "";
  flow = "";
  sni = "example.org";
  public_key = "";
  short_id = "";
  fingerprint = "";
  password = "secret";
  method = "";
  congestion_control = "";
  enabled = enabled;
  last_latency = 0;
  last_checked = none;
}

abbrev same_text : String → String
same_text s = s

accepted : node_of_form same_text form ≡ some (node 0 true)
unfolding node_of_form atoi
accepted = refl

abbrev nodes : Bool → NodeList
nodes enabled = record {
  nodes = node 1 true ∷ node 2 enabled ∷ [];
  strategy = "roundrobin";
  round_robin_cursor = pos 0;
}

toggled_second : toggle_node 2 (nodes true) ≡ some (nodes false)
unfolding toggle_node
toggled_second = refl

Changes-HasIds_example : HasIds (append_node (node 0 true) (nodes false))
Changes-HasIds_example =
    Changes-HasIds
      (Changes.then_change (Changes.then_change Changes.none_yet (Change.toggled 2 toggled_second))
        (Change.added (node 0 true) refl))
      (omega arith)

-- A text is the number of enabled nodes and the cursor, and the call with the given number fails.
abbrev code : List Node → ℕ
code [] = 0
code (n ∷ ns) = (if n.enabled then 1 else 0) + code ns

abbrev cursor : ℤ → ℕ
cursor (pos n) = n
cursor (negsuc n) = 0

abbrev decode : List ℕ → Option NodeList
decode [] = none
decode (k ∷ []) = none
decode (k ∷ c ∷ rest) = some (record (nodes (k == 2)) { round_robin_cursor = pos c })

abbrev fails_at : ℕ → Env
fails_at n = record {
  fails = λ k. k == n;
  torn = λ k. none;
  crashes = λ k u. false;
  fetched = λ url sum. record { content = 127 ∷ []; mode = 493 };
  encode_nodes = λ nl. code nl.nodes ∷ cursor nl.round_robin_cursor ∷ [];
  decode_nodes = decode;
  singbox_text = λ c. length c.outbounds ∷ [];
  unit_text = 1 ∷ [];
  teleproxy_text = λ c. c.port ∷ [];
}

abbrev host : Host
host = record {
  disk = λ name. some (record { content = 2 ∷ 0 ∷ []; mode = 384 });
  enabled = λ u. true;
  running = λ u. true;
  started_on = none;
  calls = 0;
}

abbrev server : Server
server = record { config = none; domain = ""; singbox_url = "u"; singbox_sha256 = "s" }

abbrev desk : Desk
desk = record { host = host; mode = some "bridge" }

abbrev with_token : Request
with_token = record { csrf_valid = true; id = none; entries = none; mode_stored = true }

loads_nodes : (load (fails_at 100) host).0 ≡ some (nodes true)
unfolding load
loads_nodes = refl

handle_bridge_set_strategy_guard_example :
    (handle_bridge_set_strategy (fails_at 100) server with_token "roundrobin" desk).1 ≡ bad_request
    ↔ (is_strategy "roundrobin" ≡ false)
      ⊎ (config_is_valid (record {
        strategy = normalize_strategy "roundrobin";
        outbounds =
            (render_outbounds
              (record (nodes true) { strategy = "roundrobin" })
              (normalize_strategy "roundrobin")).0;
      })
          ≡ false)
handle_bridge_set_strategy_guard_example =
    handle_bridge_set_strategy_guard (fails_at 100) server with_token "roundrobin" (nodes true) desk
      refl loads_nodes

-- With one enabled node left, round-robin cannot be rendered, and the list is put back.
undone : (save_with_rollback (fails_at 100) server (nodes true) (nodes false) host).0 ≡ false
unfolding save_with_rollback save service_active rerender_config active config_is_valid
    normalize_strategy render_outbounds
undone = refl

save_with_rollback_undone_example :
    (parsed (fails_at 100) (
        (save_with_rollback (fails_at 100) server (nodes true) (nodes false) host).1.disk node_file)
      ≡ some (nodes true))
    ⊎ ((save
          (fails_at 100)
          (nodes true)
          (rerender_if_active
            (fails_at 100)
            server
            (nodes false)
            (save (fails_at 100) (nodes false) host).1).1).0
        ≡ false)
save_with_rollback_undone_example =
    save_with_rollback_undone (fails_at 100) server (nodes true) (nodes false) host refl refl undone

-- The second node is enabled again, and the rendering moves the cursor on.
saved : (save_with_rollback (fails_at 100) server (nodes false) (nodes true) host).0 ≡ true
unfolding save_with_rollback save service_active rerender_config active config_is_valid
    normalize_strategy render_outbounds same_cursor snapshot
saved = refl
