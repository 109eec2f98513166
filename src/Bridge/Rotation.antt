-- ===== src/Bridge/Rotation.antt =====
-- `normalizeStrategy`, `renderOutbounds` and `nodeToOutbound` of internal/bridge/service.go, with the
-- types of internal/singbox/config.go that they produce.
pub mod Fairness
use mtproxy_orchestrator.Base.{
  ℕ, zero, suc, ◌+◌, ◌/◌, ◌%◌, String, Bool, true, false, ◌&&◌, ◌||◌, Option, none, some, List, [],
  ◌∷◌, ◌++◌, map, ltb, str_eq, if◌then◌else◌, length, take, drop,
}
use mtproxy_orchestrator.Base.Int.{ℤ, pos, negsuc}
use mtproxy_orchestrator.Bridge.Node.{Node, NodeType, node_type, NodeList, active}

pub data Strategy : Type 0 where
  urltest fallback roundrobin selector : Strategy

unfoldable pub normalize_strategy : String → Strategy
normalize_strategy s =
    if str_eq s "fallback"
    then fallback
    else if str_eq s "roundrobin"
    then roundrobin
    else if str_eq s "selector"
    then selector
    else urltest

-- `string(strategy)`.
unfoldable pub strategy_name : Strategy → String
strategy_name urltest = "urltest"
strategy_name fallback = "fallback"
strategy_name roundrobin = "roundrobin"
strategy_name selector = "selector"

pub record Outbound : Type 0 where
  pub type : NodeType
  pub tag : String
  pub server : String
  pub port : ℕ
  pub uuid : String
  pub flow : String
  pub tls_server : String
  pub public_key : String
  pub short_id : String
  pub fingerprint : String
  pub password : String
  pub method : String
  pub congestion_control : String

unfoldable pub node_to_outbound : Node → Outbound
node_to_outbound n = record {
  type = node_type n.type;
  tag = n.tag;
  server = n.host;
  port = n.port;
  uuid = n.uuid;
  flow = n.flow;
  tls_server = n.sni;
  public_key = n.public_key;
  short_id = n.short_id;
  fingerprint = n.fingerprint;
  password = n.password;
  method = n.method;
  congestion_control = n.congestion_control;
}

-- Go's `cursor % n` takes the sign of the cursor, and `if offset < 0 { offset = 0 }` follows.
unfoldable pub offset_of : ℤ → ℕ → ℕ
offset_of (pos c) n = c % n
offset_of (negsuc c) n = 0

abbrev pub rotate : ℕ → List Node → List Node
rotate offset ns = drop offset ns ++ take offset ns

abbrev pub is_rotated : Strategy → List Node → Bool
is_rotated roundrobin ns = ltb 1 (length ns)
is_rotated _ ns = false

-- `active` behind the rotation, and the list with its new cursor.
unfoldable pub render_nodes : NodeList → Strategy → List Node × NodeList
unfolding offset_of
render_nodes nl strategy =
    let ns = active nl in
    let offset = offset_of nl.round_robin_cursor (length ns) in
    if is_rotated strategy ns
    then (rotate offset ns, record nl { round_robin_cursor = pos ((offset + 1) % length ns) })
    else (ns, nl)

unfoldable pub render_outbounds : NodeList → Strategy → List Outbound × NodeList
unfolding render_nodes node_to_outbound
render_outbounds nl strategy =
    let (ns, nl') = render_nodes nl strategy in (map node_to_outbound ns, nl')

pub record SingboxConfig : Type 0 where
  pub strategy : Strategy
  pub outbounds : List Outbound

-- `Config.Validate` of internal/singbox/config.go: whether it returns nil.
unfoldable pub config_is_valid : SingboxConfig → Bool
config_is_valid c = elim c.strategy [
  | roundrobin ↦ ltb 1 (length c.outbounds)
  | _ ↦ ltb 0 (length c.outbounds)
]
