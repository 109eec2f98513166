-- ===== src/Bridge/Node.antt =====
-- internal/bridge/model.go: nodes, their validation, and the node list. A port is a number from 0;
-- Go's negative ports are refused like 0.
pub mod Laws
use mtproxy_orchestrator.Base.{
  ℕ, ◌+◌, String, Bool, true, false, ◌&&◌, ◌||◌, Option, none, some, List, [], ◌∷◌, ◌++◌, ltb,
  str_eq, if◌then◌else◌, filter,
}
use mtproxy_orchestrator.Base.Int.{ℤ}

-- `NodeType` as the switches read it: a text that is none of the others is taken as VLESS.
pub data NodeType : Type 0 where
  vless_reality trojan shadowsocks hysteria2 tuic : NodeType

-- The switches' reading of the stored text.
unfoldable pub node_type : String → NodeType
node_type s =
    if str_eq s "trojan"
    then trojan
    else if str_eq s "shadowsocks"
    then shadowsocks
    else if str_eq s "hysteria2"
    then hysteria2
    else if str_eq s "tuic"
    then tuic
    else vless_reality

pub record Node : Type 0 where
  pub id : ℕ
  pub type : String
  pub tag : String
  pub host : String
  pub port : ℕ
  pub uuid : String
  pub flow : String
  pub sni : String
  pub public_key : String
  pub short_id : String
  pub fingerprint : String
  pub password : String
  pub method : String
  pub congestion_control : String
  pub enabled : Bool
  pub last_latency : ℕ
  pub last_checked : Option ℕ

pub data NodeError : Type 0 where
  tag_required host_required port_out_of_range password_required sni_required : NodeError
  method_required uuid_required public_key_required : NodeError

-- `if field == "" { errs = append(errs, e) }`
abbrev pub required : String → NodeError → List NodeError
required field e = if str_eq field "" then e ∷ [] else []

unfoldable pub type_errors : NodeType → Node → List NodeError
type_errors trojan n = required n.password password_required ++ required n.sni sni_required
type_errors shadowsocks n =
    required n.password password_required ++ required n.method method_required
type_errors hysteria2 n = required n.password password_required ++ required n.sni sni_required
type_errors tuic n =
    required n.uuid uuid_required
    ++ (required n.password password_required ++ required n.sni sni_required)
type_errors vless_reality n =
    required n.uuid uuid_required
    ++ (required n.sni sni_required ++ required n.public_key public_key_required)

-- `Validate`: the joined errors, none for a valid node.
unfoldable pub validate : Node → List NodeError
validate n =
    required n.tag tag_required
    ++ (required n.host host_required
        ++ ((if ltb n.port 1 || ltb 65535 n.port then port_out_of_range ∷ [] else [])
            ++ type_errors (node_type n.type) n))

pub record NodeList : Type 0 where
  pub nodes : List Node
  pub strategy : String
  pub round_robin_cursor : ℤ

unfoldable pub active : NodeList → List Node
active l = filter (λ n. n.enabled) l.nodes

-- The loop of `NextID` over `max`.
unfoldable pub max_id : ℕ → List Node → ℕ
max_id m [] = m
max_id m (n ∷ ns) = max_id (if ltb m n.id then n.id else m) ns

unfoldable pub next_id : NodeList → ℕ
unfolding max_id
next_id l = max_id 0 l.nodes + 1
