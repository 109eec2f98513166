-- ===== src/Panel/Nodes/Edits.antt =====
-- What the handlers of internal/panel/bridge.go do to a list of nodes. Their loops stop at the first
-- node with the id, but for the deletion, which goes through all.
use mtproxy_orchestrator.Base.{
  ℕ, String, Bool, not, ◌&&◌, ◌||◌, ltb, Option, none, some, List, [], ◌∷◌, ◌++◌, str_eq, ◌==◌,
  if◌then◌else◌, filter, find,
}
use mtproxy_orchestrator.Bridge.Node.{Node, NodeList, next_id}
use mtproxy_orchestrator.Panel.Nodes.Form.{EditForm}

-- `bridge.Strategy` values that the form may have.
unfoldable pub is_strategy : String → Bool
is_strategy s =
    str_eq s "urltest" || (str_eq s "fallback" || (str_eq s "roundrobin" || str_eq s "selector"))

-- `node.ID = nl.NextID(); nl.Nodes = append(nl.Nodes, node)`
unfoldable pub append_node : Node → NodeList → NodeList
append_node node nl = record nl { nodes = nl.nodes ++ record node { id = next_id nl } ∷ [] }

abbrev pub put_node : Node → Option (List Node) → Option (List Node)
put_node n none = none
put_node n (some ns) = some (n ∷ ns)

-- `if nl.Nodes[i].ID == id { ...; found = true; break }`, `none` where no node has the id.
unfoldable pub change_first : ℕ → (Node → Node) → List Node → Option (List Node)
change_first id f [] = none
change_first id f (n ∷ ns) =
    let rest = put_node n (change_first id f ns) in if n.id == id then some (f n ∷ ns) else rest

abbrev pub with_list : NodeList → Option (List Node) → Option NodeList
with_list nl none = none
with_list nl (some ns) = some (record nl { nodes = ns })

unfoldable pub toggle_node : ℕ → NodeList → Option NodeList
unfolding change_first
toggle_node id nl =
    with_list nl (change_first id (λ n. record n { enabled = not n.enabled }) nl.nodes)

abbrev pub edited : (String → String) → EditForm → ℕ → Node → Node
edited trim f port n = record n {
  tag = trim f.tag;
  host = trim f.host;
  port = port;
  sni = f.sni;
  flow = f.flow;
  method = f.method;
  congestion_control = f.congestion_control;
  fingerprint =
      if str_eq n.type "vless-reality"
      then (if str_eq f.fingerprint "" then "chrome" else f.fingerprint)
      else n.fingerprint;
}

unfoldable pub edit_node : (String → String) → EditForm → ℕ → ℕ → NodeList → Option NodeList
unfolding change_first
edit_node trim f port id nl = with_list nl (change_first id (edited trim f port) nl.nodes)

abbrev pub latency_of : Option ℕ → ℕ
latency_of none = 0
latency_of (some ms) = ms

unfoldable pub ping_node : (Node → Option ℕ) → ℕ → ℕ → NodeList → Option NodeList
unfolding change_first
ping_node probe now id nl = with_list nl (
    change_first id (λ n. record n { last_latency = latency_of (probe n); last_checked = some now })
      nl.nodes)

-- `none` where no node has the id.
unfoldable pub delete_node : ℕ → NodeList → Option NodeList
delete_node id nl = elim (find (λ n. n.id == id) nl.nodes) [
  | none ↦ none
  | some n ↦ some (record nl { nodes = filter (λ m. not (m.id == id)) nl.nodes })
]

-- The guard of `handleBridgeSetStrategy` on the number of enabled nodes.
abbrev pub too_few : String → ℕ → Bool
too_few strategy count = (str_eq strategy "roundrobin" && ltb count 2) || ltb count 1
