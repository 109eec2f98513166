-- ===== src/Bridge/Node/Laws.antt =====
-- Identifiers stay distinct, and validation refuses exactly the nodes that lack a field.
use mtproxy_orchestrator.Base.{
  ℕ, ◌+◌, ◌≤◌, ◌<◌, String, ◌≡◌, ◌≢◌, ◌↔◌, ◌||◌, refl, List, [], ◌∷◌, ◌++◌, ltb, eq_iff, arith,
  if◌then◌else◌, All, All-map,
}
use mtproxy_orchestrator.Base.Sql.{Distinct, Distinct-concat}
use mtproxy_orchestrator.Bridge.Node.{
  Node, NodeType, node_type, trojan, shadowsocks, hysteria2, tuic, vless_reality, NodeError,
  tag_required, host_required, port_out_of_range, required, type_errors, validate, NodeList, max_id,
  next_id,
}

max_id-le : (m : ℕ) (ns : List Node) → (m ≤ max_id m ns) × All (λ n. n.id ≤ max_id m ns) ns
unfolding max_id
max_id-le m [] = (omega arith, tt)
max_id-le m (n ∷ ns) =
    let m' = if ltb m n.id then n.id else m in
    let (le, all) = max_id-le m' ns in (ground (arith, le), (ground (arith, le), all))

-- The id that `NextID` gives is above every id in the list.
next_id-fresh : (l : NodeList) → All (λ n. n.id < next_id l) l.nodes
unfolding next_id
next_id-fresh l =
    All-map (λ n. n.id ≤ max_id 0 l.nodes) (λ n. n.id < max_id 0 l.nodes + 1) l.nodes
      (λ n h. omega arith) (max_id-le 0 l.nodes).1

-- A node that takes the next id keeps the ids of the list distinct.
pub Distinct-next_id :
    (l : NodeList) (n : Node)
    → n.id ≡ next_id l
    → Distinct (λ m. m.id) l.nodes
    → Distinct (λ m. m.id) (l.nodes ++ n ∷ [])
Distinct-next_id l n e d =
    Distinct-concat (λ m. m.id) l.nodes n d
      (All-map (λ m. m.id < next_id l) (λ m. m.id ≢ n.id) l.nodes (λ m h p. omega arith)
        (next_id-fresh l))

-- The fields that a node of a type must have.
abbrev pub NeedsFields : NodeType → Node → Type 0
NeedsFields trojan n = (n.password ≢ "") × (n.sni ≢ "")
NeedsFields shadowsocks n = (n.password ≢ "") × (n.method ≢ "")
NeedsFields hysteria2 n = (n.password ≢ "") × (n.sni ≢ "")
NeedsFields tuic n = (n.uuid ≢ "") × (n.password ≢ "") × (n.sni ≢ "")
NeedsFields vless_reality n = (n.uuid ≢ "") × (n.sni ≢ "") × (n.public_key ≢ "")

type_errors_iff : (t : NodeType) (n : Node) → (type_errors t n ≡ []) ↔ NeedsFields t n
unfolding type_errors
type_errors_iff t n = ground (
  arith,
  eq_iff n.password "",
  eq_iff n.sni "",
  eq_iff n.method "",
  eq_iff n.uuid "",
  eq_iff n.public_key "",
)

append-nil_iff : (xs ys : List NodeError) → xs ++ ys ≡ [] → (xs ≡ []) × (ys ≡ [])
append-nil_iff [] ys h = (refl, h)
append-nil_iff (x ∷ xs) ys h = cc

required_iff : (field : String) (e : NodeError) → (required field e ≡ []) ↔ (field ≢ "")
required_iff field e = ground (arith, eq_iff field "")

abbrev port_errors : ℕ → List NodeError
port_errors port = if ltb port 1 || ltb 65535 port then port_out_of_range ∷ [] else []

port_errors_iff : (port : ℕ) → (port_errors port ≡ []) ↔ ((1 ≤ port) × (port ≤ 65535))
port_errors_iff port = ground arith

-- `Validate` accepts exactly the nodes with a tag, a host, a port from 1 to 65535, and the fields that
-- their type needs.
pub validate_iff :
    (n : Node)
    → (validate n ≡ []) ↔ (
        (n.tag ≢ "")
        × (n.host ≢ "")
        × (1 ≤ n.port)
        × (n.port ≤ 65535)
        × NeedsFields (node_type n.type) n)
unfolding validate
validate_iff n = (
  (λ h.
      let (tag, rest) = append-nil_iff (required n.tag tag_required) _ h in
      let (host, rest') = append-nil_iff (required n.host host_required) _ rest in
      let (port, fields) = append-nil_iff (port_errors n.port) _ rest' in
      (
        (required_iff n.tag tag_required).0 tag,
        (required_iff n.host host_required).0 host,
        ((port_errors_iff n.port).0 port).0,
        ((port_errors_iff n.port).0 port).1,
        (type_errors_iff (node_type n.type) n).0 fields,
      )),
  λ (tag, host, low, high, fields). rw (
    (required_iff n.tag tag_required).1 tag,
    (required_iff n.host host_required).1 host,
    (port_errors_iff n.port).1 (low, high),
    (type_errors_iff (node_type n.type) n).1 fields,
  ),
)
