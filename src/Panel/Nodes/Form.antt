-- ===== src/Panel/Nodes/Form.antt =====
-- The forms of internal/panel/bridge.go that make and edit a node, with the checks of
-- `handleBridgeAddNodeManual`. `trim` is `strings.TrimSpace`.
use mtproxy_orchestrator.Base.{
  ℕ, String, Bool, true, false, not, ◌||◌, Option, none, some, str_eq, ltb, if◌then◌else◌,
}
use mtproxy_orchestrator.Bridge.Node.{Node}
use mtproxy_orchestrator.Update.Text.{codes, atoi}

pub record NodeForm : Type 0 where
  pub protocol : String
  pub tag : String
  pub host : String
  pub port : String
  pub uuid : String
  pub password : String
  pub sni : String
  pub public_key : String
  pub short_id : String
  pub flow : String
  pub method : String
  pub congestion_control : String
  pub fingerprint : String

pub record EditForm : Type 0 where
  pub tag : String
  pub host : String
  pub port : String
  pub sni : String
  pub flow : String
  pub method : String
  pub congestion_control : String
  pub fingerprint : String

abbrev pub in_range : Option ℕ → Option ℕ
in_range none = none
in_range (some p) = if ltb p 1 || ltb 65535 p then none else some p

-- `strconv.Atoi` and the range of ports; the pattern of a negative number is above the range.
unfoldable pub port_of_form : String → Option ℕ
unfolding atoi
port_of_form s = in_range (atoi (codes s))

abbrev or_default : String → String → String
or_default value default = if str_eq value "" then default else value

-- The switch over the protocol: whether its fields are there, `false` for another protocol.
unfoldable pub protocol_fields : String → NodeForm → Bool
protocol_fields protocol f =
    if str_eq protocol "vless-reality"
    then not (str_eq f.uuid "" || (str_eq f.sni "" || str_eq f.public_key ""))
    else if str_eq protocol "trojan"
    then not (str_eq f.password "" || str_eq f.sni "")
    else if str_eq protocol "shadowsocks"
    then not (str_eq f.password "" || str_eq f.method "")
    else if str_eq protocol "hysteria2"
    then not (str_eq f.password "" || str_eq f.sni "")
    else if str_eq protocol "tuic"
    then not (str_eq f.uuid "" || (str_eq f.password "" || str_eq f.sni ""))
    else false

unfoldable pub has_fields : NodeForm → Bool
unfolding protocol_fields
has_fields f = protocol_fields f.protocol f

module _ (trim : String → String) where
  abbrev pub form_node : NodeForm → ℕ → Node
  form_node f port = record {
    id = 0;
    type = f.protocol;
    tag = trim f.tag;
    host = trim f.host;
    port = port;
    uuid = f.uuid;
    flow = f.flow;
    sni = f.sni;
    public_key = f.public_key;
    short_id = f.short_id;
    fingerprint =
        if str_eq f.protocol "vless-reality"
        then or_default f.fingerprint "chrome"
        else f.fingerprint;
    password = f.password;
    method = f.method;
    congestion_control =
        if str_eq f.protocol "tuic"
        then or_default f.congestion_control "bbr"
        else f.congestion_control;
    enabled = true;
    last_latency = 0;
    last_checked = none;
  }

  -- From the checks on: an empty field, the port, and the fields of the protocol.
  abbrev pub checked : NodeForm → Bool → Option ℕ → Bool → Option Node
  checked f true port fields = none
  checked f false none fields = none
  checked f false (some port) false = none
  checked f false (some port) true = some (form_node f port)

  -- The node of a form, `none` for a bad request.
  unfoldable pub node_of_form : NodeForm → Option Node
  unfolding has_fields port_of_form
  node_of_form f =
      checked f (str_eq (trim f.tag) "" || (str_eq (trim f.host) "" || str_eq f.port ""))
        (port_of_form f.port) (has_fields f)
