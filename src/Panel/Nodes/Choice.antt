-- ===== src/Panel/Nodes/Choice.antt =====
-- The guards of internal/panel/bridge.go against the validations behind them: `Validate` of
-- internal/singbox/config.go and `Validate` of internal/bridge/model.go.
use mtproxy_orchestrator.Base.{
  ℕ, ◌≤◌, String, Bool, true, false, if◌then◌else◌, not, ◌||◌, Option, none, some, List, [], ◌≡◌,
  ◌≢◌, ◌⊎◌, ◌↔◌, refl, ap, sym, ◌∙◌, inl, inr, arith, subst, Bool-cases, length, length-map,
  length-append, take, drop, take-append-drop, ltb, str_eq, eq_iff,
}
use mtproxy_orchestrator.Bridge.Node.{Node, NodeList, active, validate, node_type}
use mtproxy_orchestrator.Bridge.Rotation.{
  Strategy, roundrobin, normalize_strategy, render_nodes, render_outbounds, rotate, is_rotated,
  offset_of, node_to_outbound, config_is_valid,
}
use mtproxy_orchestrator.Bridge.Host.{Env, Host, load}
use mtproxy_orchestrator.Panel.Actions.{bad_request}
use mtproxy_orchestrator.Panel.Nodes.{Server, Desk, Request, save_with_rollback}
use mtproxy_orchestrator.Panel.Nodes.Handlers.{
  with_nodes, saved_answer, set_strategy, handle_bridge_set_strategy,
}
use mtproxy_orchestrator.Panel.Nodes.Edits.{too_few, is_strategy}
use mtproxy_orchestrator.Panel.Nodes.Form.{
  NodeForm, port_of_form, in_range, protocol_fields, has_fields, form_node, checked, node_of_form,
}
use mtproxy_orchestrator.Bridge.Node.Laws.{NeedsFields, validate_iff}
use mtproxy_orchestrator.Update.Text.{codes, atoi}

length-rotate : (offset : ℕ) (ns : List Node) → length (rotate offset ns) ≡ length ns
length-rotate offset ns =
    let whole = ap length (take-append-drop offset ns) in
    let joined = length-append (take offset ns) (drop offset ns) in
    let turned = length-append (drop offset ns) (take offset ns) in
    omega (arith, whole, joined, turned)

length-render_outbounds :
    (nl : NodeList) (strategy : Strategy)
    → length (render_outbounds nl strategy).0 ≡ length (active nl)
unfolding render_outbounds render_nodes
length-render_outbounds nl strategy =
    length-map node_to_outbound (render_nodes nl strategy).0
    ∙ elim (Bool-cases (is_rotated strategy (active nl))) [
      | inl e ↦
          rw e (length-rotate (offset_of nl.round_robin_cursor (length (active nl))) (active nl))
      | inr e ↦ rw e refl
    ]

-- The guard holds exactly for the configurations that are valid.
strategy_guard :
    (nl : NodeList) (strategy : String)
    → let chosen = record nl { strategy = strategy } in
      let s = normalize_strategy strategy in
      config_is_valid (record { strategy = s; outbounds = (render_outbounds chosen s).0 })
      ≡ not (too_few strategy (length (active nl)))
unfolding config_is_valid normalize_strategy active
strategy_guard nl strategy =
    let s = normalize_strategy strategy in
    let count = length-render_outbounds (record nl { strategy = strategy }) s in
    ap (λ n. enough s n) count ∙ guard strategy (length (active nl))
  where
    enough : Strategy → ℕ → Bool
    enough s n = elim s [ roundrobin ↦ ltb 1 n | _ ↦ ltb 0 n ]

    guard : (text : String) (n : ℕ) → enough (normalize_strategy text) n ≡ not (too_few text n)
    guard text n = elim (Bool-cases (str_eq text "roundrobin")) [
      | inl e ↦
          let is : text ≡ "roundrobin" = (eq_iff text "roundrobin").0 e in
          subst (λ t. enough (normalize_strategy t) n ≡ not (too_few t n)) (sym is) (ground arith)
      | inr e ↦ ground (arith, e)
    ]

checked-some :
    (trim : String → String) (f : NodeForm) (blank : Bool) (port : Option ℕ) (fields : Bool)
    {n : Node}
    → checked trim f blank port fields ≡ some n
    → (p : ℕ) × ((blank ≡ false) × ((port ≡ some p) × ((fields ≡ true) × (form_node trim f p ≡ n))))
checked-some trim f true port fields h = cc
checked-some trim f false none fields h = cc
checked-some trim f false (some p) false h = cc
checked-some trim f false (some p) true {n} h =
    let node : form_node trim f p ≡ n = cc h in (p, (refl, (refl, (refl, node))))

in_range-bounds : (o : Option ℕ) (p : ℕ) → in_range o ≡ some p → (1 ≤ p) × (p ≤ 65535)
in_range-bounds none p h = cc
in_range-bounds (some q) p h = ground (arith, h)

module _ (f : NodeForm) (n : Node)
    (same : (n.password ≡ f.password)
      × ((n.sni ≡ f.sni)
          × ((n.method ≡ f.method) × ((n.uuid ≡ f.uuid) × (n.public_key ≡ f.public_key))))) where
  abbrev Asks : String → Type 0
  Asks t = protocol_fields t f ≡ true → NeedsFields (node_type t) n

  at_protocol : (s t : String) → Asks s → (str_eq t s ≡ false → Asks t) → Asks t
  at_protocol s t here else_where = elim (Bool-cases (str_eq t s)) [
    | inl e ↦ subst Asks (sym ((eq_iff t s).0 e)) here
    | inr e ↦ else_where e
  ]

  -- What the switch of the handler asks for is what `Validate` asks for.
  protocol_fields-NeedsFields : (t : String) → Asks t
  unfolding protocol_fields node_type
  protocol_fields-NeedsFields t =
      let password = eq_iff f.password "" in
      let sni = eq_iff f.sni "" in
      let method = eq_iff f.method "" in
      let uuid = eq_iff f.uuid "" in
      let key = eq_iff f.public_key "" in
      at_protocol "vless-reality" t (λ h. ground arith)
        λ e1.
          at_protocol "trojan" t (λ h. ground arith)
            λ e2.
              at_protocol "shadowsocks" t (λ h. ground arith)
                λ e3.
                  at_protocol "hysteria2" t (λ h. ground arith)
                    λ e4. at_protocol "tuic" t (λ h. ground arith) λ e5 h. absurd (ground arith)

-- A form that is accepted makes a node that `Validate` has nothing against.
node_of_form-validate :
    (trim : String → String) (f : NodeForm) (n : Node)
    → node_of_form trim f ≡ some n
    → validate n ≡ []
unfolding node_of_form port_of_form has_fields
node_of_form-validate trim f n h =
    let blank = str_eq (trim f.tag) "" || (str_eq (trim f.host) "" || str_eq f.port "") in
    let (p, (filled, (port, (fields, node)))) =
      checked-some trim f blank (port_of_form f.port) (has_fields f) h in
    let (low, high) = in_range-bounds (atoi (codes f.port)) p port in
    let tag : trim f.tag ≢ "" = ground (arith, filled, eq_iff (trim f.tag) "") in
    let host : trim f.host ≢ "" = ground (arith, filled, eq_iff (trim f.host) "") in
    subst (λ m. validate m ≡ []) node
      ((validate_iff (form_node trim f p)).1 (
        tag,
        host,
        low,
        high,
        protocol_fields-NeedsFields f (form_node trim f p) (refl, (refl, (refl, (refl, refl))))
            f.protocol fields,
      ))

module _ (env : Env) (srv : Server) where
  saved_answer-ne-bad_request :
      (saved : Bool × Host) (d : Desk) → (saved_answer env srv saved d).1 ≢ bad_request
  saved_answer-ne-bad_request (true, h) d = cc
  saved_answer-ne-bad_request (false, h) d = cc

  -- Behind its check of the name, the handler answers that a strategy is a bad request exactly when the
  -- configuration that it would render from the enabled nodes is not valid.
  saved_strategy_guard :
      (strategy : String) (nl : NodeList) (d : Desk)
      → (set_strategy env srv strategy nl d).1 ≡ bad_request
        ↔ let chosen = record nl { strategy = strategy } in
          let s = normalize_strategy strategy in
          config_is_valid (record { strategy = s; outbounds = (render_outbounds chosen s).0 })
          ≡ false
  unfolding set_strategy
  saved_strategy_guard strategy nl d =
      let valid = strategy_guard nl strategy in
      let saved = save_with_rollback env srv nl (record nl { strategy = strategy }) d.host in
      elim (Bool-cases (too_few strategy (length (active nl)))) [
        | inl e ↦ (λ h. valid ∙ ap not e, λ h. rw e refl)
        | inr e ↦ (
          λ h. absurd (
              saved_answer-ne-bad_request saved d (
                subst
                  (λ few.
                    (if few then (d, bad_request) else saved_answer env srv saved d).1
                    ≡ bad_request)
                  e h)),
          λ h. absurd (cc (h, valid ∙ ap not e)),
        )
      ]

  -- With a valid token and a list of nodes that can be loaded, the handler answers that a strategy is a
  -- bad request exactly when its name is unknown, or the configuration that it would render from the
  -- enabled nodes is not valid by `Config.Validate`.
  pub handle_bridge_set_strategy_guard :
      (r : Request) (strategy : String) (nl : NodeList) (d : Desk)
      → r.csrf_valid ≡ true
      → (load env d.host).0 ≡ some nl
      → (handle_bridge_set_strategy env srv r strategy d).1 ≡ bad_request
        ↔ let chosen = record nl { strategy = strategy } in
          let s = normalize_strategy strategy in
          (is_strategy strategy ≡ false)
          ⊎ (config_is_valid (record { strategy = s; outbounds = (render_outbounds chosen s).0 })
              ≡ false)
  unfolding handle_bridge_set_strategy with_nodes
  handle_bridge_set_strategy_guard r strategy nl d token loaded =
      let behind = saved_strategy_guard strategy nl (record d { host = (load env d.host).1 }) in
      elim (Bool-cases (is_strategy strategy)) [
        | inr e ↦ (λ h. inl e, λ h. rw (token, e) refl)
        | inl e ↦ (
          λ h. inr (behind.0 (rw (token, e, loaded) at h)),
          λ h. elim h [
            | inl unknown ↦ absurd (cc (e, unknown))
            | inr invalid ↦ rw (token, e, loaded) (behind.1 invalid)
          ],
        )
      ]
