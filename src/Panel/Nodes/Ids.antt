-- ===== src/Panel/Nodes/Ids.antt =====
-- The ids of the nodes under the changes of internal/panel/bridge.go.
use mtproxy_orchestrator.Base.{
  ℕ, String, Bool, not, Option, none, some, List, [], ◌∷◌, ◌≡◌, ◌≢◌, refl, sym, inl, inr, subst,
  All, Bool-cases, filter, find, ◌==◌,
}
use mtproxy_orchestrator.Base.Sql.{Distinct}
use mtproxy_orchestrator.Bridge.Node.{Node, NodeList}
use mtproxy_orchestrator.Bridge.Node.Laws.{Distinct-next_id}
use mtproxy_orchestrator.Panel.Nodes.Form.{EditForm}
use mtproxy_orchestrator.Panel.Nodes.Edits.{
  append_node, put_node, change_first, with_list, toggle_node, edited, edit_node, ping_node,
  latency_of, delete_node,
}

abbrev id_of : Node → ℕ
id_of n = n.id

abbrev pub HasIds : NodeList → Type 0
HasIds nl = Distinct id_of nl.nodes

abbrev InSome {ℓ} : {A : Type ℓ} → (A → Type 0) → Option A → Type 0
InSome Q none = Unit
InSome Q (some a) = Q a

put_node-InSome :
    (P Q R : List Node → Type 0) (n : Node) (o : Option (List Node))
    → ((ns : List Node) → P ns → Q ns → R (n ∷ ns))
    → InSome P o
    → InSome Q o
    → InSome R (put_node n o)
put_node-InSome P Q R n none join p q = tt
put_node-InSome P Q R n (some ns) join p q = join ns p q

module _ (id : ℕ) (f : Node → Node) (keeps : (n : Node) → (f n).id ≡ n.id) where
  change_first-All :
      (P : ℕ → Type 0) (ns : List Node)
      → All (λ n. P n.id) ns
      → InSome (All (λ n. P n.id)) (change_first id f ns)
  unfolding change_first
  change_first-All P [] a = tt
  change_first-All P (n ∷ ns) a = elim (Bool-cases (n.id == id)) [
    | inl e ↦ rw e (subst P (sym (keeps n)) a.0, a.1)
    | inr e ↦ rw e (
        put_node-InSome (All (λ m. P m.id)) (All (λ m. P m.id)) (All (λ m. P m.id)) n
          (change_first id f ns) (λ ms p q. (a.0, p)) (change_first-All P ns a.1)
          (change_first-All P ns a.1))
  ]

  change_first-Distinct :
      (ns : List Node) → Distinct id_of ns → InSome (Distinct id_of) (change_first id f ns)
  unfolding change_first
  change_first-Distinct [] d = tt
  change_first-Distinct (n ∷ ns) d = elim (Bool-cases (n.id == id)) [
    | inl e ↦ rw e (subst (λ i. All (λ m. i ≢ m.id) ns) (sym (keeps n)) d.0, d.1)
    | inr e ↦ rw e (
        put_node-InSome (All (λ m. n.id ≢ m.id)) (Distinct id_of) (Distinct id_of) n
          (change_first id f ns) (λ ms p q. (p, q)) (change_first-All (λ i. n.id ≢ i) ns d.0)
          (change_first-Distinct ns d.1))
  ]

  with_list-HasIds :
      (nl nl' : NodeList)
      → HasIds nl
      → with_list nl (change_first id f nl.nodes) ≡ some nl'
      → HasIds nl'
  with_list-HasIds nl nl' d h =
      subst (λ o. InSome HasIds o) h
        (behind (change_first id f nl.nodes) (change_first-Distinct nl.nodes d))
    where
      behind : (o : Option (List Node)) → InSome (Distinct id_of) o → InSome HasIds (with_list nl o)
      behind none p = tt
      behind (some ns) p = p

filter-All : (P : Node → Type 0) (p : Node → Bool) (ns : List Node) → All P ns → All P (filter p ns)
filter-All P p [] a = tt
filter-All P p (n ∷ ns) a = elim (Bool-cases (p n)) [
  | inl e ↦ rw e (a.0, filter-All P p ns a.1)
  | inr e ↦ rw e (filter-All P p ns a.1)
]

filter-Distinct :
    (p : Node → Bool) (ns : List Node) → Distinct id_of ns → Distinct id_of (filter p ns)
filter-Distinct p [] d = tt
filter-Distinct p (n ∷ ns) d = elim (Bool-cases (p n)) [
  | inl e ↦ rw e (filter-All (λ m. n.id ≢ m.id) p ns d.0, filter-Distinct p ns d.1)
  | inr e ↦ rw e (filter-Distinct p ns d.1)
]

delete_node-HasIds :
    (id : ℕ) (nl nl' : NodeList) → HasIds nl → delete_node id nl ≡ some nl' → HasIds nl'
unfolding delete_node
delete_node-HasIds id nl nl' d h =
    subst (λ o. InSome HasIds o) h (behind (find (λ n. n.id == id) nl.nodes))
  where
    behind :
        (o : Option Node)
        → InSome HasIds (elim o as (λ x. Option NodeList) [
          | none ↦ none
          | some n ↦ some (record nl { nodes = filter (λ m. not (m.id == id)) nl.nodes })
        ])
    behind none = tt
    behind (some n) = filter-Distinct (λ m. not (m.id == id)) nl.nodes d

-- One change of the node list by a handler.
pub data Change (nl nl' : NodeList) : Type 0 where
  added : (node : Node) → nl' ≡ append_node node nl → Change nl nl'
  toggled : (id : ℕ) → toggle_node id nl ≡ some nl' → Change nl nl'
  edited_form :
      (trim : String → String) (form : EditForm) (port id : ℕ)
      → edit_node trim form port id nl ≡ some nl'
      → Change nl nl'
  pinged :
      (probe : Node → Option ℕ) (now id : ℕ) → ping_node probe now id nl ≡ some nl' → Change nl nl'
  deleted : (id : ℕ) → delete_node id nl ≡ some nl' → Change nl nl'
  strategy_set : (strategy : String) → nl' ≡ record nl { strategy = strategy } → Change nl nl'

Change-HasIds : {nl nl' : NodeList} → Change nl nl' → HasIds nl → HasIds nl'
unfolding toggle_node edit_node ping_node append_node
Change-HasIds {nl} {nl'} (Change.added node e) d =
    subst HasIds (sym e) (Distinct-next_id nl (record node { id = _ }) refl d)
Change-HasIds {nl} {nl'} (Change.toggled id e) d =
    with_list-HasIds id (λ n. record n { enabled = not n.enabled }) (λ n. refl) nl nl' d e
Change-HasIds {nl} {nl'} (Change.edited_form trim form port id e) d =
    with_list-HasIds id (edited trim form port) (λ n. refl) nl nl' d e
Change-HasIds {nl} {nl'} (Change.pinged probe now id e) d =
    with_list-HasIds id
      (λ n. record n { last_latency = latency_of (probe n); last_checked = some now }) (λ n. refl)
      nl nl' d e
Change-HasIds {nl} {nl'} (Change.deleted id e) d = delete_node-HasIds id nl nl' d e
Change-HasIds {nl} {nl'} (Change.strategy_set strategy e) d = subst HasIds (sym e) d

-- The lists that the handlers make of another.
pub data Changes (first : NodeList) : NodeList → Type 0 where
  none_yet : Changes first first
  then_change : {nl nl' : NodeList} → Changes first nl → Change nl nl' → Changes first nl'

-- However the handlers add, edit, toggle, test and delete nodes and set the strategy of a list of nodes
-- with different ids, its nodes have different ids: an id in a path names one node.
pub Changes-HasIds : {first nl : NodeList} → Changes first nl → HasIds first → HasIds nl
Changes-HasIds Changes.none_yet d = d
Changes-HasIds (Changes.then_change before change) d =
    Change-HasIds change (Changes-HasIds before d)
