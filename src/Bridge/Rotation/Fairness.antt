-- ===== src/Bridge/Rotation/Fairness.antt =====
-- Round-robin over renders: each render keeps all nodes, and the first place goes round.
use mathlib.Core.List.{Perm, perm_append_comm}
use mathlib.Core.List.Perm
use native.Mathlib.Nat.{mod-lt, mod-add-mod}
use mtproxy_orchestrator.Base.{
  ℕ, zero, suc, ◌+◌, ◌%◌, ◌<◌, true, List, [], ◌∷◌, ◌++◌, ◌≡◌, refl, sym, ap, ◌∙◌, subst, arith,
  ltb, inl, inr, Bool-cases, length, filter, take, drop, get_elem?, take-append-drop,
}
use mtproxy_orchestrator.Base.Int.{pos}
use mtproxy_orchestrator.Bridge.Node.{Node, NodeList, active}
use mtproxy_orchestrator.Bridge.Rotation.{
  Strategy, roundrobin, offset_of, rotate, is_rotated, render_nodes,
}

rotate-perm : (k : ℕ) (ns : List Node) → Perm (rotate k ns) ns
rotate-perm k ns =
    subst (λ l. Perm (rotate k ns) l) (take-append-drop k ns)
      (perm_append_comm (drop k ns) (take k ns))

-- A render hands over every active node exactly as often as the list holds it, whatever the strategy
-- and the cursor, and keeps the nodes of the list.
render_nodes-perm :
    (nl : NodeList) (s : Strategy)
    → Perm (render_nodes nl s).0 (active nl) × ((render_nodes nl s).1.nodes ≡ nl.nodes)
unfolding render_nodes
render_nodes-perm nl s = elim (Bool-cases (is_rotated s (active nl))) [
  | inl e ↦
      rw e (rotate-perm (offset_of nl.round_robin_cursor (length (active nl))) (active nl), refl)
  | inr e ↦ rw e (Perm.refl (active nl), refl)
]

get_elem?-rotate :
    (k : ℕ) (ns rest : List Node) → k < length ns → get_elem? (drop k ns ++ rest) 0 ≡ get_elem? ns k
get_elem?-rotate zero (n ∷ ns) rest h = refl
get_elem?-rotate (suc k) (n ∷ ns) rest h = get_elem?-rotate k ns rest (omega arith)
get_elem?-rotate _ [] rest h = absurd (omega arith)

-- `k` renders in a row.
unfoldable pub render_times : ℕ → NodeList → NodeList
render_times zero nl = nl
render_times (suc k) nl = render_times k (render_nodes nl roundrobin).1

first_node :
    (nl : NodeList) (c : ℕ)
    → nl.round_robin_cursor ≡ pos c
    → 1 < length (active nl)
    → get_elem? (render_nodes nl roundrobin).0 0 ≡ get_elem? (active nl) (c % length (active nl))
unfolding render_nodes active
first_node nl c e h =
    let several : ltb 1 (length (active nl)) ≡ true = ground arith in
    rw several
      (rw e (get_elem?-rotate (c % length (active nl)) (active nl) _ (mod-lt c (omega arith))))

next_cursor :
    (nl : NodeList) (c : ℕ)
    → nl.round_robin_cursor ≡ pos c
    → 1 < length (active nl)
    → (render_nodes nl roundrobin).1.round_robin_cursor
      ≡ pos ((c % length (active nl) + 1) % length (active nl))
unfolding render_nodes active
next_cursor nl c e h =
    let several : ltb 1 (length (active nl)) ≡ true = ground arith in rw several (rw e refl)

same_nodes : (nl : NodeList) → active (render_nodes nl roundrobin).1 ≡ active nl
unfolding active
same_nodes nl = ap (λ ns. filter (λ n. n.enabled) ns) (render_nodes-perm nl roundrobin).1

cursor_sum : (c k n : ℕ) → ((c % n + 1) % n + k) % n ≡ (c + suc k) % n
cursor_sum c k n =
    let shifted : (c % n) + 1 + k ≡ (c % n) + suc k = omega arith in
    mod-add-mod (c % n + 1) n k ∙ ap (λ x. x % n) shifted ∙ mod-add-mod c n (suc k)

-- Round-robin is fair: with at least two active nodes and a cursor `c` that is not negative, the
-- first outbound of the render after `k` renders is the active node at `(c + k)` modulo their number.
render_times-first :
    (k : ℕ) (nl : NodeList) (c : ℕ)
    → nl.round_robin_cursor ≡ pos c
    → 1 < length (active nl)
    → get_elem? (render_nodes (render_times k nl) roundrobin).0 0
      ≡ get_elem? (active nl) ((c + k) % length (active nl))
unfolding render_times
render_times-first zero nl c e h =
    let at_c : c ≡ c + 0 = omega arith in
    first_node nl c e h ∙ ap (λ x. get_elem? (active nl) (x % length (active nl))) at_c
render_times-first (suc k) nl c e h =
    let n = length (active nl) in
    let nl' = (render_nodes nl roundrobin).1 in
    let kept : active nl' ≡ active nl = same_nodes nl in
    render_times-first k nl' ((c % n + 1) % n) (next_cursor nl c e h)
      (subst (λ l. 1 < length l) (sym kept) h)
    ∙ ap (λ l. get_elem? l (((c % n + 1) % n + k) % length l)) kept
    ∙ ap (get_elem? (active nl)) (cursor_sum c k n)
