-- ===== src/Graph/Sorted.antt =====
-- internal/graph/graph.go: Edges and mapKeys return the same list whatever order Go walks the maps in.
use mathlib.Core.HLevel.{hedberg}
use mathlib.Core.List.{Nodup, Perm, map-id}
use mathlib.Core.List.Perm
use native.Mathlib.Decide.{ℕ_discrete}
use amqp_routing_inspector.Base.{
  ◌≢◌, List, [], ◌∷◌, ◌≡◌, refl, sym, All, list_eq, nat_eq, arith, map, list_beq_iff,
}
use amqp_routing_inspector.Base.Text.{Text, text_ltb}
use amqp_routing_inspector.Base.Text.Less.{text_ltb-IsStrictOrder, text_ltb_connected}
use amqp_routing_inspector.Base.Order.{
  by_key-IsStrictOrder, IsStrictOrder, IsAscending, Comparable, sort_perm_eq, sort-IsAscending,
  Nodup-AllComparable, sort-perm,
}
use amqp_routing_inspector.Base.Map.{keys}
use amqp_routing_inspector.Graph.{Edge, EdgeKey, edge_key_eq, Graph, edge_less, edges, map_keys}
use amqp_routing_inspector.Graph.Invariant.{IsWellFormed, IsKeyed}

Text-discrete : Discrete Text
Text-discrete = hlevel ℕ_discrete

Text-set : IsSet Text
Text-set = hedberg Text-discrete

Edge-discrete : Discrete Edge
Edge-discrete = hlevel ℕ_discrete

Edge-set : IsSet Edge
Edge-set = hedberg Edge-discrete

-- The key under which an edge is stored.
abbrev key_of : Edge → EdgeKey
key_of e = record { from = e.from_exchange; to = e.to_queue; label = e.label }

label_less-IsStrictOrder : IsStrictOrder {A = Edge} (λ a b. text_ltb a.label b.label)
label_less-IsStrictOrder = record {
  irrefl = λ a. text_ltb-IsStrictOrder.irrefl a.label;
  trans = λ a b c. text_ltb-IsStrictOrder.trans a.label b.label c.label;
}

pub edge_less-IsStrictOrder : IsStrictOrder edge_less
unfolding edge_less
edge_less-IsStrictOrder =
    by_key-IsStrictOrder _ _ _ text_ltb-IsStrictOrder
      (by_key-IsStrictOrder _ _ _ text_ltb-IsStrictOrder label_less-IsStrictOrder)

edge_less_connected : (a b : Edge) → key_of a ≢ key_of b → Comparable edge_less a b
unfolding edge_less
edge_less_connected a b h = ground (
  arith,
  list_beq_iff a.from_exchange b.from_exchange,
  list_beq_iff b.from_exchange a.from_exchange,
  list_beq_iff a.to_queue b.to_queue,
  list_beq_iff b.to_queue a.to_queue,
  text_ltb_connected a.from_exchange b.from_exchange,
  text_ltb_connected a.to_queue b.to_queue,
  text_ltb_connected a.label b.label,
)

keys-IsKeyed : (m : List (EdgeKey × Edge)) → All IsKeyed m → map key_of (map (λ e. e.1) m) ≡ keys m
keys-IsKeyed [] h = refl
keys-IsKeyed ((k, e) ∷ m) h = ground (arith, keys-IsKeyed m h.1)

keys-Nodup : (g : Graph) → IsWellFormed g → Nodup (map key_of (map (λ e. e.1) g.edges))
keys-Nodup g w = rw (keys-IsKeyed g.edges w.keyed) w.edges_once

-- Edges of a well-formed graph does not depend on the order in which the map is walked.
pub edges_perm_eq :
    (g : Graph) (walked : List (EdgeKey × Edge))
    → IsWellFormed g
    → Perm g.edges walked
    → edges (record g { edges = walked }) ≡ edges g
unfolding edges
edges_perm_eq g walked w p = sym (
    sort_perm_eq edge_less-IsStrictOrder key_of Edge-set edge_less_connected _ _
      (Perm.map (λ e. e.1) p) (keys-Nodup g w))

-- The edges come out strictly ascending, and they are the edges of the graph.
pub edges-IsAscending :
    (g : Graph)
    → IsWellFormed g
    → IsAscending edge_less (edges g) × Perm (edges g) (map (λ e. e.1) g.edges)
unfolding edges
edges-IsAscending g w = (
  sort-IsAscending edge_less-IsStrictOrder _ (
      Nodup-AllComparable edge_less-IsStrictOrder key_of Edge-set edge_less_connected _
        (keys-Nodup g w)),
  sort-perm edge_less _,
)

-- The names of the nodes do not depend on it either.
pub map_keys_perm_eq :
    (names walked : List Text) → Nodup names → Perm names walked → map_keys walked ≡ map_keys names
unfolding map_keys
map_keys_perm_eq names walked n p = sym (
    sort_perm_eq text_ltb-IsStrictOrder (λ s. s) Text-set text_ltb_connected _ _ p
      (rw (map-id names) n))
