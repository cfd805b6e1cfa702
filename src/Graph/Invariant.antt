-- ===== src/Graph/Invariant.antt =====
-- internal/graph/graph.go: what holds of every graph that New and AddTrace build.
use mathlib.Core.List.{Nodup, Nodup-nil}
use amqp_routing_inspector.Base.{
  true, List, [], ◌∷◌, ◌≡◌, refl, All, All-map, list_eq, nat_eq, arith, beq_refl,
}
use amqp_routing_inspector.Base.Text.{Text}
use amqp_routing_inspector.Base.Map.{
  keys, put, put-Nodup, contains, contains-put, keys-update-Nodup, All-update,
}
use amqp_routing_inspector.Model.{QueueDestination, RoutingTrace}
use amqp_routing_inspector.Graph.{
  Edge, EdgeKey, edge_key_eq, Graph, new, trace_exchange, edge_key, count_edge, edge_destinations,
  add_destination, add_destinations, add_trace,
}
use amqp_routing_inspector.Graph.Counts.{add_traces}

-- The edge stored under a key has the key's ends and label.
abbrev pub IsKeyed : EdgeKey × Edge → Type 0
IsKeyed (k, e) = (e.from_exchange ≡ k.from) × (e.to_queue ≡ k.to) × (e.label ≡ k.label)

-- Both ends of an edge are nodes of the graph.
abbrev pub IsClosed : List Text → List Text → EdgeKey × Edge → Type 0
IsClosed exchanges queues (k, e) =
    (contains k.from exchanges ≡ true) × (contains k.to queues ≡ true)

pub record IsWellFormed (g : Graph) : Type 0 where
  pub exchanges_once : Nodup g.exchanges
  pub queues_once : Nodup g.queues
  pub edges_once : Nodup (keys g.edges)
  pub keyed : All IsKeyed g.edges
  pub closed : All (IsClosed g.exchanges g.queues) g.edges

new-IsWellFormed : (name : Text) → IsWellFormed (new name)
unfolding new
new-IsWellFormed name = record {
  exchanges_once = Nodup-nil;
  queues_once = Nodup-nil;
  edges_once = Nodup-nil;
  keyed = tt;
  closed = tt;
}

contains-put_self : (k : Text) (s : List Text) → contains k (put k s) ≡ true
contains-put_self k s = ground (arith, contains-put k k s, beq_refl k)

contains-put_of : (k j : Text) (s : List Text) → contains j s ≡ true → contains j (put k s) ≡ true
contains-put_of k j s h = ground (arith, contains-put k j s)

edge_key-from :
    (trace : RoutingTrace) (d : QueueDestination) → (edge_key trace d).from ≡ trace_exchange trace
unfolding edge_key
edge_key-from trace d = refl

add_destination-IsWellFormed :
    (trace : RoutingTrace) (g : Graph) (d : QueueDestination)
    → contains (trace_exchange trace) g.exchanges ≡ true
    → IsWellFormed g
    → IsWellFormed (add_destination trace g d)
unfolding add_destination
add_destination-IsWellFormed trace g d at w = record {
  exchanges_once = w.exchanges_once;
  queues_once = put-Nodup (edge_key trace d).to g.queues w.queues_once;
  edges_once = keys-update-Nodup (edge_key trace d) _ count_edge g.edges w.edges_once;
  keyed =
      All-update IsKeyed (edge_key trace d) _ count_edge g.edges (λ j v h. h) (refl, refl, refl)
        w.keyed;
  closed =
      All-update (IsClosed g.exchanges (put (edge_key trace d).to g.queues)) (edge_key trace d) _
        count_edge g.edges (λ j v h. h) (at, contains-put_self (edge_key trace d).to g.queues)
        (All-map _ _ g.edges
          (λ (j, v) h. (h.0, contains-put_of (edge_key trace d).to j.to g.queues h.1)) w.closed);
}

add_destinations-IsWellFormed :
    (trace : RoutingTrace) (g : Graph) (ds : List QueueDestination)
    → contains (trace_exchange trace) g.exchanges ≡ true
    → IsWellFormed g
    → IsWellFormed (add_destinations trace g ds)
unfolding add_destinations
add_destinations-IsWellFormed trace g [] at w = w
add_destinations-IsWellFormed trace g (d ∷ ds) at w =
    add_destinations-IsWellFormed trace (add_destination trace g d) ds
      (unfold add_destination in at) (add_destination-IsWellFormed trace g d at w)

-- AddTrace keeps a graph well formed: no node or edge is entered twice, each edge is stored under its
-- own key, and both its ends are nodes.
pub add_trace-IsWellFormed :
    (g : Graph) (trace : RoutingTrace) → IsWellFormed g → IsWellFormed (add_trace g trace)
unfolding add_trace
add_trace-IsWellFormed g trace w =
    add_destinations-IsWellFormed trace
      (record g { exchanges = put (trace_exchange trace) g.exchanges }) (edge_destinations trace)
      (contains-put_self (trace_exchange trace) g.exchanges)
      (record {
        exchanges_once = put-Nodup (trace_exchange trace) g.exchanges w.exchanges_once;
        queues_once = w.queues_once;
        edges_once = w.edges_once;
        keyed = w.keyed;
        closed =
            All-map _ _ g.edges
              (λ (j, v) h. (contains-put_of (trace_exchange trace) j.from g.exchanges h.0, h.1))
              w.closed;
      })

add_traces-IsWellFormed :
    (g : Graph) (ts : List RoutingTrace) → IsWellFormed g → IsWellFormed (add_traces g ts)
add_traces-IsWellFormed g [] w = w
add_traces-IsWellFormed g (t ∷ ts) w =
    add_traces-IsWellFormed (add_trace g t) ts (add_trace-IsWellFormed g t w)

-- So every graph that the program builds is well formed.
pub add_traces-new-IsWellFormed :
    (name : Text) (ts : List RoutingTrace) → IsWellFormed (add_traces (new name) ts)
add_traces-new-IsWellFormed name ts = add_traces-IsWellFormed (new name) ts (new-IsWellFormed name)
