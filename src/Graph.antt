-- ===== src/Graph.antt =====
-- internal/graph/graph.go: the routing graph, folded over traces.
pub mod Counts
pub mod Invariant
pub mod Sorted
pub mod Render
mod Tests
use amqp_routing_inspector.Base.{
  ℕ, Bool, true, false, ◌&&◌, List, [], ◌∷◌, ◌≡◌, ◌↔◌, map, nat_eq, list_eq, ◌==◌, Key, is_nil,
  arith, list_beq_iff, if◌then◌else◌,
}
use amqp_routing_inspector.Base.Text.{Text, codes, trim_space, text_ltb}
use amqp_routing_inspector.Base.Decimal.{increment}
use amqp_routing_inspector.Base.Map.{lookup, update, put}
use amqp_routing_inspector.Base.Order.{sort, by_key}
use amqp_routing_inspector.Model.{QueueDestination, RoutingTrace, resolved}

-- The count is the bit pattern of an int.
pub record Edge : Type 0 where
  pub from_exchange : Text
  pub to_queue : Text
  pub label : Text
  pub count : ℕ

pub record EdgeKey : Type 0 where
  pub from : Text
  pub to : Text
  pub label : Text

unfoldable pub edge_key_beq : EdgeKey → EdgeKey → Bool
edge_key_beq a b = a.from == b.from && a.to == b.to && a.label == b.label

pub edge_key_beq_iff : (a b : EdgeKey) → (edge_key_beq a b ≡ true) ↔ (a ≡ b)
unfolding edge_key_beq
edge_key_beq_iff a b =
    ground (arith, list_beq_iff a.from b.from, list_beq_iff a.to b.to, list_beq_iff a.label b.label)

instance abbrev pub edge_key_eq : Key EdgeKey
edge_key_eq = record { same = edge_key_beq; same_iff = edge_key_beq_iff }

-- The pointers of the map `edges` are followed: an entry holds the edge itself.
pub record Graph : Type 0 where
  pub name : Text
  pub exchanges : List Text
  pub queues : List Text
  pub edges : List (EdgeKey × Edge)

unfoldable pub normalize : Text → Text → Text
normalize value fallback =
    let trimmed = trim_space value in if is_nil trimmed then fallback else trimmed

unfoldable pub first_non_empty : List Text → Text
first_non_empty [] = []
first_non_empty (value ∷ values) =
    let trimmed = trim_space value in if is_nil trimmed then first_non_empty values else trimmed

abbrev pub unknown_exchange : Text
unknown_exchange = codes "(unknown-exchange)"

abbrev pub unknown_queue : Text
unknown_queue = codes "(unknown-queue)"

abbrev pub unrouted : Text
unrouted = codes "(unrouted)"

abbrev pub no_key : Text
no_key = codes "(no-key)"

-- New
unfoldable pub new : Text → Graph
unfolding normalize
new name = record {
  name = normalize name (codes "routing");
  exchanges = [];
  queues = [];
  edges = [];
}

-- The destinations that AddTrace walks: a trace with none goes to "(unrouted)".
unfoldable pub edge_destinations : RoutingTrace → List QueueDestination
unfolding resolved
edge_destinations trace =
    let destinations = resolved trace in
    if is_nil destinations
    then record { queue_name = unrouted; binding_key = [] } ∷ []
    else destinations

unfoldable pub trace_exchange : RoutingTrace → Text
unfolding normalize
trace_exchange trace = normalize trace.event.exchange_name unknown_exchange

unfoldable pub edge_key : RoutingTrace → QueueDestination → EdgeKey
unfolding trace_exchange first_non_empty normalize
edge_key trace destination = record {
  from = trace_exchange trace;
  to = normalize destination.queue_name unknown_queue;
  label = first_non_empty (destination.binding_key ∷ trace.event.routing_key ∷ no_key ∷ []);
}

-- `&Edge{...}`, with its count at zero.
abbrev pub fresh_edge : EdgeKey → Edge
fresh_edge key = record {
  from_exchange = key.from;
  to_queue = key.to;
  label = key.label;
  count = 0;
}

-- `edge.Count++`
abbrev pub count_edge : Edge → Edge
count_edge edge = record edge { count = increment edge.count }

-- The body of the loop of AddTrace.
unfoldable pub add_destination : RoutingTrace → Graph → QueueDestination → Graph
unfolding edge_key update put
add_destination trace g destination =
    let key = edge_key trace destination in
    record g {
      queues = put key.to g.queues;
      edges = update key (fresh_edge key) count_edge g.edges;
    }

unfoldable pub add_destinations : RoutingTrace → Graph → List QueueDestination → Graph
unfolding add_destination
add_destinations trace g [] = g
add_destinations trace g (d ∷ ds) = add_destinations trace (add_destination trace g d) ds

-- AddTrace
unfoldable pub add_trace : Graph → RoutingTrace → Graph
unfolding add_destinations edge_destinations trace_exchange put
add_trace g trace =
    add_destinations trace (record g { exchanges = put (trace_exchange trace) g.exchanges })
      (edge_destinations trace)

-- The comparison in Edges.
unfoldable pub edge_less : Edge → Edge → Bool
unfolding text_ltb
edge_less =
    by_key (λ e. e.from_exchange) text_ltb
      (by_key (λ e. e.to_queue) text_ltb (λ a b. text_ltb a.label b.label))

-- Edges
unfoldable pub edges : Graph → List Edge
unfolding edge_less sort
edges g = sort edge_less (map (λ e. e.1) g.edges)

-- mapKeys on a set of names.
unfoldable pub map_keys : List Text → List Text
unfolding sort text_ltb
map_keys names = sort text_ltb names
