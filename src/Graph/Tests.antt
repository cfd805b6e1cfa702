-- ===== src/Graph/Tests.antt =====
-- Runs of the graph, and each theorem at a concrete input.
use mathlib.Core.List.{Perm, reverse_perm}
use mathlib.Core.List.Perm
use amqp_routing_inspector.Base.{
  ◌%◌, List, [], ◌∷◌, ◌++◌, reverse, map, ◌≡◌, refl, some, nat_eq, list_eq, list_beq,
}
use amqp_routing_inspector.Base.Text.{codes, trim_space}
use amqp_routing_inspector.Base.Decimal.{word, increment}
use amqp_routing_inspector.Base.Map.{lookup}
use amqp_routing_inspector.Base.Order.{IsAscending}
use amqp_routing_inspector.Model.{RoutingTrace, plain_event, to_queue}
use amqp_routing_inspector.Graph.{EdgeKey, edge_key_beq, Graph, new, add_trace, edges, edge_less}
use amqp_routing_inspector.Graph.Counts.{
  add_traces, count_of, occurrences, all_routes, count_of-new,
}
use amqp_routing_inspector.Graph.Invariant.{IsWellFormed, add_traces-new-IsWellFormed}
use amqp_routing_inspector.Graph.Sorted.{edges_perm_eq, edges-IsAscending}
use amqp_routing_inspector.Graph.Render.{quote, escape, dot, mermaid_exchange_id, is_id_rune}
use amqp_routing_inspector.Graph.Render.Dot.{read_quoted, read_quoted-escape, dot_perm_eq}
use amqp_routing_inspector.Graph.Render.Mermaid.{mermaid_merges}

abbrev routed : RoutingTrace
routed = record {
  event = plain_event (codes " orders ") (codes "publish") (codes "new");
  destinations = to_queue (codes "b") ∷ to_queue (codes "a") ∷ to_queue (codes "b") ∷ [];
}

abbrev lost : RoutingTrace
lost = record { event = plain_event [] (codes "publish") (codes "x"); destinations = [] }

abbrev traces : List RoutingTrace
traces = routed ∷ lost ∷ []

-- Shut, so that the theorems below are applied to it as it stands.
sample : Graph
sample = add_traces (new (codes "g")) traces

sample-IsWellFormed : IsWellFormed sample
unfolding sample
sample-IsWellFormed = add_traces-new-IsWellFormed (codes "g") traces

abbrev to_b : EdgeKey
to_b = record { from = codes "orders"; to = codes "b"; label = codes "new" }

two_to_b : count_of to_b sample ≡ 2
unfolding sample new add_trace lookup increment edge_key_beq list_beq trim_space
two_to_b = refl

sorted_ends : map (λ e. e.to_queue) (edges sample) ≡ codes "(unrouted)" ∷ codes "a" ∷ codes "b" ∷ []
unfolding sample new add_trace edges edge_key_beq list_beq trim_space
sorted_ends = refl

count_of-new_example :
    count_of to_b (add_traces (new (codes "g")) traces)
    ≡ occurrences to_b (all_routes traces) % word
count_of-new_example = count_of-new (codes "g") traces to_b

add_traces-new-IsWellFormed_example : IsWellFormed (add_traces (new (codes "g")) traces)
add_traces-new-IsWellFormed_example = add_traces-new-IsWellFormed (codes "g") traces

edges-IsAscending_example :
    IsAscending edge_less (edges sample) × Perm (edges sample) (map (λ e. e.1) sample.edges)
edges-IsAscending_example = edges-IsAscending sample sample-IsWellFormed

edges_perm_eq_example : edges (record sample { edges = reverse sample.edges }) ≡ edges sample
edges_perm_eq_example =
    edges_perm_eq sample (reverse sample.edges) sample-IsWellFormed
      (Perm.symm (reverse_perm sample.edges))

read_quoted-escape_example :
    read_quoted (escape (codes "a\"b\\") ++ quote ∷ codes "];") ≡ some (codes "a\"b\\", codes "];")
read_quoted-escape_example = read_quoted-escape (codes "a\"b\\") (codes "];")

dot_perm_eq_example :
    dot (record sample {
      exchanges = reverse sample.exchanges;
      queues = reverse sample.queues;
      edges = reverse sample.edges;
    })
    ≡ dot sample
dot_perm_eq_example =
    dot_perm_eq sample (reverse sample.exchanges) (reverse sample.queues) (reverse sample.edges)
      sample-IsWellFormed (Perm.symm (reverse_perm sample.exchanges))
      (Perm.symm (reverse_perm sample.queues)) (Perm.symm (reverse_perm sample.edges))

-- "eu.orders" and "eu-orders" are one node.
mermaid_merges_example :
    mermaid_exchange_id (codes "eu" ++ b'.' ∷ codes "orders")
    ≡ mermaid_exchange_id (codes "eu" ++ b'-' ∷ codes "orders")
mermaid_merges_example =
    mermaid_merges (codes "eu") (codes "orders") b'.' b'-' (unfold is_id_rune in refl)
      (unfold is_id_rune in refl)
