-- ===== src/Output/Tests.antt =====
-- The renderers' theorem at a concrete input.
use amqp_routing_inspector.Base.{[], ◌∷◌, ◌++◌, map, ◌≡◌, none}
use amqp_routing_inspector.Base.Text.{Text, codes}
use amqp_routing_inspector.Model.{RoutingTrace, plain_event, to_queue}
use amqp_routing_inspector.Graph.{new}
use amqp_routing_inspector.Graph.Counts.{add_traces}
use amqp_routing_inspector.Output.{as_dot, print, new_graph_renderer, rendering, closing}
use amqp_routing_inspector.Output.Laws.{
  after, replies, rendering_all, late, new_graph_renderer-after,
}

abbrev orders : RoutingTrace
orders = record {
  event = plain_event (codes "orders") (codes "publish") (codes "order.created");
  destinations = to_queue (codes "payments.q") ∷ [];
}

new_graph_renderer-after_example :
    ((after (new_graph_renderer as_dot (codes "g")) (
        rendering_all {E = Text} (orders ∷ orders ∷ [])
        ++ closing none ∷ rendering orders ∷ closing none ∷ [])).written
      ≡ print as_dot (add_traces (new (codes "g")) (orders ∷ orders ∷ [])) ∷ [])
    × (replies {E = Text}
          (after
            (new_graph_renderer as_dot (codes "g"))
            (rendering_all {E = Text} (orders ∷ orders ∷ []) ++ closing none ∷ []))
          (rendering orders ∷ closing none ∷ [])
        ≡ map (late as_dot) (rendering orders ∷ closing none ∷ []))
new_graph_renderer-after_example =
    new_graph_renderer-after as_dot (codes "g") (orders ∷ orders ∷ []) none
      (rendering orders ∷ closing none ∷ [])
