-- ===== src/Output/Statsd/Tests.antt =====
-- The metrics of a trace, and their theorem at it.
use amqp_routing_inspector.Base.{[], ◌∷◌, ◌++◌, ◌≡◌, refl, map, list_beq, if◌then◌else◌}
use amqp_routing_inspector.Base.Text.{codes, split}
use amqp_routing_inspector.Model.{RoutingTrace, resolved, plain_event}
use amqp_routing_inspector.Output.Statsd.{metrics}
use amqp_routing_inspector.Output.Statsd.Laws.{
  event_path, unrouted_path, delivery_path, is_unrouted, split-metrics,
}

abbrev dotted : RoutingTrace
dotted = record {
  event = plain_event (codes "eu.orders") (codes "Publish") (codes "order.created");
  destinations = [];
}

dotted_metrics :
    metrics dotted
    ≡ codes "amqp.routing.events.eu_orders.Publish:1|c"
      ∷ codes "amqp.routing.unrouted.eu_orders:1|c"
      ∷ []
unfolding metrics list_beq
dotted_metrics = refl

split-metrics_example :
    map (split b'.') (metrics dotted)
    ≡ event_path dotted
      ∷ ((if is_unrouted dotted then unrouted_path dotted ∷ [] else [])
          ++ map (delivery_path dotted) (resolved dotted))
split-metrics_example = split-metrics dotted
