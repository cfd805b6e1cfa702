-- ===== src/Output/Prometheus/Tests.antt =====
-- The metrics of some traces, and their theorems at them.
use mathlib.Core.List.{reverse_perm}
use mathlib.Core.List.Perm
use amqp_routing_inspector.Base.{
  ℕ, ◌%◌, Bool, false, List, [], ◌∷◌, ◌≡◌, map, reverse, nat_eq, list_eq,
}
use amqp_routing_inspector.Base.Text.{codes}
use amqp_routing_inspector.Base.Decimal.{word}
use amqp_routing_inspector.Base.Tally.{tally, occurrences}
use amqp_routing_inspector.Model.{RoutingTrace, plain_event, to_queue}
use amqp_routing_inspector.Output.Prometheus.{
  ExchangeEventKey, ExchangeQueueKey, PrometheusRenderer, event_key, event_key_eq, queue_key_eq,
  metrics_text,
}
use amqp_routing_inspector.Output.Prometheus.Counts.{
  render_traces, fresh, all_deliveries, unrouted_exchanges, render_traces-fresh,
  render_traces-HasUniqueKeys,
}
use amqp_routing_inspector.Output.Prometheus.Sorted.{metrics_text_perm_eq}

abbrev orders : RoutingTrace
orders = record {
  event = plain_event (codes "orders") (codes "publish") (codes "order.created");
  destinations = to_queue (codes "payments.q") ∷ to_queue [] ∷ [];
}

abbrev lost : RoutingTrace
lost = record {
  event = plain_event (codes "audit") (codes "Publish") (codes "a");
  destinations = [];
}

abbrev traces : List RoutingTrace
traces = orders ∷ lost ∷ orders ∷ []

abbrev orders_events : ExchangeEventKey
orders_events = record { exchange = codes "orders"; event_type = codes "publish" }

abbrev nameless : ExchangeQueueKey
nameless = record { exchange = codes "orders"; queue = codes "(unknown-queue)" }

render_traces-fresh_example :
    (tally orders_events (render_traces (fresh false) traces).events
      ≡ occurrences orders_events (map event_key traces) % word)
    × (tally nameless (render_traces (fresh false) traces).deliveries
        ≡ occurrences nameless (all_deliveries traces) % word)
    × (tally (codes "audit") (render_traces (fresh false) traces).unrouted
        ≡ occurrences (codes "audit") (unrouted_exchanges traces) % word)
render_traces-fresh_example =
    render_traces-fresh false traces orders_events nameless (codes "audit")

abbrev counted : PrometheusRenderer
counted = render_traces (fresh false) traces

abbrev none_printable : ℕ → Bool
none_printable c = false

metrics_text_perm_eq_example :
    metrics_text none_printable (record counted {
      events = reverse counted.events;
      deliveries = reverse counted.deliveries;
      unrouted = reverse counted.unrouted;
    })
    ≡ metrics_text none_printable counted
metrics_text_perm_eq_example =
    metrics_text_perm_eq none_printable counted (reverse counted.events)
      (reverse counted.deliveries) (reverse counted.unrouted)
      (render_traces-HasUniqueKeys false traces) (Perm.symm (reverse_perm counted.events))
      (Perm.symm (reverse_perm counted.deliveries)) (Perm.symm (reverse_perm counted.unrouted))
