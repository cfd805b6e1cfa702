-- ===== src/Output/Prometheus/Counts.antt =====
-- internal/output/prometheus.go: the counters count the traces.
use mathlib.Core.List.{Nodup, Nodup-nil}
use amqp_routing_inspector.Base.{
  ℕ, ◌%◌, Bool, false, List, [], ◌∷◌, ◌++◌, ◌≡◌, refl, sym, ap, ◌∙◌, map, filter, inl, inr,
  Bool-cases, nat_eq, list_eq,
}
use amqp_routing_inspector.Base.Text.{Text}
use amqp_routing_inspector.Base.Decimal.{word}
use amqp_routing_inspector.Base.Map.{keys}
use amqp_routing_inspector.Base.Tally.{
  bump, bump_all, tally, occurrences, tally-counted, bump_all-append, keys-bump_all-Nodup,
}
use amqp_routing_inspector.Model.{QueueDestination, RoutingTrace, resolved}
use amqp_routing_inspector.Output.Prometheus.{
  ExchangeEventKey, ExchangeQueueKey, event_key_eq, queue_key_eq, PrometheusRenderer,
  metric_exchange, event_key, queue_key, is_unrouted, count_deliveries, render_trace,
}

-- The deliveries that the traces stand for, one for each destination.
abbrev pub all_deliveries : List RoutingTrace → List ExchangeQueueKey
all_deliveries [] = []
all_deliveries (t ∷ ts) = map (queue_key t) (resolved t) ++ all_deliveries ts

-- The exchanges of the publications that reach no queue.
abbrev pub unrouted_exchanges : List RoutingTrace → List Text
unrouted_exchanges ts = map metric_exchange (filter is_unrouted ts)

abbrev pub render_traces : PrometheusRenderer → List RoutingTrace → PrometheusRenderer
render_traces r [] = r
render_traces r (t ∷ ts) = render_traces (render_trace r t) ts

abbrev pub fresh : Bool → PrometheusRenderer
fresh serving = record {
  serving = serving;
  closed = false;
  events = [];
  deliveries = [];
  unrouted = [];
  written = [];
}

events_bumped :
    (r : PrometheusRenderer) (ts : List RoutingTrace)
    → (render_traces r ts).events ≡ bump_all (map event_key ts) r.events
unfolding render_trace bump_all
events_bumped r [] = refl
events_bumped r (t ∷ ts) = events_bumped (render_trace r t) ts

count_deliveries_bumped :
    (t : RoutingTrace) (ds : List QueueDestination) (m : List (ExchangeQueueKey × ℕ))
    → count_deliveries t ds m ≡ bump_all (map (queue_key t) ds) m
unfolding count_deliveries bump_all
count_deliveries_bumped t [] m = refl
count_deliveries_bumped t (d ∷ ds) m = count_deliveries_bumped t ds (bump (queue_key t d) m)

deliveries_bumped :
    (r : PrometheusRenderer) (ts : List RoutingTrace)
    → (render_traces r ts).deliveries ≡ bump_all (all_deliveries ts) r.deliveries
unfolding render_trace bump_all
deliveries_bumped r [] = refl
deliveries_bumped r (t ∷ ts) =
    deliveries_bumped (render_trace r t) ts
    ∙ ap (bump_all (all_deliveries ts)) (count_deliveries_bumped t (resolved t) r.deliveries)
    ∙ sym (bump_all-append (map (queue_key t) (resolved t)) (all_deliveries ts) r.deliveries)

unrouted_bumped :
    (r : PrometheusRenderer) (ts : List RoutingTrace)
    → (render_traces r ts).unrouted ≡ bump_all (unrouted_exchanges ts) r.unrouted
unfolding render_trace bump_all filter
unrouted_bumped r [] = refl
unrouted_bumped r (t ∷ ts) = elim (Bool-cases (is_unrouted t)) [
  | inl q ↦ rw (unrouted_bumped (render_trace r t) ts, q) refl
  | inr q ↦ rw (unrouted_bumped (render_trace r t) ts, q) refl
]

-- After any traces the three counters of a fresh renderer are, modulo 2^64, the number of traces
-- with the exchange and event type, the number of destinations with the exchange and queue, and the
-- number of publications of the exchange that reach no queue.
pub render_traces-fresh :
    (serving : Bool) (ts : List RoutingTrace) (event : ExchangeEventKey) (route : ExchangeQueueKey)
    (exchange : Text)
    → (tally event (render_traces (fresh serving) ts).events
        ≡ occurrences event (map event_key ts) % word)
      × (tally route (render_traces (fresh serving) ts).deliveries
          ≡ occurrences route (all_deliveries ts) % word)
      × (tally exchange (render_traces (fresh serving) ts).unrouted
          ≡ occurrences exchange (unrouted_exchanges ts) % word)
render_traces-fresh serving ts event route exchange = (
  rw (events_bumped (fresh serving) ts) (tally-counted event (map event_key ts)),
  rw (deliveries_bumped (fresh serving) ts) (tally-counted route (all_deliveries ts)),
  rw (unrouted_bumped (fresh serving) ts) (tally-counted exchange (unrouted_exchanges ts)),
)

-- No key is entered twice.
pub record HasUniqueKeys (r : PrometheusRenderer) : Type 0 where
  pub events_once : Nodup (keys r.events)
  pub deliveries_once : Nodup (keys r.deliveries)
  pub unrouted_once : Nodup (keys r.unrouted)

pub render_traces-HasUniqueKeys :
    (serving : Bool) (ts : List RoutingTrace) → HasUniqueKeys (render_traces (fresh serving) ts)
render_traces-HasUniqueKeys serving ts = record {
  events_once =
      rw (events_bumped (fresh serving) ts) (keys-bump_all-Nodup (map event_key ts) [] Nodup-nil);
  deliveries_once =
      rw (deliveries_bumped (fresh serving) ts)
        (keys-bump_all-Nodup (all_deliveries ts) [] Nodup-nil);
  unrouted_once =
      rw (unrouted_bumped (fresh serving) ts)
        (keys-bump_all-Nodup (unrouted_exchanges ts) [] Nodup-nil);
}
