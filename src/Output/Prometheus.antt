-- ===== src/Output/Prometheus.antt =====
-- internal/output/prometheus.go: the counters and the text of the metrics.
pub mod Counts
pub mod Sorted
mod Tests
use amqp_routing_inspector.Base.{
  ℕ, Bool, true, false, not, ◌&&◌, List, [], ◌∷◌, ◌++◌, ◌≡◌, ◌↔◌, map, Option, none, some, nat_eq,
  list_eq, ◌==◌, Key, is_nil, arith, list_beq_iff, if◌then◌else◌,
}
use amqp_routing_inspector.Base.Text.{Text, codes, to_lower, text_ltb}
use amqp_routing_inspector.Base.Text.Quote.{quoted}
use amqp_routing_inspector.Base.Decimal.{print_int64}
use amqp_routing_inspector.Base.Map.{keys}
use amqp_routing_inspector.Base.Tally.{bump, tally}
use amqp_routing_inspector.Base.Order.{sort, by_key}
use amqp_routing_inspector.Output.Http.{Response}
use amqp_routing_inspector.Model.{QueueDestination, RoutingTrace, resolved}

pub record ExchangeEventKey : Type 0 where
  pub exchange : Text
  pub event_type : Text

pub record ExchangeQueueKey : Type 0 where
  pub exchange : Text
  pub queue : Text

unfoldable pub event_key_beq : ExchangeEventKey → ExchangeEventKey → Bool
event_key_beq a b = a.exchange == b.exchange && a.event_type == b.event_type

pub event_key_beq_iff : (a b : ExchangeEventKey) → (event_key_beq a b ≡ true) ↔ (a ≡ b)
unfolding event_key_beq
event_key_beq_iff a b =
    ground (arith, list_beq_iff a.exchange b.exchange, list_beq_iff a.event_type b.event_type)

instance abbrev pub event_key_eq : Key ExchangeEventKey
event_key_eq = record { same = event_key_beq; same_iff = event_key_beq_iff }

unfoldable pub queue_key_beq : ExchangeQueueKey → ExchangeQueueKey → Bool
queue_key_beq a b = a.exchange == b.exchange && a.queue == b.queue

pub queue_key_beq_iff : (a b : ExchangeQueueKey) → (queue_key_beq a b ≡ true) ↔ (a ≡ b)
unfolding queue_key_beq
queue_key_beq_iff a b =
    ground (arith, list_beq_iff a.exchange b.exchange, list_beq_iff a.queue b.queue)

instance abbrev pub queue_key_eq : Key ExchangeQueueKey
queue_key_eq = record { same = queue_key_beq; same_iff = queue_key_beq_iff }

-- The counts are the bit patterns of int64. `serving` says whether there is an HTTP server, and
-- `written` holds what was handed to the writer.
pub record PrometheusRenderer : Type 0 where
  pub serving : Bool
  pub closed : Bool
  pub events : List (ExchangeEventKey × ℕ)
  pub deliveries : List (ExchangeQueueKey × ℕ)
  pub unrouted : List (Text × ℕ)
  pub written : List Text

-- newPrometheusRenderer; `failure` is what listening on the address answers.
unfoldable pub new_prometheus_renderer :
    {E : Type 0} → Text → Option E → PrometheusRenderer × Option E
new_prometheus_renderer addr failure = (
  record {
    serving = not (is_nil addr);
    closed = false;
    events = [];
    deliveries = [];
    unrouted = [];
    written = [];
  },
  if is_nil addr then none else failure,
)

-- `if name == "" { name = fallback }`
abbrev pub or_name : Text → Text → Text
or_name name fallback = if is_nil name then fallback else name

unfoldable pub metric_exchange : RoutingTrace → Text
metric_exchange trace = or_name trace.event.exchange_name (codes "(unknown-exchange)")

unfoldable pub metric_event_type : RoutingTrace → Text
unfolding to_lower
metric_event_type trace = or_name (to_lower trace.event.event_type) (codes "unknown")

unfoldable pub event_key : RoutingTrace → ExchangeEventKey
unfolding metric_exchange metric_event_type
event_key trace = record { exchange = metric_exchange trace; event_type = metric_event_type trace }

unfoldable pub queue_key : RoutingTrace → QueueDestination → ExchangeQueueKey
unfolding metric_exchange
queue_key trace dest = record {
  exchange = metric_exchange trace;
  queue = or_name dest.queue_name (codes "(unknown-queue)");
}

-- The exchange of a publication that reaches no queue.
unfoldable pub is_unrouted : RoutingTrace → Bool
unfolding metric_event_type resolved
is_unrouted trace = is_nil (resolved trace) && metric_event_type trace == codes "publish"

-- The loop over the destinations.
unfoldable pub count_deliveries :
    RoutingTrace → List QueueDestination → List (ExchangeQueueKey × ℕ) → List (ExchangeQueueKey × ℕ)
unfolding bump queue_key
count_deliveries trace [] m = m
count_deliveries trace (dest ∷ dests) m =
    count_deliveries trace dests (bump (queue_key trace dest) m)

-- RenderTrace, which never fails.
unfoldable pub render_trace : PrometheusRenderer → RoutingTrace → PrometheusRenderer
unfolding bump event_key is_unrouted count_deliveries resolved
render_trace r trace = record r {
  events = bump (event_key trace) r.events;
  unrouted = if is_unrouted trace then bump (metric_exchange trace) r.unrouted else r.unrouted;
  deliveries = count_deliveries trace (resolved trace) r.deliveries;
}

unfoldable pub event_key_less : ExchangeEventKey → ExchangeEventKey → Bool
unfolding text_ltb
event_key_less = by_key (λ k. k.exchange) text_ltb (λ a b. text_ltb a.event_type b.event_type)

unfoldable pub queue_key_less : ExchangeQueueKey → ExchangeQueueKey → Bool
unfolding text_ltb
queue_key_less = by_key (λ k. k.exchange) text_ltb (λ a b. text_ltb a.queue b.queue)

-- The writes of a loop.
abbrev pub write_lines : {K : Type 0} → (K → Text) → List K → Text
write_lines line [] = []
write_lines line (k ∷ ks) = line k ++ write_lines line ks

-- %q of a rune from U+0100 on depends on strconv's table of printable runes.
module _ (printable : ℕ → Bool) where
  unfoldable pub event_line : List (ExchangeEventKey × ℕ) → ExchangeEventKey → Text
  unfolding quoted tally print_int64
  event_line m k =
      codes "amqp_routing_events_total{exchange="
      ++ quoted printable k.exchange (
          codes ",event_type="
          ++ quoted printable k.event_type (codes "} " ++ (print_int64 (tally k m) ++ codes "\n")))

  unfoldable pub delivery_line : List (ExchangeQueueKey × ℕ) → ExchangeQueueKey → Text
  unfolding quoted tally print_int64
  delivery_line m k =
      codes "amqp_routing_deliveries_total{exchange="
      ++ quoted printable k.exchange (
          codes ",queue="
          ++ quoted printable k.queue (codes "} " ++ (print_int64 (tally k m) ++ codes "\n")))

  unfoldable pub unrouted_line : List (Text × ℕ) → Text → Text
  unfolding quoted tally print_int64
  unrouted_line m k =
      codes "amqp_routing_unrouted_total{exchange="
      ++ quoted printable k (codes "} " ++ (print_int64 (tally k m) ++ codes "\n"))

  -- The part that stands only where some publication was unrouted.
  unfoldable pub unrouted_text : List (Text × ℕ) → Text
  unfolding unrouted_line sort text_ltb
  unrouted_text m =
      if is_nil m
      then []
      else codes
          "# HELP amqp_routing_unrouted_total Publish events with no queue destinations (dropped by broker).\n"
        ++ (codes "# TYPE amqp_routing_unrouted_total counter\n"
            ++ write_lines (unrouted_line m) (sort text_ltb (keys m)))

  -- metricsText
  unfoldable pub metrics_text : PrometheusRenderer → Text
  unfolding event_line delivery_line unrouted_text sort event_key_less queue_key_less
  metrics_text r =
      codes "# HELP amqp_routing_events_total Total routing events observed by the inspector.\n"
      ++ (codes "# TYPE amqp_routing_events_total counter\n"
          ++ (write_lines (event_line r.events) (sort event_key_less (keys r.events))
              ++ (codes "# HELP amqp_routing_deliveries_total Total message deliveries to queues.\n"
                  ++ (codes "# TYPE amqp_routing_deliveries_total counter\n"
                      ++ (write_lines (delivery_line r.deliveries)
                            (sort queue_key_less (keys r.deliveries))
                          ++ unrouted_text r.unrouted)))))

  -- serveMetrics
  unfoldable pub serve_metrics : PrometheusRenderer → Response
  unfolding metrics_text
  serve_metrics r = record {
    headers = (codes "Content-Type", codes "text/plain; version=0.0.4; charset=utf-8") ∷ [];
    body = metrics_text r;
  }

  -- Close, where `answer` is the error of io.WriteString.
  unfoldable pub close :
      {E : Type 0} → PrometheusRenderer → Option E → PrometheusRenderer × Option E
  unfolding metrics_text
  close r answer =
      if r.closed
      then (r, none)
      else if r.serving
      then (record r { closed = true }, none)
      else (record r { closed = true; written = r.written ++ metrics_text r ∷ [] }, answer)
