-- ===== src/Output/Statsd.antt =====
-- internal/output/statsd.go: the StatsD lines of a trace, and sending them.
pub mod Laws
mod Tests
use amqp_routing_inspector.Base.{
  ℕ, Bool, true, false, ◌&&◌, ◌||◌, List, [], ◌∷◌, ◌++◌, map, Option, none, some, leb, nat_eq,
  list_eq, ◌==◌, is_nil, if◌then◌else◌,
}
use amqp_routing_inspector.Base.Text.{Text, codes, to_lower}
use amqp_routing_inspector.Model.{QueueDestination, RoutingTrace, resolved}

unfoldable pub is_safe : ℕ → Bool
is_safe c = (leb b'a' c && leb c b'z') || (leb b'A' c && leb c b'Z') || (leb b'0' c && leb c b'9')

-- sanitizeStatsd
unfoldable pub sanitize_statsd : Text → Text
unfolding is_safe
sanitize_statsd s = map (λ c. if is_safe c then c else b'_') s

-- A sanitized name, or "unknown" for the empty one.
unfoldable pub segment : Text → Text
unfolding sanitize_statsd
segment s = let name = sanitize_statsd s in if is_nil name then codes "unknown" else name

unfoldable pub event_metric : RoutingTrace → Text
unfolding segment
event_metric trace =
    codes "amqp.routing.events."
    ++ (segment trace.event.exchange_name
        ++ (codes "." ++ (segment trace.event.event_type ++ codes ":1|c")))

unfoldable pub unrouted_metric : RoutingTrace → Text
unfolding segment
unrouted_metric trace =
    codes "amqp.routing.unrouted." ++ (segment trace.event.exchange_name ++ codes ":1|c")

unfoldable pub delivery_metric : RoutingTrace → QueueDestination → Text
unfolding segment
delivery_metric trace dest =
    codes "amqp.routing.deliveries."
    ++ (segment trace.event.exchange_name
        ++ (codes "." ++ (segment dest.queue_name ++ codes ":1|c")))

-- The list that RenderTrace builds.
unfoldable pub metrics : RoutingTrace → List Text
unfolding event_metric unrouted_metric delivery_metric resolved to_lower
metrics trace =
    event_metric trace
    ∷ ((if is_nil (resolved trace) && to_lower trace.event.event_type == codes "publish"
          then unrouted_metric trace ∷ []
          else [])
        ++ map (delivery_metric trace) (resolved trace))

-- The connection, or the writer where there is none: the state that fmt.Fprintln changes, its error,
-- and the error of closing the connection.
pub record Sink (W : Type 0) (E : Type 0) : Type 0 where
  pub println : W → Text → W × Option E

pub record StatsdRenderer (W : Type 0) : Type 0 where
  pub connected : Bool
  pub target : W

-- newStatsdRenderer, where `dialled` is what dialling the address gives.
unfoldable pub new_statsd_renderer :
    {W E : Type 0} → W → Text → W × Option E → StatsdRenderer W × Option E
new_statsd_renderer writer addr (conn, failure) =
    if is_nil addr
    then (record { connected = false; target = writer }, none)
    else (record { connected = true; target = conn }, failure)

module _ {W E : Type 0} (sink : Sink W E) where
  -- What follows one send: an error ends the loop.
  abbrev sent : W × Option E → (W → W × Option E) → W × Option E
  sent (w, none) next = next w
  sent (w, some e) next = (w, some e)

  -- The loop over the metrics.
  unfoldable pub send_all : W → List Text → W × Option E
  send_all w [] = (w, none)
  send_all w (m ∷ ms) = sent (sink.println w m) (λ v. send_all v ms)

  abbrev with_target : StatsdRenderer W → W × Option E → StatsdRenderer W × Option E
  with_target r (w, e) = (record r { target = w }, e)

  -- RenderTrace
  unfoldable pub render_trace : StatsdRenderer W → RoutingTrace → StatsdRenderer W × Option E
  unfolding send_all metrics
  render_trace r trace = with_target r (send_all r.target (metrics trace))

-- Close, where `answer` is the error of closing the connection.
unfoldable pub close : {W E : Type 0} → StatsdRenderer W → Option E → Option E
close r answer = if r.connected then answer else none
