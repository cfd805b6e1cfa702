-- ===== src/Model.antt =====
-- internal/model/model.go: the records that the components exchange.
use amqp_routing_inspector.Base.{ℕ, Bool, List}
use amqp_routing_inspector.Base.{[], is_nil, if◌then◌else◌, nat_eq, ◌==◌}
use amqp_routing_inspector.Base.Text.{Text, Bytes}

-- time.Time: the nanoseconds since Go's zero time (January 1 of year 1), and the zone's number,
-- where zone 0 is UTC. Earlier instants are not modelled.
pub record Time : Type 0 where
  pub since_zero : ℕ
  pub zone : ℕ

unfoldable pub is_zero : Time → Bool
is_zero t = t.since_zero == 0

-- The same instant, in UTC.
unfoldable pub utc : Time → Time
utc t = record t { zone = 0 }

pub record QueueDestination : Type 0 where
  pub queue_name : Text
  pub binding_key : Text

pub record RoutingEvent : Type 0 where
  pub exchange_name : Text
  pub exchange_type : Text
  pub routing_key : Text
  pub message_id : Text
  pub correlation_id : Text
  pub timestamp : Time
  pub event_type : Text
  pub destinations : List QueueDestination
  pub body_preview : Bytes

pub record RoutingTrace : Type 0 where
  pub event : RoutingEvent
  pub destinations : List QueueDestination

-- `destinations := trace.Destinations`, and the event's where the trace has none.
unfoldable pub resolved : RoutingTrace → List QueueDestination
resolved trace = if is_nil trace.destinations then trace.event.destinations else trace.destinations

abbrev blank_time : Time
blank_time = record { since_zero = 0; zone = 0 }

-- An event with a name, a type and a routing key, and nothing else.
abbrev pub plain_event : Text → Text → Text → RoutingEvent
plain_event exchange event_type routing_key = record {
  exchange_name = exchange;
  exchange_type = [];
  routing_key = routing_key;
  message_id = [];
  correlation_id = [];
  timestamp = blank_time;
  event_type = event_type;
  destinations = [];
  body_preview = [];
}

abbrev pub to_queue : Text → QueueDestination
to_queue queue = record { queue_name = queue; binding_key = [] }
