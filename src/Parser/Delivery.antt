-- ===== src/Parser/Delivery.antt =====
-- internal/parser/parser.go: EventParser and ParseDelivery.
pub mod Laws
pub mod Errors
use amqp_routing_inspector.Base.{
  ℕ, Bool, true, false, not, ◌&&◌, List, [], ◌∷◌, Option, none, some, is_nil, if◌then◌else◌, length,
  take, ltb,
}
use amqp_routing_inspector.Base.Int.{ℤ, pos, is_positive, ltb_ℤ, to_ℕ}
use amqp_routing_inspector.Base.Text.{Text, Bytes, codes}
use amqp_routing_inspector.Model.{Time, is_zero, utc, QueueDestination, RoutingEvent}
use amqp_routing_inspector.Parser.Value.{Table}
use amqp_routing_inspector.Parser.Names.{
  first_non_empty, parse_event_type_from_routing_key, parse_exchange,
}
use amqp_routing_inspector.Parser.Headers.{header_string, parse_routing_key}
use amqp_routing_inspector.Parser.Destinations.{
  Result, ok, err, ◌>>=◌, parse_destinations, dedupe_destinations,
}

-- The clock is read once by a call of ParseDelivery that needs it: `now` below.
pub record EventParser : Type 0 where
  pub max_body_bytes : ℤ

-- The fields of an amqp.Delivery that the parser reads.
pub record Delivery : Type 0 where
  pub headers : Table
  pub routing_key : Text
  pub message_id : Text
  pub correlation_id : Text
  pub timestamp : Time
  pub body : Bytes

-- NewWithConfig
unfoldable pub new_with_config : ℤ → EventParser
new_with_config max_body_bytes = record { max_body_bytes = max_body_bytes }

unfoldable pub event_type_of : Delivery → Text
unfolding first_non_empty header_string parse_event_type_from_routing_key
event_type_of d = first_non_empty (
    header_string d.headers (codes "event_type" ∷ codes "event-type" ∷ codes "event" ∷ [])
    ∷ parse_event_type_from_routing_key d.routing_key
    ∷ [])

abbrev pub unknown_exchange : Text
unknown_exchange = codes "(unknown-exchange)"

-- The exchange that the headers or else the firehose's routing key name, or "".
unfoldable pub exchange_found : Delivery → Text
unfolding first_non_empty header_string parse_exchange event_type_of parse_routing_key
exchange_found d = first_non_empty (
    header_string d.headers
      (codes "exchange_name" ∷ codes "exchange" ∷ codes "x-exchange" ∷ codes "exchange-name" ∷ [])
    ∷ parse_exchange d.routing_key (event_type_of d) (parse_routing_key d.headers)
    ∷ [])

unfoldable pub exchange_name_of : Delivery → Text
unfolding exchange_found
exchange_name_of d = if is_nil (exchange_found d) then unknown_exchange else exchange_found d

unfoldable pub timestamp_of : Time → Delivery → Time
unfolding is_zero utc
timestamp_of now d = if is_zero d.timestamp then utc now else utc d.timestamp

-- The preview of the body.
unfoldable pub body_preview_of : EventParser → Bytes → Bytes
body_preview_of p body =
    if is_positive p.max_body_bytes && ltb 0 (length body)
    then if ltb_ℤ p.max_body_bytes (pos (length body))
      then take (to_ℕ p.max_body_bytes) body
      else body
    else []

unfoldable pub event_with : EventParser → Time → Delivery → List QueueDestination → RoutingEvent
unfolding exchange_name_of event_type_of timestamp_of body_preview_of first_non_empty header_string
    parse_routing_key
event_with p now d destinations = record {
  exchange_name = exchange_name_of d;
  exchange_type =
      header_string d.headers
        (codes "exchange_type" ∷ codes "exchange-type" ∷ codes "x-exchange-type" ∷ []);
  routing_key = first_non_empty (parse_routing_key d.headers ∷ d.routing_key ∷ []);
  message_id =
      first_non_empty (
        d.message_id ∷ header_string d.headers (codes "message_id" ∷ codes "message-id" ∷ []) ∷ []);
  correlation_id = first_non_empty (
      d.correlation_id
      ∷ header_string d.headers (codes "correlation_id" ∷ codes "correlation-id" ∷ [])
      ∷ []);
  timestamp = timestamp_of now d;
  event_type = event_type_of d;
  destinations = destinations;
  body_preview = body_preview_of p d.body;
}

-- ParseDelivery, where the clock shows `now`.
unfoldable pub parse_delivery : EventParser → Time → Delivery → Result RoutingEvent
unfolding event_with parse_destinations dedupe_destinations
parse_delivery p now d = do
  destinations ←
      parse_destinations d.headers (event_type_of d) d.routing_key (parse_routing_key d.headers)
  ok (event_with p now d (dedupe_destinations destinations))
