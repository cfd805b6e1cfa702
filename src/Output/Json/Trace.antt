-- ===== src/Output/Json/Trace.antt =====
-- What a reader finds in the JSON text of a trace, by the tags of internal/model/model.go.
use Prim.Native.String.{String}
use amqp_routing_inspector.Base.{
  Bool, not, ◌&&◌, List, [], ◌∷◌, map, Option, none, some, ◌≡◌, refl, ap, arith, nat_eq, list_eq,
  ◌==◌, is_nil, length, list_beq, if◌then◌else◌,
}
use amqp_routing_inspector.Base.Text.{Text, codes}
use amqp_routing_inspector.Base.Text.Utf8.{decode}
use amqp_routing_inspector.Model.{QueueDestination, RoutingTrace}
use amqp_routing_inspector.Output.Json.{
  Runes, valid, JsonValue, string, array, object, Items, no_items, item, Members, no_members,
  member, print_value, optional, destination_items, optional_destinations, event_members,
  trace_value,
}
use amqp_routing_inspector.Output.Json.Reader.{read_value}
use amqp_routing_inspector.Output.Json.Reader.Strings.{mended}
use amqp_routing_inspector.Output.Json.Reader.Values.{
  mended_value, mended_items, mended_members, mended-valid, read_value-print,
}
use amqp_routing_inspector.Output.Json.Printed.{size_value-le}

-- What is read: the timestamp is a text, and the body's preview holds runes.
pub record SeenTrace : Type 0 where
  pub exchange_name : Text
  pub exchange_type : Text
  pub routing_key : Text
  pub message_id : Text
  pub correlation_id : Text
  pub timestamp : Text
  pub event_type : Text
  pub event_destinations : List QueueDestination
  pub body_preview : Text
  pub destinations : List QueueDestination

-- A member's value, where there is one.
unfoldable pub value_at : Text → Members Text → Option (JsonValue Text)
value_at k no_members = none
value_at k (member j v ms) = if j == k then some v else value_at k ms

-- What is missing is empty.
abbrev pub as_text : Option (JsonValue Text) → Text
as_text (some (string s)) = s
as_text _ = []

abbrev pub as_items : Option (JsonValue Text) → Items Text
as_items (some (array vs)) = vs
as_items _ = no_items

abbrev pub as_members : JsonValue Text → Members Text
as_members (object ms) = ms
as_members _ = no_members

abbrev pub members_of : Option (JsonValue Text) → Members Text
members_of none = no_members
members_of (some v) = as_members v

unfoldable pub text_at : String → Members Text → Text
unfolding value_at
text_at k ms = as_text (value_at (codes k) ms)

unfoldable pub see_destinations : Items Text → List QueueDestination
unfolding text_at
see_destinations no_items = []
see_destinations (item v vs) =
    record {
      queue_name = text_at "queue_name" (as_members v);
      binding_key = text_at "binding_key" (as_members v);
    }
    ∷ see_destinations vs

unfoldable pub destinations_at : Members Text → List QueueDestination
unfolding value_at see_destinations
destinations_at ms = see_destinations (as_items (value_at (codes "destinations") ms))

unfoldable pub see_parts : Members Text → Members Text → SeenTrace
unfolding text_at destinations_at
see_parts event trace = record {
  exchange_name = text_at "exchange_name" event;
  exchange_type = text_at "exchange_type" event;
  routing_key = text_at "routing_key" event;
  message_id = text_at "message_id" event;
  correlation_id = text_at "correlation_id" event;
  timestamp = text_at "timestamp" event;
  event_type = text_at "event_type" event;
  event_destinations = destinations_at event;
  body_preview = text_at "body_preview" event;
  destinations = destinations_at trace;
}

unfoldable pub see : JsonValue Text → SeenTrace
unfolding see_parts value_at
see v = see_parts (members_of (value_at (codes "event") (as_members v))) (as_members v)

-- A line that holds one value and nothing else.
abbrev whole : Option (JsonValue Text × Text) → Option SeenTrace
whole none = none
whole (some (v, [])) = some (see v)
whole (some (v, c ∷ rest)) = none

-- A line of the output, read.
unfoldable pub read_trace : Text → Option SeenTrace
unfolding read_value see
read_trace line = whole (read_value (length line) line)

-- The trace itself, with the text of its time, and with U+FFFD for each invalid byte of its preview.
unfoldable pub seen : Text → RoutingTrace → SeenTrace
unfolding decode
seen time trace = record {
  exchange_name = trace.event.exchange_name;
  exchange_type = trace.event.exchange_type;
  routing_key = trace.event.routing_key;
  message_id = trace.event.message_id;
  correlation_id = trace.event.correlation_id;
  timestamp = time;
  event_type = trace.event.event_type;
  event_destinations = trace.event.destinations;
  body_preview = map mended (decode trace.event.body_preview);
  destinations = trace.destinations;
}

value_at-optional :
    (k j : Text) (s : Runes) (rest : Members Runes)
    → value_at k (mended_members (optional j s rest)) ≡ (
        if j == k && not (is_nil s)
        then some (string (map mended s))
        else value_at k (mended_members rest))
unfolding value_at mended_members mended_value optional
value_at-optional k j s rest = ground arith

value_at-optional_destinations :
    (k : Text) (ds : List QueueDestination) (rest : Members Runes)
    → value_at k (mended_members (optional_destinations ds rest)) ≡ (
        if codes "destinations" == k && not (is_nil ds)
        then some (array (mended_items (destination_items ds)))
        else value_at k (mended_members rest))
unfolding value_at mended_members mended_value optional_destinations
value_at-optional_destinations k ds rest = ground arith

as_text_if :
    (s : Runes)
    → as_text (if not (is_nil s) then some (string (map mended s)) else none) ≡ map mended s
as_text_if [] = refl
as_text_if (c ∷ s) = refl

as_text-valid : (s : Text) → as_text (if not (is_nil (valid s)) then some (string s) else none) ≡ s
as_text-valid [] = refl
as_text-valid (c ∷ s) = refl

ruleset members = (value_at-optional, value_at-optional_destinations, mended-valid)

see_destinations-items :
    (ds : List QueueDestination) → see_destinations (mended_items (destination_items ds)) ≡ ds
unfolding see_destinations mended_items mended_members mended_value destination_items text_at
    value_at list_beq
see_destinations-items [] = refl
see_destinations-items (d ∷ ds) = simp (members, see_destinations-items ds) (rw as_text-valid refl)

destinations_at-if :
    (ds : List QueueDestination)
    → see_destinations (
        as_items
          (if not (is_nil ds) then some (array (mended_items (destination_items ds))) else none))
      ≡ ds
unfolding see_destinations
destinations_at-if [] = refl
destinations_at-if (d ∷ ds) = see_destinations-items (d ∷ ds)

-- Each field of the trace is found again.
see-trace_value :
    (time : Text) (trace : RoutingTrace)
    → see (mended_value (trace_value time trace)) ≡ seen time trace
unfolding see see_parts trace_value event_members destinations_at mended_members mended_value
    list_beq seen
see-trace_value time trace =
    simp members (simp (as_text-valid, as_text_if, destinations_at-if, see_destinations-items) refl)

-- The text of a trace is read back.
pub read_trace-print :
    (html : Bool) (time : Text) (trace : RoutingTrace)
    → read_trace (print_value html (trace_value time trace) []) ≡ some (seen time trace)
unfolding read_trace
read_trace-print html time trace =
    let v = trace_value time trace in
    rw (read_value-print html v (length (print_value html v [])) [] (size_value-le html v))
      (ap some (see-trace_value time trace))
