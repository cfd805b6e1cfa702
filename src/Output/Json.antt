-- ===== src/Output/Json.antt =====
-- internal/output/renderer.go: the JSON renderer, and what encoding/json makes of the records of
-- internal/model/model.go by the tags that stand there.
pub mod Reader
pub mod Printed
pub mod Trace
pub mod Lines
pub mod Preview
mod Tests
use amqp_routing_inspector.Base.{
  ℕ, Bool, false, not, ◌&&◌, ◌||◌, List, [], ◌∷◌, ◌++◌, map, Option, none, some, ltb, nat_eq, ◌==◌,
  is_nil, if◌then◌else◌,
}
use amqp_routing_inspector.Base.Text.{Text, codes}
use amqp_routing_inspector.Base.Text.Quote.{backslash, quote_mark, hex}
use amqp_routing_inspector.Base.Text.Utf8.{decode}
use amqp_routing_inspector.Model.{Time, QueueDestination, RoutingEvent, RoutingTrace}

-- What encoding/json reads of a string: its runes, with nothing for an invalid byte.
abbrev pub Runes : Type 0
Runes = List (Option ℕ)

-- The runes of a string that is valid UTF-8.
abbrev pub valid : Text → Runes
valid s = map some s

-- `\u` and four digits.
unfoldable pub unicode_escape : ℕ → Text → Text
unfolding hex
unicode_escape c rest = backslash ∷ b'u' ∷ hex 4 c rest

-- The letter behind the backslash of an escape of two characters, or zero.
unfoldable pub json_letter : ℕ → ℕ
json_letter c =
    if c == quote_mark || c == backslash
    then c
    else if c == 8
    then b'b'
    else if c == 12
    then b'f'
    else if c == 10
    then b'n'
    else if c == 13
    then b'r'
    else if c == 9
    then b't'
    else 0

-- The runes that are escaped by their number; `html` is the encoder's setting.
unfoldable pub by_number : Bool → ℕ → Bool
by_number html c =
    ltb c 0x20 || (html && (c == b'<' || c == b'>' || c == b'&')) || c == 0x2028 || c == 0x2029

-- One round of encoding/json's appendString, before `rest`.
unfoldable pub json_rune : Bool → Option ℕ → Text → Text
unfolding unicode_escape json_letter by_number
json_rune html none rest = unicode_escape 0xFFFD rest
json_rune html (some c) rest =
    if not (json_letter c == 0)
    then backslash ∷ json_letter c ∷ rest
    else if by_number html c
    then unicode_escape c rest
    else c ∷ rest

unfoldable pub json_runes : Bool → Runes → Text → Text
unfolding json_rune
json_runes html [] rest = rest
json_runes html (c ∷ s) rest = json_rune html c (json_runes html s rest)

unfoldable pub json_string : Bool → Runes → Text → Text
unfolding json_runes
json_string html s rest = quote_mark ∷ json_runes html s (quote_mark ∷ rest)

-- The values that a trace is made of; `S` are their strings.
mutual
  pub data JsonValue (S : Type 0) : Type 0 where
    string : S → JsonValue S
    array : Items S → JsonValue S
    object : Members S → JsonValue S

  pub data Items (S : Type 0) : Type 0 where
    no_items : Items S
    item : JsonValue S → Items S → Items S

  pub data Members (S : Type 0) : Type 0 where
    no_members : Members S
    member : Text → JsonValue S → Members S → Members S

-- A comma, where more items or members follow.
abbrev pub comma_items : {S : Type 0} → Items S → Text → Text
comma_items no_items rest = rest
comma_items (item v vs) rest = b',' ∷ rest

abbrev pub comma_members : {S : Type 0} → Members S → Text → Text
comma_members no_members rest = rest
comma_members (member k v ms) rest = b',' ∷ rest

-- The text of a value, before `rest`.
unfoldable mutual
  unfolding json_string

  pub print_value : Bool → JsonValue Runes → Text → Text
  print_value html (string s) rest = json_string html s rest
  print_value html (array vs) rest = b'[' ∷ print_items html vs (b']' ∷ rest)
  print_value html (object ms) rest = b'{' ∷ print_members html ms (b'}' ∷ rest)

  pub print_items : Bool → Items Runes → Text → Text
  print_items html no_items rest = rest
  print_items html (item v vs) rest = print_value html v (comma_items vs (print_items html vs rest))

  pub print_members : Bool → Members Runes → Text → Text
  print_members html no_members rest = rest
  print_members html (member k v ms) rest =
      json_string html (valid k)
        (b':' ∷ print_value html v (comma_members ms (print_members html ms rest)))

-- A string with "omitempty" in its tag.
unfoldable pub optional : Text → Runes → Members Runes → Members Runes
optional key s rest = if is_nil s then rest else member key (string s) rest

unfoldable pub destination_value : QueueDestination → JsonValue Runes
unfolding optional
destination_value dest = object (
    member (codes "queue_name") (string (valid dest.queue_name))
      (optional (codes "binding_key") (valid dest.binding_key) no_members))

unfoldable pub destination_items : List QueueDestination → Items Runes
unfolding destination_value
destination_items [] = no_items
destination_items (dest ∷ dests) = item (destination_value dest) (destination_items dests)

-- Destinations with "omitempty" in their tag.
unfoldable pub optional_destinations : List QueueDestination → Members Runes → Members Runes
unfolding destination_items
optional_destinations dests rest =
    if is_nil dests
    then rest
    else member (codes "destinations") (array (destination_items dests)) rest

-- RoutingEvent, where `time` is the text of its timestamp. The text holds digits, signs and letters
-- only, which stand for themselves in a JSON string.
unfoldable pub event_members : Text → RoutingEvent → Members Runes
unfolding optional optional_destinations decode
event_members time event = member (codes "exchange_name") (string (valid event.exchange_name)) (
    optional (codes "exchange_type") (valid event.exchange_type) (
      member (codes "routing_key") (string (valid event.routing_key)) (
        optional (codes "message_id") (valid event.message_id) (
          optional (codes "correlation_id") (valid event.correlation_id) (
            member (codes "timestamp") (string (valid time)) (
              optional (codes "event_type") (valid event.event_type) (
                optional_destinations event.destinations
                  (optional (codes "body_preview") (decode event.body_preview) no_members))))))))

-- RoutingTrace. The service's destinations are never the nil slice, which would be null.
unfoldable pub trace_value : Text → RoutingTrace → JsonValue Runes
unfolding event_members destination_items
trace_value time trace = object (
    member (codes "event") (object (event_members time trace.event))
      (member (codes "destinations") (array (destination_items trace.destinations)) no_members))

-- A text, or the error of what makes it.
pub data Marshalled (E : Type 0) : Type 0 where
  payload : Text → Marshalled E
  marshal_failed : E → Marshalled E

abbrev pub with_time : {E : Type 0} → Bool → RoutingTrace → Marshalled E → Marshalled E
with_time html trace (marshal_failed e) = marshal_failed e
with_time html trace (payload time) = payload (print_value html (trace_value time trace) [])

-- A trace's JSON text; `marshal_time` is the text that time.Time's MarshalJSON quotes, or its error.
unfoldable pub marshal : {E : Type 0} → (Time → Marshalled E) → Bool → RoutingTrace → Marshalled E
unfolding print_value trace_value
marshal marshal_time html trace = with_time html trace (marshal_time trace.event.timestamp)

-- jsonRenderer: what its encoder has written, and the writer's error that the encoder keeps.
pub record JsonRenderer (E : Type 0) : Type 0 where
  pub written : List Text
  pub failure : Option E

abbrev pub new_json_renderer : {E : Type 0} → JsonRenderer E
new_json_renderer = record { written = []; failure = none }

abbrev pub encode_with :
    {E : Type 0} → JsonRenderer E → Option E → Marshalled E → JsonRenderer E × Option E
encode_with r answer (marshal_failed e) = (r, some e)
encode_with r answer (payload text) =
    (record { written = r.written ++ (text ++ codes "\n") ∷ []; failure = answer }, answer)

-- RenderTrace, where `answer` is the writer's error. The encoder does not escape HTML, and once the
-- writer has failed it writes no more.
abbrev pub encode :
    {E : Type 0} → JsonRenderer E → Option E → Marshalled E → Option E → JsonRenderer E × Option E
encode r answer m (some e) = (r, some e)
encode r answer m none = encode_with r answer m

unfoldable pub render_trace :
    {E : Type 0}
    → (Time → Marshalled E)
    → JsonRenderer E
    → RoutingTrace
    → Option E
    → JsonRenderer E × Option E
unfolding marshal
render_trace marshal_time r trace answer =
    encode r answer (marshal marshal_time false trace) r.failure
