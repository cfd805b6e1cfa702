-- ===== src/Parser/Destinations.antt =====
-- internal/parser/parser.go: parseDestinations, parseDestinationList, parseDestinationEntry and
-- dedupeDestinations.
pub mod Dedupe
pub mod Refused
use amqp_routing_inspector.Base.{
  ℕ, Bool, true, false, not, List, [], ◌∷◌, ◌++◌, Option, none, some, nat_eq, list_eq, ◌==◌, is_nil,
  if◌then◌else◌,
}
use amqp_routing_inspector.Base.Text.{Text, codes, trim_space}
use amqp_routing_inspector.Base.Map.{contains}
use amqp_routing_inspector.Model.{QueueDestination}
use amqp_routing_inspector.Parser.Value.{
  Value, nil, str, bytes, table, string_map, list, strings, stringer, other, Items, no_items, item,
  Fields, Table, string_from_any, get_field, value_or_nil,
}
use amqp_routing_inspector.Parser.Names.{first_non_empty, deliver, parse_deliver_queue}
use amqp_routing_inspector.Parser.Headers.{header_string}

-- The errors, with the value whose type is not supported.
pub data ParseError : Type 0 where
  unsupported_destinations : Value → ParseError
  unsupported_entry : Value → ParseError

pub data Result {ℓ} (A : Type ℓ) : Type ℓ where
  ok : A → Result A
  err : ParseError → Result A

infixl 5 ◌>>=◌
abbrev pub ◌>>=◌ {ℓ κ} : {A : Type ℓ} {B : Type κ} → Result A → (A → Result B) → Result B
err e >>= f = err e
ok a >>= f = f a

abbrev destination : Text → Text → QueueDestination
destination queue key = record { queue_name = queue; binding_key = key }

-- stringFromAny(typed[key])
abbrev field_text : Fields → Text → Text
field_text fs key = string_from_any (value_or_nil (get_field key fs))

unfoldable pub table_entry : Fields → QueueDestination
unfolding first_non_empty get_field string_from_any
table_entry typed =
    destination
      (first_non_empty
        (field_text typed (codes "queue_name") ∷ field_text typed (codes "queue") ∷ []))
      (first_non_empty
        (field_text typed (codes "binding_key") ∷ field_text typed (codes "binding-key") ∷ []))

-- parseDestinationEntry
unfoldable pub parse_destination_entry : Value → Result QueueDestination
unfolding table_entry trim_space
parse_destination_entry nil = ok (destination [] [])
parse_destination_entry (table typed) = ok (table_entry typed)
parse_destination_entry (string_map typed) = ok (table_entry typed)
parse_destination_entry (str typed) = ok (destination (trim_space typed) [])
parse_destination_entry value = err (unsupported_entry value)

-- The loop over a []any: an entry with no queue name is left out.
unfoldable pub parse_entries : Items → Result (List QueueDestination)
unfolding parse_destination_entry
parse_entries no_items = ok []
parse_entries (item entry entries) = do
  d ← parse_destination_entry entry
  ds ← parse_entries entries
  ok (if not (is_nil d.queue_name) then d ∷ ds else ds)

-- The loop over a []string: an empty string is left out.
unfoldable pub parse_strings : List Text → List QueueDestination
unfolding trim_space
parse_strings [] = []
parse_strings (queue ∷ queues) =
    if not (is_nil queue)
    then destination (trim_space queue) [] ∷ parse_strings queues
    else parse_strings queues

-- parseDestinationList
unfoldable pub parse_destination_list : Value → Result (List QueueDestination)
unfolding parse_entries parse_strings trim_space
parse_destination_list (list typed) = parse_entries typed
parse_destination_list (strings typed) = ok (parse_strings typed)
parse_destination_list (str typed) =
    let queue = trim_space typed in if is_nil queue then ok [] else ok (destination queue [] ∷ [])
parse_destination_list value = err (unsupported_destinations value)

-- What parseDestinations returns where no header names a queue.
unfoldable pub deliver_fallback : Text → Text → Text → List QueueDestination
unfolding parse_deliver_queue
deliver_fallback event_type firehose_routing_key parsed_routing_key =
    let queue = parse_deliver_queue firehose_routing_key parsed_routing_key in
    if event_type == deliver
    then if not (is_nil queue) then destination queue [] ∷ [] else []
    else []

-- The headers queue_name and so on, where there is no header "destinations".
unfoldable pub named_queue : Table → Text → Text → Text → List QueueDestination
unfolding header_string deliver_fallback
named_queue headers event_type firehose_routing_key parsed_routing_key =
    let queue_name =
      header_string headers (codes "queue_name" ∷ codes "queue" ∷ codes "destination_queue" ∷ []) in
    if is_nil queue_name
    then deliver_fallback event_type firehose_routing_key parsed_routing_key
    else destination queue_name
        (header_string headers (codes "binding_key" ∷ codes "binding-key" ∷ []))
      ∷ []

abbrev listed_or : Option Value → List QueueDestination → Result (List QueueDestination)
listed_or none ds = ok ds
listed_or (some raw) ds = parse_destination_list raw

-- parseDestinations
unfoldable pub parse_destinations : Table → Text → Text → Text → Result (List QueueDestination)
unfolding deliver_fallback named_queue get_field parse_destination_list
parse_destinations none event_type firehose_routing_key parsed_routing_key =
    ok (deliver_fallback event_type firehose_routing_key parsed_routing_key)
parse_destinations (some fs) event_type firehose_routing_key parsed_routing_key =
    listed_or (get_field (codes "destinations") fs)
      (named_queue (some fs) event_type firehose_routing_key parsed_routing_key)

-- The key under which dedupeDestinations remembers a destination.
unfoldable pub dedupe_key : QueueDestination → Text
dedupe_key d = d.queue_name ++ b'|' ∷ d.binding_key

-- The loop of dedupeDestinations: `seen` holds the keys met so far.
unfoldable pub dedupe_from : List Text → List QueueDestination → List QueueDestination
unfolding dedupe_key contains
dedupe_from seen [] = []
dedupe_from seen (d ∷ ds) =
    let key = dedupe_key d in
    let fresh = d ∷ dedupe_from (key ∷ seen) ds in
    let repeated = dedupe_from seen ds in if contains key seen then repeated else fresh

-- dedupeDestinations
unfoldable pub dedupe_destinations : List QueueDestination → List QueueDestination
unfolding dedupe_from
dedupe_destinations destinations = dedupe_from [] destinations
