-- ===== src/Parser/Names.antt =====
-- internal/parser/parser.go: the names in a firehose routing key, and firstNonEmpty.
pub mod Roundtrip
use amqp_routing_inspector.Base.{
  ℕ, Bool, true, false, not, ◌&&◌, List, [], ◌∷◌, ◌++◌, nat_eq, list_eq, ◌==◌, is_nil,
  if◌then◌else◌,
}
use amqp_routing_inspector.Base.Text.{
  Text, codes, dot, trim_space, split, has_prefix, trim_prefix, has_suffix, trim_suffix,
}

-- firstNonEmpty
unfoldable pub first_non_empty : List Text → Text
unfolding trim_space
first_non_empty [] = []
first_non_empty (value ∷ values) =
    if not (is_nil (trim_space value)) then trim_space value else first_non_empty values

-- `parts[0]` of the dot-separated parts, trimmed; there is always one.
unfoldable pub first_part : List Text → Text
unfolding trim_space
first_part [] = []
first_part (part ∷ parts) = trim_space part

-- `parts[1]`, trimmed, or "" where there are fewer than two parts.
unfoldable pub second_part : List Text → Text
unfolding trim_space
second_part [] = []
second_part (part ∷ []) = []
second_part (part ∷ next ∷ parts) = trim_space next

-- parseEventTypeFromRoutingKey
unfoldable pub parse_event_type_from_routing_key : Text → Text
unfolding first_part split trim_space
parse_event_type_from_routing_key routing_key = first_part (split dot (trim_space routing_key))

-- The candidate that is left when the parsed routing key is cut off the remainder, or `otherwise`.
unfoldable pub cut_routing_key : Text → Text → Text → Text
unfolding has_suffix trim_suffix trim_space
cut_routing_key remainder parsed_routing_key otherwise =
    let suffix = dot ∷ parsed_routing_key in
    let candidate = trim_space (trim_suffix remainder suffix) in
    if not (is_nil parsed_routing_key) && has_suffix remainder suffix && not (is_nil candidate)
    then candidate
    else otherwise

abbrev pub publish : Text
publish = codes "publish"

abbrev pub deliver : Text
deliver = codes "deliver"

-- The part of parseExchangeFromFirehoseRoutingKey behind the event type and its dot.
unfoldable pub parse_exchange_remainder : Text → Text → Text → Text
unfolding cut_routing_key first_part split
parse_exchange_remainder remainder event_type parsed_routing_key =
    if is_nil remainder
    then []
    else cut_routing_key remainder parsed_routing_key
        (if event_type == publish then remainder else first_part (split dot remainder))

-- parseExchangeFromFirehoseRoutingKey, on its arguments when they are trimmed.
unfoldable pub parse_exchange_trimmed : Text → Text → Text → Text
unfolding parse_exchange_remainder second_part split has_prefix trim_prefix trim_space
parse_exchange_trimmed firehose_routing_key event_type parsed_routing_key =
    let prefix = event_type ++ dot ∷ [] in
    if is_nil firehose_routing_key
    then []
    else if is_nil event_type
    then second_part (split dot firehose_routing_key)
    else if not (has_prefix firehose_routing_key prefix)
    then second_part (split dot firehose_routing_key)
    else parse_exchange_remainder (trim_space (trim_prefix firehose_routing_key prefix)) event_type
        parsed_routing_key

-- parseExchangeFromFirehoseRoutingKey
unfoldable pub parse_exchange : Text → Text → Text → Text
unfolding parse_exchange_trimmed trim_space
parse_exchange firehose_routing_key event_type parsed_routing_key =
    parse_exchange_trimmed (trim_space firehose_routing_key) (trim_space event_type)
      (trim_space parsed_routing_key)

-- parseDeliverQueueFromFirehoseRoutingKey
unfoldable pub parse_deliver_queue : Text → Text → Text
unfolding cut_routing_key trim_space trim_prefix
parse_deliver_queue firehose_routing_key parsed_routing_key =
    let remainder = trim_space (trim_prefix (trim_space firehose_routing_key) (codes "deliver.")) in
    if is_nil remainder
    then []
    else cut_routing_key remainder (trim_space parsed_routing_key) remainder
