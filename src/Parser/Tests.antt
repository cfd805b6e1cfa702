-- ===== src/Parser/Tests.antt =====
-- Runs of the parser, and each theorem at a concrete input.
use mathlib.Core.List.{Mem, Nodup}
use amqp_routing_inspector.Base.{List, [], ◌∷◌, ◌≡◌, ◌↔◌, refl, some, nat_eq, list_eq, list_beq}
use amqp_routing_inspector.Base.Int.{pos}
use amqp_routing_inspector.Base.Text.{Text, codes}
use amqp_routing_inspector.Model.{Time, QueueDestination}
use amqp_routing_inspector.Parser.Value.{str, other, list, item, no_items, table, field, no_fields}
use amqp_routing_inspector.Parser.Destinations.{
  ok, err, unsupported_destinations, dedupe_destinations,
}
use amqp_routing_inspector.Parser.Destinations.Dedupe.{
  keys_of, dedupe_destinations_lem, dedupe_destinations_drops,
}
use amqp_routing_inspector.Parser.Delivery.{
  EventParser, Delivery, parse_delivery, event_with, exchange_name_of, body_preview_of,
}
use amqp_routing_inspector.Parser.Delivery.Laws.{IsEvent, parse_delivery-IsEvent}
use amqp_routing_inspector.Parser.Delivery.Errors.{IsRefused, parse_delivery_err_iff}

abbrev noon : Time
noon = record { since_zero = 12; zone = 2 }

abbrev no_time : Time
no_time = record { since_zero = 0; zone = 0 }

abbrev two : QueueDestination
two = record { queue_name = codes "pay.q"; binding_key = codes "order.#" }

abbrev audit : QueueDestination
audit = record { queue_name = codes "audit.q"; binding_key = [] }

abbrev publication : Delivery
publication = record {
  headers = some (
      field (codes "destinations")
        (list (
          item (str (codes "pay.q")) (
            item (table (field (codes "queue_name") (str (codes "audit.q")) no_fields))
              (item (str (codes " pay.q ")) no_items))))
        (field (codes "routing_key") (str (codes "order.created")) no_fields));
  routing_key = codes "publish.orders.eu.order.created";
  message_id = [];
  correlation_id = [];
  timestamp = no_time;
  body = codes "hello";
}

abbrev refused : Delivery
refused = record publication {
  headers = some (field (codes "destinations") (other (codes "7")) no_fields);
}

abbrev parser : EventParser
parser = record { max_body_bytes = pos 4 }

exchange_is_cut : exchange_name_of publication ≡ codes "orders.eu"
unfolding exchange_name_of list_beq
exchange_is_cut = refl

preview_is_cut : body_preview_of parser (codes "hello") ≡ codes "hell"
unfolding body_preview_of
preview_is_cut = refl

abbrev once : List QueueDestination
once = record { queue_name = codes "pay.q"; binding_key = [] } ∷ audit ∷ []

parsed : parse_delivery parser noon publication ≡ ok (event_with parser noon publication once)
unfolding parse_delivery list_beq
parsed = refl

parse_delivery-IsEvent_example :
    IsEvent parser noon publication (event_with parser noon publication once)
parse_delivery-IsEvent_example =
    parse_delivery-IsEvent parser noon publication (event_with parser noon publication once) parsed

parse_delivery_err_iff_example :
    (parse_delivery parser noon refused ≡ err (unsupported_destinations (other (codes "7"))))
    ↔ IsRefused refused.headers (unsupported_destinations (other (codes "7")))
parse_delivery_err_iff_example =
    parse_delivery_err_iff parser noon refused (unsupported_destinations (other (codes "7")))

refused_is_an_error :
    parse_delivery parser noon refused ≡ err (unsupported_destinations (other (codes "7")))
unfolding parse_delivery list_beq
refused_is_an_error = refl

dedupe_destinations_lem_example :
    Nodup (keys_of (dedupe_destinations (two ∷ audit ∷ two ∷ [])))
    × ((k : Text)
        → Mem k (keys_of (two ∷ audit ∷ two ∷ []))
        → Mem k (keys_of (dedupe_destinations (two ∷ audit ∷ two ∷ []))))
    × ((d : QueueDestination)
        → Mem d (dedupe_destinations (two ∷ audit ∷ two ∷ []))
        → Mem d (two ∷ audit ∷ two ∷ []))
dedupe_destinations_lem_example = dedupe_destinations_lem (two ∷ audit ∷ two ∷ [])

dedupe_destinations_drops_example :
    dedupe_destinations (
      record { queue_name = codes "a|b"; binding_key = codes "c" }
      ∷ record { queue_name = codes "a"; binding_key = codes "b|c" }
      ∷ [])
    ≡ record { queue_name = codes "a|b"; binding_key = codes "c" } ∷ []
dedupe_destinations_drops_example = dedupe_destinations_drops (codes "a") (codes "b") (codes "c")
