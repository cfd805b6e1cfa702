-- ===== src/App/Tests.antt =====
-- Runs of a session, and its theorem at a concrete input.
use amqp_routing_inspector.Base.{
  true, List, [], ◌∷◌, ◌++◌, ◌≡◌, refl, none, some, nat_eq, list_eq, list_beq, arith, map, take,
  length, ltb, if◌then◌else◌,
}
use amqp_routing_inspector.Base.Int.{pos}
use amqp_routing_inspector.Base.Text.{Text, codes, to_lower}
use amqp_routing_inspector.Model.{Time, RoutingTrace}
use amqp_routing_inspector.Parser.Value.{other, str, field, no_fields}
use amqp_routing_inspector.Parser.Delivery.{Delivery, new_with_config, parse_delivery}
use amqp_routing_inspector.Filter.Matcher.{new_matcher, matches}
use amqp_routing_inspector.Output.Json.{new_json_renderer}
use amqp_routing_inspector.Output.Json.Trace.{read_trace, seen}
use amqp_routing_inspector.Output.Json.Lines.{lines, all_text}
use amqp_routing_inspector.App.{Service, max_events_reached, run_session, set_parser}
use amqp_routing_inspector.App.Laws.{recorder, accepted, arrivals}
use amqp_routing_inspector.App.Fold.{step_all, with_renderer, run_session-NeverFails}
use amqp_routing_inspector.App.Json.{json_output, run_session-lines}

abbrev noon : Time
noon = record { since_zero = 12; zone = 0 }

abbrev message : Delivery
message = record {
  headers = some (field (codes "queue") (str (codes "pay.q")) no_fields);
  routing_key = codes "publish.orders";
  message_id = [];
  correlation_id = [];
  timestamp = noon;
  body = [];
}

abbrev broken : Delivery
broken = record message {
  headers = some (field (codes "destinations") (other (codes "7")) no_fields);
}

abbrev service : Service (List RoutingTrace)
service = record {
  max_events = pos 2;
  warn_unrouted = true;
  parser = new_with_config (pos 0);
  matcher = new_matcher [] [] [] [];
  renderer = [];
  log = [];
  matched_events = 0;
}

abbrev traffic : List (Time × Delivery)
traffic = (noon, message) ∷ (noon, broken) ∷ (noon, message) ∷ (noon, message) ∷ []

abbrev push : List RoutingTrace → RoutingTrace → List RoutingTrace
push ts t = ts ++ t ∷ []

run_session-NeverFails_example :
    ((run_session (recorder {E = Text}) service (arrivals traffic)).0.renderer
      ≡ step_all push [] (take 2 (accepted service.parser service.matcher traffic)))
    × ((run_session (recorder {E = Text}) service (arrivals traffic)).1 ≡ (
        if ltb 1 (length (accepted service.parser service.matcher traffic))
        then some max_events_reached
        else none))
run_session-NeverFails_example =
    run_session-NeverFails (recorder {E = Text}) push service (some 1) traffic (λ ts t. refl)
      (2, refl, omega arith, omega arith)

abbrev noon_text : Time → Text
noon_text t = codes "2026-03-05T12:00:00Z"

run_session-lines_example :
    map read_trace (
      lines (
        all_text
          (run_session
            (json_output Text noon_text)
            (with_renderer service new_json_renderer)
            (arrivals traffic)).0.renderer.written))
    ≡ map
        (λ t. some (seen (noon_text t.event.timestamp) t))
        (take 2 (accepted service.parser service.matcher traffic))
run_session-lines_example =
    run_session-lines Text noon_text service (some 1) traffic (2, refl, omega arith, omega arith)

-- Two of the four deliveries are shown: the second one does not parse.
two_shown : length (take 2 (accepted service.parser service.matcher traffic)) ≡ 2
unfolding accepted parse_delivery matches new_matcher list_beq to_lower
two_shown = refl

-- SetParser with nil keeps the parser, and with another parser the preview gets its length.
no_parser_kept : set_parser service none ≡ service
unfolding set_parser
no_parser_kept = refl

preview_set : (set_parser service (some (new_with_config (pos 4)))).parser ≡ new_with_config (pos 4)
unfolding set_parser new_with_config
preview_set = refl
