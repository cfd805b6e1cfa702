-- ===== src/App.antt =====
-- internal/app/service.go: handleDelivery and the loop of runSession.
pub mod Laws
pub mod Run
pub mod Limit
pub mod Fold
pub mod Json
pub mod Diagram
pub mod New
mod Tests
use amqp_routing_inspector.Base.{
  ℕ, Bool, true, false, not, ◌&&◌, List, [], ◌∷◌, ◌++◌, Option, none, some, nat_eq, list_eq, ◌==◌,
  is_nil, if◌then◌else◌,
}
use amqp_routing_inspector.Base.Int.{ℤ, is_positive, ltb_ℤ}
use amqp_routing_inspector.Base.Decimal.{increment, signed}
use amqp_routing_inspector.Base.Text.{Text, codes}
use amqp_routing_inspector.Model.{Time, RoutingEvent, RoutingTrace}
use amqp_routing_inspector.Parser.Destinations.{ParseError, Result, ok, err}
use amqp_routing_inspector.Parser.Delivery.{EventParser, Delivery, parse_delivery}
use amqp_routing_inspector.Filter.Matcher.{Matcher, matches}

-- RenderTrace of output.Renderer: the state `R` that it changes, and its error.
pub record Renderer (R : Type 0) (E : Type 0) : Type 0 where
  pub render_trace : R → RoutingTrace → R × Option E

-- The lines that the service logs about a delivery.
pub data LogLine : Type 0 where
  parse_failed : Text → ParseError → LogLine
  unrouted_message : Text → Text → Text → LogLine

-- The parser is the one that NewWithDeps sets, and the count the bit pattern of an int.
pub record Service (R : Type 0) : Type 0 where
  pub max_events : ℤ
  pub warn_unrouted : Bool
  pub parser : EventParser
  pub matcher : Matcher
  pub renderer : R
  pub log : List LogLine
  pub matched_events : ℕ

pub data SessionError (E : Type 0) : Type 0 where
  render_failed : E → SessionError E
  max_events_reached : SessionError E
  reconnect_needed : SessionError E
  context_done : SessionError E

abbrev pub trace_of : RoutingEvent → RoutingTrace
trace_of event = record { event = event; destinations = event.destinations }

abbrev pub logged : {R : Type 0} → Service R → LogLine → Service R
logged s line = record s { log = s.log ++ line ∷ [] }

-- SetParser, for the parsers of internal/parser; `none` is nil.
unfoldable pub set_parser : {R : Type 0} → Service R → Option EventParser → Service R
set_parser s none = s
set_parser s (some p) = record s { parser = p }

-- The warning about a publication that reaches no queue.
unfoldable pub warned : {R : Type 0} → Service R → RoutingEvent → Service R
warned s event =
    if s.warn_unrouted && event.event_type == codes "publish" && is_nil event.destinations
    then logged s (unrouted_message event.exchange_name event.routing_key event.message_id)
    else s

-- What follows RenderTrace.
unfoldable pub rendered :
    {R E : Type 0} → Service R → R × Option E → Service R × Option (SessionError E)
rendered s (r, some e) = (record s { renderer = r }, some (render_failed e))
rendered s (r, none) =
    let matched = increment s.matched_events in
    (
      record s { renderer = r; matched_events = matched },
      if is_positive s.max_events && not (ltb_ℤ (signed matched) s.max_events)
          then some max_events_reached
          else none,
    )

-- handleDelivery behind the parser.
unfoldable pub handle_event :
    {R E : Type 0} → Renderer R E → Service R → RoutingEvent → Service R × Option (SessionError E)
unfolding rendered
handle_event o s event =
    if not (matches (some s.matcher) (trace_of event))
    then (s, none)
    else rendered s (o.render_trace s.renderer (trace_of event))

unfoldable pub handle_result :
    {R E : Type 0}
    → Renderer R E
    → Service R
    → Text
    → Result RoutingEvent
    → Service R × Option (SessionError E)
unfolding handle_event warned
handle_result o s routing_key (err e) = (logged s (parse_failed routing_key e), none)
handle_result o s routing_key (ok event) = handle_event o (warned s event) event

-- handleDelivery, where the clock shows `now`.
unfoldable pub handle_delivery :
    {R E : Type 0}
    → Renderer R E
    → Service R
    → Time
    → Delivery
    → Service R × Option (SessionError E)
unfolding handle_result
handle_delivery o s now d = handle_result o s d.routing_key (parse_delivery s.parser now d)

-- What the select of a session takes: a delivery with the clock's time, or an end.
pub data SessionEvent : Type 0 where
  delivered : Time → Delivery → SessionEvent
  cancelled : SessionEvent
  connection_closed : SessionEvent
  deliveries_closed : SessionEvent

-- What follows one pass of the loop: an error ends it.
abbrev pub proceed :
    {R E : Type 0}
    → Service R × Option (SessionError E)
    → (Service R → Service R × Option (SessionError E))
    → Service R × Option (SessionError E)
proceed (s, none) next = next s
proceed (s, some e) next = (s, some e)

-- The loop of runSession: no error means that the session still waits.
unfoldable pub run_session :
    {R E : Type 0}
    → Renderer R E
    → Service R
    → List SessionEvent
    → Service R × Option (SessionError E)
unfolding handle_delivery
run_session o s [] = (s, none)
run_session o s (cancelled ∷ events) = (s, some context_done)
run_session o s (connection_closed ∷ events) = (s, some reconnect_needed)
run_session o s (deliveries_closed ∷ events) = (s, some reconnect_needed)
run_session o s (delivered now d ∷ events) =
    proceed (handle_delivery o s now d) (λ s'. run_session o s' events)
