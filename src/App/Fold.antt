-- ===== src/App/Fold.antt =====
-- internal/app/service.go: a session with any renderer that does not fail.
use amqp_routing_inspector.Base.{
  ℕ, ◌&&◌, not, ◌==◌, list_eq, nat_eq, is_nil, Bool, true, false, inl, inr, List, [], ◌∷◌, ◌++◌,
  ◌≡◌, refl, ap, ◌∙◌, Option, none, some, Bool-cases, if◌then◌else◌,
}
use amqp_routing_inspector.Base.Text.{Text, codes}
use amqp_routing_inspector.Base.Int.{is_positive, ltb_ℤ}
use amqp_routing_inspector.Base.Decimal.{signed, increment}
use amqp_routing_inspector.Model.{Time, RoutingEvent, RoutingTrace}
use amqp_routing_inspector.Parser.Destinations.{Result, ok, err}
use amqp_routing_inspector.Parser.Delivery.{Delivery, parse_delivery}
use amqp_routing_inspector.Filter.Matcher.{matches}
use amqp_routing_inspector.App.{
  proceed, Renderer, Service, SessionError, max_events_reached, render_failed, reconnect_needed,
  context_done, trace_of, warned, rendered, handle_delivery, handle_event, handle_result,
  run_session, SessionEvent, delivered, cancelled, connection_closed, deliveries_closed,
}
use amqp_routing_inspector.App.Laws.{recorder, accepted, arrivals}
use amqp_routing_inspector.App.Limit.{Allows, within, is_reached, run_session-within}

abbrev lifted : {E : Type 0} → SessionError ⊥ → SessionError E
lifted (render_failed e) = absurd e
lifted max_events_reached = max_events_reached
lifted reconnect_needed = reconnect_needed
lifted context_done = context_done

abbrev pub lifted? : {E : Type 0} → Option (SessionError ⊥) → Option (SessionError E)
lifted? none = none
lifted? (some e) = some (lifted e)

abbrev pub step_all : {R : Type 0} → (R → RoutingTrace → R) → R → List RoutingTrace → R
step_all step r [] = r
step_all step r (t ∷ ts) = step_all step (step r t) ts

step_all-append :
    {R : Type 0} (step : R → RoutingTrace → R) (r : R) (ts us : List RoutingTrace)
    → step_all step r (ts ++ us) ≡ step_all step (step_all step r ts) us
step_all-append step r [] us = refl
step_all-append step r (t ∷ ts) us = step_all-append step (step r t) ts us

-- From the state `r` on, whatever the traces, the renderer takes each by `step` and does not fail.
abbrev pub NeverFails : {R E : Type 0} → Renderer R E → (R → RoutingTrace → R) → R → Type 0
NeverFails o step r =
    (ts : List RoutingTrace) (t : RoutingTrace)
    → o.render_trace (step_all step r ts) t ≡ (step (step_all step r ts) t, none)

-- The same service with another renderer.
abbrev pub with_renderer : {R S : Type 0} → Service S → R → Service R
with_renderer s r = record {
  max_events = s.max_events;
  warn_unrouted = s.warn_unrouted;
  parser = s.parser;
  matcher = s.matcher;
  renderer = r;
  log = s.log;
  matched_events = s.matched_events;
}

module _ {R : Type 0} (step : R → RoutingTrace → R) (r : R) where
  -- The service whose renderer has taken what the recorder has.
  abbrev carried : Service (List RoutingTrace) → Service R
  carried s = with_renderer s (step_all step r s.renderer)

  abbrev carried_end :
      {E : Type 0}
      → Service (List RoutingTrace) × Option (SessionError ⊥)
      → Service R × Option (SessionError E)
  carried_end (s, e) = (carried s, lifted? e)

  warned-carried :
      (s : Service (List RoutingTrace)) (event : RoutingEvent)
      → warned (carried s) event ≡ carried (warned s event)
  unfolding warned
  warned-carried s event =
      elim (Bool-cases
        (s.warn_unrouted && event.event_type == codes "publish" && is_nil event.destinations)) [
          | inl e ↦ simp e refl
          | inr e ↦ simp e refl
        ]

  rendered-carried :
      {E : Type 0} (s : Service (List RoutingTrace)) (t : RoutingTrace)
      → rendered (carried s) (step (step_all step r s.renderer) t, none)
        ≡ carried_end {E = E} (rendered s (s.renderer ++ t ∷ [], none))
  unfolding rendered
  rendered-carried s t =
      elim (Bool-cases (
        is_positive s.max_events
        && not (ltb_ℤ (signed (increment s.matched_events)) s.max_events))) [
          | inl e ↦ simp (e, step_all-append step r s.renderer (t ∷ [])) refl
          | inr e ↦ simp (e, step_all-append step r s.renderer (t ∷ [])) refl
        ]

  module _ {E : Type 0} (o : Renderer R E) (sound : NeverFails o step r) where
    handle_event-carried :
        (s : Service (List RoutingTrace)) (event : RoutingEvent)
        → handle_event o (carried s) event ≡ carried_end (handle_event recorder s event)
    unfolding handle_event
    handle_event-carried s event = elim (Bool-cases (matches (some s.matcher) (trace_of event))) [
      | inl e ↦ simp e (
          ap (rendered (carried s)) (sound s.renderer (trace_of event))
          ∙ rendered-carried s (trace_of event))
      | inr e ↦ simp e refl
    ]

    handle_result-carried :
        (s : Service (List RoutingTrace)) (key : Text) (p : Result RoutingEvent)
        → handle_result o (carried s) key p ≡ carried_end (handle_result recorder s key p)
    unfolding handle_result
    handle_result-carried s key (err e) = refl
    handle_result-carried s key (ok event) =
        ap (λ u. handle_event o u event) (warned-carried s event)
        ∙ handle_event-carried (warned s event) event

    proceed-carried :
        (end : Service (List RoutingTrace) × Option (SessionError ⊥))
        (next : Service R → Service R × Option (SessionError E))
        (later : Service (List RoutingTrace)
          → Service (List RoutingTrace) × Option (SessionError ⊥))
        → ((s : Service (List RoutingTrace)) → next (carried s) ≡ carried_end (later s))
        → proceed (carried_end end) next ≡ carried_end (proceed end later)
    proceed-carried (s, none) next later h = h s
    proceed-carried (s, some e) next later h = refl

    run_session-carried :
        (s : Service (List RoutingTrace)) (events : List SessionEvent)
        → run_session o (carried s) events ≡ carried_end (run_session recorder s events)
    unfolding run_session handle_delivery
    run_session-carried s [] = refl
    run_session-carried s (cancelled ∷ events) = refl
    run_session-carried s (connection_closed ∷ events) = refl
    run_session-carried s (deliveries_closed ∷ events) = refl
    run_session-carried s (delivered now d ∷ events) =
        let p = parse_delivery s.parser now d in
        ap (λ end. proceed end (λ s'. run_session o s' events))
          (handle_result-carried s d.routing_key p)
        ∙ proceed-carried (handle_result recorder s d.routing_key p) _ _
            (λ s'. run_session-carried s' events)

ended_by_max :
    {E : Type 0} (e : Option (SessionError ⊥)) (b : Bool)
    → e ≡ (if b then some max_events_reached else none)
    → lifted? {E = E} e ≡ (if b then some max_events_reached else none)
ended_by_max e true h = rw h
ended_by_max e false h = rw h

-- With any renderer that does not fail, a session gives its renderer exactly the traces that parse and
-- that the matcher accepts, in the order of their deliveries: all of them where max-events is not
-- positive, and else the first that there is room for, and it ends by max-events exactly when these are
-- as many as that.
pub run_session-NeverFails :
    {R E : Type 0} (o : Renderer R E) (step : R → RoutingTrace → R) (s : Service R)
    (limit : Option ℕ) (ds : List (Time × Delivery))
    → NeverFails o step s.renderer
    → Allows s.max_events s.matched_events limit
    → let ts = accepted s.parser s.matcher ds in
      let end = run_session o s (arrivals ds) in
      (end.0.renderer ≡ step_all step s.renderer (within limit ts))
      × (end.1 ≡ (if is_reached limit ts then some max_events_reached else none))
run_session-NeverFails o step s limit ds sound room =
    let start = with_renderer s [] in
    let (a, b) = run_session-within start limit ds room in
    let whole = run_session-carried step s.renderer o sound start (arrivals ds) in
    (
      ap (λ end. end.0.renderer) whole ∙ ap (step_all step s.renderer) a,
      ap (λ end. end.1) whole ∙ ended_by_max _ _ b,
    )
