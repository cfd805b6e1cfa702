-- ===== src/App/Run/Resume.antt =====
-- internal/app/service.go: reconnecting, Run goes on where the session before was interrupted.
use amqp_routing_inspector.Base.{
  Bool, true, false, List, [], ◌∷◌, ◌++◌, ◌≡◌, refl, sym, ap, ◌∙◌, map, Option, none, some, inl,
  inr, Bool-cases, ℕ, arith,
}
use amqp_routing_inspector.Model.{Time, RoutingEvent}
use amqp_routing_inspector.Parser.Destinations.{Result, ok, err}
use amqp_routing_inspector.Parser.Delivery.{Delivery, parse_delivery}
use amqp_routing_inspector.Filter.Matcher.{matches}
use amqp_routing_inspector.App.{
  Renderer, Service, SessionError, render_failed, max_events_reached, reconnect_needed,
  context_done, SessionEvent, connection_closed, deliveries_closed, run_session, proceed, rendered,
  warned, handle_event, handle_result, handle_delivery, trace_of,
}
use amqp_routing_inspector.App.Laws.{arrivals}
use amqp_routing_inspector.App.Run.{
  Pass, session, RunResult, returned, waiting, session_failed, Run, on_error, after_session,
  run_passes, calling, leaving, connect, consume,
}

-- A session that handles deliveries until its connection or its channel is lost. The flag `over` is
-- Run's look at its context behind it.
pub record Interrupted : Type 0 where
  pub deliveries : List (Time × Delivery)
  pub connection_lost : Bool
  pub over : Bool

abbrev interruption : Bool → SessionEvent
interruption true = connection_closed
interruption false = deliveries_closed

abbrev pub pass_of : {E : Type 0} → Interrupted → Pass E
pass_of i = session (arrivals i.deliveries ++ interruption i.connection_lost ∷ []) i.over

abbrev pub all_deliveries : List Interrupted → List (Time × Delivery)
all_deliveries [] = []
all_deliveries (i ∷ is) = i.deliveries ++ all_deliveries is

-- What Run makes of how one session ends.
abbrev pub result_of : {E : Type 0} → Option (SessionError E) → RunResult E
result_of none = waiting
result_of (some (render_failed e)) = returned (some (session_failed e))
result_of (some _) = returned none

-- Not the loss of the connection.
abbrev is_own : {E : Type 0} → Option (SessionError E) → Bool
is_own (some reconnect_needed) = false
is_own _ = true

module _ {R E : Type 0} (o : Renderer R E) where
  rendered_own : (s : Service R) (r : R × Option E) → is_own (rendered s r).1 ≡ true
  unfolding rendered
  rendered_own s (r, none) = ground arith
  rendered_own s (r, some e) = refl

  handled_own :
      (s : Service R) (k : List ℕ) (r : Result RoutingEvent)
      → is_own (handle_result o s k r).1 ≡ true
  unfolding handle_result handle_event
  handled_own s k (err e) = refl
  handled_own s k (ok event) =
      elim (Bool-cases (matches (some (warned s event).matcher) (trace_of event))) [
        | inl q ↦ rw q (
            rendered_own (warned s event)
              (o.render_trace (warned s event).renderer (trace_of event)))
        | inr q ↦ rw q refl
      ]

  proceed_own :
      (r : Service R × Option (SessionError E))
      (next : Service R → Service R × Option (SessionError E))
      → is_own r.1 ≡ true
      → ((s : Service R) → is_own (next s).1 ≡ true)
      → is_own (proceed r next).1 ≡ true
  proceed_own (s, none) next h k = k s
  proceed_own (s, some e) next h k = h

  session_own :
      (s : Service R) (ds : List (Time × Delivery))
      → is_own (run_session o s (arrivals ds)).1 ≡ true
  unfolding run_session handle_delivery
  session_own s [] = refl
  session_own s ((now, d) ∷ ds) =
      proceed_own (handle_delivery o s now d) (λ t. run_session o t (arrivals ds))
        (handled_own s d.routing_key (parse_delivery s.parser now d)) (λ t. session_own t ds)

  proceed_twice :
      (r : Service R × Option (SessionError E))
      (f g h : Service R → Service R × Option (SessionError E))
      → ((s : Service R) → f s ≡ proceed (g s) h)
      → proceed r f ≡ proceed (proceed r g) h
  proceed_twice (s, none) f g h k = k s
  proceed_twice (s, some e) f g h k = refl

  -- A session handles its first deliveries, and then the rest if no error ended it.
  pub run_session-append :
      (s : Service R) (ds : List (Time × Delivery)) (rest : List SessionEvent)
      → run_session o s (arrivals ds ++ rest)
        ≡ proceed (run_session o s (arrivals ds)) (λ t. run_session o t rest)
  unfolding run_session
  run_session-append s [] rest = refl
  run_session-append s ((now, d) ∷ ds) rest =
      proceed_twice (handle_delivery o s now d) (λ t. run_session o t (arrivals ds ++ rest))
        (λ t. run_session o t (arrivals ds)) (λ t. run_session o t rest)
        (λ t. run_session-append t ds rest)

pub arrivals-append :
    (ds es : List (Time × Delivery)) → arrivals (ds ++ es) ≡ arrivals ds ++ arrivals es
arrivals-append [] es = refl
arrivals-append (d ∷ ds) es = rw (arrivals-append ds es) refl

-- The run has the state and the result of the session.
abbrev pub Follows : {R E : Type 0} → Run R E → Service R × Option (SessionError E) → Type 0
Follows r (s, e) = (r.service ≡ s) × (r.result ≡ result_of e)

module _ {R E : Type 0} (o : Renderer R E) (is_context_error : E → Bool) where
  interrupted :
      (s t : Service R) (ds : List (Time × Delivery)) (lost : Bool)
      → run_session o s (arrivals ds) ≡ (t, none)
      → run_session o s (arrivals ds ++ interruption lost ∷ []) ≡ (t, some reconnect_needed)
  unfolding run_session
  interrupted s t ds true e = run_session-append o s ds (connection_closed ∷ []) ∙ (rw e refl)
  interrupted s t ds false e = run_session-append o s ds (deliveries_closed ∷ []) ∙ (rw e refl)

  ended_before :
      (s t : Service R) (x : SessionError E) (ds : List (Time × Delivery))
      (rest : List SessionEvent)
      → run_session o s (arrivals ds) ≡ (t, some x)
      → run_session o s (arrivals ds ++ rest) ≡ (t, some x)
  ended_before s t x ds rest e = run_session-append o s ds rest ∙ (rw e refl)

  ended-Follows :
      (x : SessionError E) (over : Bool) (t : Service R) (next : Service R → Run R E)
      → ((e : E) → is_context_error e ≡ false)
      → is_own (some x) ≡ true
      → Follows
          (calling connect (
            calling consume (
              leaving o is_context_error
                (some x)
                (after_session o is_context_error (some x) over t next))))
          (t, some x)
  unfolding after_session on_error
  ended-Follows max_events_reached over t next h k = (refl, refl)
  ended-Follows context_done over t next h k = (refl, refl)
  ended-Follows reconnect_needed over t next h k = cc
  ended-Follows (render_failed e) over t next h k = rw (h e) (refl, refl)

  -- One pass of Run: a session, and what follows it.
  abbrev passing : Service R × Option (SessionError E) → Bool → (Service R → Run R E) → Run R E
  passing (s, error) over next = calling connect (
      calling consume
        (leaving o is_context_error error (after_session o is_context_error error over s next)))

  pub passing-Follows :
      (s : Service R) (i : Interrupted) (rest : List SessionEvent) (next : Service R → Run R E)
      → ((e : E) → is_context_error e ≡ false)
      → ((t : Service R) → Follows (next t) (run_session o t rest))
      → (r : Service R × Option (SessionError E)) → run_session o s (arrivals i.deliveries) ≡ r
      → Follows
          (passing
            (run_session o s (arrivals i.deliveries ++ interruption i.connection_lost ∷ []))
            i.over
            next)
          (run_session o s (arrivals i.deliveries ++ rest))
  unfolding after_session
  passing-Follows s i rest next h k (t, none) q =
      rw
        (
          interrupted s t i.deliveries i.connection_lost q,
          run_session-append o s i.deliveries rest,
          q,
        )
        (k t)
  passing-Follows s i rest next h k (t, some x) q =
      rw
        (
          ended_before s t x i.deliveries (interruption i.connection_lost ∷ []) q,
          ended_before s t x i.deliveries rest q,
        )
        (ended-Follows x i.over t next h
          (sym (ap (λ r. is_own r.1) q) ∙ session_own o s i.deliveries))

  -- Where no error of the renderer is the end of a context, a run whose sessions are all interrupted,
  -- however the deliveries fall into sessions, changes the service as one session that handles all the
  -- deliveries does, and has that session's result: it waits as long as that waits, and returns as soon
  -- as that reaches max-events or fails.
  pub run_passes-Follows :
      (s : Service R) (is : List Interrupted)
      → ((e : E) → is_context_error e ≡ false)
      → Follows
          (run_passes o is_context_error s (map pass_of is))
          (run_session o s (arrivals (all_deliveries is)))
  unfolding run_passes run_session
  run_passes-Follows s [] h = (refl, refl)
  run_passes-Follows s (i ∷ is) h = rw (arrivals-append i.deliveries (all_deliveries is)) (
      passing-Follows s i (arrivals (all_deliveries is))
        (λ t. run_passes o is_context_error t (map pass_of is)) h (λ t. run_passes-Follows t is h)
        (run_session o s (arrivals i.deliveries)) refl)
