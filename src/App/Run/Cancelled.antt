-- ===== src/App/Run/Cancelled.antt =====
-- internal/app/service.go: a run whose sessions are interrupted until the context ends.
use mathlib.Core.List.{append_assoc}
use amqp_routing_inspector.Base.{
  ℕ, Bool, true, false, List, [], ◌∷◌, ◌++◌, ◌≡◌, refl, sym, ap, ◌∙◌, map, Option, none, some,
  if◌then◌else◌,
}
use amqp_routing_inspector.Model.{RoutingTrace}
use amqp_routing_inspector.App.{
  proceed, Renderer, Service, SessionError, max_events_reached, cancelled, run_session,
}
use amqp_routing_inspector.App.Laws.{accepted, arrivals}
use amqp_routing_inspector.App.Limit.{Allows, within}
use amqp_routing_inspector.App.Fold.{step_all, NeverFails, run_session-NeverFails}
use amqp_routing_inspector.App.Run.{
  context_over, returned, Run, first_error, with_closed, close_last, run_passes, run,
}
use amqp_routing_inspector.App.Run.Resume.{
  Interrupted, pass_of, all_deliveries, result_of, Follows, passing-Follows, run_session-append,
  arrivals-append,
}

module _ {R E : Type 0} (o : Renderer R E) (is_context_error : E → Bool) where
  -- Such a run is as one session that handles all the deliveries and is then cancelled.
  cancelled-Follows :
      (s : Service R) (is : List Interrupted)
      → ((e : E) → is_context_error e ≡ false)
      → Follows
          (run_passes o is_context_error s (map pass_of is ++ context_over ∷ []))
          (run_session o s (arrivals (all_deliveries is) ++ cancelled ∷ []))
  unfolding run_passes run_session
  cancelled-Follows s [] h = (refl, refl)
  cancelled-Follows s (i ∷ is) h =
      rw
        (
          arrivals-append i.deliveries (all_deliveries is),
          append_assoc (arrivals i.deliveries) (arrivals (all_deliveries is)) (cancelled ∷ []),
        )
        (passing-Follows o is_context_error s i (arrivals (all_deliveries is) ++ cancelled ∷ [])
          (λ t. run_passes o is_context_error t (map pass_of is ++ context_over ∷ [])) h
          (λ t. cancelled-Follows t is h) (run_session o s (arrivals i.deliveries)) refl)

  -- A session that did not fail and is then cancelled, if it has not reached max-events.
  cancelled_after :
      (end : Service R × Option (SessionError E)) (b : Bool)
      → end.1 ≡ (if b then some max_events_reached else none)
      → let last = proceed end (λ t. run_session o t (cancelled ∷ [])) in
        (last.0 ≡ end.0) × (result_of last.1 ≡ returned none)
  unfolding run_session
  cancelled_after (s, none) b h = (refl, refl)
  cancelled_after (s, some e) true h = (refl, ap result_of h)
  cancelled_after (s, some e) false h = cc

  closed_as :
      (r : Run R E) (end : R × Option E)
      → ((with_closed r none end).service.renderer ≡ end.0)
        × ((with_closed r none end).result ≡ returned (first_error none end.1))
  closed_as r (renderer, e) = (refl, refl)

  closed_last :
      (close : R → R × Option E) (r : Run R E) (x : R)
      → r.service.renderer ≡ x
      → r.result ≡ returned none
      → let end = close_last close r r.result in
        (end.service.renderer ≡ (close x).0)
        × (end.result ≡ returned (first_error none (close x).1))
  closed_last close r x h k = rw (k, sym h) (closed_as r (close r.service.renderer))

  -- With any renderer that does not fail, a run whose sessions are interrupted until the context ends
  -- closes its renderer when that has got the traces that parse, that the matcher accepts and that there
  -- is room for, and it returns the error of closing, if any.
  pub run-NeverFails :
      (close : R → R × Option E) (step : R → RoutingTrace → R) (s : Service R) (limit : Option ℕ)
      (is : List Interrupted)
      → ((e : E) → is_context_error e ≡ false)
      → NeverFails o step s.renderer
      → Allows s.max_events s.matched_events limit
      → let ts = within limit (accepted s.parser s.matcher (all_deliveries is)) in
        let closed = close (step_all step s.renderer ts) in
        let end = run o close is_context_error s (map pass_of is ++ context_over ∷ []) in
        (end.service.renderer ≡ closed.0) × (end.result ≡ returned (first_error none closed.1))
  unfolding run
  run-NeverFails close step s limit is h sound room =
      let ds = all_deliveries is in
      let (a, b) = run_session-NeverFails o step s limit ds sound room in
      let (c, d) = cancelled_after (run_session o s (arrivals ds)) _ b in
      let whole = run_session-append o s ds (cancelled ∷ []) in
      let (e, f) = cancelled-Follows s is h in
      closed_last close (run_passes o is_context_error s (map pass_of is ++ context_over ∷ [])) _
        (ap (λ t. t.renderer) (e ∙ ap (λ r. r.0) whole ∙ c) ∙ a)
        (f ∙ ap (λ r. result_of r.1) whole ∙ d)
