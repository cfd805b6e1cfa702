-- ===== src/App/Diagram.antt =====
-- internal/app/service.go with the DOT and the Mermaid renderer of internal/output.
use amqp_routing_inspector.Base.{
  ℕ, Bool, false, List, [], ◌∷◌, ◌++◌, ◌≡◌, refl, ap, ◌∙◌, map, Option, none,
}
use amqp_routing_inspector.Base.Text.{Text}
use amqp_routing_inspector.Model.{RoutingTrace}
use amqp_routing_inspector.Graph.{Graph, new, add_trace}
use amqp_routing_inspector.Graph.Counts.{add_traces}
use amqp_routing_inspector.Output
use amqp_routing_inspector.Output.{
  Format, print, GraphRenderer, new_graph_renderer, RenderError, write_error,
}
use amqp_routing_inspector.App.{Renderer, Service}
use amqp_routing_inspector.App.Laws.{accepted}
use amqp_routing_inspector.App.Limit.{Allows, within}
use amqp_routing_inspector.App.Fold.{step_all, NeverFails, with_renderer}
use amqp_routing_inspector.App.Run.{context_over, returned, first_error, run}
use amqp_routing_inspector.App.Run.Resume.{Interrupted, pass_of, all_deliveries}
use amqp_routing_inspector.App.Run.Cancelled.{run-NeverFails}

module _ (E : Type 0) (format : Format) where
  abbrev pub graph_output : Renderer GraphRenderer (RenderError E)
  graph_output = record { render_trace = Output.render_trace }

  abbrev drawing : Graph → GraphRenderer
  drawing g = record { format = format; graph = g; closed = false; written = [] }

  abbrev step : GraphRenderer → RoutingTrace → GraphRenderer
  step r t = (Output.render_trace {E = E} r t).0

  step_all-drawing :
      (g : Graph) (ts : List RoutingTrace)
      → step_all step (drawing g) ts ≡ drawing (add_traces g ts)
  unfolding Output.render_trace
  step_all-drawing g [] = refl
  step_all-drawing g (t ∷ ts) = step_all-drawing (add_trace g t) ts

  drawing_renders :
      (g : Graph) (r : GraphRenderer) (t : RoutingTrace)
      → r ≡ drawing g
      → Output.render_trace {E = E} r t ≡ (step r t, none)
  unfolding Output.render_trace
  drawing_renders g r t h = rw h refl

  graph_output-NeverFails : (g : Graph) → NeverFails graph_output step (drawing g)
  graph_output-NeverFails g ts t =
      drawing_renders (add_traces g ts) (step_all step (drawing g) ts) t (step_all-drawing g ts)

  closed_drawing :
      (g : Graph) (answer : Option E)
      → ((Output.close (drawing g) answer).0.written ≡ print format g ∷ [])
        × ((Output.close (drawing g) answer).1 ≡ write_error answer)
  unfolding Output.close
  closed_drawing g answer = (refl, refl)

  -- From the deliveries to the diagram, over any number of lost connections: with a new DOT or Mermaid
  -- renderer whose errors are not the end of a context, Run over sessions that are interrupted until its
  -- context ends writes once, and what it writes is the text of the graph of the traces that parse and
  -- that the matcher accepts, in whichever sessions their deliveries come: of all of them where
  -- max-events is not positive, and else of the first that there is room for. It returns the writer's
  -- error, if any, and else none.
  pub run-diagram :
      {S : Type 0} (is_context_error : RenderError E → Bool) (name : Text) (answer : Option E)
      (s : Service S) (limit : Option ℕ) (is : List Interrupted)
      → ((e : RenderError E) → is_context_error e ≡ false)
      → Allows s.max_events s.matched_events limit
      → let ts = within limit (accepted s.parser s.matcher (all_deliveries is)) in
        let end =
          run graph_output
            (λ r. Output.close r answer)
            is_context_error
            (with_renderer s (new_graph_renderer format name))
            (map pass_of is ++ context_over ∷ []) in
        (end.service.renderer.written ≡ print format (add_traces (new name) ts) ∷ [])
        × (end.result ≡ returned (first_error none (write_error answer)))
  unfolding new_graph_renderer
  run-diagram is_context_error name answer s limit is h room =
      let ts = within limit (accepted s.parser s.matcher (all_deliveries is)) in
      let drawn = step_all-drawing (new name) ts in
      let (a, b) =
        run-NeverFails graph_output is_context_error (λ r. Output.close r answer) step
          (with_renderer s (drawing (new name))) limit is h (graph_output-NeverFails (new name))
          room in
      let (c, d) = closed_drawing (add_traces (new name) ts) answer in
      (
        ap (λ r. r.written) a ∙ ap (λ r. (Output.close r answer).0.written) drawn ∙ c,
        b
            ∙ ap (λ r. returned (first_error none (Output.close r answer).1)) drawn
            ∙ ap (λ e. returned (first_error none e)) d,
      )
