-- ===== src/Output/Laws.antt =====
-- internal/output/renderer.go and internal/output/mermaid.go: the life of a graph renderer.
use amqp_routing_inspector.Base.{
  true, false, List, [], ◌∷◌, ◌++◌, map, ◌≡◌, refl, Option, none, some,
}
use amqp_routing_inspector.Base.Text.{Text}
use amqp_routing_inspector.Model.{RoutingTrace}
use amqp_routing_inspector.Graph.{Graph, new, add_trace}
use amqp_routing_inspector.Graph.Counts.{add_traces}
use amqp_routing_inspector.Output.{
  Format, print, GraphRenderer, new_graph_renderer, RenderError, renderer_is_closed, render_trace,
  close, Call, rendering, closing, call,
}

abbrev shut : Format → Graph → List Text → GraphRenderer
shut format g written = record { format = format; graph = g; closed = true; written = written }

module _ {E : Type 0} where
  -- The renderer behind a sequence of calls.
  unfoldable pub after : GraphRenderer → List (Call E) → GraphRenderer
  unfolding call
  after r [] = r
  after r (c ∷ cs) = after (call r c).0 cs

  -- What the calls return, in their order.
  unfoldable pub replies : GraphRenderer → List (Call E) → List (Option (RenderError E))
  unfolding call
  replies r [] = []
  replies r (c ∷ cs) = (call r c).1 ∷ replies (call r c).0 cs

  abbrev pub rendering_all : List RoutingTrace → List (Call E)
  rendering_all = map rendering

  -- What a closed renderer answers.
  unfoldable pub late : Format → Call E → Option (RenderError E)
  late format (rendering trace) = some (renderer_is_closed format)
  late format (closing answer) = none

  after_closed :
      (format : Format) (g : Graph) (written : List Text) (cs : List (Call E))
      → (after (shut format g written) cs ≡ shut format g written)
        × (replies (shut format g written) cs ≡ map (late format) cs)
  unfolding after replies call render_trace close late
  after_closed format g written [] = (refl, refl)
  after_closed format g written (rendering trace ∷ cs) =
      let (a, b) = after_closed format g written cs in (a, rw b refl)
  after_closed format g written (closing answer ∷ cs) =
      let (a, b) = after_closed format g written cs in (a, rw b refl)

  open_renders :
      (format : Format) (g : Graph) (ts : List RoutingTrace) (cs : List (Call E))
      → after
          (record { format = format; graph = g; closed = false; written = [] })
          (rendering_all ts ++ cs)
        ≡ after
            (record { format = format; graph = add_traces g ts; closed = false; written = [] })
            cs
  unfolding after call render_trace
  open_renders format g [] cs = refl
  open_renders format g (t ∷ ts) cs = open_renders format (add_trace g t) ts cs

  -- A graph renderer writes once: when it is first closed it hands the writer the text of the graph
  -- of the traces that it was given until then. No later call changes it: RenderTrace returns the
  -- error that it is closed, and Close returns none.
  pub new_graph_renderer-after :
      (format : Format) (name : Text) (ts : List RoutingTrace) (answer : Option E)
      (cs : List (Call E))
      → ((after (new_graph_renderer format name) (rendering_all ts ++ closing answer ∷ cs)).written
          ≡ print format (add_traces (new name) ts) ∷ [])
        × (replies
              (after (new_graph_renderer format name) (rendering_all ts ++ closing answer ∷ []))
              cs
            ≡ map (late format) cs)
  unfolding new_graph_renderer after call close
  new_graph_renderer-after format name ts answer cs =
      let g = add_traces (new name) ts in
      let text = print format g ∷ [] in
      (
        rw
            (
              open_renders format (new name) ts (closing answer ∷ cs),
              (after_closed format g text cs).0,
            )
            refl,
        rw (open_renders format (new name) ts (closing answer ∷ []))
            (after_closed format g text cs).1,
      )
