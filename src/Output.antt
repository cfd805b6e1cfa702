-- ===== src/Output.antt =====
-- internal/output/renderer.go and internal/output/mermaid.go: the DOT and the Mermaid renderer.
pub mod Laws
pub mod Prometheus
pub mod Summary
pub mod Statsd
pub mod Cli
pub mod Json
pub mod Http
pub mod Web
pub mod Choice
mod Tests
use amqp_routing_inspector.Base.{
  Bool, true, false, List, [], ◌∷◌, ◌++◌, Option, none, some, if◌then◌else◌,
}
use amqp_routing_inspector.Base.Text.{Text}
use amqp_routing_inspector.Model.{RoutingTrace}
use amqp_routing_inspector.Graph.{Graph, new, add_trace}
use amqp_routing_inspector.Graph.Render.{dot, mermaid}

-- dotRenderer and mermaidRenderer differ in the text that Close writes and in that of one error.
pub data Format : Type 0 where
  as_dot : Format
  as_mermaid : Format

unfoldable pub print : Format → Graph → Text
print as_dot g = dot g
print as_mermaid g = mermaid g

-- `written` holds what was handed to the writer.
pub record GraphRenderer : Type 0 where
  pub format : Format
  pub graph : Graph
  pub closed : Bool
  pub written : List Text

-- newMermaidRenderer, and the case "dot" of NewRenderer.
unfoldable pub new_graph_renderer : Format → Text → GraphRenderer
new_graph_renderer format name = record {
  format = format;
  graph = new name;
  closed = false;
  written = [];
}

pub data RenderError (E : Type 0) : Type 0 where
  renderer_is_closed : Format → RenderError E
  write_failed : E → RenderError E

-- RenderTrace
unfoldable pub render_trace :
    {E : Type 0} → GraphRenderer → RoutingTrace → GraphRenderer × Option (RenderError E)
render_trace r trace =
    if r.closed
    then (r, some (renderer_is_closed r.format))
    else (record r { graph = add_trace r.graph trace }, none)

abbrev pub write_error : {E : Type 0} → Option E → Option (RenderError E)
write_error none = none
write_error (some e) = some (write_failed e)

-- Close, where `answer` is the error of io.WriteString.
unfoldable pub close :
    {E : Type 0} → GraphRenderer → Option E → GraphRenderer × Option (RenderError E)
unfolding print
close r answer = if r.closed then (r, none) else (
  record r { closed = true; written = r.written ++ print r.format r.graph ∷ [] },
  write_error answer,
)

pub data Call (E : Type 0) : Type 0 where
  rendering : RoutingTrace → Call E
  closing : Option E → Call E

-- One call of a method.
unfoldable pub call : {E : Type 0} → GraphRenderer → Call E → GraphRenderer × Option (RenderError E)
unfolding render_trace close
call r (rendering trace) = render_trace r trace
call r (closing answer) = close r answer
