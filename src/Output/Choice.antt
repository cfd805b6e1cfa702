-- ===== src/Output/Choice.antt =====
-- internal/output/renderer.go: NewRenderer and NewRendererFromConfig.
pub mod Laws
pub mod Parts
mod Tests
use amqp_routing_inspector.Base.{
  ℕ, Bool, true, false, List, [], ◌∷◌, Option, none, some, nat_eq, list_eq, ◌==◌, is_nil,
  if◌then◌else◌,
}
use amqp_routing_inspector.Base.Text.{Text, codes, trim_space, to_lower}
use amqp_routing_inspector.Config.{Config, format_cli, format_prometheus, format_statsd, format_web}
use amqp_routing_inspector.Output.{GraphRenderer, as_dot, as_mermaid, new_graph_renderer}
use amqp_routing_inspector.Output.Summary.{SummaryRenderer, new_summary_renderer}
use amqp_routing_inspector.Output.Prometheus.{PrometheusRenderer, new_prometheus_renderer}
use amqp_routing_inspector.Output.Statsd.{StatsdRenderer, new_statsd_renderer}
use amqp_routing_inspector.Output.Web.{WebRenderer, new_web_renderer}

-- A renderer of one of the formats; `W` is the state of a writer or a connection.
pub data Chosen (W : Type 0) : Type 0 where
  cli : W → Chosen W
  json : W → Chosen W
  graph : GraphRenderer → Chosen W
  summary : SummaryRenderer → Chosen W
  prometheus : PrometheusRenderer → Chosen W
  statsd : StatsdRenderer W → Chosen W
  web : WebRenderer → Chosen W

pub data Choice (W : Type 0) (E : Type 0) : Type 0 where
  chosen : Chosen W → Choice W E
  unsupported : Text → Choice W E
  failed : E → Choice W E

-- The formats with no address, or what `otherwise` gives.
unfoldable pub offline_renderer : {W E : Type 0} → Text → W → Text → Choice W E → Choice W E
unfolding new_graph_renderer
offline_renderer format writer graph_name otherwise =
    if format == format_cli
    then chosen (cli writer)
    else if format == codes "json"
    then chosen (json writer)
    else if format == codes "dot"
    then chosen (graph (new_graph_renderer as_dot graph_name))
    else if format == codes "summary"
    then chosen (summary new_summary_renderer)
    else if format == codes "mermaid"
    then chosen (graph (new_graph_renderer as_mermaid graph_name))
    else otherwise

-- NewRenderer
unfoldable pub new_renderer : {W E : Type 0} → Text → W → Text → Choice W E
unfolding offline_renderer trim_space to_lower
new_renderer format writer graph_name =
    offline_renderer (to_lower (trim_space format)) writer graph_name (unsupported format)

-- `return newX(...)`: a renderer or its error.
abbrev pub started : {W E R : Type 0} → (R → Chosen W) → R × Option E → Choice W E
started f (r, none) = chosen (f r)
started f (r, some e) = failed e

-- NewRendererFromConfig: `listen` and `dial` are what the network answers for an address.
unfoldable pub new_renderer_from_config :
    {W E : Type 0} → (Text → Option E) → (Text → W × Option E) → Config → W → Choice W E
unfolding offline_renderer new_prometheus_renderer new_statsd_renderer new_web_renderer
new_renderer_from_config listen dial cfg writer =
    offline_renderer cfg.output_format writer cfg.graph_name (
      if cfg.output_format == format_prometheus
      then started prometheus (new_prometheus_renderer cfg.metrics_addr (listen cfg.metrics_addr))
      else if cfg.output_format == format_statsd
      then started statsd (new_statsd_renderer writer cfg.statsd_addr (dial cfg.statsd_addr))
      else if cfg.output_format == format_web
      then started web (new_web_renderer cfg.web_addr (listen cfg.web_addr))
      else unsupported cfg.output_format)
