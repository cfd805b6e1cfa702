-- ===== src/Output/Choice/Tests.antt =====
-- The choice of a renderer, and its theorem at a concrete config.
use amqp_routing_inspector.Base.{ℕ, ◌≡◌, refl, Option, none, list_beq}
use amqp_routing_inspector.Base.Text.{Text, codes}
use amqp_routing_inspector.Config.{Config, default_config}
use amqp_routing_inspector.Output.{as_mermaid, new_graph_renderer}
use amqp_routing_inspector.Output.Choice.{chosen, graph, unsupported, new_renderer}

abbrev listening : Text → Option ℕ
listening addr = none

abbrev dialling : Text → ℕ × Option ℕ
dialling addr = (0, none)

abbrev statsd_config : Config
statsd_config = record default_config {
  output_format = codes "statsd";
  statsd_addr = codes "localhost:8125";
}

-- NewRenderer trims the format and ignores its case.
mermaid_chosen :
    new_renderer {W = ℕ} {E = ℕ} (codes " Mermaid ") 1 (codes "g")
    ≡ chosen (graph (new_graph_renderer as_mermaid (codes "g")))
unfolding new_renderer list_beq
mermaid_chosen = refl

-- It knows none of the formats that need an address.
web_unsupported :
    new_renderer {W = ℕ} {E = ℕ} (codes "web") 1 (codes "g") ≡ unsupported (codes "web")
unfolding new_renderer list_beq
web_unsupported = refl
