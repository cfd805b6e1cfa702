-- ===== src/App/New.antt =====
-- internal/app/service.go: New and NewWithDeps.
pub mod Laws
mod Tests
use amqp_routing_inspector.Base.{List, [], Option, none, some}
use amqp_routing_inspector.Base.Text.{Text}
use amqp_routing_inspector.Config.{Config}
use amqp_routing_inspector.Parser.Delivery.{EventParser, new_with_config}
use amqp_routing_inspector.Filter.Matcher.{new_matcher}
use amqp_routing_inspector.Connection.{Manager, new_manager}
use amqp_routing_inspector.Firehose.{Consumer, new_consumer}
use amqp_routing_inspector.Output.Choice.{
  Chosen, Choice, chosen, unsupported, failed, new_renderer_from_config,
}
use amqp_routing_inspector.App.{Service}

-- A service with the connector and the consumer that it was given. The logger is left out.
pub record Assembled (C : Type 0) (D : Type 0) (R : Type 0) : Type 0 where
  pub connector : C
  pub consumer : D
  pub service : Service R

pub data NewError (E : Type 0) : Type 0 where
  unsupported_format : Text → NewError E
  renderer_failed : E → NewError E
  nil_connector : NewError E
  nil_consumer : NewError E
  nil_renderer : NewError E

pub data New (C : Type 0) (D : Type 0) (R : Type 0) (E : Type 0) : Type 0 where
  assembled : Assembled C D R → New C D R E
  refused : NewError E → New C D R E

-- NewWithDeps; `none` is a nil dependency.
unfoldable pub new_with_deps :
    {C D R E : Type 0} → Config → Option C → Option D → Option R → New C D R E
unfolding new_with_config new_matcher
new_with_deps cfg none consumer renderer = refused nil_connector
new_with_deps cfg (some c) none renderer = refused nil_consumer
new_with_deps cfg (some c) (some d) none = refused nil_renderer
new_with_deps cfg (some c) (some d) (some r) = assembled (record {
  connector = c;
  consumer = d;
  service = record {
    max_events = cfg.max_events;
    warn_unrouted = cfg.warn_unrouted;
    parser = new_with_config cfg.show_body_bytes;
    matcher =
        new_matcher cfg.filter_exchange cfg.filter_queue cfg.filter_routing_key cfg.filter_event;
    renderer = r;
    log = [];
    matched_events = 0;
  };
})

abbrev pub new_with : {W E : Type 0} → Config → Choice W E → New Manager Consumer (Chosen W) E
new_with cfg (unsupported format) = refused (unsupported_format format)
new_with cfg (failed e) = refused (renderer_failed e)
new_with cfg (chosen r) =
    new_with_deps cfg (some (new_manager cfg.rabbitmq_url cfg.reconnect_initial cfg.reconnect_max))
      (some (new_consumer cfg.firehose_exchange cfg.queue_name cfg.consumer_tag cfg.prefetch))
      (some r)

-- New, where `listen` and `dial` are what the network answers.
unfoldable pub new :
    {W E : Type 0}
    → (Text → Option E)
    → (Text → W × Option E)
    → Config
    → W
    → New Manager Consumer (Chosen W) E
unfolding new_with_deps new_renderer_from_config
new listen dial cfg writer = new_with cfg (new_renderer_from_config listen dial cfg writer)
