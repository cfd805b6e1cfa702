-- ===== src/App/New/Laws.antt =====
-- internal/app/service.go: what New makes of a config that Validate accepts.
use amqp_routing_inspector.Base.{
  ◌≡◌, ◌≢◌, refl, true, false, Option, [], ◌∷◌, is_nil, if◌then◌else◌,
}
use amqp_routing_inspector.Base.Int.{ℤ, is_positive, ltb_ℤ}
use amqp_routing_inspector.Base.Text.{Text, codes, trim_space, to_lower}
use amqp_routing_inspector.Config.{Config}
use amqp_routing_inspector.Config.Laws.{IsValid}
use amqp_routing_inspector.Connection.{Manager, new_manager}
use amqp_routing_inspector.Connection.Laws.{IsManager, new_manager-IsManager}
use amqp_routing_inspector.Firehose.{Consumer, new_consumer}
use amqp_routing_inspector.Firehose.Start.{IsConsumer, new_consumer-IsConsumer}
use amqp_routing_inspector.Output.Choice.{
  Chosen, Choice, chosen, unsupported, failed, new_renderer_from_config,
}
use amqp_routing_inspector.Output.Choice.Laws.{
  format_of, HasFormat, new_renderer_from_config-HasFormat,
}
use amqp_routing_inspector.Output.Choice.Parts.{
  IsFor, IsRefusal, Fits, new_renderer_from_config-Fits,
}
use amqp_routing_inspector.Filter.Matcher.{new_matcher}
use amqp_routing_inspector.Parser.Delivery.{new_with_config}
use amqp_routing_inspector.App.{Service}
use amqp_routing_inspector.App.New.{
  Assembled, renderer_failed, New, assembled, refused, new_with_deps, new_with, new,
}

-- The service of a config, with the renderer `r`: nothing is counted or logged yet.
pub service_of : {W : Type 0} → Config → Chosen W → Service (Chosen W)
service_of cfg r = record {
  max_events = cfg.max_events;
  warn_unrouted = cfg.warn_unrouted;
  parser = record { max_body_bytes = cfg.show_body_bytes };
  matcher = record {
    exchange = trim_space cfg.filter_exchange;
    queue = trim_space cfg.filter_queue;
    routing_key = trim_space cfg.filter_routing_key;
    event_type = to_lower (trim_space cfg.filter_event);
  };
  renderer = r;
  log = [];
  matched_events = 0;
}

-- A manager that took the config's numbers as they are.
pub manager_of : Config → Manager
manager_of cfg = record {
  url = cfg.rabbitmq_url;
  reconnect_initial = cfg.reconnect_initial;
  reconnect_max = cfg.reconnect_max;
}

module _ {W E : Type 0} (listen : Text → Option E) (dial : Text → W × Option E) (cfg : Config)
    (writer : W) where
  -- The parts are those of the config, and none of its numbers was replaced by a default. The
  -- consumer's exchange is the default one only where the config's is blank.
  pub record IsReady (a : Assembled Manager Consumer (Chosen W)) : Type 0 where
    pub format : format_of a.service.renderer ≡ cfg.output_format
    pub renderer : IsFor listen dial cfg writer a.service.renderer
    pub service : a.service ≡ service_of cfg a.service.renderer
    pub manager : IsManager a.connector
    pub connector : a.connector ≡ manager_of cfg
    pub consumer : IsConsumer a.consumer
    pub exchange :
        trim_space cfg.firehose_exchange ≢ []
        → a.consumer.exchange ≡ trim_space cfg.firehose_exchange
    pub queue : a.consumer.queue_name ≡ trim_space cfg.queue_name
    pub tag : a.consumer.consumer_tag ≡ trim_space cfg.consumer_tag
    pub prefetch : a.consumer.prefetch ≡ cfg.prefetch

  -- A service that is ready, or an address of the config that the network refused.
  unfoldable pub Ready : New Manager Consumer (Chosen W) E → Type 0
  Ready (assembled a) = IsReady a
  Ready (refused (renderer_failed e)) = IsRefusal listen dial cfg writer e
  Ready (refused _) = ⊥

kept_delays :
    (url : Text) (i x : ℤ)
    → is_positive i ≡ true
    → is_positive x ≡ true
    → ltb_ℤ x i ≡ false
    → new_manager url i x ≡ record { url = url; reconnect_initial = i; reconnect_max = x }
unfolding new_manager
kept_delays url i x p q h = rw (p, q, h) refl

kept_prefetch :
    (exchange queue tag : Text) (n : ℤ)
    → is_positive n ≡ true
    → (new_consumer exchange queue tag n).prefetch ≡ n
unfolding new_consumer
kept_prefetch exchange queue tag n p = rw p refl

kept_exchange :
    (exchange queue tag : Text) (n : ℤ)
    → trim_space exchange ≢ []
    → (new_consumer exchange queue tag n).exchange ≡ trim_space exchange
unfolding new_consumer
kept_exchange exchange queue tag n p = or_default_kept (trim_space exchange) p
  where
    or_default_kept : (s : Text) → s ≢ [] → (if is_nil s then codes "amq.rabbitmq.trace" else s) ≡ s
    or_default_kept [] p = absurd (p refl)
    or_default_kept (c ∷ s) p = refl

module _ {W E : Type 0} (listen : Text → Option E) (dial : Text → W × Option E) (cfg : Config)
    (writer : W) where
  ready :
      (c : Choice W E)
      → IsValid cfg
      → HasFormat cfg.output_format c
      → Fits listen dial cfg writer c
      → Ready listen dial cfg writer (new_with cfg c)
  unfolding Ready HasFormat new_with_deps service_of manager_of new_consumer new_matcher
      new_with_config
  ready (chosen r) v h fits = record {
    format = h;
    renderer = fits;
    service = refl;
    manager = new_manager-IsManager cfg.rabbitmq_url cfg.reconnect_initial cfg.reconnect_max;
    connector = kept_delays cfg.rabbitmq_url _ _ v.reconnect_initial v.reconnect_max v.ordered;
    consumer =
        new_consumer-IsConsumer cfg.firehose_exchange cfg.queue_name cfg.consumer_tag cfg.prefetch;
    exchange = kept_exchange cfg.firehose_exchange cfg.queue_name cfg.consumer_tag cfg.prefetch;
    queue = refl;
    tag = refl;
    prefetch =
        kept_prefetch cfg.firehose_exchange cfg.queue_name cfg.consumer_tag cfg.prefetch v.prefetch;
  }
  ready (failed e) v h fits = fits
  ready (unsupported f) v (q, n) fits = absurd (n v.format)

  -- Whatever the network answers, New makes of a config that Validate accepts a service with the
  -- config's own parts: a renderer of its format with its graph name, its writer or its address,
  -- which the network accepted; a matcher of its four filters, trimmed; its max-events, its body limit
  -- and its warning about unrouted publications; a manager with its URL and delays; and a consumer with
  -- its exchange, queue, tag and prefetch count. Or it fails with the error by which the network refused
  -- the address that the format needs, and for no other reason.
  pub new-Ready : IsValid cfg → Ready listen dial cfg writer (new listen dial cfg writer)
  unfolding new
  new-Ready v =
      ready (new_renderer_from_config listen dial cfg writer) v
        (new_renderer_from_config-HasFormat listen dial cfg writer)
        (new_renderer_from_config-Fits listen dial cfg writer)
