-- ===== src/Config/Load/Fields.antt =====
-- internal/config/config.go: the fields that the file, the environment and the flags set.
use amqp_routing_inspector.Base.{Bool, Option, none, some, ◌≡◌, arith, is_nil, if◌then◌else◌}
use amqp_routing_inspector.Base.Int.{ℤ}
use amqp_routing_inspector.Base.Map.{or_default}
use amqp_routing_inspector.Base.Text.{Text, codes, trim_space, to_lower}
use amqp_routing_inspector.Config.{Config}
use amqp_routing_inspector.Config.Flags.{
  Setting, Flags, set_flag, set_show_version, set_warn_unrouted, set_rabbitmq_url,
  set_firehose_exchange, set_queue_name, set_consumer_tag, set_output_format, set_filter_exchange,
  set_filter_queue, set_filter_routing_key, set_filter_event, set_graph_name, set_metrics_addr,
  set_statsd_addr, set_web_addr, set_max_events, set_prefetch, set_show_body_bytes,
  set_reconnect_initial, set_reconnect_max,
}

-- The texts.
pub data TextField : Type 0 where
  field_rabbitmq_url : TextField
  field_firehose_exchange : TextField
  field_queue_name : TextField
  field_consumer_tag : TextField
  field_output_format : TextField
  field_filter_exchange : TextField
  field_filter_queue : TextField
  field_filter_routing_key : TextField
  field_filter_event : TextField
  field_graph_name : TextField
  field_metrics_addr : TextField
  field_statsd_addr : TextField
  field_web_addr : TextField

abbrev pub text_of : TextField → Config → Text
text_of field_rabbitmq_url c = c.rabbitmq_url
text_of field_firehose_exchange c = c.firehose_exchange
text_of field_queue_name c = c.queue_name
text_of field_consumer_tag c = c.consumer_tag
text_of field_output_format c = c.output_format
text_of field_filter_exchange c = c.filter_exchange
text_of field_filter_queue c = c.filter_queue
text_of field_filter_routing_key c = c.filter_routing_key
text_of field_filter_event c = c.filter_event
text_of field_graph_name c = c.graph_name
text_of field_metrics_addr c = c.metrics_addr
text_of field_statsd_addr c = c.statsd_addr
text_of field_web_addr c = c.web_addr

-- The environment variable of the field.
abbrev pub text_of_variable : TextField → Text
text_of_variable field_rabbitmq_url = codes "AMQP_INSPECTOR_RABBITMQ_URL"
text_of_variable field_firehose_exchange = codes "AMQP_INSPECTOR_FIREHOSE_EXCHANGE"
text_of_variable field_queue_name = codes "AMQP_INSPECTOR_QUEUE_NAME"
text_of_variable field_consumer_tag = codes "AMQP_INSPECTOR_CONSUMER_TAG"
text_of_variable field_output_format = codes "AMQP_INSPECTOR_OUTPUT_FORMAT"
text_of_variable field_filter_exchange = codes "AMQP_INSPECTOR_FILTER_EXCHANGE"
text_of_variable field_filter_queue = codes "AMQP_INSPECTOR_FILTER_QUEUE"
text_of_variable field_filter_routing_key = codes "AMQP_INSPECTOR_FILTER_ROUTING_KEY"
text_of_variable field_filter_event = codes "AMQP_INSPECTOR_FILTER_EVENT"
text_of_variable field_graph_name = codes "AMQP_INSPECTOR_GRAPH_NAME"
text_of_variable field_metrics_addr = codes "AMQP_INSPECTOR_METRICS_ADDR"
text_of_variable field_statsd_addr = codes "AMQP_INSPECTOR_STATSD_ADDR"
text_of_variable field_web_addr = codes "AMQP_INSPECTOR_WEB_ADDR"

-- The value that a flag sets the field to.
abbrev pub text_set : TextField → Setting → Option Text
text_set field_rabbitmq_url (set_rabbitmq_url v) = some v
text_set field_firehose_exchange (set_firehose_exchange v) = some v
text_set field_queue_name (set_queue_name v) = some v
text_set field_consumer_tag (set_consumer_tag v) = some v
text_set field_output_format (set_output_format v) = some v
text_set field_filter_exchange (set_filter_exchange v) = some v
text_set field_filter_queue (set_filter_queue v) = some v
text_set field_filter_routing_key (set_filter_routing_key v) = some v
text_set field_filter_event (set_filter_event v) = some v
text_set field_graph_name (set_graph_name v) = some v
text_set field_metrics_addr (set_metrics_addr v) = some v
text_set field_statsd_addr (set_statsd_addr v) = some v
text_set field_web_addr (set_web_addr v) = some v
text_set _ _ = none

pub text_of-set_flag :
    (f : TextField) (s : Flags) (x : Setting)
    → text_of f (set_flag s x).config ≡ or_default (text_of f s.config) (text_set f x)
unfolding set_flag
text_of-set_flag field_rabbitmq_url s x = ground arith
text_of-set_flag field_firehose_exchange s x = ground arith
text_of-set_flag field_queue_name s x = ground arith
text_of-set_flag field_consumer_tag s x = ground arith
text_of-set_flag field_output_format s x = ground arith
text_of-set_flag field_filter_exchange s x = ground arith
text_of-set_flag field_filter_queue s x = ground arith
text_of-set_flag field_filter_routing_key s x = ground arith
text_of-set_flag field_filter_event s x = ground arith
text_of-set_flag field_graph_name s x = ground arith
text_of-set_flag field_metrics_addr s x = ground arith
text_of-set_flag field_statsd_addr s x = ground arith
text_of-set_flag field_web_addr s x = ground arith

-- The ints.
pub data IntField : Type 0 where
  field_max_events : IntField
  field_prefetch : IntField
  field_show_body_bytes : IntField

abbrev pub int_of : IntField → Config → ℤ
int_of field_max_events c = c.max_events
int_of field_prefetch c = c.prefetch
int_of field_show_body_bytes c = c.show_body_bytes

-- The environment variable of the field.
abbrev pub int_of_variable : IntField → Text
int_of_variable field_max_events = codes "AMQP_INSPECTOR_MAX_EVENTS"
int_of_variable field_prefetch = codes "AMQP_INSPECTOR_PREFETCH"
int_of_variable field_show_body_bytes = codes "AMQP_INSPECTOR_SHOW_BODY_BYTES"

-- The value that a flag sets the field to.
abbrev pub int_set : IntField → Setting → Option ℤ
int_set field_max_events (set_max_events v) = some v
int_set field_prefetch (set_prefetch v) = some v
int_set field_show_body_bytes (set_show_body_bytes v) = some v
int_set _ _ = none

pub int_of-set_flag :
    (f : IntField) (s : Flags) (x : Setting)
    → int_of f (set_flag s x).config ≡ or_default (int_of f s.config) (int_set f x)
unfolding set_flag
int_of-set_flag field_max_events s x = ground arith
int_of-set_flag field_prefetch s x = ground arith
int_of-set_flag field_show_body_bytes s x = ground arith

-- The durations.
pub data DelayField : Type 0 where
  field_reconnect_initial : DelayField
  field_reconnect_max : DelayField

abbrev pub delay_of : DelayField → Config → ℤ
delay_of field_reconnect_initial c = c.reconnect_initial
delay_of field_reconnect_max c = c.reconnect_max

-- The environment variable of the field.
abbrev pub delay_of_variable : DelayField → Text
delay_of_variable field_reconnect_initial = codes "AMQP_INSPECTOR_RECONNECT_INITIAL"
delay_of_variable field_reconnect_max = codes "AMQP_INSPECTOR_RECONNECT_MAX"

-- The value that a flag sets the field to.
abbrev pub delay_set : DelayField → Setting → Option ℤ
delay_set field_reconnect_initial (set_reconnect_initial v) = some v
delay_set field_reconnect_max (set_reconnect_max v) = some v
delay_set _ _ = none

pub delay_of-set_flag :
    (f : DelayField) (s : Flags) (x : Setting)
    → delay_of f (set_flag s x).config ≡ or_default (delay_of f s.config) (delay_set f x)
unfolding set_flag
delay_of-set_flag field_reconnect_initial s x = ground arith
delay_of-set_flag field_reconnect_max s x = ground arith

abbrev pub warn_unrouted_set : Setting → Option Bool
warn_unrouted_set (set_warn_unrouted v) = some v
warn_unrouted_set _ = none

pub warn_unrouted-set_flag :
    (s : Flags) (x : Setting)
    → (set_flag s x).config.warn_unrouted ≡ or_default s.config.warn_unrouted (warn_unrouted_set x)
unfolding set_flag
warn_unrouted-set_flag s x = ground arith

abbrev pub show_version_set : Setting → Option Bool
show_version_set (set_show_version v) = some v
show_version_set _ = none

pub show_version-set_flag :
    (s : Flags) (x : Setting)
    → (set_flag s x).config.show_version ≡ or_default s.config.show_version (show_version_set x)
unfolding set_flag
show_version-set_flag s x = ground arith

-- What Validate makes of a text. It leaves the queue's name and the consumer tag as they are.
unfoldable pub cleaned : TextField → Text → Text
unfolding trim_space to_lower
cleaned field_queue_name v = v
cleaned field_consumer_tag v = v
cleaned field_output_format v = to_lower (trim_space v)
cleaned field_filter_event v = to_lower (trim_space v)
cleaned field_graph_name v =
    let name = trim_space v in if is_nil name then codes "routing" else name
cleaned _ v = trim_space v

pub int_cases :
    (P : IntField → Type 0)
    → P field_max_events
    → P field_prefetch
    → P field_show_body_bytes
    → (f : IntField) → P f
int_cases P a b c field_max_events = a
int_cases P a b c field_prefetch = b
int_cases P a b c field_show_body_bytes = c

pub delay_cases :
    (P : DelayField → Type 0)
    → P field_reconnect_initial
    → P field_reconnect_max
    → (f : DelayField) → P f
delay_cases P a b field_reconnect_initial = a
delay_cases P a b field_reconnect_max = b
