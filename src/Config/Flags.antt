-- ===== src/Config/Flags.antt =====
-- internal/config/config.go: newFlagSet, and what each flag sets.
use amqp_routing_inspector.Base.{Bool, List, [], ◌∷◌}
use amqp_routing_inspector.Base.Int.{ℤ}
use amqp_routing_inspector.Base.Text.{Text, codes}
use amqp_routing_inspector.Config.{Config}

-- A flag that was given, with its value.
pub data Setting : Type 0 where
  set_config : Text → Setting
  set_show_version : Bool → Setting
  set_rabbitmq_url : Text → Setting
  set_firehose_exchange : Text → Setting
  set_queue_name : Text → Setting
  set_consumer_tag : Text → Setting
  set_output_format : Text → Setting
  set_filter_exchange : Text → Setting
  set_filter_queue : Text → Setting
  set_filter_routing_key : Text → Setting
  set_filter_event : Text → Setting
  set_graph_name : Text → Setting
  set_metrics_addr : Text → Setting
  set_statsd_addr : Text → Setting
  set_web_addr : Text → Setting
  set_max_events : ℤ → Setting
  set_prefetch : ℤ → Setting
  set_reconnect_initial : ℤ → Setting
  set_reconnect_max : ℤ → Setting
  set_warn_unrouted : Bool → Setting
  set_show_body_bytes : ℤ → Setting

-- A flag that is defined: its name and what a value of it sets.
pub data FlagDef : Type 0 where
  text_flag : Text → (Text → Setting) → FlagDef
  int_flag : Text → (ℤ → Setting) → FlagDef
  duration_flag : Text → (ℤ → Setting) → FlagDef
  bool_flag : Text → (Bool → Setting) → FlagDef

-- newFlagSet
abbrev pub flag_set : List FlagDef
flag_set =
    text_flag (codes "config") set_config
    ∷ text_flag (codes "c") set_config
    ∷ bool_flag (codes "version") set_show_version
    ∷ text_flag (codes "rabbitmq-url") set_rabbitmq_url
    ∷ text_flag (codes "firehose-exchange") set_firehose_exchange
    ∷ text_flag (codes "queue-name") set_queue_name
    ∷ text_flag (codes "consumer-tag") set_consumer_tag
    ∷ text_flag (codes "output") set_output_format
    ∷ text_flag (codes "filter-exchange") set_filter_exchange
    ∷ text_flag (codes "filter-queue") set_filter_queue
    ∷ text_flag (codes "filter-routing-key") set_filter_routing_key
    ∷ text_flag (codes "filter-event") set_filter_event
    ∷ int_flag (codes "max-events") set_max_events
    ∷ int_flag (codes "prefetch") set_prefetch
    ∷ duration_flag (codes "reconnect-initial") set_reconnect_initial
    ∷ duration_flag (codes "reconnect-max") set_reconnect_max
    ∷ text_flag (codes "graph-name") set_graph_name
    ∷ bool_flag (codes "warn-unrouted") set_warn_unrouted
    ∷ int_flag (codes "show-body-bytes") set_show_body_bytes
    ∷ text_flag (codes "metrics-addr") set_metrics_addr
    ∷ text_flag (codes "statsd-addr") set_statsd_addr
    ∷ text_flag (codes "web-addr") set_web_addr
    ∷ []

-- What the flags are bound to: the config, and the variable of -config and -c.
pub record Flags : Type 0 where
  pub config : Config
  pub config_path : Text

-- The assignment that the flag package makes for one flag.
unfoldable pub set_flag : Flags → Setting → Flags
set_flag s (set_config path) = record s { config_path = path }
set_flag s (set_show_version b) = record s { config = record s.config { show_version = b } }
set_flag s (set_rabbitmq_url v) = record s { config = record s.config { rabbitmq_url = v } }
set_flag s (set_firehose_exchange v) = record s {
  config = record s.config { firehose_exchange = v };
}
set_flag s (set_queue_name v) = record s { config = record s.config { queue_name = v } }
set_flag s (set_consumer_tag v) = record s { config = record s.config { consumer_tag = v } }
set_flag s (set_output_format v) = record s { config = record s.config { output_format = v } }
set_flag s (set_filter_exchange v) = record s { config = record s.config { filter_exchange = v } }
set_flag s (set_filter_queue v) = record s { config = record s.config { filter_queue = v } }
set_flag s (set_filter_routing_key v) = record s {
  config = record s.config { filter_routing_key = v };
}
set_flag s (set_filter_event v) = record s { config = record s.config { filter_event = v } }
set_flag s (set_graph_name v) = record s { config = record s.config { graph_name = v } }
set_flag s (set_metrics_addr v) = record s { config = record s.config { metrics_addr = v } }
set_flag s (set_statsd_addr v) = record s { config = record s.config { statsd_addr = v } }
set_flag s (set_web_addr v) = record s { config = record s.config { web_addr = v } }
set_flag s (set_max_events v) = record s { config = record s.config { max_events = v } }
set_flag s (set_prefetch v) = record s { config = record s.config { prefetch = v } }
set_flag s (set_reconnect_initial v) = record s {
  config = record s.config { reconnect_initial = v };
}
set_flag s (set_reconnect_max v) = record s { config = record s.config { reconnect_max = v } }
set_flag s (set_warn_unrouted v) = record s { config = record s.config { warn_unrouted = v } }
set_flag s (set_show_body_bytes v) = record s { config = record s.config { show_body_bytes = v } }

unfoldable pub set_flags : Flags → List Setting → Flags
unfolding set_flag
set_flags s [] = s
set_flags s (x ∷ xs) = set_flags (set_flag s x) xs
