-- ===== src/Config/Load.antt =====
-- internal/config/config.go: Load, and how file, environment and flags are laid over the defaults.
pub mod Fields
pub mod Path
pub mod Overlay
pub mod Precedence
pub mod Valid
pub mod Usage
mod Tests
use amqp_routing_inspector.Base.{
  ℕ, Bool, true, false, not, ◌||◌, List, [], ◌∷◌, ◌++◌, Option, none, some, nat_eq, list_eq, ◌==◌,
  is_nil, if◌then◌else◌,
}
use amqp_routing_inspector.Base.Int.{ℤ}
use amqp_routing_inspector.Base.Text.{Text, codes, trim_space, has_prefix, trim_prefix}
use amqp_routing_inspector.Config.{Config, ConfigError, default_config, validate}
use amqp_routing_inspector.Config.Flags.{Setting, FlagDef, flag_set, Flags, set_flags}
use amqp_routing_inspector.Config.Numbers.{atoi, parse_bool}

-- `E` are the errors of the operating system, the YAML decoder and the flag package.
pub data LoadError (E : Type 0) : Type 0 where
  requires_value : Text → LoadError E
  invalid_integer : Text → LoadError E
  invalid_duration : Text → LoadError E
  invalid_boolean : Text → LoadError E
  file_failed : E → LoadError E
  flags_failed : E → LoadError E
  invalid_config : ConfigError → LoadError E

pub data Outcome (E : Type 0) (A : Type 0) : Type 0 where
  ok : A → Outcome E A
  err : LoadError E → Outcome E A

infixl 5 ◌>>=◌
abbrev pub ◌>>=◌ : {E A B : Type 0} → Outcome E A → (A → Outcome E B) → Outcome E B
err e >>= f = err e
ok a >>= f = f a

-- What the loop of scanConfigPath finds at an argument: the path in it, or that it is the next one.
pub data PathArgument : Type 0 where
  path_next : PathArgument
  path_is : Text → PathArgument
  no_path : PathArgument

-- The switch of scanConfigPath, on a trimmed argument.
unfoldable pub path_argument : Text → PathArgument
unfolding has_prefix trim_prefix trim_space
path_argument a =
    if a == codes "-config" || a == codes "--config" || a == codes "-c"
    then path_next
    else if has_prefix a (codes "-config=")
    then path_is (trim_space (trim_prefix a (codes "-config=")))
    else if has_prefix a (codes "--config=")
    then path_is (trim_space (trim_prefix a (codes "--config=")))
    else if has_prefix a (codes "-c=")
    then path_is (trim_space (trim_prefix a (codes "-c=")))
    else no_path

-- What the switch returns, or `later` where the loop goes on.
abbrev path_found : {E : Type 0} → Text → PathArgument → List Text → Outcome E Text → Outcome E Text
path_found a path_next [] later = err (requires_value a)
path_found a path_next (value ∷ args) later = ok (trim_space value)
path_found a (path_is path) args later = ok path
path_found a no_path args later = later

-- scanConfigPath
unfoldable pub scan_config_path : {E : Type 0} → List Text → Outcome E Text
unfolding path_argument trim_space
scan_config_path [] = ok []
scan_config_path (arg ∷ args) =
    path_found (trim_space arg) (path_argument (trim_space arg)) args (scan_config_path args)

-- How flag.Parse ends: with no error, with flag.ErrHelp, or with another error.
pub data FlagEnd (E : Type 0) : Type 0 where
  parsed : FlagEnd E
  help : FlagEnd E
  bad_flags : E → FlagEnd E

-- The result of Load. With help the config is returned as it is then.
pub data Loaded (E : Type 0) : Type 0 where
  loaded : Config → Loaded E
  help_requested : Config → Loaded E
  load_failed : LoadError E → Loaded E

-- What the program takes from outside: os.LookupEnv, time.ParseDuration, which computes in floating
-- point, reading and decoding a YAML file into a config, and flag.Parse, which returns the flags that
-- it set before it ended.
pub record Outside (E : Type 0) : Type 0 where
  pub lookup_env : Text → Option Text
  pub parse_duration : Text → Option ℤ
  pub decode_file : Text → Config → Outcome E Config
  pub parse : List FlagDef → List Text → List Setting × FlagEnd E

module _ {E : Type 0} (outside : Outside E) where
  open outside use {lookup_env, parse_duration, decode_file, parse}

  abbrev text_or : Option Text → Text → Text
  text_or none current = current
  text_or (some value) current =
      let trimmed = trim_space value in if not (is_nil trimmed) then trimmed else current

  -- applyEnvString
  unfoldable pub env_text : Text → Text → Text
  unfolding trim_space
  env_text name current = text_or (lookup_env name) current

  abbrev checked : {A : Type 0} → LoadError E → Option A → Outcome E A
  checked e none = err e
  checked e (some a) = ok a

  abbrev parsed_or : {A : Type 0} → LoadError E → (Text → Option A) → Option Text → A → Outcome E A
  parsed_or e read none current = ok current
  parsed_or e read (some value) current = checked e (read (trim_space value))

  -- applyEnvInt
  unfoldable pub env_int : Text → ℤ → Outcome E ℤ
  unfolding atoi trim_space
  env_int name current = parsed_or (invalid_integer name) atoi (lookup_env name) current

  -- applyEnvDuration
  unfoldable pub env_duration : Text → ℤ → Outcome E ℤ
  unfolding trim_space
  env_duration name current =
      parsed_or (invalid_duration name) parse_duration (lookup_env name) current

  -- applyEnvBool
  unfoldable pub env_bool : Text → Bool → Outcome E Bool
  unfolding parse_bool trim_space
  env_bool name current = parsed_or (invalid_boolean name) parse_bool (lookup_env name) current

  -- The calls of applyEnvString.
  unfoldable pub env_texts : Config → Config
  unfolding env_text
  env_texts c = record c {
    rabbitmq_url = env_text (codes "AMQP_INSPECTOR_RABBITMQ_URL") c.rabbitmq_url;
    firehose_exchange = env_text (codes "AMQP_INSPECTOR_FIREHOSE_EXCHANGE") c.firehose_exchange;
    queue_name = env_text (codes "AMQP_INSPECTOR_QUEUE_NAME") c.queue_name;
    consumer_tag = env_text (codes "AMQP_INSPECTOR_CONSUMER_TAG") c.consumer_tag;
    output_format = env_text (codes "AMQP_INSPECTOR_OUTPUT_FORMAT") c.output_format;
    filter_exchange = env_text (codes "AMQP_INSPECTOR_FILTER_EXCHANGE") c.filter_exchange;
    filter_queue = env_text (codes "AMQP_INSPECTOR_FILTER_QUEUE") c.filter_queue;
    filter_routing_key = env_text (codes "AMQP_INSPECTOR_FILTER_ROUTING_KEY") c.filter_routing_key;
    filter_event = env_text (codes "AMQP_INSPECTOR_FILTER_EVENT") c.filter_event;
    graph_name = env_text (codes "AMQP_INSPECTOR_GRAPH_NAME") c.graph_name;
    metrics_addr = env_text (codes "AMQP_INSPECTOR_METRICS_ADDR") c.metrics_addr;
    statsd_addr = env_text (codes "AMQP_INSPECTOR_STATSD_ADDR") c.statsd_addr;
    web_addr = env_text (codes "AMQP_INSPECTOR_WEB_ADDR") c.web_addr;
  }

  -- applyEnv
  unfoldable pub apply_env : Config → Outcome E Config
  unfolding env_texts env_int env_duration env_bool
  apply_env c = do
    max_events ← env_int (codes "AMQP_INSPECTOR_MAX_EVENTS") c.max_events
    prefetch ← env_int (codes "AMQP_INSPECTOR_PREFETCH") c.prefetch
    show_body_bytes ← env_int (codes "AMQP_INSPECTOR_SHOW_BODY_BYTES") c.show_body_bytes
    reconnect_initial ← env_duration (codes "AMQP_INSPECTOR_RECONNECT_INITIAL") c.reconnect_initial
    reconnect_max ← env_duration (codes "AMQP_INSPECTOR_RECONNECT_MAX") c.reconnect_max
    warn_unrouted ← env_bool (codes "AMQP_INSPECTOR_WARN_UNROUTED") c.warn_unrouted
    ok (record (env_texts c) {
      max_events = max_events;
      prefetch = prefetch;
      show_body_bytes = show_body_bytes;
      reconnect_initial = reconnect_initial;
      reconnect_max = reconnect_max;
      warn_unrouted = warn_unrouted;
    })

  -- The part of Load that reads the file.
  unfoldable pub with_file : Text → Outcome E Config
  with_file path =
      if not (is_nil path)
      then (do c ← decode_file path default_config; ok (record c { config_path = path }))
      else ok default_config

  -- What Load knows before the flags.
  unfoldable pub before_flags : List Text → Outcome E Config
  unfolding scan_config_path with_file apply_env
  before_flags args = do path ← scan_config_path args; c ← with_file path; apply_env c

  abbrev pub accepted : Config × Option ConfigError → Loaded E
  accepted (c, none) = loaded c
  accepted (c, some e) = load_failed (invalid_config e)

  abbrev pub flags_ended : Flags → FlagEnd E → Loaded E
  flags_ended s parsed =
      accepted (validate (record s.config { config_path = trim_space s.config_path }))
  flags_ended s help = help_requested s.config
  flags_ended s (bad_flags e) = load_failed (flags_failed e)

  -- parseFlags, and the rest of Load.
  unfoldable pub with_flags : List Text → Config → Loaded E
  unfolding set_flags validate trim_space
  with_flags args c =
      let (settings, end) = parse flag_set args in
      flags_ended (set_flags (record { config = c; config_path = c.config_path }) settings) end

  abbrev pub load_from : List Text → Outcome E Config → Loaded E
  load_from args (err e) = load_failed e
  load_from args (ok c) = with_flags args c

  -- Load
  unfoldable pub load : List Text → Loaded E
  unfolding before_flags with_flags
  load args = load_from args (before_flags args)
