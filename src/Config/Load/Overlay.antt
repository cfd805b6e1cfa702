-- ===== src/Config/Load/Overlay.antt =====
-- internal/config/config.go: what applyEnv makes of each field.
use mathlib.Core.Path.{subst}
use amqp_routing_inspector.Base.{inl, inr, ◌⊎◌, Bool, ◌≡◌, ◌≢◌, refl}
use amqp_routing_inspector.Base.Int.{ℤ}
use amqp_routing_inspector.Base.Text.{codes}
use amqp_routing_inspector.Config.{Config}
use amqp_routing_inspector.Config.Load.Fields.{
  TextField, text_of, text_of_variable, IntField, int_of, int_of_variable, DelayField, delay_of,
  delay_of_variable, int_cases, delay_cases, field_max_events, field_prefetch,
  field_show_body_bytes, field_reconnect_initial, field_reconnect_max, field_rabbitmq_url,
  field_firehose_exchange, field_queue_name, field_consumer_tag, field_output_format,
  field_filter_exchange, field_filter_queue, field_filter_routing_key, field_filter_event,
  field_graph_name, field_metrics_addr, field_statsd_addr, field_web_addr,
}
use amqp_routing_inspector.Config.Load.{
  ◌>>=◌, LoadError, Outcome, ok, err, Outside, env_text, env_int, env_duration, env_bool, env_texts,
  apply_env,
}

pub Outcome-cases :
    {E A : Type 0} (m : Outcome E A) → ((a : A) × (m ≡ ok a)) ⊎ ((e : LoadError E) × (m ≡ err e))
Outcome-cases (ok a) = inl (a, refl)
Outcome-cases (err e) = inr (e, refl)

pub err_not_ok : {E A : Type 0} (e : LoadError E) (a : A) → ◌≢◌ {A = Outcome E A} (err e) (ok a)
err_not_ok e a h = cc

ok_inj : {E A : Type 0} (a b : A) → ◌≡◌ {A = Outcome E A} (ok a) (ok b) → a ≡ b
ok_inj a b h = cc

bind_ok :
    {E A B : Type 0} (m : Outcome E A) (f : A → Outcome E B) (b : B)
    → (m >>= f) ≡ ok b
    → (a : A) × (m ≡ ok a) × (f a ≡ ok b)
bind_ok (ok a) f b h = (a, refl, h)
bind_ok (err e) f b h = absurd (err_not_ok e b h)

module _ {E : Type 0} (outside : Outside E) where
  -- What the environment makes of a config: each field but show_version and config_path has a variable.
  pub record Overlaid (c : Config) (d : Config) : Type 0 where
    pub texts : (f : TextField) → text_of f d ≡ env_text outside (text_of_variable f) (text_of f c)
    pub ints : (f : IntField) → env_int outside (int_of_variable f) (int_of f c) ≡ ok (int_of f d)
    pub delays :
        (f : DelayField)
        → env_duration outside (delay_of_variable f) (delay_of f c) ≡ ok (delay_of f d)
    pub warning :
        env_bool outside (codes "AMQP_INSPECTOR_WARN_UNROUTED") c.warn_unrouted ≡ ok d.warn_unrouted
    pub version : d.show_version ≡ c.show_version

  abbrev overlay : Config → ℤ → ℤ → ℤ → ℤ → ℤ → Bool → Config
  overlay c events prefetch shown initial longest warn = record (env_texts outside c) {
    max_events = events;
    prefetch = prefetch;
    show_body_bytes = shown;
    reconnect_initial = initial;
    reconnect_max = longest;
    warn_unrouted = warn;
  }

  overlay-texts :
      (c : Config) (a1 a2 a3 a4 a5 : ℤ) (a6 : Bool) (f : TextField)
      → text_of f (overlay c a1 a2 a3 a4 a5 a6)
        ≡ env_text outside (text_of_variable f) (text_of f c)
  unfolding env_texts
  overlay-texts c a1 a2 a3 a4 a5 a6 field_rabbitmq_url = refl
  overlay-texts c a1 a2 a3 a4 a5 a6 field_firehose_exchange = refl
  overlay-texts c a1 a2 a3 a4 a5 a6 field_queue_name = refl
  overlay-texts c a1 a2 a3 a4 a5 a6 field_consumer_tag = refl
  overlay-texts c a1 a2 a3 a4 a5 a6 field_output_format = refl
  overlay-texts c a1 a2 a3 a4 a5 a6 field_filter_exchange = refl
  overlay-texts c a1 a2 a3 a4 a5 a6 field_filter_queue = refl
  overlay-texts c a1 a2 a3 a4 a5 a6 field_filter_routing_key = refl
  overlay-texts c a1 a2 a3 a4 a5 a6 field_filter_event = refl
  overlay-texts c a1 a2 a3 a4 a5 a6 field_graph_name = refl
  overlay-texts c a1 a2 a3 a4 a5 a6 field_metrics_addr = refl
  overlay-texts c a1 a2 a3 a4 a5 a6 field_statsd_addr = refl
  overlay-texts c a1 a2 a3 a4 a5 a6 field_web_addr = refl

  overlay-Overlaid :
      (c : Config) (a1 a2 a3 a4 a5 : ℤ) (a6 : Bool)
      → env_int outside (int_of_variable field_max_events) c.max_events ≡ ok a1
      → env_int outside (int_of_variable field_prefetch) c.prefetch ≡ ok a2
      → env_int outside (int_of_variable field_show_body_bytes) c.show_body_bytes ≡ ok a3
      → env_duration outside (delay_of_variable field_reconnect_initial) c.reconnect_initial ≡ ok a4
      → env_duration outside (delay_of_variable field_reconnect_max) c.reconnect_max ≡ ok a5
      → env_bool outside (codes "AMQP_INSPECTOR_WARN_UNROUTED") c.warn_unrouted ≡ ok a6
      → Overlaid c (overlay c a1 a2 a3 a4 a5 a6)
  unfolding env_texts
  overlay-Overlaid c a1 a2 a3 a4 a5 a6 p1 p2 p3 p4 p5 p6 = record {
    texts = overlay-texts c a1 a2 a3 a4 a5 a6;
    ints = int_cases _ p1 p2 p3;
    delays = delay_cases _ p4 p5;
    warning = p6;
    version = refl;
  }

  pub apply_env-Overlaid : (c d : Config) → apply_env outside c ≡ ok d → Overlaid c d
  unfolding apply_env
  apply_env-Overlaid c d h =
      let (a1, p1, h1) = bind_ok _ _ d h in
      let (a2, p2, h2) = bind_ok _ _ d h1 in
      let (a3, p3, h3) = bind_ok _ _ d h2 in
      let (a4, p4, h4) = bind_ok _ _ d h3 in
      let (a5, p5, h5) = bind_ok _ _ d h4 in
      let (a6, p6, h6) = bind_ok _ _ d h5 in
      subst (Overlaid c) (ok_inj _ d h6) (overlay-Overlaid c a1 a2 a3 a4 a5 a6 p1 p2 p3 p4 p5 p6)
