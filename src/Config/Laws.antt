-- ===== src/Config/Laws.antt =====
-- internal/config/config.go: which configs Validate accepts.
use amqp_routing_inspector.Base.{
  inl, inr, ◌⊎◌, ◌↔◌, Bool, true, false, not, ◌&&◌, List, [], ◌∷◌, ◌≡◌, ◌≢◌, refl, sym, ◌∙◌, Option,
  none, nat_eq, list_eq, ◌==◌, list_beq_iff, arith, Bool-cases, is_nil, any, Any,
}
use amqp_routing_inspector.Base.Int.{ltb_ℤ, is_positive, is_negative}
use amqp_routing_inspector.Base.Text.{Text, codes}
use amqp_routing_inspector.Config.{
  Config, formats, format_prometheus, format_statsd, format_web, ConfigError, trim_fields,
  name_graph, refuse, check_addresses, check_numbers, check, validate,
}

-- What the program relies on in a config that passed Validate.
pub record IsValid (c : Config) : Type 0 where
  pub url : c.rabbitmq_url ≢ []
  pub exchange : c.firehose_exchange ≢ []
  pub format : Any (λ f. f ≡ c.output_format) formats
  pub event :
      (c.filter_event ≡ [])
      ⊎ (c.filter_event ≡ codes "publish")
      ⊎ (c.filter_event ≡ codes "deliver")
  pub prefetch : is_positive c.prefetch ≡ true
  pub max_events : is_negative c.max_events ≡ false
  pub show_body_bytes : is_negative c.show_body_bytes ≡ false
  pub reconnect_initial : is_positive c.reconnect_initial ≡ true
  pub reconnect_max : is_positive c.reconnect_max ≡ true
  pub ordered : ltb_ℤ c.reconnect_max c.reconnect_initial ≡ false
  pub metrics : c.output_format ≡ format_prometheus → c.metrics_addr ≢ []
  pub statsd : c.output_format ≡ format_statsd → c.statsd_addr ≢ []
  pub web : c.output_format ≡ format_web → c.web_addr ≢ []

is_nil_iff : (s : Text) → (is_nil s ≡ true) ↔ (s ≡ [])
is_nil_iff [] = (λ h. refl, λ h. refl)
is_nil_iff (c ∷ s) = (λ h. cc, λ h. cc)

refuse_both :
    {P Q : Type 0} (b : Bool) (e : ConfigError) (rest : Option ConfigError)
    → (b ≡ false) ↔ P
    → (rest ≡ none) ↔ Q
    → (refuse b e rest ≡ none) ↔ (P × Q)
unfolding refuse
refuse_both true e rest p q = (λ h. cc, λ (x, y). absurd (cc (p.1 x)))
refuse_both false e rest p q = (λ h. (p.0 refl, q.0 h), λ (x, y). q.1 y)

is_ok : (b : Bool) → (not b ≡ false) ↔ (b ≡ true)
is_ok b = ground arith

format_iff :
    (f : Text) (fs : List Text) → (not (any (λ g. g == f) fs) ≡ false) ↔ Any (λ g. g ≡ f) fs
format_iff f [] = ground arith
format_iff f (g ∷ fs) = ground (arith, list_beq_iff g f, format_iff f fs)

event_iff :
    (e a b : Text)
    → ((not (is_nil e) && not (e == a) && not (e == b)) ≡ false) ↔ ((e ≡ []) ⊎ (e ≡ a) ⊎ (e ≡ b))
event_iff e a b = ground (arith, is_nil_iff e, list_beq_iff e a, list_beq_iff e b)

addr_iff : (f g addr : Text) → ((f == g && is_nil addr) ≡ false) ↔ (f ≡ g → addr ≢ [])
addr_iff f g addr = ground (arith, is_nil_iff addr, list_beq_iff f g)

plain : (b : Bool) → (b ≡ false) ↔ (b ≡ false)
plain b = (λ h. h, λ h. h)

AreAddresses : Config → Type 0
AreAddresses c =
    (c.output_format ≡ format_prometheus → c.metrics_addr ≢ [])
    × ((c.output_format ≡ format_statsd → c.statsd_addr ≢ [])
        × ((c.output_format ≡ format_web → c.web_addr ≢ []) × (Unit)))

check_addresses_iff : (c : Config) → (check_addresses c ≡ none) ↔ AreAddresses c
unfolding check_addresses AreAddresses
check_addresses_iff c =
    refuse_both _ _ _ (addr_iff c.output_format format_prometheus c.metrics_addr) (
      refuse_both _ _ _ (addr_iff c.output_format format_statsd c.statsd_addr)
        (refuse_both _ _ _ (addr_iff c.output_format format_web c.web_addr) (λ h. tt, λ h. refl)))

AreNumbers : Config → Type 0
AreNumbers c =
    (is_positive c.prefetch ≡ true)
    × ((is_negative c.max_events ≡ false)
        × ((is_negative c.show_body_bytes ≡ false)
            × ((is_positive c.reconnect_initial ≡ true)
                × ((is_positive c.reconnect_max ≡ true)
                    × ((ltb_ℤ c.reconnect_max c.reconnect_initial ≡ false) × (AreAddresses c))))))

check_numbers_iff : (c : Config) → (check_numbers c ≡ none) ↔ AreNumbers c
unfolding check_numbers AreNumbers
check_numbers_iff c = refuse_both _ _ _ (is_ok (is_positive c.prefetch)) (
    refuse_both _ _ _ (plain (is_negative c.max_events)) (
      refuse_both _ _ _ (plain (is_negative c.show_body_bytes)) (
        refuse_both _ _ _ (is_ok (is_positive c.reconnect_initial)) (
          refuse_both _ _ _ (is_ok (is_positive c.reconnect_max)) (
            refuse_both _ _ _ (plain (ltb_ℤ c.reconnect_max c.reconnect_initial))
              (check_addresses_iff c))))))

IsChecked : Config → Type 0
IsChecked c =
    Any (λ f. f ≡ c.output_format) formats
    × (((c.filter_event ≡ [])
          ⊎ (c.filter_event ≡ codes "publish")
          ⊎ (c.filter_event ≡ codes "deliver"))
        × AreNumbers c)

check_iff : (c : Config) → (check c ≡ none) ↔ IsChecked c
unfolding check IsChecked
check_iff c = refuse_both _ _ _ (format_iff c.output_format formats) (
    refuse_both _ _ _ (event_iff c.filter_event (codes "publish") (codes "deliver"))
      (check_numbers_iff c))

is_nil-ne : (s : Text) → s ≢ [] → is_nil s ≡ false
is_nil-ne [] n = absurd (n refl)
is_nil-ne (c ∷ s) n = refl

ne-is_nil : (s : Text) → is_nil s ≡ false → s ≢ []
ne-is_nil [] h = cc
ne-is_nil (c ∷ s) h = λ e. cc

IsValid-IsChecked : (c : Config) → IsValid c → IsChecked c
unfolding IsChecked AreNumbers AreAddresses
IsValid-IsChecked c v = (
  v.format,
  (
    v.event,
    (
      v.prefetch,
      (
        v.max_events,
        (
          v.show_body_bytes,
          (
            v.reconnect_initial,
            (v.reconnect_max, (v.ordered, (v.metrics, (v.statsd, (v.web, tt))))),
          ),
        ),
      ),
    ),
  ),
)

IsChecked-IsValid :
    (c : Config) → c.rabbitmq_url ≢ [] → c.firehose_exchange ≢ [] → IsChecked c → IsValid c
unfolding IsChecked AreNumbers AreAddresses
IsChecked-IsValid c u x (f, (e, (p, (m, (s, (i, (b, (o, (a, (d, (w, r))))))))))) = record {
  url = u;
  exchange = x;
  format = f;
  event = e;
  prefetch = p;
  max_events = m;
  show_body_bytes = s;
  reconnect_initial = i;
  reconnect_max = b;
  ordered = o;
  metrics = a;
  statsd = d;
  web = w;
}

-- The config that Validate leaves behind where it returns no error.
unfoldable pub normalized : Config → Config
normalized c = name_graph (trim_fields c)

name_graph-url : (c : Config) → (name_graph c).rabbitmq_url ≡ c.rabbitmq_url
unfolding name_graph
name_graph-url c = refl

name_graph-exchange : (c : Config) → (name_graph c).firehose_exchange ≡ c.firehose_exchange
unfolding name_graph
name_graph-exchange c = refl

-- Validate returns no error exactly where the config, with its text fields trimmed, its format and
-- event lower-cased and its graph named, is valid, and then it leaves that config behind.
pub validate_iff :
    (c : Config)
    → (((validate c).1 ≡ none) ↔ IsValid (normalized c))
      × ((validate c).1 ≡ none → (validate c).0 ≡ normalized c)
unfolding validate normalized
validate_iff config =
    let c = trim_fields config in
    elim (Bool-cases (is_nil c.rabbitmq_url)) [
      | inl e ↦ rw e ((λ h. cc, λ v. absurd (cc (is_nil-ne _ v.url, name_graph-url c, e))), λ h. cc)
      | inr e ↦ rw e (elim (Bool-cases (is_nil c.firehose_exchange)) [
        | inl f ↦ rw f (
          (λ h. cc, λ v. absurd (cc (is_nil-ne _ v.exchange, name_graph-exchange c, f))),
          λ h. cc,
        )
        | inr f ↦ rw f (
          (
            λ h.
                IsChecked-IsValid (name_graph c) (λ n. ne-is_nil _ e (sym (name_graph-url c) ∙ n))
                  (λ n. ne-is_nil _ f (sym (name_graph-exchange c) ∙ n))
                  ((check_iff (name_graph c)).0 h),
            λ v. (check_iff (name_graph c)).1 (IsValid-IsChecked _ v),
          ),
          λ h. refl,
        )
      ])
    ]
