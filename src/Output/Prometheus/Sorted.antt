-- ===== src/Output/Prometheus/Sorted.antt =====
-- internal/output/prometheus.go: metricsText does not depend on the order in which Go walks the maps.
use mathlib.Core.HLevel.{hedberg}
use mathlib.Core.Path.{fun_ext}
use mathlib.Core.List.{Nodup, Perm, map-id}
use mathlib.Core.List.Perm
use native.Mathlib.Decide.{ℕ_discrete}
use amqp_routing_inspector.Base.{
  Key, ℕ, Bool, ◌≢◌, List, [], ◌∷◌, ◌≡◌, refl, list_eq, nat_eq, arith, is_nil, list_beq_iff,
}
use amqp_routing_inspector.Base.Text.{Text, text_ltb}
use amqp_routing_inspector.Base.Text.Less.{text_ltb-IsStrictOrder, text_ltb_connected}
use amqp_routing_inspector.Base.Order.{
  by_key-IsStrictOrder, IsStrictOrder, Comparable, sort, sort_perm_eq,
}
use amqp_routing_inspector.Base.Map.{keys}
use amqp_routing_inspector.Base.Tally.Walk.{tally_perm}
use amqp_routing_inspector.Output.Prometheus.{
  ExchangeEventKey, ExchangeQueueKey, event_key_eq, queue_key_eq, PrometheusRenderer,
  event_key_less, queue_key_less, event_line, delivery_line, unrouted_line, unrouted_text,
  metrics_text, write_lines,
}
use amqp_routing_inspector.Output.Prometheus.Counts.{HasUniqueKeys}

Text-discrete : Discrete Text
Text-discrete = hlevel ℕ_discrete

event_key-discrete : Discrete ExchangeEventKey
event_key-discrete = hlevel ℕ_discrete

queue_key-discrete : Discrete ExchangeQueueKey
queue_key-discrete = hlevel ℕ_discrete

event_type_less-IsStrictOrder :
    IsStrictOrder {A = ExchangeEventKey} (λ a b. text_ltb a.event_type b.event_type)
event_type_less-IsStrictOrder = record {
  irrefl = λ a. text_ltb-IsStrictOrder.irrefl a.event_type;
  trans = λ a b c. text_ltb-IsStrictOrder.trans a.event_type b.event_type c.event_type;
}

queue_less-IsStrictOrder : IsStrictOrder {A = ExchangeQueueKey} (λ a b. text_ltb a.queue b.queue)
queue_less-IsStrictOrder = record {
  irrefl = λ a. text_ltb-IsStrictOrder.irrefl a.queue;
  trans = λ a b c. text_ltb-IsStrictOrder.trans a.queue b.queue c.queue;
}

event_key_less-IsStrictOrder : IsStrictOrder event_key_less
unfolding event_key_less
event_key_less-IsStrictOrder =
    by_key-IsStrictOrder _ _ _ text_ltb-IsStrictOrder event_type_less-IsStrictOrder

queue_key_less-IsStrictOrder : IsStrictOrder queue_key_less
unfolding queue_key_less
queue_key_less-IsStrictOrder =
    by_key-IsStrictOrder _ _ _ text_ltb-IsStrictOrder queue_less-IsStrictOrder

event_key_less_connected : (a b : ExchangeEventKey) → a ≢ b → Comparable event_key_less a b
unfolding event_key_less
event_key_less_connected a b h = ground (
  arith,
  list_beq_iff a.exchange b.exchange,
  list_beq_iff b.exchange a.exchange,
  text_ltb_connected a.exchange b.exchange,
  text_ltb_connected a.event_type b.event_type,
)

queue_key_less_connected : (a b : ExchangeQueueKey) → a ≢ b → Comparable queue_key_less a b
unfolding queue_key_less
queue_key_less_connected a b h = ground (
  arith,
  list_beq_iff a.exchange b.exchange,
  list_beq_iff b.exchange a.exchange,
  text_ltb_connected a.exchange b.exchange,
  text_ltb_connected a.queue b.queue,
)

-- The lines of one counter, where a line shows a key and its count.
lines_perm_eq :
    {K : Type 0} {less : K → K → Bool} ⦃e : Key K⦄ (o : IsStrictOrder less) (set : IsSet K)
    (connected : (a b : K) → a ≢ b → Comparable less a b) (line : List (K × ℕ) → K → Text)
    (m n : List (K × ℕ))
    → ((k : K) → line m k ≡ line n k)
    → Nodup (keys m)
    → Perm m n
    → write_lines (line n) (sort less (keys n)) ≡ write_lines (line m) (sort less (keys m))
lines_perm_eq {less = less} o set connected line m n same once p =
    rw
      (
        ← fun_ext same,
        sort_perm_eq o (λ k. k) set connected (keys m) (keys n) (Perm.map (λ e. e.0) p)
            (rw (map-id (keys m)) once),
      )
      refl

module _ (printable : ℕ → Bool) where
  event_line_perm :
      (m n : List (ExchangeEventKey × ℕ))
      → Nodup (keys m)
      → Perm m n
      → (k : ExchangeEventKey) → event_line printable m k ≡ event_line printable n k
  unfolding event_line
  event_line_perm m n once p k = rw (tally_perm k m n p once) refl

  delivery_line_perm :
      (m n : List (ExchangeQueueKey × ℕ))
      → Nodup (keys m)
      → Perm m n
      → (k : ExchangeQueueKey) → delivery_line printable m k ≡ delivery_line printable n k
  unfolding delivery_line
  delivery_line_perm m n once p k = rw (tally_perm k m n p once) refl

  unrouted_line_perm :
      (m n : List (Text × ℕ))
      → Nodup (keys m)
      → Perm m n
      → (k : Text) → unrouted_line printable m k ≡ unrouted_line printable n k
  unfolding unrouted_line
  unrouted_line_perm m n once p k = rw (tally_perm k m n p once) refl

  is_nil_perm : (m n : List (Text × ℕ)) → Perm m n → is_nil n ≡ is_nil m
  is_nil_perm [] [] p = refl
  is_nil_perm [] (x ∷ n) p = cc (Perm.nil-eq p)
  is_nil_perm (x ∷ m) [] p = cc (Perm.eq-nil p)
  is_nil_perm (x ∷ m) (y ∷ n) p = refl

  unrouted_text_perm_eq :
      (m n : List (Text × ℕ))
      → Nodup (keys m)
      → Perm m n
      → unrouted_text printable n ≡ unrouted_text printable m
  unfolding unrouted_text
  unrouted_text_perm_eq m n once p =
      rw
        (
          is_nil_perm m n p,
          lines_perm_eq text_ltb-IsStrictOrder (hedberg Text-discrete) text_ltb_connected
              (unrouted_line printable) m n (unrouted_line_perm m n once p) once p,
        )
        refl

  -- The text of the metrics does not depend on the orders in which Go walks the three maps, where no
  -- key is entered twice.
  pub metrics_text_perm_eq :
      (r : PrometheusRenderer) (events : List (ExchangeEventKey × ℕ))
      (deliveries : List (ExchangeQueueKey × ℕ)) (unrouted : List (Text × ℕ))
      → HasUniqueKeys r
      → Perm r.events events
      → Perm r.deliveries deliveries
      → Perm r.unrouted unrouted
      → metrics_text printable
          (record r { events = events; deliveries = deliveries; unrouted = unrouted })
        ≡ metrics_text printable r
  unfolding metrics_text
  metrics_text_perm_eq r events deliveries unrouted u p q s =
      rw
        (
          lines_perm_eq event_key_less-IsStrictOrder (hedberg event_key-discrete)
              event_key_less_connected (event_line printable) r.events events
              (event_line_perm r.events events u.events_once p) u.events_once p,
          lines_perm_eq queue_key_less-IsStrictOrder (hedberg queue_key-discrete)
              queue_key_less_connected (delivery_line printable) r.deliveries deliveries
              (delivery_line_perm r.deliveries deliveries u.deliveries_once q) u.deliveries_once q,
          unrouted_text_perm_eq r.unrouted unrouted u.unrouted_once s,
        )
        refl
