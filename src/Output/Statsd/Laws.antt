-- ===== src/Output/Statsd/Laws.antt =====
-- internal/output/statsd.go: the segments of a metric, which no name can split.
use mathlib.Core.Path.{ap₂}
use amqp_routing_inspector.Base.{
  ℕ, inl, inr, Bool, List, [], ◌∷◌, ◌++◌, ◌≡◌, refl, ap, ◌&&◌, map, nat_eq, list_eq, ◌==◌, arith,
  Bool-cases, is_nil, if◌then◌else◌,
}
use amqp_routing_inspector.Base.Text.{Text, codes, to_lower, split}
use amqp_routing_inspector.Base.Text.Split.{Lacks}
use amqp_routing_inspector.Model.{QueueDestination, RoutingTrace, resolved}
use amqp_routing_inspector.Output.Statsd.{
  is_safe, sanitize_statsd, segment, event_metric, unrouted_metric, delivery_metric, metrics,
}

Lacks-append : (sep : ℕ) (s t : Text) → Lacks sep s → Lacks sep t → Lacks sep (s ++ t)
Lacks-append sep [] t h k = k
Lacks-append sep (c ∷ s) t (x, h) k = (x, Lacks-append sep s t h k)

sanitize_statsd-Lacks : (s : Text) → Lacks b'.' (sanitize_statsd s)
unfolding sanitize_statsd is_safe
sanitize_statsd-Lacks [] = tt
sanitize_statsd-Lacks (c ∷ s) = (ground arith, sanitize_statsd-Lacks s)

segment-Lacks : (s : Text) → Lacks b'.' (segment s)
unfolding segment
segment-Lacks s = elim (Bool-cases (is_nil (sanitize_statsd s))) [
  | inl h ↦ rw h (ground arith)
  | inr h ↦ rw h (sanitize_statsd-Lacks s)
]

-- A text without the separator is one part.
split-one : (sep : ℕ) (s : Text) → Lacks sep s → split sep s ≡ s ∷ []
unfolding split
split-one sep [] h = refl
split-one sep (c ∷ s) (x, h) = elim (Bool-cases (c == sep)) [
  | inl e ↦ absurd (x (ground arith))
  | inr e ↦ rw (e, split-one sep s h) refl
]

-- A text without the separator, in front of one, is the first part.
split-next :
    (sep : ℕ) (s rest : Text) → Lacks sep s → split sep (s ++ sep ∷ rest) ≡ s ∷ split sep rest
unfolding split
split-next sep [] rest h = ground arith
split-next sep (c ∷ s) rest (x, h) = elim (Bool-cases (c == sep)) [
  | inl e ↦ absurd (x (ground arith))
  | inr e ↦ rw (e, split-next sep s rest h) refl
]

-- The parts of a metric of a kind: each name is one part, the count stands in the last.
abbrev path_of : Text → List Text → List Text
path_of kind parts = codes "amqp" ∷ codes "routing" ∷ kind ∷ parts

abbrev counted : Text → Text
counted s = segment s ++ codes ":1|c"

counted-Lacks : (s : Text) → Lacks b'.' (counted s)
counted-Lacks s = Lacks-append b'.' (segment s) (codes ":1|c") (segment-Lacks s) (ground arith)

split-two :
    (s t : Text)
    → split b'.' (segment s ++ (codes "." ++ (segment t ++ codes ":1|c")))
      ≡ segment s ∷ counted t ∷ []
split-two s t =
    rw
      (
        split-next b'.' (segment s) (counted t) (segment-Lacks s),
        split-one b'.' (counted t) (counted-Lacks t),
      )
      refl

module _ (trace : RoutingTrace) where
  abbrev exchange : Text
  exchange = trace.event.exchange_name

  abbrev pub event_path : List Text
  event_path = path_of (codes "events") (segment exchange ∷ counted trace.event.event_type ∷ [])

  abbrev pub unrouted_path : List Text
  unrouted_path = path_of (codes "unrouted") (counted exchange ∷ [])

  abbrev pub delivery_path : QueueDestination → List Text
  delivery_path dest =
      path_of (codes "deliveries") (segment exchange ∷ counted dest.queue_name ∷ [])

  abbrev pub is_unrouted : Bool
  is_unrouted = is_nil (resolved trace) && to_lower trace.event.event_type == codes "publish"

  split-event_metric : split b'.' (event_metric trace) ≡ event_path
  unfolding event_metric split
  split-event_metric =
      ap (λ ws. path_of (codes "events") ws) (split-two exchange trace.event.event_type)

  split-unrouted_metric : split b'.' (unrouted_metric trace) ≡ unrouted_path
  unfolding unrouted_metric split
  split-unrouted_metric =
      ap (λ ws. path_of (codes "unrouted") ws)
        (split-one b'.' (counted exchange) (counted-Lacks exchange))

  split-deliveries :
      (ds : List QueueDestination)
      → map (split b'.') (map (delivery_metric trace) ds) ≡ map delivery_path ds
  unfolding delivery_metric split
  split-deliveries [] = refl
  split-deliveries (d ∷ ds) =
      ap₂ (λ ws rest. path_of (codes "deliveries") ws ∷ rest) (split-two exchange d.queue_name)
        (split-deliveries ds)

  -- Split at its dots, each metric of a trace is the path of its kind: an event, the unrouted
  -- publication where there is one, and one delivery for each destination that was resolved, in order.
  -- Whatever the names of the exchange, the event and the queues hold, each is one part of the path.
  pub split-metrics :
      map (split b'.') (metrics trace)
      ≡ event_path
        ∷ ((if is_unrouted then unrouted_path ∷ [] else []) ++ map delivery_path (resolved trace))
  unfolding metrics
  split-metrics = elim (Bool-cases is_unrouted) [
    | inl h ↦ simp h (
        ap₂ (◌∷◌) split-event_metric
          (ap₂ (◌∷◌) split-unrouted_metric (split-deliveries (resolved trace))))
    | inr h ↦ simp h (ap₂ (◌∷◌) split-event_metric (split-deliveries (resolved trace)))
  ]
