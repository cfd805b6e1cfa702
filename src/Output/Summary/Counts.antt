-- ===== src/Output/Summary/Counts.antt =====
-- internal/output/summary.go: the counters count the traces.
use amqp_routing_inspector.Base.{
  ℕ, suc, ◌+◌, ◌%◌, Bool, true, false, not, List, [], ◌∷◌, ◌++◌, ◌≡◌, refl, sym, ap, ◌∙◌, map,
  filter, inl, inr, Bool-cases, nat_eq, list_eq, arith, length, is_nil,
}
use amqp_routing_inspector.Base.Text.{Text, codes}
use amqp_routing_inspector.Base.Decimal.{word}
use amqp_routing_inspector.Base.Tally.{
  bump, bump_all, tally, occurrences, tally-counted, bump_all-append, increment-mod,
}
use amqp_routing_inspector.Model.{QueueDestination, RoutingTrace, resolved}
use amqp_routing_inspector.Output.Summary.{
  SummaryRenderer, new_summary_renderer, has_type, summary_exchange, summary_queue, is_unrouted,
  increment_if, count_queues, count_trace, render_trace,
}

abbrev pub render_traces : SummaryRenderer → List RoutingTrace → SummaryRenderer
render_traces r [] = r
render_traces r (t ∷ ts) = render_traces (render_trace r t).0 ts

-- The queues that the traces reach, one for each destination.
abbrev pub all_queues : List RoutingTrace → List Text
all_queues [] = []
all_queues (t ∷ ts) = map summary_queue (resolved t) ++ all_queues ts

abbrev has_routing_key : RoutingTrace → Bool
has_routing_key t = not (is_nil t.event.routing_key)

-- The routing keys that are not empty.
abbrev pub all_routing_keys : List RoutingTrace → List Text
all_routing_keys ts = map (λ t. t.event.routing_key) (filter has_routing_key ts)

abbrev pub how_many : (RoutingTrace → Bool) → List RoutingTrace → ℕ
how_many p ts = length (filter p ts)

abbrev count_traces : SummaryRenderer → List RoutingTrace → SummaryRenderer
count_traces r [] = r
count_traces r (t ∷ ts) = count_traces (count_trace r t) ts

opened :
    (r : SummaryRenderer) (t : RoutingTrace)
    → r.closed ≡ false
    → (render_trace r t).0 ≡ count_trace r t
unfolding render_trace
opened r t h = simp h refl

render_traces_count :
    (r : SummaryRenderer) (ts : List RoutingTrace)
    → r.closed ≡ false
    → render_traces r ts ≡ count_traces r ts
unfolding count_trace
render_traces_count r [] h = refl
render_traces_count r (t ∷ ts) h =
    ap (λ s. render_traces s ts) (opened r t h) ∙ render_traces_count (count_trace r t) ts h

-- A counter that goes up by one at the traces that pass a test.
module _ (field : SummaryRenderer → ℕ) (p : RoutingTrace → Bool)
    (step : (r : SummaryRenderer) (t : RoutingTrace)
      → field (count_trace r t) ≡ increment_if (p t) (field r)) where
  counted :
      (r : SummaryRenderer) (ts : List RoutingTrace) (n : ℕ)
      → field r ≡ n % word
      → field (count_traces r ts) ≡ (n + how_many p ts) % word
  unfolding filter
  counted r [] n h = h ∙ ap (λ (i : ℕ). i % word) (omega arith)
  counted r (t ∷ ts) n h = elim (Bool-cases (p t)) [
    | inl q ↦ rw q (
        counted (count_trace r t) ts (n + 1) (step r t ∙ rw (q, h) (increment-mod n))
        ∙ ap (λ (i : ℕ). i % word) (omega arith))
    | inr q ↦ rw q (counted (count_trace r t) ts n (step r t ∙ rw q h))
  ]

  counted_new :
      (ts : List RoutingTrace)
      → field new_summary_renderer ≡ 0
      → field (count_traces new_summary_renderer ts) ≡ how_many p ts % word
  counted_new ts h =
      counted new_summary_renderer ts 0 (h ∙ omega arith) ∙ ap (λ (i : ℕ). i % word) (omega arith)

length-filter_true : (ts : List RoutingTrace) → how_many (λ t. true) ts ≡ length ts
unfolding filter
length-filter_true [] = refl
length-filter_true (t ∷ ts) = ap suc (length-filter_true ts)

exchanges_bumped :
    (r : SummaryRenderer) (ts : List RoutingTrace)
    → (count_traces r ts).exchanges ≡ bump_all (map summary_exchange ts) r.exchanges
unfolding count_trace bump_all
exchanges_bumped r [] = refl
exchanges_bumped r (t ∷ ts) = exchanges_bumped (count_trace r t) ts

count_queues_bumped :
    (ds : List QueueDestination) (m : List (Text × ℕ))
    → count_queues ds m ≡ bump_all (map summary_queue ds) m
unfolding count_queues bump_all
count_queues_bumped [] m = refl
count_queues_bumped (d ∷ ds) m = count_queues_bumped ds (bump (summary_queue d) m)

queues_bumped :
    (r : SummaryRenderer) (ts : List RoutingTrace)
    → (count_traces r ts).queues ≡ bump_all (all_queues ts) r.queues
unfolding count_trace bump_all
queues_bumped r [] = refl
queues_bumped r (t ∷ ts) =
    queues_bumped (count_trace r t) ts
    ∙ ap (bump_all (all_queues ts)) (count_queues_bumped (resolved t) r.queues)
    ∙ sym (bump_all-append (map summary_queue (resolved t)) (all_queues ts) r.queues)

routing_keys_bumped :
    (r : SummaryRenderer) (ts : List RoutingTrace)
    → (count_traces r ts).routing_keys ≡ bump_all (all_routing_keys ts) r.routing_keys
unfolding count_trace bump_all filter
routing_keys_bumped r [] = refl
routing_keys_bumped r (t ∷ ts) = elim (Bool-cases (is_nil t.event.routing_key)) [
  | inl q ↦ rw (routing_keys_bumped (count_trace r t) ts) (simp q refl)
  | inr q ↦ rw (routing_keys_bumped (count_trace r t) ts) (simp q refl)
]

abbrev fresh : SummaryRenderer
fresh = new_summary_renderer

-- After any traces the counters of a new renderer are, modulo 2^64: the number of traces, of
-- publications, of deliveries and of publications that reach no queue; and for each name the number
-- of traces of the exchange, of destinations at the queue and of traces with the routing key.
pub render_traces-new_summary_renderer :
    (ts : List RoutingTrace) (name : Text)
    → ((render_traces fresh ts).total_events ≡ length ts % word)
      × ((render_traces fresh ts).publish_events ≡ how_many (has_type (codes "publish")) ts % word)
      × ((render_traces fresh ts).deliver_events ≡ how_many (has_type (codes "deliver")) ts % word)
      × ((render_traces fresh ts).unrouted ≡ how_many is_unrouted ts % word)
      × (tally name (render_traces fresh ts).exchanges
          ≡ occurrences name (map summary_exchange ts) % word)
      × (tally name (render_traces fresh ts).queues ≡ occurrences name (all_queues ts) % word)
      × (tally name (render_traces fresh ts).routing_keys
          ≡ occurrences name (all_routing_keys ts) % word)
unfolding count_trace
render_traces-new_summary_renderer ts name = rw (render_traces_count fresh ts refl) (
  counted_new (λ r. r.total_events) (λ t. true) (λ r t. refl) ts refl
      ∙ ap (λ (i : ℕ). i % word) (length-filter_true ts),
  counted_new (λ r. r.publish_events) (has_type (codes "publish")) (λ r t. refl) ts refl,
  counted_new (λ r. r.deliver_events) (has_type (codes "deliver")) (λ r t. refl) ts refl,
  counted_new (λ r. r.unrouted) is_unrouted (λ r t. refl) ts refl,
  rw (exchanges_bumped fresh ts) (tally-counted name (map summary_exchange ts)),
  rw (queues_bumped fresh ts) (tally-counted name (all_queues ts)),
  rw (routing_keys_bumped fresh ts) (tally-counted name (all_routing_keys ts)),
)
