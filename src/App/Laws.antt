-- ===== src/App/Laws.antt =====
-- internal/app/service.go: which traces a session renders.
use mathlib.Core.List.{append-nil, append_assoc}
use amqp_routing_inspector.Base.{
  ltb, is_nil, nat_eq, list_eq, ◌==◌, ℕ, zero, suc, ◌+◌, ◌^◌, ◌<◌, inl, inr, ◌⊎◌, true, false, not,
  ◌&&◌, List, [], ◌∷◌, ◌++◌, ◌≡◌, refl, sym, ap, ◌∙◌, Option, none, some, arith, Bool-cases,
  if◌then◌else◌, take, map, length,
}
use amqp_routing_inspector.Base.Text.{codes}
use amqp_routing_inspector.Base.Int.{ℤ, pos, is_positive, ltb_ℤ}
use amqp_routing_inspector.Base.Decimal.{increment, signed}
use amqp_routing_inspector.Model.{Time, RoutingEvent, RoutingTrace}
use amqp_routing_inspector.Parser.Destinations.{ParseError, Result, ok, err}
use amqp_routing_inspector.Parser.Delivery.{EventParser, Delivery, parse_delivery}
use amqp_routing_inspector.Filter.Matcher.{Matcher, matches}
use amqp_routing_inspector.App.{
  parse_failed, logged, LogLine, Renderer, Service, SessionError, max_events_reached, trace_of,
  warned, rendered, handle_event, handle_result, handle_delivery, SessionEvent, delivered,
  run_session,
}

-- A renderer that keeps what it is given and never fails.
abbrev pub recorder : {E : Type 0} → Renderer (List RoutingTrace) E
recorder = record { render_trace = λ r t. (r ++ t ∷ [], none) }

-- The trace of a result that the matcher accepts, before the traces `rest`.
abbrev pub accept : Matcher → Result RoutingEvent → List RoutingTrace → List RoutingTrace
accept m (err e) rest = rest
accept m (ok event) rest = if matches (some m) (trace_of event) then trace_of event ∷ rest else rest

-- The traces of the deliveries that parse and that the matcher accepts, in their order.
unfoldable pub accepted : EventParser → Matcher → List (Time × Delivery) → List RoutingTrace
accepted p m [] = []
accepted p m ((now, d) ∷ ds) = accept m (parse_delivery p now d) (accepted p m ds)

abbrev pub arrivals : List (Time × Delivery) → List SessionEvent
arrivals = map (λ a. delivered a.0 a.1)

-- A service with room for `n` more events.
unfoldable pub HasRoom : {R : Type 0} → Service R → ℕ → Type 0
HasRoom s n = (m : ℕ) × (s.max_events ≡ pos m) × (m < 2 ^ 63) × (s.matched_events + n ≡ m)

pub Result-cases {ℓ} :
    {A : Type ℓ} (r : Result A) → ((a : A) × (r ≡ ok a)) ⊎ ((e : ParseError) × (r ≡ err e))
Result-cases (ok a) = inl (a, refl)
Result-cases (err e) = inr (e, refl)

pub warned_only_logs :
    {R : Type 0} (s : Service R) (event : RoutingEvent)
    → (lines : List LogLine) × (warned s event ≡ record s { log = lines })
unfolding warned
warned_only_logs s event =
    elim (Bool-cases
      (s.warn_unrouted && event.event_type == codes "publish" && is_nil event.destinations)) [
        | inl e ↦ rw e (_, refl)
        | inr e ↦ rw e (s.log, refl)
      ]

last_reached :
    (z : ℤ) (k m : ℕ)
    → z ≡ pos m
    → m < 2 ^ 63
    → k + 1 ≡ m
    → (is_positive z && not (ltb_ℤ (signed (increment k)) z)) ≡ true
unfolding increment
last_reached z k m p l q = rw p (ground arith)

not_reached :
    (z : ℤ) (k m n : ℕ)
    → z ≡ pos m
    → m < 2 ^ 63
    → k + suc (suc n) ≡ m
    → (is_positive z && not (ltb_ℤ (signed (increment k)) z)) ≡ false
unfolding increment
not_reached z k m n p l q = rw p (ground arith)

counted : (k m n : ℕ) → m < 2 ^ 63 → k + suc (suc n) ≡ m → increment k + suc n ≡ m
unfolding increment
counted k m n l q = omega arith

module _ {R E : Type 0} (o : Renderer R E) (s : Service R) (now : Time) (d : Delivery) where
  pub handled_err :
      (e : ParseError)
      → parse_delivery s.parser now d ≡ err e
      → handle_delivery o s now d ≡ (logged s (parse_failed d.routing_key e), none)
  unfolding handle_delivery handle_result
  handled_err e f = rw f refl

  pub handled_skipped :
      (event : RoutingEvent) (lines : List LogLine)
      → parse_delivery s.parser now d ≡ ok event
      → warned s event ≡ record s { log = lines }
      → matches (some s.matcher) (trace_of event) ≡ false
      → handle_delivery o s now d ≡ (record s { log = lines }, none)
  unfolding handle_delivery handle_result handle_event
  handled_skipped event lines f w g = rw (f, w, g) refl

  pub handled_shown :
      (event : RoutingEvent) (lines : List LogLine)
      → parse_delivery s.parser now d ≡ ok event
      → warned s event ≡ record s { log = lines }
      → matches (some s.matcher) (trace_of event) ≡ true
      → handle_delivery o s now d
        ≡ rendered (record s { log = lines }) (o.render_trace s.renderer (trace_of event))
  unfolding handle_delivery handle_result handle_event
  handled_shown event lines f w g = rw (f, w, g) refl

nat_cases : (n : ℕ) → (n ≡ 0) ⊎ ((j : ℕ) × (n ≡ suc j))
nat_cases zero = inl refl
nat_cases (suc j) = inr (j, refl)

ltb-suc : (j k : ℕ) → ltb j k ≡ ltb (suc j) (suc k)
ltb-suc j k = ground arith

-- What a session with room for `n` events is to end with, where `ts` are accepted.
unfoldable pub Renders :
    Service (List RoutingTrace) × Option (SessionError ⊥)
    → List RoutingTrace
    → ℕ
    → List RoutingTrace
    → Type 0
Renders (s, error) before n ts =
    (s.renderer ≡ before ++ take (suc n) ts)
    × (error ≡ (if ltb n (length ts) then some max_events_reached else none))

later :
    (end : Service (List RoutingTrace) × Option (SessionError ⊥)) (before : List RoutingTrace)
    (t : RoutingTrace) (j : ℕ) (ts : List RoutingTrace)
    → Renders end (before ++ t ∷ []) j ts
    → Renders end before (suc j) (t ∷ ts)
unfolding Renders
later (s, error) before t j ts (a, b) = (
  a ∙ append_assoc before (t ∷ []) (take (suc j) ts),
  b ∙ ap (λ c. if c then some max_events_reached else none) (ltb-suc j (length ts)),
)

-- With a renderer that keeps what it is given and with room for `n + 1` more events below a positive
-- max-events, a session renders the first `n + 1` of the traces that parse and that the matcher
-- accepts, in their order, and ends by max-events exactly when there are as many.
pub run_session-Renders :
    (s : Service (List RoutingTrace)) (n : ℕ) (ds : List (Time × Delivery))
    → HasRoom s (suc n)
    → Renders (run_session recorder s (arrivals ds)) s.renderer n (accepted s.parser s.matcher ds)
unfolding run_session rendered accepted HasRoom Renders
run_session-Renders s n [] room = (sym (append-nil s.renderer), ground arith)
run_session-Renders s n ((now, d) ∷ ds) (m, p, l, q) =
    elim (Result-cases (parse_delivery s.parser now d)) [
      | inr (e, f) ↦
          rw (handled_err recorder s now d e f, f)
            (run_session-Renders (logged s (parse_failed d.routing_key e)) n ds (m, p, l, q))
      | inl (event, f) ↦
          let (lines, w) = warned_only_logs s event in
          elim (Bool-cases (matches (some s.matcher) (trace_of event))) [
            | inr g ↦
                rw (handled_skipped recorder s now d event lines f w g, f, g)
                  (run_session-Renders (record s { log = lines }) n ds (m, p, l, q))
            | inl g ↦
                rw (handled_shown recorder s now d event lines f w g, f, g)
                  (elim (nat_cases n) [
                    | inl z ↦
                        rw (z, last_reached s.max_events s.matched_events m p l (omega arith))
                          (refl, ground arith)
                    | inr (j, z) ↦
                        let shown = record s {
                          log = lines;
                          renderer = s.renderer ++ trace_of event ∷ [];
                          matched_events = increment s.matched_events;
                        } in
                        rw (z, not_reached s.max_events s.matched_events m j p l (rw z at q))
                          (later (run_session recorder shown (arrivals ds)) s.renderer
                            (trace_of event) j (accepted s.parser s.matcher ds)
                            (run_session-Renders shown j ds
                              (m, p, l, counted s.matched_events m j l (rw z at q))))
                  ])
          ]
    ]
