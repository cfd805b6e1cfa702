-- ===== src/App/Limit.antt =====
-- internal/app/service.go: max-events, with the case of no limit.
use mathlib.Core.List.{append-nil, append_assoc}
use amqp_routing_inspector.Base.{
  ℕ, suc, ◌+◌, ◌^◌, ◌<◌, inl, inr, Bool, false, List, [], ◌∷◌, ◌++◌, ◌≡◌, refl, sym, ◌∙◌, Option,
  none, some, Bool-cases, if◌then◌else◌, take, ltb, length,
}
use amqp_routing_inspector.Base.Int.{ℤ, pos, is_positive}
use amqp_routing_inspector.Base.Decimal.{increment}
use amqp_routing_inspector.Model.{Time, RoutingTrace}
use amqp_routing_inspector.Parser.Delivery.{Delivery, parse_delivery}
use amqp_routing_inspector.Filter.Matcher.{matches}
use amqp_routing_inspector.App.{
  parse_failed, logged, Service, SessionError, max_events_reached, trace_of, rendered, run_session,
}
use amqp_routing_inspector.App.Laws.{
  recorder, accepted, arrivals, HasRoom, Renders, run_session-Renders, Result-cases,
  warned_only_logs, handled_err, handled_skipped, handled_shown,
}

-- What max-events leaves where `matched` events are counted: `none` is no limit, which is what a
-- max-events that is not positive means, and `some n` is room for `n + 1` more events.
abbrev pub Allows : ℤ → ℕ → Option ℕ → Type 0
Allows max_events matched none = is_positive max_events ≡ false
Allows max_events matched (some n) =
    (m : ℕ) × (max_events ≡ pos m) × (m < 2 ^ 63) × (matched + suc n ≡ m)

-- The traces that there is room for.
abbrev pub within : Option ℕ → List RoutingTrace → List RoutingTrace
within none ts = ts
within (some n) ts = take (suc n) ts

-- Whether the traces reach max-events.
abbrev pub is_reached : Option ℕ → List RoutingTrace → Bool
is_reached none ts = false
is_reached (some n) ts = ltb n (length ts)

unlimited_rendered :
    {E : Type 0} (s : Service (List RoutingTrace)) (r : List RoutingTrace)
    → is_positive s.max_events ≡ false
    → rendered {E = E} s (r, none)
      ≡ (record s { renderer = r; matched_events = increment s.matched_events }, none)
unfolding rendered
unlimited_rendered s r h = rw h refl

-- Without a limit a session renders all.
RendersAll :
    Service (List RoutingTrace) × Option (SessionError ⊥)
    → List RoutingTrace
    → List RoutingTrace
    → Type 0
RendersAll (s, error) before ts = (s.renderer ≡ before ++ ts) × (error ≡ none)

run_session-RendersAll :
    (s : Service (List RoutingTrace)) (ds : List (Time × Delivery))
    → is_positive s.max_events ≡ false
    → RendersAll (run_session recorder s (arrivals ds)) s.renderer (accepted s.parser s.matcher ds)
unfolding run_session accepted RendersAll
run_session-RendersAll s [] h = (sym (append-nil s.renderer), refl)
run_session-RendersAll s ((now, d) ∷ ds) h = elim (Result-cases (parse_delivery s.parser now d)) [
  | inr (e, f) ↦
      rw (handled_err recorder s now d e f, f)
        (run_session-RendersAll (logged s (parse_failed d.routing_key e)) ds h)
  | inl (event, f) ↦
      let (lines, w) = warned_only_logs s event in
      elim (Bool-cases (matches (some s.matcher) (trace_of event))) [
        | inr g ↦
            rw (handled_skipped recorder s now d event lines f w g, f, g)
              (run_session-RendersAll (record s { log = lines }) ds h)
        | inl g ↦
            let shown = record s {
              log = lines;
              renderer = s.renderer ++ trace_of event ∷ [];
              matched_events = increment s.matched_events;
            } in
            let (a, b) = run_session-RendersAll shown ds h in
            rw
              (
                handled_shown recorder s now d event lines f w g,
                f,
                g,
                unlimited_rendered {E = ⊥} (record s { log = lines })
                    (s.renderer ++ trace_of event ∷ []) h,
              )
              (
                a ∙ append_assoc s.renderer (trace_of event ∷ []) (accepted s.parser s.matcher ds),
                b,
              )
      ]
]

-- A session with a renderer that keeps what it is given.
pub run_session-within :
    (s : Service (List RoutingTrace)) (limit : Option ℕ) (ds : List (Time × Delivery))
    → Allows s.max_events s.matched_events limit
    → let ts = accepted s.parser s.matcher ds in
      let end = run_session (recorder {E = ⊥}) s (arrivals ds) in
      (end.0.renderer ≡ s.renderer ++ within limit ts)
      × (end.1 ≡ (if is_reached limit ts then some max_events_reached else none))
unfolding HasRoom Renders RendersAll
run_session-within s none ds h = run_session-RendersAll s ds h
run_session-within s (some n) ds h = run_session-Renders s n ds h
