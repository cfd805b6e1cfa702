-- ===== src/App/Json.antt =====
-- internal/app/service.go with the JSON renderer of internal/output/renderer.go: what a session writes.
use amqp_routing_inspector.Base.{ℕ, List, [], ◌∷◌, map, Option, none, some, ◌≡◌, refl, ap, ◌∙◌}
use amqp_routing_inspector.Base.Text.{Text}
use amqp_routing_inspector.Model.{Time, RoutingTrace}
use amqp_routing_inspector.Parser.Delivery.{Delivery}
use amqp_routing_inspector.Output.Json
use amqp_routing_inspector.Output.Json.{JsonRenderer, new_json_renderer, Marshalled, payload}
use amqp_routing_inspector.Output.Json.Trace.{read_trace, seen}
use amqp_routing_inspector.Output.Json.Lines.{lines, all_text, after, handed, render_traces-lines}
use amqp_routing_inspector.App.{Renderer, Service, run_session}
use amqp_routing_inspector.App.Laws.{accepted, arrivals}
use amqp_routing_inspector.App.Limit.{Allows, within}
use amqp_routing_inspector.App.Fold.{step_all, NeverFails, with_renderer, run_session-NeverFails}

-- `text` prints each time: time.Time's MarshalJSON refuses only years from 10000 on.
module _ (E : Type 0) (text : Time → Text) where
  abbrev printing : Time → Marshalled E
  printing t = payload (text t)

  -- The JSON renderer, with a writer that does not fail.
  abbrev pub json_output : Renderer (JsonRenderer E) E
  json_output = record { render_trace = λ r t. Json.render_trace printing r t none }

  abbrev step : JsonRenderer E → RoutingTrace → JsonRenderer E
  step r t = (Json.render_trace printing r t none).0

  abbrev open_with : List Text → JsonRenderer E
  open_with ws = record { written = ws; failure = none }

  stays_open :
      (ws : List Text) (ts : List RoutingTrace)
      → (vs : List Text) × (step_all step (open_with ws) ts ≡ open_with vs)
  unfolding Json.render_trace Json.marshal
  stays_open ws [] = (ws, refl)
  stays_open ws (t ∷ ts) = stays_open (step (open_with ws) t).written ts

  open_renders :
      (vs : List Text) (r : JsonRenderer E) (t : RoutingTrace)
      → r ≡ open_with vs
      → Json.render_trace printing r t none ≡ (step r t, none)
  unfolding Json.render_trace
  open_renders vs r t h = rw h refl

  json_output-NeverFails : NeverFails json_output step new_json_renderer
  json_output-NeverFails ts t =
      let (vs, h) = stays_open [] ts in open_renders vs (step_all step new_json_renderer ts) t h

  abbrev unrefused : List RoutingTrace → List (RoutingTrace × Option E)
  unrefused = map (λ t. (t, none))

  step_all-after :
      (r : JsonRenderer E) (ts : List RoutingTrace)
      → step_all step r ts ≡ after printing r (unrefused ts)
  unfolding after
  step_all-after r [] = refl
  step_all-after r (t ∷ ts) = step_all-after (step r t) ts

  handed-unrefused :
      (ts : List RoutingTrace)
      → handed printing (unrefused ts) ≡ map (λ t. (text t.event.timestamp, t)) ts
  unfolding handed
  handed-unrefused [] = refl
  handed-unrefused (t ∷ ts) = ap (◌∷◌ (text t.event.timestamp, t)) (handed-unrefused ts)

  map-pairs :
      (ts : List RoutingTrace)
      → map
          (λ (h : Text × RoutingTrace). some (seen h.0 h.1))
          (map (λ t. (text t.event.timestamp, t)) ts)
        ≡ map (λ t. some (seen (text t.event.timestamp) t)) ts
  map-pairs [] = refl
  map-pairs (t ∷ ts) = ap (◌∷◌ (some (seen (text t.event.timestamp) t))) (map-pairs ts)

  -- From the deliveries to the output: with a new JSON renderer whose writer does not fail, the lines
  -- that a session writes are read, by a reader of JSON, as the traces that parse and that the matcher
  -- accepts, in the order of their deliveries, where U+FFFD stands for the invalid bytes of a body's
  -- preview: as all of them where max-events is not positive, and else as the first that there is room
  -- for.
  pub run_session-lines :
      {S : Type 0} (s : Service S) (limit : Option ℕ) (ds : List (Time × Delivery))
      → Allows s.max_events s.matched_events limit
      → map read_trace (
          lines (
            all_text
              (run_session json_output
                (with_renderer s new_json_renderer)
                (arrivals ds)).0.renderer.written))
        ≡ map
            (λ t. some (seen (text t.event.timestamp) t))
            (within limit (accepted s.parser s.matcher ds))
  run_session-lines s limit ds room =
      let shown = within limit (accepted s.parser s.matcher ds) in
      let (end, _) =
        run_session-NeverFails json_output step (with_renderer s new_json_renderer) limit ds
          json_output-NeverFails room in
      ap (λ r. map read_trace (lines (all_text r.written)))
        (end ∙ step_all-after new_json_renderer shown)
      ∙ (render_traces-lines printing (unrefused shown)).0
      ∙ ap (map (λ (h : Text × RoutingTrace). some (seen h.0 h.1))) (handed-unrefused shown)
      ∙ map-pairs shown
