-- ===== src/Output/Json/Lines.antt =====
-- internal/output/renderer.go: the lines that the JSON renderer writes.
use mathlib.Core.Path.{ap₂}
use mathlib.Core.List.{append-nil, append_assoc}
use amqp_routing_inspector.Base.{
  ℕ, false, List, [], ◌∷◌, ◌++◌, map, Option, none, some, ◌≡◌, ◌≢◌, refl, ap, ◌∙◌, sym, arith, All,
  All-map, ◌≤◌,
}
use amqp_routing_inspector.Base.Text.{Text, codes, split}
use amqp_routing_inspector.Base.Text.Split.{Lacks, split-append}
use amqp_routing_inspector.Model.{Time, RoutingTrace}
use amqp_routing_inspector.Output.Json.{
  trace_value, print_value, Marshalled, payload, marshal_failed, marshal, JsonRenderer,
  new_json_renderer, render_trace, encode_with, with_time,
}
use amqp_routing_inspector.Output.Json.Printed.{IsOneLine, print_value-IsOneLine}
use amqp_routing_inspector.Output.Json.Trace.{read_trace, seen, read_trace-print}

abbrev pub line_feed : ℕ
line_feed = 10

-- All that is written, as one text.
abbrev pub all_text : List Text → Text
all_text [] = []
all_text (t ∷ ts) = t ++ all_text ts

abbrev but_last : List Text → List Text
but_last [] = []
but_last (w ∷ []) = []
but_last (w ∷ v ∷ ws) = w ∷ but_last (v ∷ ws)

-- The lines that a line feed ends.
unfoldable pub lines : Text → List Text
unfolding split
lines s = but_last (split line_feed s)

unfoldable pub ended : Text → Text
ended w = w ++ codes "\n"

but_last-cons : (w : Text) (ws : List Text) → ws ≢ [] → but_last (w ∷ ws) ≡ w ∷ but_last ws
but_last-cons w [] h = absurd (h refl)
but_last-cons w (v ∷ ws) h = refl

split-ended :
    (ws : List Text)
    → All (Lacks line_feed) ws
    → split line_feed (all_text (map ended ws)) ≡ ws ++ [] ∷ []
unfolding ended
split-ended [] a = unfold split in refl
split-ended (w ∷ ws) (h, a) =
    ap (split line_feed) (append_assoc w (codes "\n") (all_text (map ended ws)))
    ∙ split-append line_feed w (all_text (map ended ws)) h
    ∙ ap (◌∷◌ w) (split-ended ws a)

but_last-append : (ws : List Text) → but_last (ws ++ [] ∷ []) ≡ ws
but_last-append [] = refl
but_last-append (w ∷ []) = refl
but_last-append (w ∷ v ∷ ws) = ap (◌∷◌ w) (but_last-append (v ∷ ws))

pub IsOneLine-Lacks : (w : Text) → IsOneLine w → Lacks line_feed w
IsOneLine-Lacks w a = All-map _ _ w (λ c (h : 0x20 ≤ c). omega arith) a

-- Texts on one line each are the lines of what they make together.
pub lines-ended : (ws : List Text) → All IsOneLine ws → lines (all_text (map ended ws)) ≡ ws
unfolding lines
lines-ended ws a = rw (split-ended ws (All-map _ _ ws IsOneLine-Lacks a)) (but_last-append ws)

module _ {E : Type 0} (marshal_time : Time → Marshalled E) where
  -- The renderer behind calls of RenderTrace, each with what the writer answers if it is called.
  unfoldable pub after : JsonRenderer E → List (RoutingTrace × Option E) → JsonRenderer E
  after r [] = r
  after r ((trace, answer) ∷ cs) = after (render_trace marshal_time r trace answer).0 cs

  -- What the calls return.
  unfoldable pub replies : JsonRenderer E → List (RoutingTrace × Option E) → List (Option E)
  replies r [] = []
  replies r ((trace, answer) ∷ cs) =
      let next = render_trace marshal_time r trace answer in next.1 ∷ replies next.0 cs

  abbrev handing :
      RoutingTrace
      → Marshalled E
      → Option E
      → List (Text × RoutingTrace)
      → List (Text × RoutingTrace)
  handing trace (marshal_failed e) answer rest = rest
  handing trace (payload time) none rest = (time, trace) ∷ rest
  handing trace (payload time) (some e) rest = (time, trace) ∷ []

  -- The traces that are handed to the writer, with the texts of their times: those whose time has a
  -- text, up to the first that the writer refuses.
  unfoldable pub handed : List (RoutingTrace × Option E) → List (Text × RoutingTrace)
  handed [] = []
  handed ((trace, answer) ∷ cs) =
      handing trace (marshal_time trace.event.timestamp) answer (handed cs)

  abbrev answering :
      Marshalled E → Option E → List (Option E) → (Option E → List (Option E)) → List (Option E)
  answering (marshal_failed e) answer rest late = some e ∷ rest
  answering (payload time) none rest late = none ∷ rest
  answering (payload time) (some e) rest late = some e ∷ late (some e)

  abbrev same_for_all : List (RoutingTrace × Option E) → Option E → List (Option E)
  same_for_all [] e = []
  same_for_all (c ∷ cs) e = e ∷ same_for_all cs e

  -- The errors of the times and of the writer, and behind the first of the writer's that one always.
  unfoldable pub answers : List (RoutingTrace × Option E) → List (Option E)
  answers [] = []
  answers ((trace, answer) ∷ cs) =
      answering (marshal_time trace.event.timestamp) answer (answers cs) (same_for_all cs)

  abbrev line_of : Text × RoutingTrace → Text
  line_of (time, trace) = print_value false (trace_value time trace) []

  abbrev failed_with : List Text → E → JsonRenderer E
  failed_with ws e = record { written = ws; failure = some e }

  late_lem :
      (ws : List Text) (e : E) (cs : List (RoutingTrace × Option E))
      → (after (failed_with ws e) cs ≡ failed_with ws e)
        × (replies (failed_with ws e) cs ≡ same_for_all cs (some e))
  unfolding after replies render_trace
  late_lem ws e [] = (refl, refl)
  late_lem ws e ((trace, answer) ∷ cs) =
      ((late_lem ws e cs).0, ap (◌∷◌ (some e)) (late_lem ws e cs).1)

  abbrev open_with : List Text → JsonRenderer E
  open_with ws = record { written = ws; failure = none }

  open_render :
      (ws : List Text) (trace : RoutingTrace) (answer : Option E) (m : Marshalled E)
      → marshal_time trace.event.timestamp ≡ m
      → render_trace marshal_time (open_with ws) trace answer
        ≡ encode_with (open_with ws) answer (with_time false trace m)
  unfolding render_trace marshal
  open_render ws trace answer m q =
      ap (λ t. encode_with (open_with ws) answer (with_time false trace t)) q

  abbrev Goes : List Text → List (RoutingTrace × Option E) → Type 0
  Goes ws cs =
      ((after (open_with ws) cs).written ≡ ws ++ map ended (map line_of (handed cs)))
      × (replies (open_with ws) cs ≡ answers cs)

  call-Goes :
      (ws : List Text) (trace : RoutingTrace) (answer : Option E)
      (cs : List (RoutingTrace × Option E)) (m : Marshalled E)
      → marshal_time trace.event.timestamp ≡ m
      → ((vs : List Text) → Goes vs cs)
      → Goes ws ((trace, answer) ∷ cs)
  unfolding after replies handed answers ended
  call-Goes ws trace answer cs (marshal_failed e) q ih =
      let step = open_render ws trace answer (marshal_failed e) q in
      (
        ap (λ s. (after s.0 cs).written) step ∙ rw q (ih ws).0,
        rw (step, q) (ap (◌∷◌ (some e)) (ih ws).1),
      )
  call-Goes ws trace none cs (payload time) q ih =
      let step = open_render ws trace none (payload time) q in
      let line = ended (line_of (time, trace)) ∷ [] in
      (
        ap (λ s. (after s.0 cs).written) step
            ∙ rw q
                ((ih (ws ++ line)).0 ∙ append_assoc ws line (map ended (map line_of (handed cs)))),
        rw (step, q) (ap (◌∷◌ none) (ih (ws ++ line)).1),
      )
  call-Goes ws trace (some e) cs (payload time) q ih =
      let step = open_render ws trace (some e) (payload time) q in
      let late = late_lem (ws ++ ended (line_of (time, trace)) ∷ []) e cs in
      (
        ap (λ s. (after s.0 cs).written) step ∙ rw q (ap (λ r. r.written) late.0),
        rw (step, q) (ap (◌∷◌ (some e)) late.1),
      )

  goes : (ws : List Text) (cs : List (RoutingTrace × Option E)) → Goes ws cs
  goes ws [] = unfold after replies handed answers in (sym (append-nil ws), refl)
  goes ws ((trace, answer) ∷ cs) =
      call-Goes ws trace answer cs (marshal_time trace.event.timestamp) refl (λ vs. goes vs cs)

  lines_one : (hs : List (Text × RoutingTrace)) → All IsOneLine (map line_of hs)
  lines_one [] = tt
  lines_one ((time, trace) ∷ hs) =
      (print_value-IsOneLine false (trace_value time trace), lines_one hs)

  read_lines :
      (hs : List (Text × RoutingTrace))
      → map read_trace (map line_of hs) ≡ map (λ h. some (seen h.0 h.1)) hs
  read_lines [] = refl
  read_lines ((time, trace) ∷ hs) = ap₂ ◌∷◌ (read_trace-print false time trace) (read_lines hs)

  -- The JSON renderer writes one line for each trace: the lines of what a new renderer hands to its
  -- writer are read, by a reader of JSON, as the traces whose time has a text, in their order, up to
  -- the first that the writer refuses, where U+FFFD stands for the invalid bytes of a body's preview.
  -- RenderTrace returns the error of the time or of the writer, and the writer's first error at each
  -- later call.
  pub render_traces-lines :
      (cs : List (RoutingTrace × Option E))
      → (map read_trace (lines (all_text (after new_json_renderer cs).written))
          ≡ map (λ h. some (seen h.0 h.1)) (handed cs))
        × (replies new_json_renderer cs ≡ answers cs)
  render_traces-lines cs =
      let (w, r) = goes [] cs in
      (
        ap (λ ws. map read_trace (lines (all_text ws))) w
            ∙ ap (map read_trace) (lines-ended (map line_of (handed cs)) (lines_one (handed cs)))
            ∙ read_lines (handed cs),
        r,
      )
