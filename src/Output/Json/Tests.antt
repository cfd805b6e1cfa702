-- ===== src/Output/Json/Tests.antt =====
-- JSON texts of concrete traces, and the theorems on them at concrete inputs.
use amqp_routing_inspector.Base.{
  zero, suc, false, List, [], ◌∷◌, ◌++◌, ◌≡◌, refl, map, Option, none, some, arith,
}
use amqp_routing_inspector.Base.Text.{Text, codes}
use amqp_routing_inspector.Model.{Time, RoutingTrace, plain_event}
use amqp_routing_inspector.Output.Json.{
  Marshalled, payload, marshal_failed, marshal, new_json_renderer,
}
use amqp_routing_inspector.Output.Json.Trace.{read_trace, seen}
use amqp_routing_inspector.Output.Json.Lines.{
  lines, all_text, after, replies, handed, answers, render_traces-lines,
}
use amqp_routing_inspector.Output.Json.Preview.{with_preview, marshal_merges}

abbrev noon : Text
noon = codes "2026-03-05T12:00:00Z"

-- A time in zone 1 has no text.
abbrev marshal_time : Time → Marshalled Text
marshal_time t = elim t.zone [ zero ↦ payload noon | suc z ↦ marshal_failed (codes "year") ]

abbrev created : RoutingTrace
created = record {
  event = record (plain_event (codes "a<b") (codes "publish") (codes "order\"1\n")) {
    body_preview = b'x' ∷ 0xFF ∷ [];
  };
  destinations = record { queue_name = codes "pay.q"; binding_key = codes "order.#" } ∷ [];
}

abbrev undated : RoutingTrace
undated = record created {
  event = record created.event { timestamp = record { since_zero = 5; zone = 1 } };
}

created_text :
    marshal marshal_time false created
    ≡ payload (
        codes "{\"event\":{\"exchange_name\":\"a<b\",\"routing_key\":\"order\\\"1\\n\","
        ++ (codes "\"timestamp\":\"2026-03-05T12:00:00Z\",\"event_type\":\"publish\","
            ++ (codes "\"body_preview\":\"x\\ufffd\"},"
                ++ codes
                    "\"destinations\":[{\"queue_name\":\"pay.q\",\"binding_key\":\"order.#\"}]}")))
unfolding marshal
created_text = refl

abbrev calls : List (RoutingTrace × Option Text)
calls = (created, none) ∷ (undated, none) ∷ (created, some (codes "full")) ∷ (created, none) ∷ []

replies_test :
    answers marshal_time calls
    ≡ none ∷ some (codes "year") ∷ some (codes "full") ∷ some (codes "full") ∷ []
unfolding answers
replies_test = refl

render_traces-lines_example :
    (map read_trace (lines (all_text (after marshal_time new_json_renderer calls).written))
      ≡ map (λ (h : Text × RoutingTrace). some (seen h.0 h.1)) (handed marshal_time calls))
    × (replies marshal_time new_json_renderer calls ≡ answers marshal_time calls)
render_traces-lines_example = render_traces-lines marshal_time calls

marshal_merges_example :
    marshal marshal_time false (with_preview created (codes "PK" ++ 0xF8 ∷ []))
    ≡ marshal marshal_time false (with_preview created (codes "PK" ++ 0xFF ∷ []))
marshal_merges_example =
    marshal_merges marshal_time false created (codes "PK") [] 0xF8 0xFF (omega arith) (omega arith)
      (omega arith)
