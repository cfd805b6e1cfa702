-- ===== src/Output/Json/Preview.antt =====
-- docs/export-formats.md: whether the JSON text keeps a body's bytes.
use amqp_routing_inspector.Base.{ℕ, ◌<◌, ◌≤◌, Bool, ◌∷◌, ◌++◌, ◌≡◌, refl, All}
use amqp_routing_inspector.Base.Text.{Text, Bytes}
use amqp_routing_inspector.Base.Text.Utf8.{decode, decode-ascii, decode-invalid}
use amqp_routing_inspector.Model.{Time, RoutingTrace}
use amqp_routing_inspector.Output.Json.{
  Marshalled, payload, marshal_failed, with_time, marshal, trace_value, event_members,
}

abbrev pub with_preview : RoutingTrace → Bytes → RoutingTrace
with_preview trace preview = record trace { event = record trace.event { body_preview = preview } }

decode_merges :
    (before rest : Bytes) (b c : ℕ)
    → All (λ a. a < 0x80) before
    → 0xF5 ≤ b
    → 0xF5 ≤ c
    → decode (before ++ b ∷ rest) ≡ decode (before ++ c ∷ rest)
decode_merges before rest b c a h k = rw (
  decode-ascii before (b ∷ rest) a,
  decode-ascii before (c ∷ rest) a,
  decode-invalid b rest h,
  decode-invalid c rest k,
)

trace_value_merges :
    (time : Text) (trace : RoutingTrace) (p q : Bytes)
    → decode p ≡ decode q
    → trace_value time (with_preview trace p) ≡ trace_value time (with_preview trace q)
unfolding trace_value event_members
trace_value_merges time trace p q h = rw h

with_time_merges :
    {E : Type 0} (html : Bool) (trace : RoutingTrace) (p q : Bytes) (m : Marshalled E)
    → decode p ≡ decode q
    → with_time html (with_preview trace p) m ≡ with_time html (with_preview trace q) m
with_time_merges html trace p q (marshal_failed e) h = refl
with_time_merges html trace p q (payload time) h = rw (trace_value_merges time trace p q h)

-- The JSON text does not keep a binary body: behind an ASCII beginning, any two bytes from 0xF5 to 0xFF
-- in the same place of the preview give the same text.
pub marshal_merges :
    {E : Type 0} (marshal_time : Time → Marshalled E) (html : Bool) (trace : RoutingTrace)
    (before rest : Bytes) (b c : ℕ)
    → All (λ a. a < 0x80) before
    → 0xF5 ≤ b
    → 0xF5 ≤ c
    → marshal marshal_time html (with_preview trace (before ++ b ∷ rest))
      ≡ marshal marshal_time html (with_preview trace (before ++ c ∷ rest))
unfolding marshal
marshal_merges marshal_time html trace before rest b c a h k =
    with_time_merges html trace (before ++ b ∷ rest) (before ++ c ∷ rest)
      (marshal_time trace.event.timestamp) (decode_merges before rest b c a h k)
