-- ===== src/Output/Web/Stream.antt =====
-- internal/output/web.go: what a browser reads of the event stream.
use mathlib.Core.List.{append_assoc}
use amqp_routing_inspector.Base.{
  List, [], ◌∷◌, ◌++◌, ◌≡◌, refl, ap, ◌∙◌, sym, arith, is_nil, drop, nat_eq, ◌==◌, All,
  if◌then◌else◌,
}
use amqp_routing_inspector.Base.Text.{Text, codes, split, has_prefix, join}
use amqp_routing_inspector.Base.Text.Split.{Lacks, split-append}
use amqp_routing_inspector.Output.Json.Printed.{IsOneLine}
use amqp_routing_inspector.Output.Json.Lines.{line_feed, IsOneLine-Lacks}
use amqp_routing_inspector.Output.Web.{frame}

-- What a handler has written of the messages.
abbrev pub stream : List Text → Text
stream [] = []
stream (m ∷ ms) = frame m ++ stream ms

pub stream-append : (ms ns : List Text) → stream (ms ++ ns) ≡ stream ms ++ stream ns
stream-append [] ns = refl
stream-append (m ∷ ms) ns =
    ap (◌++◌ (frame m)) (stream-append ms ns) ∙ sym (append_assoc (frame m) (stream ms) (stream ns))

-- One space behind the colon is left out.
abbrev value_of : Text → Text
value_of [] = []
value_of (c ∷ s) = if c == b' ' then s else c ∷ s

-- The events of the lines, by the rules of the HTML standard for the field "data": `pending` holds the
-- data lines of the event that is being read, which an empty line ends. Other fields are passed over.
unfoldable pub events : List Text → List Text → List Text
unfolding has_prefix join
events [] pending = []
events (line ∷ lines) pending =
    let ended = events lines [] in
    let next = events lines (pending ++ value_of (drop 5 line) ∷ []) in
    let same = events lines pending in
    if is_nil line
    then (if is_nil pending then ended else join (codes "\n") pending ∷ ended)
    else if has_prefix line (codes "data:")
    then next
    else same

-- The messages that a browser's EventSource dispatches for a response.
unfoldable pub event_source : Text → List Text
unfolding events split
event_source response = events (split line_feed response) []

data-Lacks : (m : Text) → Lacks line_feed m → Lacks line_feed (codes "data: " ++ m)
data-Lacks m a =
    (omega arith, (omega arith, (omega arith, (omega arith, (omega arith, (omega arith, a))))))

split-frame :
    (m rest : Text)
    → Lacks line_feed m
    → split line_feed (frame m ++ rest) ≡ (codes "data: " ++ m) ∷ [] ∷ split line_feed rest
split-frame m rest a =
    ap (λ t. split line_feed (codes "data: " ++ t)) (append_assoc m (codes "\n\n") rest)
    ∙ split-append line_feed (codes "data: " ++ m) (codes "\n" ++ rest) (data-Lacks m a)
    ∙ ap (◌∷◌ (codes "data: " ++ m)) (split-append line_feed [] rest tt)

events-frame :
    (m : Text) (lines : List Text)
    → events ((codes "data: " ++ m) ∷ [] ∷ lines) [] ≡ m ∷ events lines []
unfolding events
events-frame m lines = refl

-- Messages on one line each are dispatched as they were sent.
pub event_source-stream : (ms : List Text) → All IsOneLine ms → event_source (stream ms) ≡ ms
unfolding event_source
event_source-stream [] a = unfold split events in refl
event_source-stream (m ∷ ms) (h, a) =
    ap (λ lines. events lines []) (split-frame m (stream ms) (IsOneLine-Lacks m h))
    ∙ events-frame m (split line_feed (stream ms))
    ∙ ap (◌∷◌ m) (event_source-stream ms a)
