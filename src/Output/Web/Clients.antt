-- ===== src/Output/Web/Clients.antt =====
-- internal/output/web.go: what a client gets of the stream.
pub mod InOrder
pub mod Steps
use mathlib.Core.Path.{subst}
use amqp_routing_inspector.Base.{
  ℕ, ◌≤◌, true, List, [], ◌∷◌, ◌++◌, ◌≡◌, refl, sym, ap, ◌∙◌, length, All, All-map, Option, some,
}
use mathlib.Core.List.{append_assoc, append-nil}
use amqp_routing_inspector.Base.Text.{Text}
use amqp_routing_inspector.Model.{Time, RoutingTrace}
use amqp_routing_inspector.Output.Json.{Marshalled, print_value, trace_value}
use amqp_routing_inspector.Output.Json.Printed.{IsOneLine, print_value-IsOneLine}
use amqp_routing_inspector.Output.Json.Trace.{read_trace, seen, read_trace-print}
use amqp_routing_inspector.Output.Web.{
  capacity, Client, WebRenderer, new_web_renderer, Action, act, after,
}
use amqp_routing_inspector.Output.Web.Stream.{event_source, event_source-stream}
use InOrder.{Dated, Within, Within-map, Within-All}
use Steps.{IsTextOf, InStep, AllInStep, act-AllInStep, one}

abbrev pub Reads : Text → Dated → Type 0
Reads m (time, trace) = read_trace m ≡ some (seen time trace)

-- A client's channel is not over its capacity, and what the browser's EventSource dispatches, with what
-- is still in the channel, is read as some of the traces, in their order and each once at most.
abbrev pub Gets : List Dated → Client → Type 0
Gets ts c = (length c.buffer ≤ capacity) × Within Reads (event_source c.response ++ c.buffer) ts

abbrev pub AllGet : List Dated → WebRenderer → Type 0
AllGet ts r = All (Gets ts) r.clients × All (Gets ts) r.leaving × All (Gets ts) r.gone

IsTextOf-IsOneLine : (m : Text) (t : Dated) → IsTextOf m t → IsOneLine m
IsTextOf-IsOneLine m (time, trace) h =
    subst IsOneLine (sym h) (print_value-IsOneLine true (trace_value time trace))

IsTextOf-Reads : (m : Text) (t : Dated) → IsTextOf m t → Reads m t
IsTextOf-Reads m (time, trace) h = ap read_trace h ∙ read_trace-print true time trace

All-front : (P : Text → Type 0) (ms ns : List Text) → All P (ms ++ ns) → All P ms
All-front P [] ns a = tt
All-front P (m ∷ ms) ns (x, a) = (x, All-front P ms ns a)

InStep-Gets : (ts : List Dated) (c : Client) → InStep ts c → Gets ts c
InStep-Gets ts c (h, w, e) =
    let one_line = All-front _ c.read c.buffer (Within-All IsTextOf-IsOneLine w) in
    let dispatched = ap event_source e ∙ event_source-stream c.read one_line in
    (
      h,
      subst (λ ms. Within Reads (ms ++ c.buffer) ts) (sym dispatched) (Within-map IsTextOf-Reads w),
    )

module _ {E : Type 0} (marshal_time : Time → Marshalled E) where
  -- The traces that are rendered and whose time has a text, oldest first.
  abbrev pub dated_traces : List Action → List Dated
  dated_traces [] = []
  dated_traces (a ∷ acts) = one marshal_time a ++ dated_traces acts

  after-AllInStep :
      (ts : List Dated) (r : WebRenderer) (acts : List Action)
      → AllInStep ts r
      → AllInStep (ts ++ dated_traces acts) (after marshal_time r acts)
  unfolding after
  after-AllInStep ts r [] h = rw (append-nil ts) h
  after-AllInStep ts r (a ∷ acts) h =
      subst (λ us. AllInStep us (after marshal_time (act marshal_time r a) acts))
        (append_assoc ts (one marshal_time a) (dated_traces acts))
        (after-AllInStep (ts ++ one marshal_time a) (act marshal_time r a) acts
          (act-AllInStep marshal_time ts r a h))

  -- However the renderer's calls and its handlers interleave, no client's channel ever holds more than
  -- 32 messages, and the events that the browser's EventSource dispatches for what its handler has
  -- written, with what is still in the channel, are read by a reader of JSON as traces that were
  -- rendered, in their order and each once at most: a slow client misses traces, and gets none twice,
  -- out of order or broken up. So for clients that are registered, that are leaving and that are gone.
  pub new_web_renderer-AllGet :
      (addr : Text) (failure : Option E) (acts : List Action)
      → AllGet (dated_traces acts) (after marshal_time (new_web_renderer addr failure).0 acts)
  unfolding new_web_renderer
  new_web_renderer-AllGet addr failure acts =
      let r = after marshal_time (new_web_renderer addr failure).0 acts in
      let (a, b, g) = after-AllInStep [] (new_web_renderer addr failure).0 acts (tt, tt, tt) in
      let get = λ (cs : List Client). All-map _ _ cs (InStep-Gets (dated_traces acts)) in
      (get r.clients a, get r.leaving b, get r.gone g)
