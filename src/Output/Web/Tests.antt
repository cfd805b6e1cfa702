-- ===== src/Output/Web/Tests.antt =====
-- Runs of the web renderer, and its theorems at concrete inputs.
use amqp_routing_inspector.Base.{List, [], ◌∷◌, ◌++◌, ◌≡◌, refl, map, Option, none, All, length}
use amqp_routing_inspector.Base.Text.{Text, codes}
use amqp_routing_inspector.Model.{Time, RoutingTrace, plain_event}
use amqp_routing_inspector.Output.Json.{Marshalled, payload}
use amqp_routing_inspector.Output.Web.{
  Client, register, Action, rendering, registering, taking, departing, closing, new_web_renderer,
  after,
}
use amqp_routing_inspector.Output.Web.Stream.{event_source}
use amqp_routing_inspector.Output.Web.Clients.{AllGet, dated_traces, new_web_renderer-AllGet}
use amqp_routing_inspector.Output.Web.Ends.{new_web_renderer-closing}
use amqp_routing_inspector.Output.Web.Ends.Handlers.{Drains, Waits}
use amqp_routing_inspector.Output.Web.Prompt.{promptly, NewestReads, register-NewestReads}

abbrev marshal_time : Time → Marshalled Text
marshal_time t = payload (codes "2026-03-05T12:00:00Z")

abbrev trace : Text → RoutingTrace
trace name = record { event = plain_event name (codes "publish") []; destinations = [] }

abbrev actions : List Action
actions =
    rendering (trace (codes "a"))
    ∷ registering 1
    ∷ rendering (trace (codes "b"))
    ∷ registering 2
    ∷ rendering (trace (codes "c"))
    ∷ taking 1
    ∷ departing 2
    ∷ []

abbrev later : List Action
later = registering 3 ∷ rendering (trace (codes "d")) ∷ taking 3 ∷ []

abbrev no_failure : Option Text
no_failure = none

-- The client whose channel Close has closed, and the one that has registered later.
left_over :
    let r =
      after marshal_time
        (new_web_renderer (codes ":80") no_failure).0
        (actions ++ closing ∷ later) in
    (map (λ (c : Client). length c.read) r.leaving ≡ 1 ∷ [])
    × (map (λ (c : Client). length c.buffer) r.leaving ≡ 1 ∷ [])
    × (map (λ (c : Client). c.id) r.clients ≡ 3 ∷ [])
    × (map (λ (c : Client). c.id) r.gone ≡ 2 ∷ [])
unfolding after new_web_renderer
left_over = (refl, refl, refl, refl)

dispatched :
    event_source (codes "data: a\n\ndata: b\ndata: c\n\n: d\n\ndata: e")
    ≡ codes "a" ∷ codes "b\nc" ∷ []
unfolding event_source
dispatched = refl

new_web_renderer-AllGet_example :
    AllGet
      (dated_traces marshal_time actions)
      (after marshal_time (new_web_renderer (codes ":80") no_failure).0 actions)
new_web_renderer-AllGet_example =
    new_web_renderer-AllGet marshal_time (codes ":80") no_failure actions

new_web_renderer-closing_example :
    All Drains
      (after marshal_time
        (new_web_renderer (codes ":80") no_failure).0
        (actions ++ closing ∷ later)).leaving
    × All Waits
        (after marshal_time
          (new_web_renderer (codes ":80") no_failure).0
          (actions ++ closing ∷ later)).clients
new_web_renderer-closing_example =
    new_web_renderer-closing marshal_time (codes ":80") no_failure actions later

register-NewestReads_example :
    NewestReads 1
      (dated_traces marshal_time (promptly 1 (trace (codes "a") ∷ trace (codes "b") ∷ [])))
      (after marshal_time
        (register 1 (new_web_renderer (codes ":80") no_failure).0)
        (promptly 1 (trace (codes "a") ∷ trace (codes "b") ∷ [])))
register-NewestReads_example =
    register-NewestReads marshal_time 1 (new_web_renderer (codes ":80") no_failure).0
      (trace (codes "a") ∷ trace (codes "b") ∷ []) (unfold new_web_renderer in refl)
