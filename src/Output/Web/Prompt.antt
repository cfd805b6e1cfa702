-- ===== src/Output/Web/Prompt.antt =====
-- internal/output/web.go: a client that keeps up.
use mathlib.Core.Path.{ap₂, subst, subst₂}
use mathlib.Core.List.{append-nil, append_assoc, map-append}
use amqp_routing_inspector.Base.{
  ℕ, true, false, List, [], ◌∷◌, ◌++◌, ◌≡◌, refl, sym, ap, ◌∙◌, map, nat_eq, All, some, beq_of_eq,
}
use amqp_routing_inspector.Base.Text.{Text}
use amqp_routing_inspector.Model.{Time, RoutingTrace}
use amqp_routing_inspector.Output.Json.{
  Marshalled, payload, marshal_failed, marshal, print_value, trace_value, with_time,
}
use amqp_routing_inspector.Output.Json.Printed.{IsOneLine, print_value-IsOneLine}
use amqp_routing_inspector.Output.Json.Trace.{read_trace, seen, read_trace-print}
use amqp_routing_inspector.Output.Web.{
  Client, Server, WebRenderer, send, broadcast, offer, frame, take_message, parted, take_by,
  with_parts, render_trace, register, Action, rendering, taking, act, after,
}
use amqp_routing_inspector.Output.Web.Stream.{
  stream, stream-append, event_source, event_source-stream,
}
use amqp_routing_inspector.Output.Web.Clients.{dated_traces}
use amqp_routing_inspector.Output.Web.Clients.InOrder.{Dated}
use amqp_routing_inspector.Output.Web.Clients.Steps.{dated}

-- Each trace is rendered, and then taken by the client.
abbrev pub promptly : ℕ → List RoutingTrace → List Action
promptly id [] = []
promptly id (t ∷ ts) = rendering t ∷ taking id ∷ promptly id ts

abbrev text_of : Dated → Text
text_of (time, trace) = print_value true (trace_value time trace) []

abbrev client : ℕ → List Text → Text → Client
client id read response = record {
  id = id;
  buffer = [];
  read = read;
  response = response;
  shut = false;
}

abbrev open_state : Server → Client → List Client → List Client → List Client → WebRenderer
open_state server c cs leaving gone = record {
  server = server;
  closed = false;
  clients = c ∷ cs;
  leaving = leaving;
  gone = gone;
}

module _ {E : Type 0} (marshal_time : Time → Marshalled E) (id : ℕ) (server : Server) where
  -- The state has that client, with nothing in its channel.
  abbrev Has : List Text → Text → WebRenderer → Type 0
  Has read response r =
      (cs : List Client) × (leaving : List Client) × (gone : List Client) × (r
        ≡ open_state server (client id read response) cs leaving gone)

  take_by_head :
      (c : Client) (cs : List Client) → c.id ≡ id → take_by id (c ∷ cs) ≡ parted (take_message c) cs
  unfolding take_by
  take_by_head c cs h = rw (beq_of_eq c.id id h) refl

  renders :
      (r : WebRenderer) (t : RoutingTrace) (m : Marshalled E)
      → marshal_time t.event.timestamp ≡ m
      → act marshal_time r (rendering t) ≡ (send r (with_time true t m)).0
  unfolding act render_trace marshal
  renders r t m q = ap (λ x. (send r (with_time true t x)).0) q

  takes :
      (c : Client) (cs leaving gone : List Client)
      → c.id ≡ id
      → act marshal_time (open_state server c cs leaving gone) (taking id)
        ≡ with_parts
            (open_state server c cs leaving gone)
            (parted (take_message c) cs)
            (take_by id leaving)
  unfolding act
  takes c cs leaving gone h =
      ap (λ p. with_parts (open_state server c cs leaving gone) p (take_by id leaving))
        (take_by_head c cs h)

  -- A trace's text goes through the channel.
  took :
      (t : RoutingTrace) (m : Marshalled E) (read : List Text) (response : Text)
      (cs leaving gone : List Client)
      → marshal_time t.event.timestamp ≡ m
      → Has (read ++ map text_of (dated t m)) (response ++ stream (map text_of (dated t m))) (
          act marshal_time
            (act marshal_time
              (open_state server (client id read response) cs leaving gone)
              (rendering t))
            (taking id))
  unfolding broadcast offer take_message
  took t (payload time) read response cs leaving gone q =
      let m = text_of (time, t) in
      let full : Client = record (client id read response) { buffer = m ∷ [] } in
      let others = map (offer m) cs in
      (
        others,
        (take_by id leaving).0,
        (take_by id leaving).1 ++ gone,
        ap (λ r. act marshal_time r (taking id))
              (renders (open_state server (client id read response) cs leaving gone) t
                (payload time) q)
            ∙ takes full others leaving gone refl
            ∙ ap
                (λ s.
                  open_state server (client id (read ++ m ∷ []) (response ++ s)) others
                    (take_by id leaving).0 ((take_by id leaving).1 ++ gone))
                (sym (append-nil (frame m))),
      )
  took t (marshal_failed e) read response cs leaving gone q = (
    cs,
    (take_by id leaving).0,
    (take_by id leaving).1 ++ gone,
    ap (λ r. act marshal_time r (taking id))
          (renders (open_state server (client id read response) cs leaving gone) t
            (marshal_failed e) q)
        ∙ takes (client id read response) cs leaving gone refl
        ∙ ap₂
            (λ rd rp.
              open_state server (client id rd rp) cs (take_by id leaving).0
                ((take_by id leaving).1 ++ gone))
            (sym (append-nil read)) (sym (append-nil response)),
  )

  abbrev shown : List RoutingTrace → List Text
  shown ts = map text_of (dated_traces marshal_time (promptly id ts))

  took_all :
      (ts : List RoutingTrace) (read : List Text) (response : Text) (r : WebRenderer)
      → Has read response r
      → Has
          (read ++ shown ts)
          (response ++ stream (shown ts))
          (after marshal_time r (promptly id ts))
  unfolding after
  took_all [] read response r (cs, leaving, gone, h) = (
    cs,
    leaving,
    gone,
    h
        ∙ ap₂ (λ rd rp. open_state server (client id rd rp) cs leaving gone) (sym (append-nil read))
            (sym (append-nil response)),
  )
  took_all (t ∷ ts) read response r (cs, leaving, gone, h) =
      let m = marshal_time t.event.timestamp in
      let new = map text_of (dated t m) in
      let next = act marshal_time (act marshal_time r (rendering t)) (taking id) in
      let step =
        subst
          (λ x.
            Has (read ++ new) (response ++ stream new)
              (act marshal_time (act marshal_time x (rendering t)) (taking id)))
          (sym h) (took t m read response cs leaving gone refl) in
      let all : new ++ shown ts ≡ shown (t ∷ ts) =
        sym (map-append text_of (dated t m) (dated_traces marshal_time (promptly id ts))) in
      subst₂ (λ rd rp. Has rd rp (after marshal_time next (promptly id ts)))
        (append_assoc read new (shown ts) ∙ ap (◌++◌ read) all)
        (append_assoc response (stream new) (stream (shown ts))
          ∙ ap (◌++◌ response) (sym (stream-append new (shown ts)) ∙ ap stream all))
        (took_all ts (read ++ new) (response ++ stream new) next step)

texts-IsOneLine : (ts : List Dated) → All IsOneLine (map text_of ts)
texts-IsOneLine [] = tt
texts-IsOneLine ((time, trace) ∷ ts) =
    (print_value-IsOneLine true (trace_value time trace), texts-IsOneLine ts)

read_texts :
    (ts : List Dated)
    → map read_trace (map text_of ts) ≡ map (λ (t : Dated). some (seen t.0 t.1)) ts
read_texts [] = refl
read_texts ((time, trace) ∷ ts) = ap₂ ◌∷◌ (read_trace-print true time trace) (read_texts ts)

-- The browser of the client that has registered last reads these traces.
abbrev pub NewestReads : ℕ → List Dated → WebRenderer → Type 0
NewestReads id ts r =
    (c : Client) × (others : List Client) × (r.clients ≡ c ∷ others)
    × (c.id ≡ id)
    × (map read_trace (event_source c.response) ≡ map (λ (t : Dated). some (seen t.0 t.1)) ts)

register_opens :
    (id : ℕ) (r : WebRenderer)
    → r.closed ≡ false
    → register id r ≡ open_state r.server (client id [] []) r.clients r.leaving r.gone
unfolding register
register_opens id r h = λ i. record {
  server = r.server;
  closed = h i;
  clients = client id [] [] ∷ r.clients;
  leaving = r.leaving;
  gone = r.gone;
}

-- A client that keeps up misses nothing: where the renderer is not closed, whatever other clients there
-- are, if a client registers and takes each message before the next trace is rendered, its browser's
-- EventSource dispatches, for a reader of JSON, exactly the traces whose time has a text, in order.
pub register-NewestReads :
    {E : Type 0} (marshal_time : Time → Marshalled E) (id : ℕ) (r : WebRenderer)
    (ts : List RoutingTrace)
    → r.closed ≡ false
    → NewestReads id
        (dated_traces marshal_time (promptly id ts))
        (after marshal_time (register id r) (promptly id ts))
register-NewestReads marshal_time id r ts h =
    let all = dated_traces marshal_time (promptly id ts) in
    let (cs, leaving, gone, e) =
      took_all marshal_time id r.server ts [] [] (register id r)
        (r.clients, r.leaving, r.gone, register_opens id r h) in
    (
      client id (map text_of all) (stream (map text_of all)),
      cs,
      ap (λ x. x.clients) e,
      refl,
      ap (map read_trace) (event_source-stream (map text_of all) (texts-IsOneLine all))
          ∙ read_texts all,
    )
