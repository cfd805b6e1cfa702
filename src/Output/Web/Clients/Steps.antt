-- ===== src/Output/Web/Clients/Steps.antt =====
-- internal/output/web.go: each action keeps the clients in step with what is rendered.
use mathlib.Core.Path.{subst}
use mathlib.Core.List.{append-nil, append_assoc}
use amqp_routing_inspector.Base.{
  ℕ, ◌≤◌, true, inl, inr, List, [], ◌∷◌, ◌++◌, ◌≡◌, refl, sym, ap, ◌∙◌, map, nat_eq, ltb, arith,
  length, length-append, All, All-map, Bool-cases,
}
use amqp_routing_inspector.Base.Text.{Text}
use amqp_routing_inspector.Model.{Time, RoutingTrace}
use amqp_routing_inspector.Output.Json.{
  Marshalled, payload, marshal_failed, print_value, trace_value, marshal, with_time,
}
use amqp_routing_inspector.Output.Web.{
  capacity, Client, WebRenderer, offer, broadcast, send, render_trace, register, frame, taken,
  take_message, Parted, take_by, depart, with_parts, shut_down, close, Action, rendering,
  registering, taking, departing, closing, act,
}
use amqp_routing_inspector.Output.Web.Clients.InOrder.{
  Dated, Within, Within-none, Within-next, Within-kept,
}
use amqp_routing_inspector.Output.Web.Parts.{
  OfHandler, OfParts, All-append, All-mapped, take_by-All, depart-All,
}
use amqp_routing_inspector.Output.Web.Stream.{stream, stream-append}

abbrev pub IsTextOf : Text → Dated → Type 0
IsTextOf m (time, trace) = m ≡ print_value true (trace_value time trace) []

-- The channel is not over its capacity, the messages come in order, and the browser has what was read.
abbrev pub InStep : List Dated → Client → Type 0
InStep ts c =
    (length c.buffer ≤ capacity)
    × Within IsTextOf (c.read ++ c.buffer) ts
    × (c.response ≡ stream c.read)

-- The same of all clients: those that are registered, that are leaving, and that are gone.
abbrev pub AllInStep : List Dated → WebRenderer → Type 0
AllInStep ts r = All (InStep ts) r.clients × All (InStep ts) r.leaving × All (InStep ts) r.gone

offer-InStep :
    (ts : List Dated) (m : Text) (t : Dated) (c : Client)
    → IsTextOf m t
    → InStep ts c
    → InStep (ts ++ t ∷ []) (offer m c)
unfolding offer
offer-InStep ts m t c p (h, w, e) = elim (Bool-cases (ltb (length c.buffer) capacity)) [
  | inl q ↦ simp q (
    ground (arith, length-append c.buffer (m ∷ [])),
    rw⁻¹ (append_assoc c.read c.buffer (m ∷ [])) (Within-kept m t p w),
    e,
  )
  | inr q ↦ simp q (h, Within-next (t ∷ []) w, e)
]

taken-InStep :
    (ts : List Dated) (buffer : List Text) (c : Client)
    → c.buffer ≡ buffer
    → InStep ts c
    → OfHandler (InStep ts) (taken buffer c)
taken-InStep ts [] c q h = elim (Bool-cases c.shut) [ inl e ↦ simp e h | inr e ↦ simp e h ]
taken-InStep ts (m ∷ ms) c q (h, w, e) = (
  ground arith,
  rw (append_assoc c.read (m ∷ []) ms) (rw q at w),
  ap (λ s. s ++ frame m) e
      ∙ ap (λ s. stream c.read ++ s) (sym (append-nil (frame m)))
      ∙ sym (stream-append c.read (m ∷ [])),
)

take_message-InStep :
    (ts : List Dated) (c : Client) → InStep ts c → OfHandler (InStep ts) (take_message c)
unfolding take_message
take_message-InStep ts c = taken-InStep ts c.buffer c refl

with_parts-InStep :
    (ts : List Dated) (r : WebRenderer) (p q : Parted)
    → OfParts (InStep ts) p
    → OfParts (InStep ts) q
    → All (InStep ts) r.gone
    → AllInStep ts (with_parts r p q)
with_parts-InStep ts r (cs, out) (ls, out') (a, b) (c, d) g =
    (a, c, All-append _ out (out' ++ r.gone) b (All-append _ out' r.gone d g))

later-InStep : (ts : List Dated) (t : Dated) (c : Client) → InStep ts c → InStep (ts ++ t ∷ []) c
later-InStep ts t c (h, w, e) = (h, Within-next (t ∷ []) w, e)

broadcast-InStep :
    (ts : List Dated) (m : Text) (t : Dated) (r : WebRenderer)
    → IsTextOf m t
    → AllInStep ts r
    → AllInStep (ts ++ t ∷ []) (broadcast r m)
unfolding broadcast
broadcast-InStep ts m t r p (a, b, g) =
    let next = λ (cs : List Client). All-map _ _ cs (later-InStep ts t) in
    elim (Bool-cases r.closed) [
      | inl q ↦ simp q (next r.clients a, next r.leaving b, next r.gone g)
      | inr q ↦ simp q (
        All-mapped (InStep ts) (InStep (ts ++ t ∷ [])) (offer m) (λ c. offer-InStep ts m t c p)
            r.clients a,
        next r.leaving b,
        next r.gone g,
      )
    ]

close-InStep : (ts : List Dated) (r : WebRenderer) → AllInStep ts r → AllInStep ts (close r)
unfolding close
close-InStep ts r (a, b, g) = elim (Bool-cases r.closed) [
  | inl q ↦ simp q (a, b, g)
  | inr q ↦ simp q (
    tt,
    All-append _ (map shut_down r.clients) r.leaving
        (All-mapped (InStep ts) (InStep ts) shut_down (λ c h. h) r.clients a) b,
    g,
  )
]

register-InStep :
    (ts : List Dated) (id : ℕ) (r : WebRenderer) → AllInStep ts r → AllInStep ts (register id r)
unfolding register
register-InStep ts id r (a, b, g) = (((omega arith, Within-none ts, refl), a), b, g)

-- What an action renders, where the time has a text.
abbrev pub dated : {E : Type 0} → RoutingTrace → Marshalled E → List Dated
dated trace (payload time) = (time, trace) ∷ []
dated trace (marshal_failed e) = []

module _ {E : Type 0} (marshal_time : Time → Marshalled E) where
  abbrev pub one : Action → List Dated
  one (rendering trace) = dated trace (marshal_time trace.event.timestamp)
  one _ = []

  send-InStep :
      (ts : List Dated) (r : WebRenderer) (trace : RoutingTrace) (m : Marshalled E)
      → AllInStep ts r
      → AllInStep (ts ++ dated trace m) (send r (with_time true trace m)).0
  send-InStep ts r trace (payload time) h = broadcast-InStep ts _ (time, trace) r refl h
  send-InStep ts r trace (marshal_failed e) h = rw (append-nil ts) h

  pub act-AllInStep :
      (ts : List Dated) (r : WebRenderer) (a : Action)
      → AllInStep ts r
      → AllInStep (ts ++ one a) (act marshal_time r a)
  unfolding act render_trace marshal
  act-AllInStep ts r (rendering trace) h =
      send-InStep ts r trace (marshal_time trace.event.timestamp) h
  act-AllInStep ts r (registering id) h =
      subst (λ us. AllInStep us (register id r)) (sym (append-nil ts)) (register-InStep ts id r h)
  act-AllInStep ts r (taking id) (a, b, g) = rw (append-nil ts) (
      with_parts-InStep ts r (take_by id r.clients) (take_by id r.leaving)
        (take_by-All (InStep ts) id r.clients (take_message-InStep ts) a)
        (take_by-All (InStep ts) id r.leaving (take_message-InStep ts) b) g)
  act-AllInStep ts r (departing id) (a, b, g) = rw (append-nil ts) (
      with_parts-InStep ts r (depart id r.clients) (depart id r.leaving)
        (depart-All (InStep ts) id r.clients a) (depart-All (InStep ts) id r.leaving b) g)
  act-AllInStep ts r closing h = rw (append-nil ts) (close-InStep ts r h)
