-- ===== src/Output/Web/Ends.antt =====
-- internal/output/web.go: what becomes of the handlers when the renderer is closed.
pub mod Handlers
use mathlib.Core.Path.{ap₂, subst}
use mathlib.Core.List.{append-nil, append_assoc}
use amqp_routing_inspector.Base.{
  ℕ, zero, suc, true, false, inl, inr, ◌⊎◌, List, [], ◌∷◌, ◌++◌, ◌≡◌, refl, sym, ap, ◌∙◌, map,
  nat_eq, length, All, All-map, Bool-cases, Option, arith,
}
use amqp_routing_inspector.Base.Text.{Text}
use amqp_routing_inspector.Model.{Time}
use amqp_routing_inspector.Output.Json.{Marshalled, payload, marshal_failed, marshal}
use amqp_routing_inspector.Output.Web.{
  Client, WebRenderer, new_web_renderer, broadcast, send, render_trace, Handler, running, returned,
  frame, taken, take_message, shut_down, close, Action, rendering, registering, taking, departing,
  closing, act, after,
}
use amqp_routing_inspector.Output.Web.Parts.{OfHandler, All-append, take_by-All, depart-All}
use amqp_routing_inspector.Output.Web.Stream.{stream}
use Handlers.{Drains, Waits, IsLate, IsShut, shut-Drains, late-Waits, IsLate-taken, IsShut-taken}

-- In every state the channels of those that are leaving are closed, and once the renderer is closed only
-- late clients are registered.
abbrev IsSettling : WebRenderer → Type 0
IsSettling r = All IsShut r.leaving × ((r.closed ≡ false) ⊎ All IsLate r.clients)

-- Behind Close.
abbrev IsSettled : WebRenderer → Type 0
IsSettled r = (r.closed ≡ true) × All IsShut r.leaving × All IsLate r.clients

shut_down-IsShut : (cs : List Client) → All IsShut (map shut_down cs)
shut_down-IsShut [] = tt
shut_down-IsShut (c ∷ cs) = (refl, shut_down-IsShut cs)

close_twice : (r : WebRenderer) → r.closed ≡ true → close r ≡ r
unfolding close
close_twice r h = rw h refl

close-IsSettled : (r : WebRenderer) → IsSettling r → IsSettled (close r)
close-IsSettled r (a, b) = elim (Bool-cases r.closed) [
  | inl q ↦ elim b [
    | inl p ↦ absurd (ground arith)
    | inr late ↦ subst IsSettled (sym (close_twice r q)) (q, a, late)
  ]
  | inr q ↦
      unfold close in
      simp q (
        refl,
        All-append IsShut (map shut_down r.clients) r.leaving (shut_down-IsShut r.clients) a,
        tt,
      )
]

module _ {E : Type 0} where
  send_closed : (r : WebRenderer) (m : Marshalled E) → r.closed ≡ true → (send r m).0 ≡ r
  unfolding broadcast
  send_closed r (marshal_failed e) h = refl
  send_closed r (payload msg) h = rw h refl

  send_open :
      (r : WebRenderer) (m : Marshalled E)
      → r.closed ≡ false
      → All IsShut r.leaving
      → IsSettling (send r m).0
  unfolding broadcast
  send_open r (marshal_failed e) h a = (a, inl h)
  send_open r (payload msg) h a = simp h (a, inl refl)

  send-IsSettling : (r : WebRenderer) (m : Marshalled E) → IsSettling r → IsSettling (send r m).0
  send-IsSettling r m (a, b) = elim (Bool-cases r.closed) [
    | inl q ↦ subst IsSettling (sym (send_closed r m q)) (a, b)
    | inr q ↦ send_open r m q a
  ]

  module _ (marshal_time : Time → Marshalled E) where
    act-IsSettled : (r : WebRenderer) (a : Action) → IsSettled r → IsSettled (act marshal_time r a)
    unfolding act render_trace
    act-IsSettled r (rendering trace) (q, a, b) =
        subst IsSettled (sym (send_closed r (marshal marshal_time true trace) q)) (q, a, b)
    act-IsSettled r (registering id) (q, a, b) = (q, a, ((refl, refl, refl), b))
    act-IsSettled r (taking id) (q, a, b) = (
      q,
      (take_by-All IsShut id r.leaving IsShut-taken a).0,
      (take_by-All IsLate id r.clients IsLate-taken b).0,
    )
    act-IsSettled r (departing id) (q, a, b) =
        (q, (depart-All IsShut id r.leaving a).0, (depart-All IsLate id r.clients b).0)
    act-IsSettled r closing (q, a, b) = subst IsSettled (sym (close_twice r q)) (q, a, b)

    act-IsSettling :
        (r : WebRenderer) (a : Action) → IsSettling r → IsSettling (act marshal_time r a)
    unfolding act render_trace
    act-IsSettling r (rendering trace) s = send-IsSettling r (marshal marshal_time true trace) s
    act-IsSettling r (registering id) (a, b) =
        (a, elim b [ inl q ↦ inl q | inr late ↦ inr ((refl, refl, refl), late) ])
    act-IsSettling r (taking id) (a, b) = (
      (take_by-All IsShut id r.leaving IsShut-taken a).0,
      elim b [
        | inl q ↦ inl q
        | inr late ↦ inr (take_by-All IsLate id r.clients IsLate-taken late).0
      ],
    )
    act-IsSettling r (departing id) (a, b) = (
      (depart-All IsShut id r.leaving a).0,
      elim b [ inl q ↦ inl q | inr late ↦ inr (depart-All IsLate id r.clients late).0 ],
    )
    act-IsSettling r closing s = let (q, a, b) = close-IsSettled r s in (a, inr b)

    after-IsSettled :
        (r : WebRenderer) (acts : List Action) → IsSettled r → IsSettled (after marshal_time r acts)
    unfolding after
    after-IsSettled r [] s = s
    after-IsSettled r (a ∷ acts) s =
        after-IsSettled (act marshal_time r a) acts (act-IsSettled r a s)

    closing_settles :
        (r : WebRenderer) (before later : List Action)
        → IsSettling r
        → IsSettled (after marshal_time r (before ++ closing ∷ later))
    unfolding after
    closing_settles r [] later s =
        unfold act in after-IsSettled (close r) later (close-IsSettled r s)
    closing_settles r (a ∷ before) later s =
        closing_settles (act marshal_time r a) before later (act-IsSettling r a s)

    -- However calls and handlers interleave before Close and behind it: each handler that still runs on a
    -- channel that Close took out of the registry returns, in as many rounds as its channel holds
    -- messages and one more, and has then written all of them; but a client that is registered then, as
    -- it came behind Close, has got nothing, and its handler waits, however long it goes on, until its
    -- request is done.
    pub new_web_renderer-closing :
        (addr : Text) (failure : Option E) (before later : List Action)
        → let r =
            after marshal_time (new_web_renderer addr failure).0 (before ++ closing ∷ later) in
          All Drains r.leaving × All Waits r.clients
    unfolding new_web_renderer
    new_web_renderer-closing addr failure before later =
        let start = (new_web_renderer addr failure).0 in
        let r = after marshal_time start (before ++ closing ∷ later) in
        let (_, a, b) = closing_settles start before later (tt, inl refl) in
        (All-map _ _ r.leaving shut-Drains a, All-map _ _ r.clients late-Waits b)
