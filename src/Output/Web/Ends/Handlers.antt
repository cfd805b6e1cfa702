-- ===== src/Output/Web/Ends/Handlers.antt =====
-- internal/output/web.go: one handler, whose channel is closed or gets nothing.
use mathlib.Core.Path.{ap₂, subst}
use mathlib.Core.List.{append-nil, append_assoc}
use amqp_routing_inspector.Base.{
  ℕ, zero, suc, true, false, List, [], ◌∷◌, ◌++◌, ◌≡◌, refl, sym, ap, ◌∙◌, nat_eq, length, arith,
}
use amqp_routing_inspector.Base.Text.{Text}
use amqp_routing_inspector.Output.Web.{
  Client, Handler, running, returned, frame, taken, take_message,
}
use amqp_routing_inspector.Output.Web.Parts.{OfHandler}
use amqp_routing_inspector.Output.Web.Stream.{stream}

-- A handler behind rounds of its loop in which no message comes in and its request is not done.
abbrev again : Handler → (Client → Handler) → Handler
again (running c) next = next c
again (returned c) next = returned c

unfoldable pub rounds : ℕ → Client → Handler
unfolding take_message
rounds zero c = running c
rounds (suc n) c = again (take_message c) (rounds n)

-- The client when its handler has written all that was in its channel.
abbrev pub emptied : Client → Client
emptied c = record c {
  buffer = [];
  read = c.read ++ c.buffer;
  response = c.response ++ stream c.buffer;
}

-- The handler returns, in as many rounds as its channel holds messages and one more, with all written.
abbrev pub Drains : Client → Type 0
Drains c =
    (rounds (length c.buffer) c ≡ running (emptied c))
    × (rounds (suc (length c.buffer)) c ≡ returned (emptied c))

-- The handler has nothing to read, and however long it goes on it only waits.
abbrev pub Waits : Client → Type 0
Waits c = (c.buffer ≡ []) × (c.response ≡ []) × ((n : ℕ) → rounds n c ≡ running c)

abbrev closed_client : ℕ → List Text → List Text → Text → Client
closed_client id buffer read response = record {
  id = id;
  buffer = buffer;
  read = read;
  response = response;
  shut = true;
}

drains :
    (id : ℕ) (buffer read : List Text) (response : Text)
    → Drains (closed_client id buffer read response)
unfolding rounds take_message
drains id [] read response =
    let e = ap₂ (closed_client id []) (sym (append-nil read)) (sym (append-nil response)) in
    (ap running e, ap returned e)
drains id (m ∷ ms) read response =
    let (a, b) = drains id ms (read ++ m ∷ []) (response ++ frame m) in
    let e =
      ap₂ (closed_client id []) (append_assoc read (m ∷ []) ms)
        (append_assoc response (frame m) (stream ms)) in
    (a ∙ ap running e, b ∙ ap returned e)

pub shut-Drains : (c : Client) → c.shut ≡ true → Drains c
shut-Drains c h =
    let e : closed_client c.id c.buffer c.read c.response ≡ c = λ i. record {
      id = c.id;
      buffer = c.buffer;
      read = c.read;
      response = c.response;
      shut = sym h i;
    } in
    subst Drains e (drains c.id c.buffer c.read c.response)

-- A client that has registered after Close.
abbrev pub IsLate : Client → Type 0
IsLate c = (c.buffer ≡ []) × (c.response ≡ []) × (c.shut ≡ false)

idle : (c : Client) (buffer : List Text) → buffer ≡ [] → c.shut ≡ false → taken buffer c ≡ running c
idle c buffer q h = rw (q, h) refl

waits : (c : Client) → c.buffer ≡ [] → c.shut ≡ false → (n : ℕ) → rounds n c ≡ running c
unfolding rounds take_message
waits c q h zero = refl
waits c q h (suc n) = ap (λ x. again x (rounds n)) (idle c c.buffer q h) ∙ waits c q h n

pub late-Waits : (c : Client) → IsLate c → Waits c
late-Waits c (q, e, h) = (q, e, waits c q h)

pub IsLate-taken : (c : Client) → IsLate c → OfHandler IsLate (take_message c)
unfolding take_message
IsLate-taken c (q, e, h) = subst (OfHandler IsLate) (sym (idle c c.buffer q h)) (q, e, h)

abbrev pub IsShut : Client → Type 0
IsShut c = c.shut ≡ true

pub IsShut-taken : (c : Client) → c.shut ≡ true → OfHandler IsShut (take_message c)
unfolding take_message
IsShut-taken c h = ground arith
