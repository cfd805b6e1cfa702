-- ===== src/Output/Web/Clients/InOrder.antt =====
-- Texts that stand for some of the traces, in their order.
use amqp_routing_inspector.Base.{List, [], ◌∷◌, ◌++◌, All}
use amqp_routing_inspector.Base.Text.{Text}
use amqp_routing_inspector.Model.{RoutingTrace}

-- A trace with the text of its time.
abbrev pub Dated : Type 0
Dated = Text × RoutingTrace

-- The texts stand, each by `P`, for some of the traces, in their order and each once at most.
pub data Within (P : Text → Dated → Type 0) : List Text → List Dated → Type 0 where
  at_end : Within P [] []
  kept :
      {ms : List Text} {ts : List Dated} (m : Text) (t : Dated)
      → P m t
      → Within P ms ts
      → Within P (m ∷ ms) (t ∷ ts)
  left_out : {ms : List Text} {ts : List Dated} (t : Dated) → Within P ms ts → Within P ms (t ∷ ts)

module _ {P : Text → Dated → Type 0} where
  pub Within-none : (ts : List Dated) → Within P [] ts
  Within-none [] = at_end
  Within-none (t ∷ ts) = left_out t (Within-none ts)

  pub Within-next :
      {ms : List Text} {ts : List Dated} (us : List Dated) → Within P ms ts → Within P ms (ts ++ us)
  Within-next us at_end = Within-none us
  Within-next us (kept m t p w) = kept m t p (Within-next us w)
  Within-next us (left_out t w) = left_out t (Within-next us w)

  pub Within-kept :
      {ms : List Text} {ts : List Dated} (n : Text) (u : Dated)
      → P n u
      → Within P ms ts
      → Within P (ms ++ n ∷ []) (ts ++ u ∷ [])
  Within-kept n u q at_end = kept n u q at_end
  Within-kept n u q (kept m t p w) = kept m t p (Within-kept n u q w)
  Within-kept n u q (left_out t w) = left_out t (Within-kept n u q w)

pub Within-map :
    {P Q : Text → Dated → Type 0} {ms : List Text} {ts : List Dated}
    → ((m : Text) (t : Dated) → P m t → Q m t)
    → Within P ms ts
    → Within Q ms ts
Within-map f at_end = at_end
Within-map f (kept m t p w) = kept m t (f m t p) (Within-map f w)
Within-map f (left_out t w) = left_out t (Within-map f w)

-- What holds of each text that stands for a trace.
pub Within-All :
    {P : Text → Dated → Type 0} {Q : Text → Type 0} {ms : List Text} {ts : List Dated}
    → ((m : Text) (t : Dated) → P m t → Q m)
    → Within P ms ts
    → All Q ms
Within-All f at_end = tt
Within-All f (kept m t p w) = (f m t p, Within-All f w)
Within-All f (left_out t w) = Within-All f w
