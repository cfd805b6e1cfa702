-- ===== src/Graph/Render/Mermaid.antt =====
-- internal/graph/graph.go: what the Mermaid output promises, and where it merges nodes.
use amqp_routing_inspector.Base.{
  ℕ, true, false, List, [], ◌∷◌, ◌++◌, ◌≡◌, ◌≢◌, ap, nat_eq, arith, All,
}
use mathlib.Core.List.{Perm}
use amqp_routing_inspector.Base.Text.{Text, codes}
use amqp_routing_inspector.Graph.{Edge, EdgeKey, Graph}
use amqp_routing_inspector.Graph.Invariant.{IsWellFormed}
use amqp_routing_inspector.Graph.Sorted.{edges_perm_eq, map_keys_perm_eq}
use amqp_routing_inspector.Graph.Render.{
  quote, is_id_rune, id_rune, mermaid_id, mermaid_escape, mermaid, mermaid_exchange_id,
}

-- Every rune of an identifier is a letter, a digit or "_".
pub mermaid_id-IsId : (s : Text) → All (λ r. is_id_rune r ≡ true) (mermaid_id s)
unfolding mermaid_id
mermaid_id-IsId [] = tt
mermaid_id-IsId (c ∷ s) = (ground arith, mermaid_id-IsId s)

-- No quote is left in an escaped label, so none ends it early.
mermaid_escape-no_quote : (s : Text) → All (λ c. c ≢ quote) (mermaid_escape s)
unfolding mermaid_escape
mermaid_escape-no_quote [] = tt
mermaid_escape-no_quote (c ∷ s) = ground (arith, mermaid_escape-no_quote s)

merged :
    (s t : Text) (c d : ℕ)
    → is_id_rune c ≡ false
    → is_id_rune d ≡ false
    → mermaid_id (s ++ c ∷ t) ≡ mermaid_id (s ++ d ∷ t)
unfolding mermaid_id
merged [] t c d hc hd = rw (hc, hd)
merged (x ∷ s) t c d hc hd = ap (◌∷◌ (id_rune x)) (merged s t c d hc hd)

-- Two exchanges whose names differ in one rune that is neither a letter nor a digit nor "_" get the same
-- Mermaid identifier.
pub mermaid_merges :
    (s t : Text) (c d : ℕ)
    → is_id_rune c ≡ false
    → is_id_rune d ≡ false
    → mermaid_exchange_id (s ++ c ∷ t) ≡ mermaid_exchange_id (s ++ d ∷ t)
mermaid_merges s t c d hc hd = merged (codes "ex_" ++ s) t c d hc hd

-- The text that Mermaid returns does not depend on the orders in which Go walks the three maps.
pub mermaid_perm_eq :
    (g : Graph) (exchanges queues : List Text) (walked : List (EdgeKey × Edge))
    → IsWellFormed g
    → Perm g.exchanges exchanges
    → Perm g.queues queues
    → Perm g.edges walked
    → mermaid (record g { exchanges = exchanges; queues = queues; edges = walked }) ≡ mermaid g
unfolding mermaid
mermaid_perm_eq g exchanges queues walked w p q r = rw (
  map_keys_perm_eq g.exchanges exchanges w.exchanges_once p,
  map_keys_perm_eq g.queues queues w.queues_once q,
  edges_perm_eq g walked w r,
)
