-- ===== src/Graph/Render/Dot.antt =====
-- internal/graph/graph.go: quoted names in DOT can be read back.
use amqp_routing_inspector.Base.{
  ℕ, inl, inr, List, [], ◌∷◌, ◌++◌, Option, some, none, ◌≡◌, ◌≢◌, refl, ap, ◌∙◌, nat_eq, ◌==◌,
  if◌then◌else◌, arith, Bool-cases,
}
use mathlib.Core.List.{Perm}
use amqp_routing_inspector.Base.Text.{Text}
use amqp_routing_inspector.Graph.{Edge, EdgeKey, Graph}
use amqp_routing_inspector.Graph.Invariant.{IsWellFormed}
use amqp_routing_inspector.Graph.Sorted.{edges_perm_eq, map_keys_perm_eq}
use amqp_routing_inspector.Graph.Render.{quote, backslash, escape, exchange_id, queue_id, dot}

abbrev push : ℕ → Option (Text × Text) → Option (Text × Text)
push c none = none
push c (some (s, rest)) = some (c ∷ s, rest)

-- Reads a quoted name, from behind the opening quote: a backslash takes the rune behind it.
unfoldable pub read_quoted : Text → Option (Text × Text)
read_quoted [] = none
read_quoted (c ∷ []) = if c == quote then some ([], []) else none
read_quoted (c ∷ d ∷ s) =
    let escaped = push d (read_quoted s) in
    let plain = push c (read_quoted (d ∷ s)) in
    if c == quote then some ([], d ∷ s) else if c == backslash then escaped else plain

read_quoted-quote : (rest : Text) → read_quoted (quote ∷ rest) ≡ some ([], rest)
unfolding read_quoted
read_quoted-quote [] = refl
read_quoted-quote (d ∷ rest) = refl

read_quoted-plain :
    (c : ℕ) (s : Text) → c ≢ quote → c ≢ backslash → read_quoted (c ∷ s) ≡ push c (read_quoted s)
unfolding read_quoted
read_quoted-plain c [] n m = ground arith
read_quoted-plain c (d ∷ s) n m = ground arith

read_quoted-escaped : (d : ℕ) (s : Text) → read_quoted (backslash ∷ d ∷ s) ≡ push d (read_quoted s)
unfolding read_quoted
read_quoted-escaped d s = refl

-- What escape writes between two quotes is read back as it was, whatever follows.
pub read_quoted-escape :
    (value rest : Text) → read_quoted (escape value ++ quote ∷ rest) ≡ some (value, rest)
unfolding escape
read_quoted-escape [] rest = read_quoted-quote rest
read_quoted-escape (c ∷ value) rest = elim (Bool-cases (c == backslash)) [
  | inl q ↦
      rw (q) (read_quoted-escaped backslash _ ∙ rw (read_quoted-escape value rest) (ground arith))
  | inr q ↦ elim (Bool-cases (c == quote)) [
    | inl p ↦
        rw (q, p) (read_quoted-escaped quote _ ∙ rw (read_quoted-escape value rest) (ground arith))
    | inr p ↦
        rw (q, p)
          (read_quoted-plain c _ (ground arith) (ground arith) ∙ rw (read_quoted-escape value rest))
  ]
]

abbrev first : Text → ℕ
first [] = 0
first (c ∷ s) = c

escape-injective : (s t : Text) → escape s ≡ escape t → s ≡ t
escape-injective s t e =
    cc (read_quoted-escape s [], read_quoted-escape t [], ap (λ u. read_quoted (u ++ quote ∷ [])) e)

-- DOT keeps nodes apart: two exchanges or two queues with the same identifier have the same name, and
-- no exchange has the identifier of a queue.
pub dot_ids_apart :
    (a b : Text)
    → (escape (exchange_id a) ≡ escape (exchange_id b) → a ≡ b)
      × (escape (queue_id a) ≡ escape (queue_id b) → a ≡ b)
      × (escape (exchange_id a) ≢ escape (queue_id b))
dot_ids_apart a b = (
  λ e. cc (escape-injective (exchange_id a) (exchange_id b) e),
  λ e. cc (escape-injective (queue_id a) (queue_id b) e),
  λ e. omega (arith, ap first (escape-injective (exchange_id a) (queue_id b) e)),
)

-- The text that DOT returns does not depend on the orders in which Go walks the graph's three maps.
pub dot_perm_eq :
    (g : Graph) (exchanges queues : List Text) (walked : List (EdgeKey × Edge))
    → IsWellFormed g
    → Perm g.exchanges exchanges
    → Perm g.queues queues
    → Perm g.edges walked
    → dot (record g { exchanges = exchanges; queues = queues; edges = walked }) ≡ dot g
unfolding dot
dot_perm_eq g exchanges queues walked w p q r = rw (
  map_keys_perm_eq g.exchanges exchanges w.exchanges_once p,
  map_keys_perm_eq g.queues queues w.queues_once q,
  edges_perm_eq g walked w r,
)
