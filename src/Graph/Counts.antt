-- ===== src/Graph/Counts.antt =====
-- internal/graph/graph.go: AddTrace counts how often each edge was seen.
use amqp_routing_inspector.Base.{
  inl, inr, ℕ, ◌+◌, ◌%◌, List, [], ◌∷◌, ◌++◌, ◌≡◌, refl, ap, ◌∙◌, map, nat_eq, list_eq, ◌==◌, arith,
  if◌then◌else◌, Bool-cases, eq_of_beq,
}
use amqp_routing_inspector.Base.Text.{Text}
use amqp_routing_inspector.Base.Decimal.{increment, word}
use amqp_routing_inspector.Base.Map.{lookup, put, lookup-update, or_default}
use amqp_routing_inspector.Model.{QueueDestination, RoutingTrace}
use amqp_routing_inspector.Graph.{
  EdgeKey, edge_key_eq, Graph, new, edge_destinations, trace_exchange, edge_key, fresh_edge,
  count_edge, add_destination, add_destinations, add_trace,
}

-- The edges that a trace adds to, one for each destination.
abbrev pub routes : RoutingTrace → List EdgeKey
routes trace = map (edge_key trace) (edge_destinations trace)

abbrev pub all_routes : List RoutingTrace → List EdgeKey
all_routes [] = []
all_routes (t ∷ ts) = routes t ++ all_routes ts

-- How often a key stands in a list.
abbrev pub occurrences : EdgeKey → List EdgeKey → ℕ
occurrences k [] = 0
occurrences k (j ∷ ks) = if j == k then occurrences k ks + 1 else occurrences k ks

abbrev pub add_traces : Graph → List RoutingTrace → Graph
add_traces g [] = g
add_traces g (t ∷ ts) = add_traces (add_trace g t) ts

-- The count that a graph has for a key: zero if it has no such edge.
abbrev pub count_of : EdgeKey → Graph → ℕ
count_of k g = (or_default (fresh_edge k) (lookup k g.edges)).count

count_of-add_destination :
    (k : EdgeKey) (trace : RoutingTrace) (g : Graph) (d : QueueDestination)
    → count_of k (add_destination trace g d)
      ≡ (if edge_key trace d == k then increment (count_of k g) else count_of k g)
unfolding add_destination
count_of-add_destination k trace g d =
    ap (λ o. (or_default (fresh_edge k) o).count)
      (lookup-update key k (fresh_edge key) count_edge g.edges)
    ∙ (elim (Bool-cases (key == k)) [
      | inl q ↦ rw (q, ← eq_of_beq key k q) refl
      | inr q ↦ rw q refl
    ])
  where
    key : EdgeKey
    key = edge_key trace d

increment-mod : (n : ℕ) → increment (n % word) ≡ (n + 1) % word
unfolding increment
increment-mod n = omega arith

occurrences-append :
    (k : EdgeKey) (xs ys : List EdgeKey)
    → occurrences k (xs ++ ys) ≡ occurrences k xs + occurrences k ys
occurrences-append k [] ys = omega arith
occurrences-append k (x ∷ xs) ys = ground (arith, occurrences-append k xs ys)

count_of-add_destinations :
    (k : EdgeKey) (trace : RoutingTrace) (g : Graph) (ds : List QueueDestination) (n : ℕ)
    → count_of k g ≡ n % word
    → count_of k (add_destinations trace g ds)
      ≡ (n + occurrences k (map (edge_key trace) ds)) % word
unfolding add_destinations
count_of-add_destinations k trace g [] n h = h ∙ ap (λ (m : ℕ). m % word) (omega arith)
count_of-add_destinations k trace g (d ∷ ds) n h = elim (Bool-cases (edge_key trace d == k)) [
  | inl q ↦ rw q (
      count_of-add_destinations k trace (add_destination trace g d) ds (n + 1)
        (count_of-add_destination k trace g d ∙ rw (q, h) (increment-mod n))
      ∙ ap (λ (m : ℕ). m % word) (omega arith))
  | inr q ↦ rw q (
      count_of-add_destinations k trace (add_destination trace g d) ds n
        (count_of-add_destination k trace g d ∙ rw q h))
]

count_of-add_trace :
    (k : EdgeKey) (g : Graph) (trace : RoutingTrace) (n : ℕ)
    → count_of k g ≡ n % word
    → count_of k (add_trace g trace) ≡ (n + occurrences k (routes trace)) % word
unfolding add_trace
count_of-add_trace k g trace n h =
    count_of-add_destinations k trace
      (record g { exchanges = put (trace_exchange trace) g.exchanges }) (edge_destinations trace) n
      h

count_of-add_traces :
    (k : EdgeKey) (g : Graph) (ts : List RoutingTrace) (n : ℕ)
    → count_of k g ≡ n % word
    → count_of k (add_traces g ts) ≡ (n + occurrences k (all_routes ts)) % word
count_of-add_traces k g [] n h = h ∙ ap (λ (m : ℕ). m % word) (omega arith)
count_of-add_traces k g (t ∷ ts) n h =
    count_of-add_traces k (add_trace g t) ts (n + occurrences k (routes t))
      (count_of-add_trace k g t n h)
    ∙ ap (λ (m : ℕ). m % word) (omega (arith, occurrences-append k (routes t) (all_routes ts)))

-- After any traces the count of an edge is the number of destinations that were routed over it,
-- modulo 2^64: no delivery is lost or counted twice.
pub count_of-new :
    (name : Text) (ts : List RoutingTrace) (k : EdgeKey)
    → count_of k (add_traces (new name) ts) ≡ occurrences k (all_routes ts) % word
count_of-new name ts k =
    count_of-add_traces k (new name) ts 0 (unfold new lookup in refl)
    ∙ ap (λ (m : ℕ). m % word) (omega arith)
