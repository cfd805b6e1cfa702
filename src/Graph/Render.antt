-- ===== src/Graph/Render.antt =====
-- internal/graph/graph.go: DOT and Mermaid.
pub mod Dot
pub mod Mermaid
use amqp_routing_inspector.Base.{
  ℕ, Bool, true, false, ◌&&◌, ◌||◌, List, [], ◌∷◌, ◌++◌, map, leb, nat_eq, ◌==◌, if◌then◌else◌,
}
use amqp_routing_inspector.Base.Text.{Text, codes}
use amqp_routing_inspector.Base.Decimal.{print_int64}
use amqp_routing_inspector.Graph.{Edge, Graph, edges, map_keys}

abbrev pub quote : ℕ
quote = b'"'

abbrev pub backslash : ℕ
backslash = 92

abbrev escape_rune : ℕ → Text → Text
escape_rune c rest =
    if c == backslash
    then backslash ∷ backslash ∷ rest
    else if c == quote
    then backslash ∷ quote ∷ rest
    else c ∷ rest

-- escape
unfoldable pub escape : Text → Text
escape [] = []
escape (c ∷ value) = escape_rune c (escape value)

-- The writes of one loop after another.
unfoldable pub write_all {ℓ} : {A : Type ℓ} → (A → Text) → List A → Text
write_all line [] = []
write_all line (x ∷ xs) = line x ++ write_all line xs

abbrev pub exchange_id : Text → Text
exchange_id exchange = codes "ex:" ++ exchange

abbrev pub queue_id : Text → Text
queue_id queue = codes "q:" ++ queue

-- fmt.Sprintf("%s (%d)", edge.Label, edge.Count)
unfoldable pub edge_label : Edge → Text
unfolding print_int64
edge_label edge = edge.label ++ (codes " (" ++ (print_int64 edge.count ++ codes ")"))

unfoldable pub dot_exchange : Text → Text
unfolding escape
dot_exchange exchange =
    codes "  \""
    ++ (escape (exchange_id exchange)
        ++ (codes "\" [label=\"exchange: "
            ++ (escape exchange
                ++ codes "\", shape=box, style=\"rounded,filled\", fillcolor=\"#E8F1FF\"];\n")))

unfoldable pub dot_queue : Text → Text
unfolding escape
dot_queue queue =
    codes "  \""
    ++ (escape (queue_id queue)
        ++ (codes "\" [label=\"queue: "
            ++ (escape queue
                ++ codes "\", shape=ellipse, style=\"filled\", fillcolor=\"#FFF4E6\"];\n")))

unfoldable pub dot_edge : Edge → Text
unfolding escape edge_label
dot_edge edge =
    codes "  \""
    ++ (escape (exchange_id edge.from_exchange)
        ++ (codes "\" -> \""
            ++ (escape (queue_id edge.to_queue)
                ++ (codes "\" [label=\"" ++ (escape (edge_label edge) ++ codes "\"];\n")))))

-- DOT
unfoldable pub dot : Graph → Text
unfolding escape dot_exchange dot_queue dot_edge write_all edges map_keys
dot g =
    codes "digraph \""
    ++ (escape g.name
        ++ (codes "\" {\n"
            ++ (codes "  rankdir=LR;\n"
                ++ (codes "  node [fontname=\"Helvetica\"];\n"
                    ++ (write_all dot_exchange (map_keys g.exchanges)
                        ++ (write_all dot_queue (map_keys g.queues)
                            ++ (write_all dot_edge (edges g) ++ codes "}\n")))))))

unfoldable pub is_id_rune : ℕ → Bool
is_id_rune r =
    (leb b'a' r && leb r b'z')
    || (leb b'A' r && leb r b'Z')
    || (leb b'0' r && leb r b'9')
    || r == b'_'

abbrev pub id_rune : ℕ → ℕ
id_rune r = if is_id_rune r then r else b'_'

-- mermaidID
unfoldable pub mermaid_id : Text → Text
unfolding is_id_rune
mermaid_id s = map id_rune s

-- mermaidEscape
unfoldable pub mermaid_escape : Text → Text
mermaid_escape [] = []
mermaid_escape (c ∷ s) = (if c == quote then codes "&quot;" else c ∷ []) ++ mermaid_escape s

abbrev pub mermaid_exchange_id : Text → Text
mermaid_exchange_id exchange = mermaid_id (codes "ex_" ++ exchange)

abbrev pub mermaid_queue_id : Text → Text
mermaid_queue_id queue = mermaid_id (codes "q_" ++ queue)

unfoldable pub mermaid_exchange : Text → Text
unfolding mermaid_id mermaid_escape
mermaid_exchange exchange =
    codes "  "
    ++ (mermaid_exchange_id exchange
        ++ (codes "[\"exchange: " ++ (mermaid_escape exchange ++ codes "\"]\n")))

unfoldable pub mermaid_queue : Text → Text
unfolding mermaid_id mermaid_escape
mermaid_queue queue =
    codes "  "
    ++ (mermaid_queue_id queue ++ (codes "([\"queue: " ++ (mermaid_escape queue ++ codes "\"])\n")))

unfoldable pub mermaid_edge : Edge → Text
unfolding mermaid_id mermaid_escape edge_label
mermaid_edge edge =
    codes "  "
    ++ (mermaid_exchange_id edge.from_exchange
        ++ (codes " -- \""
            ++ (mermaid_escape (edge_label edge)
                ++ (codes "\" --> " ++ (mermaid_queue_id edge.to_queue ++ codes "\n")))))

-- Mermaid
unfoldable pub mermaid : Graph → Text
unfolding mermaid_exchange mermaid_queue mermaid_edge write_all edges map_keys
mermaid g =
    codes "flowchart LR\n"
    ++ (write_all mermaid_exchange (map_keys g.exchanges)
        ++ (write_all mermaid_queue (map_keys g.queues) ++ write_all mermaid_edge (edges g)))
