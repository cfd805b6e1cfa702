-- ===== src/Output/Choice/Laws.antt =====
-- internal/output/renderer.go: a config that is accepted gets a renderer of its format.
use amqp_routing_inspector.Base.{
  ◌≢◌, ◌==◌, Bool-cases, if◌then◌else◌, list_beq_iff, ◌≡◌, refl, sym, ◌∙◌, inl, inr, ◌⊎◌, Option,
  none, some, nat_eq, list_eq, Any, arith,
}
use amqp_routing_inspector.Base.Text.{Text, codes}
use amqp_routing_inspector.Config.{
  Config, format_cli, format_prometheus, format_statsd, format_web, formats,
}
use amqp_routing_inspector.Output.{Format, as_dot, as_mermaid, new_graph_renderer}
use amqp_routing_inspector.Output.Choice.{
  Chosen, cli, json, graph, summary, prometheus, statsd, web, Choice, chosen, unsupported, failed,
  started, offline_renderer, new_renderer_from_config,
}

abbrev graph_format : Format → Text
graph_format as_dot = codes "dot"
graph_format as_mermaid = codes "mermaid"

-- The format that a renderer writes.
unfoldable pub format_of : {W : Type 0} → Chosen W → Text
format_of (cli w) = format_cli
format_of (json w) = codes "json"
format_of (graph g) = graph_format g.format
format_of (summary s) = codes "summary"
format_of (prometheus p) = format_prometheus
format_of (statsd s) = format_statsd
format_of (web r) = format_web

-- What a choice is for a format: a renderer of it, an error of the network where the format has an
-- address, or a refusal where it is none of the formats that Validate allows.
unfoldable pub HasFormat : {W E : Type 0} → Text → Choice W E → Type 0
HasFormat f (chosen c) = format_of c ≡ f
HasFormat f (failed e) = (f ≡ format_prometheus) ⊎ (f ≡ format_statsd) ⊎ (f ≡ format_web)
HasFormat f (unsupported g) = (g ≡ f) × ¬ Any (λ x. x ≡ f) formats

pick-HasFormat :
    {W E : Type 0} (f k : Text) (x y : Choice W E)
    → (f ≡ k → HasFormat f x)
    → (f ≢ k → HasFormat f y)
    → HasFormat f (if f == k then x else y)
pick-HasFormat f k x y g h = elim (Bool-cases (f == k)) [
  | inl e ↦ rw e (g ((list_beq_iff f k).0 e))
  | inr e ↦ rw e (h (λ q. cc ((list_beq_iff f k).1 q)))
]

offline_renderer-HasFormat :
    {W E : Type 0} (f : Text) (w : W) (name : Text) (otherwise : Choice W E)
    → (f ≢ format_cli
        → f ≢ codes "json"
        → f ≢ codes "dot"
        → f ≢ codes "summary"
        → f ≢ codes "mermaid"
        → HasFormat f otherwise)
    → HasFormat f (offline_renderer f w name otherwise)
unfolding offline_renderer HasFormat format_of new_graph_renderer
offline_renderer-HasFormat f w name otherwise h = pick-HasFormat f format_cli _ _ sym (λ a.
    pick-HasFormat f (codes "json") _ _ sym (λ b. pick-HasFormat f (codes "dot") _ _ sym (λ c.
      pick-HasFormat f (codes "summary") _ _ sym
        (λ d. pick-HasFormat f (codes "mermaid") _ _ sym (λ e. h a b c d e)))))

started-HasFormat :
    {W E R : Type 0} (f k : Text) (make : R → Chosen W) (p : R × Option E)
    → f ≡ k
    → (f ≡ format_prometheus) ⊎ (f ≡ format_statsd) ⊎ (f ≡ format_web)
    → ((r : R) → format_of (make r) ≡ k)
    → HasFormat f (started make p)
unfolding HasFormat
started-HasFormat f k make (r, none) q n h = h r ∙ sym q
started-HasFormat f k make (r, some e) q n h = n

-- Whatever the network answers, the renderer for a config is one of its format, or there is none
-- because the network refused an address that the format needs, or because the format is none of those
-- that Validate allows. So a config that Validate accepts is never refused for its format.
pub new_renderer_from_config-HasFormat :
    {W E : Type 0} (listen : Text → Option E) (dial : Text → W × Option E) (cfg : Config)
    (writer : W)
    → HasFormat cfg.output_format (new_renderer_from_config listen dial cfg writer)
unfolding new_renderer_from_config HasFormat format_of
new_renderer_from_config-HasFormat listen dial cfg writer =
    let f = cfg.output_format in
    offline_renderer-HasFormat f writer cfg.graph_name _ (λ a b c d e.
      pick-HasFormat f format_prometheus _ _
        (λ q. started-HasFormat f format_prometheus prometheus _ q (inl q) (λ r. refl))
        (λ p.
          pick-HasFormat f format_statsd _ _
            (λ q. started-HasFormat f format_statsd statsd _ q (inr (inl q)) (λ r. refl))
            (λ s.
              pick-HasFormat f format_web _ _
                (λ q. started-HasFormat f format_web web _ q (inr (inr q)) (λ r. refl))
                (λ w. (refl, λ any. ground arith)))))
