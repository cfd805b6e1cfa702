-- ===== src/Output/Choice/Parts.antt =====
-- internal/output/renderer.go: what a renderer that NewRendererFromConfig makes is made of.
use amqp_routing_inspector.Base.{
  ◌≢◌, ◌==◌, true, Bool-cases, if◌then◌else◌, list_beq_iff, ◌≡◌, refl, sym, inl, inr, ◌⊎◌, [], ◌∷◌,
  Option, none, some, nat_eq, list_eq,
}
use amqp_routing_inspector.Base.Text.{Text, codes}
use amqp_routing_inspector.Config.{Config, format_cli, format_prometheus, format_statsd, format_web}
use amqp_routing_inspector.Output.{new_graph_renderer}
use amqp_routing_inspector.Output.Summary.{new_summary_renderer}
use amqp_routing_inspector.Output.Prometheus.{new_prometheus_renderer}
use amqp_routing_inspector.Output.Statsd.{new_statsd_renderer}
use amqp_routing_inspector.Output.Web.{serving, new_web_renderer}
use amqp_routing_inspector.Output.Choice.{
  Chosen, cli, json, graph, summary, prometheus, statsd, web, Choice, chosen, unsupported, failed,
  started, offline_renderer, new_renderer_from_config,
}

picked :
    {C : Type 0} (P : C → Type 0) (f k : Text) (x y : C)
    → (f ≡ k → P x)
    → P y
    → P (if f == k then x else y)
picked P f k x y g h = elim (Bool-cases (f == k)) [
  | inl e ↦ rw e (g ((list_beq_iff f k).0 e))
  | inr e ↦ rw e h
]

module _ {W E : Type 0} (listen : Text → Option E) (dial : Text → W × Option E) (cfg : Config)
    (writer : W) where
  -- A renderer has the config's graph name, the writer, or the address that the format needs: the
  -- network accepted it, and a statsd renderer sends to the connection.
  abbrev pub IsFor : Chosen W → Type 0
  IsFor (cli w) = w ≡ writer
  IsFor (json w) = w ≡ writer
  IsFor (graph g) = g ≡ new_graph_renderer g.format cfg.graph_name
  IsFor (summary s) = s ≡ new_summary_renderer
  IsFor (prometheus p) =
      cfg.metrics_addr ≢ [] → (p.serving ≡ true) × (listen cfg.metrics_addr ≡ none)
  IsFor (statsd s) =
      cfg.statsd_addr ≢ []
      → (s.connected ≡ true)
        × (s.target ≡ (dial cfg.statsd_addr).0)
        × ((dial cfg.statsd_addr).1 ≡ none)
  IsFor (web r) = cfg.web_addr ≢ [] → (r.server ≡ serving) × (listen cfg.web_addr ≡ none)

  -- The network refused the address of the format, with this error.
  abbrev pub IsRefusal : E → Type 0
  IsRefusal e =
      ((cfg.output_format ≡ format_prometheus) × (listen cfg.metrics_addr ≡ some e))
      ⊎ ((cfg.output_format ≡ format_statsd) × ((dial cfg.statsd_addr).1 ≡ some e))
      ⊎ ((cfg.output_format ≡ format_web) × (listen cfg.web_addr ≡ some e))

  abbrev pub Fits : Choice W E → Type 0
  Fits (chosen c) = IsFor c
  Fits (failed e) = IsRefusal e
  Fits (unsupported f) = Unit

  prometheus-Fits :
      (addr : Text) (failure : Option E)
      → addr ≡ cfg.metrics_addr
      → failure ≡ listen cfg.metrics_addr
      → cfg.output_format ≡ format_prometheus
      → Fits (started prometheus (new_prometheus_renderer addr failure))
  unfolding new_prometheus_renderer
  prometheus-Fits [] failure p q f = λ n. absurd (n (sym p))
  prometheus-Fits (c ∷ s) none p q f = λ n. (refl, sym q)
  prometheus-Fits (c ∷ s) (some e) p q f = inl (f, sym q)

  statsd-Fits :
      (addr : Text) (conn : W) (failure : Option E)
      → addr ≡ cfg.statsd_addr
      → conn ≡ (dial cfg.statsd_addr).0
      → failure ≡ (dial cfg.statsd_addr).1
      → cfg.output_format ≡ format_statsd
      → Fits (started statsd (new_statsd_renderer writer addr (conn, failure)))
  unfolding new_statsd_renderer
  statsd-Fits [] conn failure p r q f = λ n. absurd (n (sym p))
  statsd-Fits (c ∷ s) conn none p r q f = λ n. (refl, r, sym q)
  statsd-Fits (c ∷ s) conn (some e) p r q f = inr (inl (f, sym q))

  web-Fits :
      (addr : Text) (failure : Option E)
      → addr ≡ cfg.web_addr
      → failure ≡ listen cfg.web_addr
      → cfg.output_format ≡ format_web
      → Fits (started web (new_web_renderer addr failure))
  unfolding new_web_renderer
  web-Fits [] failure p q f = λ n. absurd (n (sym p))
  web-Fits (c ∷ s) none p q f = λ n. (refl, sym q)
  web-Fits (c ∷ s) (some e) p q f = inr (inr (f, sym q))

  pub new_renderer_from_config-Fits : Fits (new_renderer_from_config listen dial cfg writer)
  unfolding new_renderer_from_config offline_renderer new_graph_renderer
  new_renderer_from_config-Fits =
      let f = cfg.output_format in
      picked Fits f format_cli _ _ (λ _. refl)
        (picked Fits f (codes "json") _ _ (λ _. refl)
          (picked Fits f (codes "dot") _ _ (λ _. refl)
            (picked Fits f (codes "summary") _ _ (λ _. refl)
              (picked Fits f (codes "mermaid") _ _ (λ _. refl)
                (picked Fits f format_prometheus _ _
                  (prometheus-Fits cfg.metrics_addr (listen cfg.metrics_addr) refl refl)
                  (picked Fits f format_statsd _ _
                    (statsd-Fits cfg.statsd_addr (dial cfg.statsd_addr).0 (dial cfg.statsd_addr).1
                      refl refl refl)
                    (picked Fits f format_web _ _
                      (web-Fits cfg.web_addr (listen cfg.web_addr) refl refl) tt)))))))
