-- ===== src/Command/Starts.antt =====
-- cmd/amqp-routing-inspector/main.go: a service is run only where it is ready.
use amqp_routing_inspector.Base.{Bool, true, false, List, ◌≡◌, refl, inl, inr, ◌⊎◌, if◌then◌else◌}
use amqp_routing_inspector.Base.Text.{Text}
use amqp_routing_inspector.Config.{Config}
use amqp_routing_inspector.Config.Laws.{IsValid}
use amqp_routing_inspector.Config.Load.{
  LoadError, Loaded, loaded, help_requested, load_failed, load,
}
use amqp_routing_inspector.Config.Load.Valid.{load-IsValid}
use amqp_routing_inspector.Connection.{Manager}
use amqp_routing_inspector.Firehose.{Consumer}
use amqp_routing_inspector.Output.Choice.{Chosen}
use amqp_routing_inspector.Output.Choice.Parts.{IsRefusal}
use amqp_routing_inspector.App.New.{Assembled, renderer_failed, New, assembled, refused, new}
use amqp_routing_inspector.App.New.Laws.{IsReady, Ready, new-Ready}
use amqp_routing_inspector.Command.{
  Exit, usage_printed, version_printed, configuration_error, bootstrap_error, ran, Process, run_new,
  main_with, main,
}

module _ {W E F : Type 0} (p : Process W E F) where
  -- A service that was run: its config is what Load returned, and it is valid and fits the service.
  abbrev pub RunsReady : Loaded E → Exit E F → Type 0
  RunsReady l exit =
      (cfg : Config) × (a : Assembled Manager Consumer (Chosen W)) × (l ≡ loaded cfg)
      × (cfg.show_version ≡ false)
      × IsValid cfg
      × IsReady p.listen p.dial cfg p.stdout a
      × (exit ≡ ran (p.run a))

  -- The ways in which the process ends.
  abbrev pub Ends : Loaded E → Exit E F → Type 0
  Ends l exit =
      RunsReady l exit
      ⊎ ((cfg : Config) × (l ≡ help_requested cfg) × (exit ≡ usage_printed))
      ⊎ ((cfg : Config) × (l ≡ loaded cfg) × (cfg.show_version ≡ true) × (exit ≡ version_printed))
      ⊎ ((e : LoadError E) × (l ≡ load_failed e) × (exit ≡ configuration_error e))
      ⊎ ((cfg : Config) × (e : F) × (l ≡ loaded cfg)
          × IsRefusal p.listen p.dial cfg p.stdout e
          × (exit ≡ bootstrap_error (renderer_failed e)))

  run_new-Ends :
      (l : Loaded E) (cfg : Config) (n : New Manager Consumer (Chosen W) F)
      → l ≡ loaded cfg
      → cfg.show_version ≡ false
      → IsValid cfg
      → Ready p.listen p.dial cfg p.stdout n
      → Ends l (run_new p n)
  unfolding Ready
  run_new-Ends l cfg (assembled a) q s v r = inl (cfg, a, q, s, v, r, refl)
  run_new-Ends l cfg (refused (renderer_failed e)) q s v r =
      inr (inr (inr (inr (cfg, e, q, r, refl))))
  run_new-Ends l cfg (refused _) q s v r = absurd r

  loaded-Ends :
      (cfg : Config) (shown : Bool)
      → cfg.show_version ≡ shown
      → IsValid cfg
      → Ends
          (loaded cfg)
          (if shown then version_printed else run_new p (new p.listen p.dial cfg p.stdout))
  loaded-Ends cfg true s v = inr (inr (inl (cfg, refl, s, refl)))
  loaded-Ends cfg false s v =
      run_new-Ends (loaded cfg) cfg (new p.listen p.dial cfg p.stdout) refl s v
        (new-Ready p.listen p.dial cfg p.stdout v)

  main_with-Ends :
      (l : Loaded E) → ((cfg : Config) → l ≡ loaded cfg → IsValid cfg) → Ends l (main_with p l)
  main_with-Ends (help_requested cfg) v = inr (inl (cfg, refl, refl))
  main_with-Ends (load_failed e) v = inr (inr (inr (inl (e, refl, refl))))
  main_with-Ends (loaded cfg) v = loaded-Ends cfg cfg.show_version refl (v cfg refl)

  -- Whatever the arguments, the environment, the file and the network, main runs a service only for a
  -- valid config that Load returned and that does not ask for the version, with this config's own parts
  -- (IsReady), and then ends as Run does. Else it prints the usage where Load met the help flag, prints
  -- the version where the config asks for it, reports Load's error, or reports the error by which the
  -- network refused the address that the config's format needs: New never fails for another reason.
  pub main-Ends : (args : List Text) → Ends (load p.outside args) (main p args)
  unfolding main
  main-Ends args = main_with-Ends (load p.outside args) (λ cfg. load-IsValid p.outside args cfg)
