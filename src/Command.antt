-- ===== src/Command.antt =====
-- cmd/amqp-routing-inspector/main.go: main.
pub mod Starts
mod Tests
use amqp_routing_inspector.Base.{ℕ, Bool, List, Option, none, some, if◌then◌else◌}
use amqp_routing_inspector.Base.Text.{Text}
use amqp_routing_inspector.Config.{Config}
use amqp_routing_inspector.Config.Load.{
  LoadError, Loaded, loaded, help_requested, load_failed, Outside, load,
}
use amqp_routing_inspector.Connection.{Manager}
use amqp_routing_inspector.Firehose.{Consumer}
use amqp_routing_inspector.Output.Choice.{Chosen}
use amqp_routing_inspector.App.New.{Assembled, NewError, New, assembled, refused, new}
use amqp_routing_inspector.App.Run.{RunError}

-- How the process ends: what it prints, and for an error the exit code.
pub data Exit (E : Type 0) (F : Type 0) : Type 0 where
  usage_printed : Exit E F
  version_printed : Exit E F
  configuration_error : LoadError E → Exit E F
  bootstrap_error : NewError F → Exit E F
  runtime_error : RunError F → Exit E F
  finished : Exit E F

abbrev pub exit_code : {E F : Type 0} → Exit E F → ℕ
exit_code usage_printed = 0
exit_code version_printed = 0
exit_code (configuration_error e) = 2
exit_code (bootstrap_error e) = 1
exit_code (runtime_error e) = 1
exit_code finished = 0

abbrev pub ran : {E F : Type 0} → Option (RunError F) → Exit E F
ran none = finished
ran (some e) = runtime_error e

-- The answers of the network, the state of os.Stdout, and what Run returns for a service.
pub record Process (W : Type 0) (E : Type 0) (F : Type 0) : Type 0 where
  pub outside : Outside E
  pub listen : Text → Option F
  pub dial : Text → W × Option F
  pub stdout : W
  pub run : Assembled Manager Consumer (Chosen W) → Option (RunError F)

module _ {W E F : Type 0} (p : Process W E F) where
  abbrev pub run_new : New Manager Consumer (Chosen W) F → Exit E F
  run_new (refused e) = bootstrap_error e
  run_new (assembled a) = ran (p.run a)

  abbrev pub main_with : Loaded E → Exit E F
  main_with (help_requested cfg) = usage_printed
  main_with (load_failed e) = configuration_error e
  main_with (loaded cfg) =
      if cfg.show_version then version_printed else run_new (new p.listen p.dial cfg p.stdout)

  -- main
  unfoldable pub main : List Text → Exit E F
  unfolding load new
  main args = main_with (load p.outside args)
