-- ===== src/Command/Tests.antt =====
-- Runs of main, and its theorem at a concrete input.
use amqp_routing_inspector.Base.{ℕ, List, [], ◌∷◌, ◌≡◌, refl, Option, none, some, list_beq}
use amqp_routing_inspector.Base.Int.{ℤ}
use amqp_routing_inspector.Base.Text.{Text, codes}
use amqp_routing_inspector.Config.{Config, no_statsd_addr}
use amqp_routing_inspector.Config.Flags.{Setting, set_output_format, FlagDef}
use amqp_routing_inspector.Config.Load.{
  Outcome, err, file_failed, invalid_config, FlagEnd, help, parsed, load,
}
use amqp_routing_inspector.Connection.{Manager}
use amqp_routing_inspector.Firehose.{Consumer}
use amqp_routing_inspector.Output.Choice.{Chosen}
use amqp_routing_inspector.App.New.{Assembled}
use amqp_routing_inspector.App.Run.{RunError, nil_connection}
use amqp_routing_inspector.Command.{configuration_error, runtime_error, exit_code, Process, main}
use amqp_routing_inspector.Command.Starts.{Ends, main-Ends}

abbrev no_variable : Text → Option Text
no_variable name = none

abbrev no_duration : Text → Option ℤ
no_duration text = none

abbrev no_file : Text → Config → Outcome Text Config
no_file path c = err (file_failed (codes "no such file"))

-- No argument sets nothing, one asks for help, and two ask for the statsd format.
abbrev parse_args : List FlagDef → List Text → List Setting × FlagEnd Text
parse_args defs [] = ([], parsed)
parse_args defs (a ∷ []) = ([], help)
parse_args defs (a ∷ b ∷ args) = (set_output_format (codes "statsd") ∷ [], parsed)

abbrev listening : Text → Option ℕ
listening addr = none

abbrev dialling : Text → ℕ × Option ℕ
dialling addr = (0, none)

abbrev failing_run : Assembled Manager Consumer (Chosen ℕ) → Option (RunError ℕ)
failing_run a = some nil_connection

abbrev process : Process ℕ Text ℕ
process = record {
  outside = record {
    lookup_env = no_variable;
    parse_duration = no_duration;
    decode_file = no_file;
    parse = parse_args;
  };
  listen = listening;
  dial = dialling;
  stdout = 0;
  run = failing_run;
}

runtime_fails : main process [] ≡ runtime_error nil_connection
unfolding main list_beq
runtime_fails = refl

help_shown : exit_code (main process (codes "-h" ∷ [])) ≡ 0
unfolding main list_beq
help_shown = refl

no_address :
    main process (codes "-output" ∷ codes "statsd" ∷ [])
    ≡ configuration_error (invalid_config no_statsd_addr)
unfolding main list_beq
no_address = refl

main-Ends_example : Ends process (load process.outside []) (main process [])
main-Ends_example = main-Ends process []
