-- ===== src/App/New/Tests.antt =====
-- New at a concrete config.
use amqp_routing_inspector.Base.{ℕ, refl, none, Option, list_beq}
use amqp_routing_inspector.Base.Text.{Text, codes}
use amqp_routing_inspector.Config.{Config, default_config, validate}
use amqp_routing_inspector.Config.Laws.{IsValid, normalized, validate_iff}
use amqp_routing_inspector.App.New.{new}
use amqp_routing_inspector.App.New.Laws.{Ready, new-Ready}

abbrev web_config : Config
web_config = record default_config { output_format = codes "web"; web_addr = codes ":8080" }

web_config-IsValid : IsValid web_config
unfolding validate normalized list_beq
web_config-IsValid = (validate_iff web_config).0.0 refl

-- A network that accepts every address to listen on.
abbrev listening : Text → Option ℕ
listening addr = none

abbrev dialling : Text → ℕ × Option ℕ
dialling addr = (0, none)

new-Ready_example : Ready listening dialling web_config 1 (new listening dialling web_config 1)
new-Ready_example = new-Ready listening dialling web_config 1 web_config-IsValid
