-- ===== src/Config/Tests.antt =====
-- Runs of Validate, and its theorem at a concrete input.
use amqp_routing_inspector.Base.{none, some, ◌≡◌, ◌↔◌, refl, list_beq}
use amqp_routing_inspector.Base.Text.{codes}
use amqp_routing_inspector.Config.{Config, default_config, no_web_addr, validate}
use amqp_routing_inspector.Config.Laws.{IsValid, normalized, validate_iff}

abbrev spaced : Config
spaced = record default_config { output_format = codes " JSON "; graph_name = codes "  " }

default_is_valid : validate default_config ≡ (default_config, none)
unfolding validate list_beq
default_is_valid = refl

web_needs_an_address :
    (validate (record default_config { output_format = codes "web" })).1 ≡ some no_web_addr
unfolding validate list_beq
web_needs_an_address = refl

spaces_are_trimmed :
    validate spaced ≡ (record default_config { output_format = codes "json" }, none)
unfolding validate list_beq
spaces_are_trimmed = refl

validate_iff_example :
    (((validate spaced).1 ≡ none) ↔ IsValid (normalized spaced))
    × ((validate spaced).1 ≡ none → (validate spaced).0 ≡ normalized spaced)
validate_iff_example = validate_iff spaced
