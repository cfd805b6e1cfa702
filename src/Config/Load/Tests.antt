-- ===== src/Config/Load/Tests.antt =====
-- Runs of Load, and its theorems at concrete inputs.
use amqp_routing_inspector.Base.{
  List, [], ◌∷◌, ◌++◌, ◌≡◌, refl, Option, none, some, nat_eq, list_eq, ◌==◌, list_beq,
  if◌then◌else◌,
}
use amqp_routing_inspector.Base.Int.{ℤ, pos}
use amqp_routing_inspector.Base.Text.{Text, codes}
use amqp_routing_inspector.Config.{Config, default_config}
use amqp_routing_inspector.Config.Flags.{Setting, set_filter_queue, FlagDef}
use amqp_routing_inspector.Config.Load.{
  Outcome, ok, FlagEnd, parsed, Outside, apply_env, before_flags, load,
}
use amqp_routing_inspector.Config.Load.Path.{before_flags_ignores}
use amqp_routing_inspector.Config.Load.Usage.{usage, unindented, elsewhere, load-agree}

-- An environment with one variable, and a file that sets the prefetch count to 7 and the event limit
-- to 9.
abbrev lookup : Text → Option Text
lookup name = if name == codes "AMQP_INSPECTOR_PREFETCH" then some (codes " 20 ") else none

abbrev no_duration : Text → Option ℤ
no_duration text = none

abbrev decode : Text → Config → Outcome Text Config
decode path c = ok (record c { prefetch = pos 7; max_events = pos 9 })

abbrev settings : List Setting
settings = set_filter_queue (codes "a") ∷ set_filter_queue (codes " b ") ∷ []

abbrev parse_args : List FlagDef → List Text → List Setting × FlagEnd Text
parse_args defs args = (settings, parsed)

abbrev outside : Outside Text
outside = record {
  lookup_env = lookup;
  parse_duration = no_duration;
  decode_file = decode;
  parse = parse_args;
}

abbrev arguments : List Text
arguments = codes "-c" ∷ codes "a.yaml" ∷ codes "-filter-queue=a" ∷ codes "-filter-queue= b " ∷ []

-- The environment's prefetch count wins over the file's, and the last flag over the first.
abbrev result : Config
result = record default_config {
  config_path = codes "a.yaml";
  prefetch = pos 20;
  max_events = pos 9;
  filter_queue = codes "b";
}

before_flags_ignores_example :
    before_flags outside ((codes "--c=" ++ codes "a.yaml") ∷ []) ≡ apply_env outside default_config
before_flags_ignores_example = before_flags_ignores outside (codes "a.yaml")

-- The environment with a variable that Usage does not list.
abbrev with_home : Text → Option Text
with_home name = if name == codes "HOME" then some (codes "/root") else lookup name

-- A text for the flags.
abbrev flag_lines : List FlagDef → Config → Text
flag_lines defs cfg = codes "  -c string\n"

load-agree_example : load outside arguments ≡ load (elsewhere outside with_home) arguments
unfolding list_beq usage unindented
load-agree_example = load-agree outside with_home flag_lines arguments (
  refl,
  (
    refl,
    (
      refl,
      (
        refl,
        (
          refl,
          (
            refl,
            (
              refl,
              (
                refl,
                (
                  refl,
                  (
                    refl,
                    (
                      refl,
                      (
                        refl,
                        (
                          refl,
                          (
                            refl,
                            (
                              refl,
                              (
                                refl,
                                (
                                  refl,
                                  (
                                    refl,
                                    (refl, (refl, (refl, (refl, (refl, (refl, (refl, tt))))))),
                                  ),
                                ),
                              ),
                            ),
                          ),
                        ),
                      ),
                    ),
                  ),
                ),
              ),
            ),
          ),
        ),
      ),
    ),
  ),
)
