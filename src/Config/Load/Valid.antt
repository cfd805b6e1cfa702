-- ===== src/Config/Load/Valid.antt =====
-- internal/config/config.go: what Load returns is valid.
use mathlib.Core.Path.{subst}
use amqp_routing_inspector.Base.{List, ◌≡◌, refl, sym, ◌∙◌, Option, none, some}
use amqp_routing_inspector.Base.Text.{Text, trim_space}
use amqp_routing_inspector.Config.{Config, ConfigError, validate}
use amqp_routing_inspector.Config.Laws.{IsValid, normalized, validate_iff}
use amqp_routing_inspector.Config.Flags.{Flags, set_flags, flag_set}
use amqp_routing_inspector.Config.Load.{
  Outcome, ok, err, FlagEnd, parsed, help, bad_flags, loaded, Outside, accepted, flags_ended,
  before_flags, with_flags, load_from, load,
}

module _ {E : Type 0} (outside : Outside E) where
  accepted-IsValid :
      (c x d : Config) (e : Option ConfigError)
      → (e ≡ none → x ≡ normalized c)
      → (e ≡ none → IsValid (normalized c))
      → accepted outside (x, e) ≡ loaded d
      → IsValid d
  accepted-IsValid c x d none same valid h =
      let q : x ≡ d = cc h in subst IsValid (sym (same refl) ∙ q) (valid refl)
  accepted-IsValid c x d (some e) same valid h = cc

  flags_ended-IsValid :
      (s : Flags) (end : FlagEnd E) (d : Config) → flags_ended outside s end ≡ loaded d → IsValid d
  flags_ended-IsValid s parsed d h =
      let c = record s.config { config_path = trim_space s.config_path } in
      accepted-IsValid c (validate c).0 d (validate c).1 (validate_iff c).1 (validate_iff c).0.0 h
  flags_ended-IsValid s help d h = cc
  flags_ended-IsValid s (bad_flags e) d h = cc

  load_from-IsValid :
      (args : List Text) (before : Outcome E Config) (d : Config)
      → load_from outside args before ≡ loaded d
      → IsValid d
  unfolding with_flags
  load_from-IsValid args (err e) d h = cc
  load_from-IsValid args (ok c) d h =
      let settings = (outside.parse flag_set args).0 in
      flags_ended-IsValid (set_flags (record { config = c; config_path = c.config_path }) settings)
        (outside.parse flag_set args).1 d h

  -- Whatever the environment, the file and the flags hold, a config that Load returns is valid.
  pub load-IsValid : (args : List Text) (c : Config) → load outside args ≡ loaded c → IsValid c
  unfolding load
  load-IsValid args c h = load_from-IsValid args (before_flags outside args) c h
