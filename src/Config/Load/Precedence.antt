-- ===== src/Config/Load/Precedence.antt =====
-- internal/config/config.go: flags come before the environment, that before the file, that before the
-- defaults.
use amqp_routing_inspector.Base.{List, [], ◌∷◌, ◌≡◌, Option}
use amqp_routing_inspector.Base.Map.{or_default}
use amqp_routing_inspector.Base.Text.{Text}
use amqp_routing_inspector.Config.{Config}
use amqp_routing_inspector.Config.Flags.{Setting, Flags}
use amqp_routing_inspector.Config.Load.Fields.{
  TextField, text_of, text_set, IntField, int_of, int_set, DelayField, delay_of, delay_set,
  warn_unrouted_set, show_version_set, cleaned,
}
use amqp_routing_inspector.Config.Load.Overlay.{Overlaid}
use amqp_routing_inspector.Config.Load.{Outside}

-- The value of the last setting that has one, or `a`.
pub latest : {A : Type 0} → (Setting → Option A) → A → List Setting → A
latest pick a [] = a
latest pick a (x ∷ xs) = latest pick (or_default a (pick x)) xs

module _ {E : Type 0} (outside : Outside E) where
  -- A config that Load returned: `base` is the defaults with the file, `d` that with the
  -- environment, and `settings` are the flags.
  pub record IsLayered (base : Config) (d : Config) (settings : List Setting) (c : Config)
      : Type 0 where
    pub overlaid : Overlaid outside base d
    pub texts :
        (f : TextField) → text_of f c ≡ cleaned f (latest (text_set f) (text_of f d) settings)
    pub ints : (f : IntField) → int_of f c ≡ latest (int_set f) (int_of f d) settings
    pub delays : (f : DelayField) → delay_of f c ≡ latest (delay_set f) (delay_of f d) settings
    pub warning : c.warn_unrouted ≡ latest warn_unrouted_set d.warn_unrouted settings
    pub version : c.show_version ≡ latest show_version_set d.show_version settings
