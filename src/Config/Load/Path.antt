-- ===== src/Config/Load/Path.antt =====
-- internal/config/config.go: scanConfigPath and the flags -config and -c.
use amqp_routing_inspector.Base.{[], ◌∷◌, ◌++◌, ◌≡◌, refl, nat_eq, list_eq, list_beq}
use amqp_routing_inspector.Base.Text.{
  Text, codes, is_space, trim_left, trim_right, trim_space, has_prefix,
}
use amqp_routing_inspector.Base.Text.Trim.{trim_right-append}
use amqp_routing_inspector.Config.{default_config}
use amqp_routing_inspector.Config.Load.{
  Outside, no_path, path_argument, scan_config_path, with_file, apply_env, before_flags,
}

trim_double_c : (p : Text) → trim_space (codes "--c=" ++ p) ≡ codes "--c=" ++ trim_right p
unfolding trim_space trim_left is_space
trim_double_c p = trim_right-append (codes "--c=") p (refl, (refl, (refl, (refl, tt))))

no_path_in_double_c : (s : Text) → path_argument (codes "--c=" ++ s) ≡ no_path
unfolding path_argument has_prefix list_beq
no_path_in_double_c s = refl

-- scanConfigPath passes over "--c=path", which the flag package takes for -c: Load then reads no
-- file, whatever the path, and goes on from the defaults and the environment.
pub before_flags_ignores :
    {E : Type 0} (outside : Outside E) (p : Text)
    → before_flags outside ((codes "--c=" ++ p) ∷ []) ≡ apply_env outside default_config
unfolding before_flags scan_config_path with_file
before_flags_ignores outside p = rw (trim_double_c p, no_path_in_double_c (trim_right p)) refl
