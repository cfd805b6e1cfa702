-- ===== src/Config/Load/Usage.antt =====
-- internal/config/config.go: Usage, and the environment variables that it lists.
use mathlib.Core.Path.{fun_ext, subst}
use mathlib.Core.List.{append_assoc, map-append}
use amqp_routing_inspector.Base.{
  ℕ, Bool, List, [], ◌∷◌, ◌++◌, Option, ◌≡◌, refl, sym, ap, ◌∙◌, All, map, inl, inr, Bool-cases,
  ◌==◌, nat_eq, arith,
}
use amqp_routing_inspector.Base.Text.{Text, codes, split, trim_prefix}
use amqp_routing_inspector.Base.Text.Split.{Lacks, split-append}
use amqp_routing_inspector.Base.Int.{ℤ}
use amqp_routing_inspector.Config.{Config, default_config}
use amqp_routing_inspector.Config.Flags.{FlagDef, flag_set}
use amqp_routing_inspector.Config.Load.{
  Outside, Outcome, env_text, env_int, env_duration, env_bool, env_texts, apply_env, before_flags,
  with_file, with_flags, load, load_from, ok, err,
}

-- The variables, in the order of Usage.
abbrev pub listed : List Text
listed =
    codes "AMQP_INSPECTOR_RABBITMQ_URL"
    ∷ codes "AMQP_INSPECTOR_FIREHOSE_EXCHANGE"
    ∷ codes "AMQP_INSPECTOR_QUEUE_NAME"
    ∷ codes "AMQP_INSPECTOR_CONSUMER_TAG"
    ∷ codes "AMQP_INSPECTOR_OUTPUT_FORMAT"
    ∷ codes "AMQP_INSPECTOR_FILTER_EXCHANGE"
    ∷ codes "AMQP_INSPECTOR_FILTER_QUEUE"
    ∷ codes "AMQP_INSPECTOR_FILTER_ROUTING_KEY"
    ∷ codes "AMQP_INSPECTOR_FILTER_EVENT"
    ∷ codes "AMQP_INSPECTOR_MAX_EVENTS"
    ∷ codes "AMQP_INSPECTOR_PREFETCH"
    ∷ codes "AMQP_INSPECTOR_RECONNECT_INITIAL"
    ∷ codes "AMQP_INSPECTOR_RECONNECT_MAX"
    ∷ codes "AMQP_INSPECTOR_GRAPH_NAME"
    ∷ codes "AMQP_INSPECTOR_WARN_UNROUTED"
    ∷ codes "AMQP_INSPECTOR_SHOW_BODY_BYTES"
    ∷ codes "AMQP_INSPECTOR_METRICS_ADDR"
    ∷ codes "AMQP_INSPECTOR_STATSD_ADDR"
    ∷ codes "AMQP_INSPECTOR_WEB_ADDR"
    ∷ []

abbrev variable_lines : List Text → Text
variable_lines [] = []
variable_lines (name ∷ names) = codes "  " ++ (name ++ (codes "\n" ++ variable_lines names))

-- Usage, where `print_defaults` is the text that the flag package makes of flags and their defaults.
unfoldable pub usage : (List FlagDef → Config → Text) → Text
usage print_defaults =
    codes "Usage: amqp-routing-inspector [flags]\n\n"
    ++ (print_defaults flag_set default_config
        ++ (codes "\nEnvironment variables (override config file defaults):\n"
            ++ variable_lines listed))

abbrev newline : ℕ
newline = 10

-- The lines of a text, each without an indent of two spaces.
unfoldable pub unindented : Text → List Text
unfolding split trim_prefix
unindented text = map (λ line. trim_prefix line (codes "  ")) (split newline text)

split-later :
    (a b : Text)
    → (w : Text) × (ws : List Text) × (split newline (a ++ newline ∷ b)
        ≡ w ∷ (ws ++ split newline b))
unfolding split
split-later [] b = ([], [], refl)
split-later (c ∷ a) b =
    let (w, ws, q) = split-later a b in
    elim (Bool-cases (c == newline)) [
      | inl h ↦ ([], w ∷ ws, rw (h, q) refl)
      | inr h ↦ (c ∷ w, ws, rw (h, q) refl)
    ]

All-behind : (P : Text → Type 0) (us vs : List Text) → All P (us ++ vs) → All P vs
All-behind P [] vs a = a
All-behind P (u ∷ us) vs a = All-behind P us vs a.1

module _ (P : Text → Type 0) where
  -- What holds of all lines of a text holds of all lines behind one of its line feeds.
  unindented-All-later : (a b : Text) → All P (unindented (a ++ newline ∷ b)) → All P (unindented b)
  unfolding unindented
  unindented-All-later a b h =
      let (w, ws, q) = split-later a b in
      All-behind P (map (λ line. trim_prefix line (codes "  ")) ws) (unindented b)
        (rw (q, map-append (λ line. trim_prefix line (codes "  ")) ws (split newline b)) at h).1

  unindented-variable_lines :
      (names : List Text)
      → All (Lacks newline) names
      → All P (unindented (variable_lines names))
      → All P names
  unfolding unindented
  unindented-variable_lines [] l h = tt
  unindented-variable_lines (name ∷ names) (lacks, l) h =
      let (a, b) =
        rw
          (split-append newline (b' ' ∷ b' ' ∷ name) (variable_lines names)
            (omega arith, (omega arith, lacks)))
          at h in
      (a, unindented-variable_lines names l b)

  -- Usage has a line for each variable.
  unindented-usage :
      (print_defaults : List FlagDef → Config → Text)
      → All P (unindented (usage print_defaults))
      → All P listed
  unfolding usage
  unindented-usage print_defaults h =
      let flags = print_defaults flag_set default_config in
      let title = codes "\nEnvironment variables (override config file defaults):" in
      let opening = codes "Usage: amqp-routing-inspector [flags]\n\n" in
      unindented-variable_lines listed (omega arith) (
        unindented-All-later (opening ++ (flags ++ title)) (variable_lines listed) (
          subst (λ text. All P (unindented text))
            (sym (ap (◌++◌ opening) (append_assoc flags title (newline ∷ variable_lines listed))))
            h))

module _ {E : Type 0} (outside : Outside E) (lookup : Text → Option Text) where
  -- The same outside with another environment.
  abbrev pub elsewhere : Outside E
  elsewhere = record outside { lookup_env = lookup }

  abbrev Agrees : Text → Type 0
  Agrees name = outside.lookup_env name ≡ lookup name

  env_text-agree :
      (name current : Text)
      → Agrees name
      → env_text outside name current ≡ env_text elsewhere name current
  unfolding env_text
  env_text-agree name current h = rw h refl

  env_int-agree :
      (name : Text) (current : ℤ)
      → Agrees name
      → env_int outside name current ≡ env_int elsewhere name current
  unfolding env_int
  env_int-agree name current h = rw h refl

  env_duration-agree :
      (name : Text) (current : ℤ)
      → Agrees name
      → env_duration outside name current ≡ env_duration elsewhere name current
  unfolding env_duration
  env_duration-agree name current h = rw h refl

  env_bool-agree :
      (name : Text) (current : Bool)
      → Agrees name
      → env_bool outside name current ≡ env_bool elsewhere name current
  unfolding env_bool
  env_bool-agree name current h = rw h refl

  apply_env-agree : (c : Config) → All Agrees listed → apply_env outside c ≡ apply_env elsewhere c
  unfolding apply_env env_texts
  apply_env-agree c
        (
          url,
          (
            exchange,
            (
              queue,
              (
                tag,
                (
                  format,
                  (
                    f_exchange,
                    (
                      f_queue,
                      (
                        f_key,
                        (
                          f_event,
                          (
                            events,
                            (
                              prefetch,
                              (
                                initial,
                                (longest, (name, (warn, (shown, (metrics, (statsd, (web, _))))))),
                              ),
                            ),
                          ),
                        ),
                      ),
                    ),
                  ),
                ),
              ),
            ),
          ),
        ) =
      simp (
        url, exchange, queue, tag, format, f_exchange, f_queue, f_key, f_event, events, prefetch,
        initial, longest, name, warn, shown, metrics, statsd, web,
      )

  load_from-agree :
      (args : List Text) (o : Outcome E Config)
      → load_from outside args o ≡ load_from elsewhere args o
  unfolding with_flags
  load_from-agree args (err e) = refl
  load_from-agree args (ok c) = refl

  before_flags-agree :
      (args : List Text)
      → All Agrees listed
      → before_flags outside args ≡ before_flags elsewhere args
  unfolding before_flags with_file
  before_flags-agree args h = rw (fun_ext (λ c. apply_env-agree c h)) refl

  -- Usage names every environment variable that Load reads: where two environments agree on each line of
  -- its text, taken as a name without its indent, Load returns the same, whatever the arguments, the
  -- file and the flag package.
  pub load-agree :
      (print_defaults : List FlagDef → Config → Text) (args : List Text)
      → All Agrees (unindented (usage print_defaults))
      → load outside args ≡ load elsewhere args
  unfolding load
  load-agree print_defaults args h =
      ap (load_from outside args)
        (before_flags-agree args (unindented-usage Agrees print_defaults h))
      ∙ load_from-agree args (before_flags elsewhere args)
