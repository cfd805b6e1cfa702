-- ===== src/Filter/Matcher/Laws.antt =====
-- internal/filter/matcher.go: what Match promises.
use amqp_routing_inspector.Filter.Glob.Parse.{IsPlain, match_glob-plain}
use amqp_routing_inspector.Base.{
  ℕ, inl, inr, All, Bool, true, ◌&&◌, List, [], ◌∷◌, ◌≡◌, refl, ◌≢◌, ◌⊎◌, ◌↔◌, Option, none, some,
  nat_eq, list_eq, ◌==◌, is_nil, arith, Any, list_beq_iff,
}
use amqp_routing_inspector.Base.Text.{Text, dot, split, trim_space, to_lower}
use amqp_routing_inspector.Base.Text.Trim.{trim_space-nil}
use amqp_routing_inspector.Model.{QueueDestination, RoutingTrace, resolved}
use amqp_routing_inspector.Filter.Topic.Laws.{TopicMatches, match_topic_key_iff}
use amqp_routing_inspector.Base.Text.Utf8.{IsAscii}
use amqp_routing_inspector.Filter.Glob.{match_glob}
use amqp_routing_inspector.Filter.Glob.Chunks.{NoSlash}
use amqp_routing_inspector.Filter.Glob.Complete.{GlobAccepts, match_glob_iff}
use amqp_routing_inspector.Filter.Matcher.{
  Matcher, new_matcher, is_match, match_queue, match_fields, matches,
}

is_match_iff : (r : Option Bool) → (is_match r ≡ true) ↔ (r ≡ some true)
is_match_iff none = (λ h. cc, λ h. cc)
is_match_iff (some b) = ground arith

match_queue_iff :
    (queue : Text) (dests : List QueueDestination)
    → (match_queue queue dests ≡ true) ↔ Any (λ d. match_glob queue d.queue_name ≡ some true) dests
unfolding match_queue
match_queue_iff queue [] = (λ h. cc, λ h. absurd h)
match_queue_iff queue (d ∷ dests) =
    ground (arith, is_match_iff (match_glob queue d.queue_name), match_queue_iff queue dests)

-- What a trace must have to pass the filters of a matcher. An empty filter asks for nothing.
pub record Passes (m : Matcher) (trace : RoutingTrace) : Type 0 where
  pub exchange : (m.exchange ≡ []) ⊎ GlobAccepts m.exchange trace.event.exchange_name
  pub event_type : (m.event_type ≡ []) ⊎ (to_lower trace.event.event_type ≡ m.event_type)
  pub routing_key :
      (m.routing_key ≡ [])
      ⊎ TopicMatches (split dot m.routing_key) (split dot trace.event.routing_key)
  pub queue : (m.queue ≡ []) ⊎ Any (λ d. GlobAccepts m.queue d.queue_name) (resolved trace)

-- A name in ASCII with no slash.
abbrev pub IsPlainName : Text → Type 0
IsPlainName name = IsAscii name × NoSlash name

module _ (c : ℕ) (glob : Text) where
  accepted_iff :
      (name : Text)
      → IsPlainName name
      → (match_glob (c ∷ glob) name ≡ some true) ↔ GlobAccepts (c ∷ glob) name
  accepted_iff name (a, h) = match_glob_iff (c ∷ glob) name (λ e. cc) a h

  accepted-Any :
      (ds : List QueueDestination)
      → All (λ d. IsPlainName d.queue_name) ds
      → Any (λ d. match_glob (c ∷ glob) d.queue_name ≡ some true) ds
      → Any (λ d. GlobAccepts (c ∷ glob) d.queue_name) ds
  accepted-Any [] a h = h
  accepted-Any (d ∷ ds) (a, rest) h = elim h [
    | inl x ↦ inl ((accepted_iff d.queue_name a).0 x)
    | inr y ↦ inr (accepted-Any ds rest y)
  ]

  matched-Any :
      (ds : List QueueDestination)
      → All (λ d. IsPlainName d.queue_name) ds
      → Any (λ d. GlobAccepts (c ∷ glob) d.queue_name) ds
      → Any (λ d. match_glob (c ∷ glob) d.queue_name ≡ some true) ds
  matched-Any [] a h = h
  matched-Any (d ∷ ds) (a, rest) h = elim h [
    | inl x ↦ inl ((accepted_iff d.queue_name a).1 x)
    | inr y ↦ inr (matched-Any ds rest y)
  ]

or_glob :
    (glob name : Text)
    → IsPlainName name
    → ((glob ≡ []) ⊎ (match_glob glob name ≡ some true)) ↔ ((glob ≡ []) ⊎ GlobAccepts glob name)
or_glob [] name a = (λ _. inl refl, λ _. inl refl)
or_glob (c ∷ glob) name a = (
  λ h. elim h [ inl e ↦ inl e | inr x ↦ inr ((accepted_iff c glob name a).0 x) ],
  λ h. elim h [ inl e ↦ inl e | inr x ↦ inr ((accepted_iff c glob name a).1 x) ],
)

or_glob-Any :
    (glob : Text) (ds : List QueueDestination)
    → All (λ d. IsPlainName d.queue_name) ds
    → ((glob ≡ []) ⊎ Any (λ d. match_glob glob d.queue_name ≡ some true) ds)
      ↔ ((glob ≡ []) ⊎ Any (λ d. GlobAccepts glob d.queue_name) ds)
or_glob-Any [] ds a = (λ _. inl refl, λ _. inl refl)
or_glob-Any (c ∷ glob) ds a = (
  λ h. elim h [ inl e ↦ inl e | inr x ↦ inr (accepted-Any c glob ds a x) ],
  λ h. elim h [ inl e ↦ inl e | inr x ↦ inr (matched-Any c glob ds a x) ],
)

-- The same, with the code's glob search in it.
record IsFound (m : Matcher) (trace : RoutingTrace) : Type 0 where
  exchange : (m.exchange ≡ []) ⊎ (match_glob m.exchange trace.event.exchange_name ≡ some true)
  event_type : (m.event_type ≡ []) ⊎ (to_lower trace.event.event_type ≡ m.event_type)
  routing_key :
      (m.routing_key ≡ [])
      ⊎ TopicMatches (split dot m.routing_key) (split dot trace.event.routing_key)
  queue : (m.queue ≡ []) ⊎ Any (λ d. match_glob m.queue d.queue_name ≡ some true) (resolved trace)

is_nil_iff : (s : Text) → (is_nil s ≡ true) ↔ (s ≡ [])
is_nil_iff [] = (λ _. refl, λ _. refl)
is_nil_iff (c ∷ s) = (λ h. cc, λ h. cc)

module _ (m : Matcher) (trace : RoutingTrace) where
  match_fields→IsFound : match_fields m trace ≡ true → IsFound m trace
  unfolding match_fields
  match_fields→IsFound h = ground (
    arith,
    is_match_iff (match_glob m.exchange trace.event.exchange_name),
    is_nil_iff m.exchange,
    is_nil_iff m.event_type,
    is_nil_iff m.routing_key,
    is_nil_iff m.queue,
    list_beq_iff (to_lower trace.event.event_type) m.event_type,
    match_topic_key_iff m.routing_key trace.event.routing_key,
    match_queue_iff m.queue (resolved trace),
  )

  IsFound→match_fields : IsFound m trace → match_fields m trace ≡ true
  unfolding match_fields
  IsFound→match_fields p = ground (
    arith,
    is_match_iff (match_glob m.exchange trace.event.exchange_name),
    is_nil_iff m.exchange,
    is_nil_iff m.event_type,
    is_nil_iff m.routing_key,
    is_nil_iff m.queue,
    list_beq_iff (to_lower trace.event.event_type) m.event_type,
    match_topic_key_iff m.routing_key trace.event.routing_key,
    match_queue_iff m.queue (resolved trace),
  )

  -- Match returns true exactly on the traces that pass every filter, for a trace whose exchange and
  -- resolved queues have names in ASCII with no slash: the exchange's name matches the exchange glob, the
  -- lower-cased event type is the one asked for, the words of the routing key match the topic pattern,
  -- and some resolved destination's queue matches the queue glob. An empty filter is passed by all, and
  -- an ill-formed glob by none.
  pub matches_iff :
      IsPlainName trace.event.exchange_name
      → All (λ d. IsPlainName d.queue_name) (resolved trace)
      → (matches (some m) trace ≡ true) ↔ Passes m trace
  unfolding matches
  matches_iff a queues =
      let (to, of) = or_glob m.exchange trace.event.exchange_name a in
      let (to', of') = or_glob-Any m.queue (resolved trace) queues in
      (
        λ h.
            let f = match_fields→IsFound h in
            record {
              exchange = to f.exchange;
              event_type = f.event_type;
              routing_key = f.routing_key;
              queue = to' f.queue;
            },
        λ p. IsFound→match_fields (record {
          exchange = of p.exchange;
          event_type = p.event_type;
          routing_key = p.routing_key;
          queue = of' p.queue;
        }),
      )

-- The filters are independent: a matcher built from four patterns accepts a trace exactly when the
-- four matchers built from one pattern each do.
pub matches-new_matcher :
    (exchange queue routing_key event_type : Text) (trace : RoutingTrace)
    → matches (some (new_matcher exchange queue routing_key event_type)) trace ≡ (
        matches (some (new_matcher exchange [] [] [])) trace
        && matches (some (new_matcher [] queue [] [])) trace
        && matches (some (new_matcher [] [] routing_key [])) trace
        && matches (some (new_matcher [] [] [] event_type)) trace)
unfolding matches new_matcher to_lower
matches-new_matcher exchange queue routing_key event_type trace = rw trim_space-nil (
    four_filters (trim_space exchange) (trim_space queue) (trim_space routing_key)
      (to_lower (trim_space event_type)) trace)
  where
    four_filters :
        (exchange queue routing_key event_type : Text) (trace : RoutingTrace)
        → match_fields
            (record {
              exchange = exchange;
              queue = queue;
              routing_key = routing_key;
              event_type = event_type;
            })
            trace
          ≡ (match_fields
                (record { exchange = exchange; queue = []; routing_key = []; event_type = [] })
                trace
              && match_fields
                  (record { exchange = []; queue = queue; routing_key = []; event_type = [] })
                  trace
              && match_fields
                  (record { exchange = []; queue = []; routing_key = routing_key; event_type = [] })
                  trace
              && match_fields
                  (record { exchange = []; queue = []; routing_key = []; event_type = event_type })
                  trace)
    four_filters exchange queue routing_key event_type trace = ground arith

-- Names in ASCII are compared as they are: a matcher built from a pattern with no special character asks for
-- an exchange of exactly that name.
matches_exact_exchange :
    (name : Text) (trace : RoutingTrace)
    → trim_space name ≢ []
    → All IsPlain (trim_space name)
    → IsAscii trace.event.exchange_name
    → matches (some (new_matcher name [] [] [])) trace
      ≡ (trim_space name == trace.event.exchange_name)
unfolding matches new_matcher to_lower match_fields
matches_exact_exchange name trace n a b = rw (trim_space-nil) (
    ground (
      arith,
      match_glob-plain (trim_space name) trace.event.exchange_name n a b,
      is_nil_iff (trim_space name),
    ))
