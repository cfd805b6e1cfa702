-- ===== src/Filter/Tests.antt =====
-- Runs of the filter, and each theorem at a concrete input.
use amqp_routing_inspector.Base.{
  list_beq, true, false, [], ◌∷◌, ◌≡◌, refl, ◌↔◌, none, some, nat_eq, list_eq, ◌==◌, arith,
}
use amqp_routing_inspector.Base.Text.{codes, dot, split, trim_space, to_lower}
use amqp_routing_inspector.Model.{RoutingTrace, resolved, plain_event, to_queue}
use amqp_routing_inspector.Filter.Topic.{topic_match, match_topic_key}
use amqp_routing_inspector.Filter.Topic.Laws.{TopicMatches, topic_match_iff}
use amqp_routing_inspector.Filter.Glob.{match_glob}
use amqp_routing_inspector.Filter.Glob.Complete.{GlobAccepts, match_glob_iff}
use amqp_routing_inspector.Filter.Glob.Parse.{match_glob-plain}
use amqp_routing_inspector.Filter.Matcher.{Matcher, new_matcher, matches, match_queue}
use amqp_routing_inspector.Filter.Matcher.Laws.{Passes, matches_iff}

abbrev orders : RoutingTrace
orders = record {
  event = plain_event (codes "orders-eu") (codes "publish") (codes "order.created.v1");
  destinations = to_queue (codes "payments.q") ∷ to_queue (codes "audit.q") ∷ [];
}

abbrev strict : Matcher
strict = record {
  exchange = codes "orders-*";
  queue = codes "audit.?";
  routing_key = codes "order.#";
  event_type = codes "publish";
}

hash_in_the_middle : match_topic_key (codes "a.#.z") (codes "a.b.c.z") ≡ true
unfolding match_topic_key list_beq
hash_in_the_middle = refl

star_is_one_word : match_topic_key (codes "a.*") (codes "a.b.c") ≡ false
unfolding match_topic_key list_beq
star_is_one_word = refl

hash_is_no_word : match_topic_key (codes "a.#") (codes "a") ≡ true
unfolding match_topic_key list_beq
hash_is_no_word = refl

glob_class : match_glob (codes "q[0-9a]*") (codes "q7-x") ≡ some true
unfolding match_glob
glob_class = refl

glob_negated : match_glob (codes "q[^0-9]") (codes "q7") ≡ some false
unfolding match_glob
glob_negated = refl

glob_open_class : match_glob (codes "q[0-9") (codes "q7") ≡ none
unfolding match_glob
glob_open_class = refl

glob_escape : match_glob (codes "a\\*") (codes "a*") ≡ some true
unfolding match_glob
glob_escape = refl

-- A class takes the first slash's place only where the search stops first: the greedy choice
-- misses a match that the pattern has.
glob_greedy_slash : match_glob (codes "*[^x]*c") (codes "ab/c") ≡ some false
unfolding match_glob
glob_greedy_slash = refl

no_filter : matches (some (new_matcher (codes " ") [] [] [])) orders ≡ true
unfolding matches new_matcher trim_space to_lower
no_filter = refl

strict_accepts : matches (some strict) orders ≡ true
unfolding matches match_glob match_topic_key list_beq to_lower match_queue resolved
strict_accepts = refl

topic_match_iff_example :
    (topic_match (split dot (codes "order.#")) (split dot (codes "order.created")) ≡ true)
    ↔ TopicMatches (split dot (codes "order.#")) (split dot (codes "order.created"))
topic_match_iff_example =
    topic_match_iff (split dot (codes "order.#")) (split dot (codes "order.created"))

match_glob_iff_example :
    (match_glob (codes "o*?") (codes "orders") ≡ some true)
    ↔ GlobAccepts (codes "o*?") (codes "orders")
match_glob_iff_example =
    match_glob_iff (codes "o*?") (codes "orders") (λ e. cc) (omega arith) (omega arith)

-- A star skips bytes: behind one byte of the euro sign "?" takes each of the two others.
glob_bytes : match_glob (codes "*??") (0x20AC ∷ []) ≡ some true
unfolding match_glob
glob_bytes = refl

match_glob-plain_example :
    match_glob (codes "orders") (codes "orders2") ≡ some (codes "orders" == codes "orders2")
match_glob-plain_example =
    match_glob-plain (codes "orders") (codes "orders2") (λ e. cc) (omega arith) (omega arith)

matches_iff_example : (matches (some strict) orders ≡ true) ↔ Passes strict orders
unfolding resolved
matches_iff_example =
    matches_iff strict orders (omega arith, omega arith)
      ((omega arith, omega arith), ((omega arith, omega arith), tt))
