-- ===== src/Filter/Matcher.antt =====
-- internal/filter/matcher.go: Matcher, NewMatcher and Match.
pub mod Laws
use amqp_routing_inspector.Base.{
  Bool, true, false, not, ◌&&◌, ◌||◌, List, [], ◌∷◌, Option, none, some, nat_eq, list_eq, ◌==◌,
  is_nil, any, if◌then◌else◌,
}
use amqp_routing_inspector.Base.Text.{Text, trim_space, to_lower}
use amqp_routing_inspector.Model.{QueueDestination, RoutingTrace, resolved}
use amqp_routing_inspector.Filter.Topic.{match_topic_key}
use amqp_routing_inspector.Filter.Glob.{match_glob}

pub record Matcher : Type 0 where
  pub exchange : Text
  pub queue : Text
  pub routing_key : Text
  pub event_type : Text

unfoldable pub new_matcher : Text → Text → Text → Text → Matcher
new_matcher exchange queue routing_key event_type = record {
  exchange = trim_space exchange;
  queue = trim_space queue;
  routing_key = trim_space routing_key;
  event_type = to_lower (trim_space event_type);
}

-- `ok, _ := matchGlob(...)`: an error counts as no match.
abbrev pub is_match : Option Bool → Bool
is_match none = false
is_match (some ok) = ok

-- The loop over the destinations.
unfoldable pub match_queue : Text → List QueueDestination → Bool
match_queue queue [] = false
match_queue queue (dest ∷ dests) =
    if is_match (match_glob queue dest.queue_name) then true else match_queue queue dests

-- Match on a matcher that is not nil.
unfoldable pub match_fields : Matcher → RoutingTrace → Bool
match_fields m trace =
    if not (is_nil m.exchange) && not (is_match (match_glob m.exchange trace.event.exchange_name))
    then false
    else if not (is_nil m.event_type) && not (to_lower trace.event.event_type == m.event_type)
    then false
    else if not (is_nil m.routing_key)
        && not (match_topic_key m.routing_key trace.event.routing_key)
    then false
    else if is_nil m.queue
    then true
    else match_queue m.queue (resolved trace)

-- Match; `none` is a nil matcher.
unfoldable pub matches : Option Matcher → RoutingTrace → Bool
unfolding match_fields
matches none trace = true
matches (some m) trace = match_fields m trace
