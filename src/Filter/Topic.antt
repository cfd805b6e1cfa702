-- ===== src/Filter/Topic.antt =====
-- internal/filter/matcher.go: matchTopicKey and topicMatch.
pub mod Laws
use amqp_routing_inspector.Base.{
  ℕ, Bool, true, false, ◌||◌, List, [], ◌∷◌, ◌≡◌, ◌≢◌, ◌⊎◌, nat_eq, list_eq, ◌==◌, is_nil,
  if◌then◌else◌,
}
use amqp_routing_inspector.Base.Text.{Text, codes, dot, split}

abbrev pub hash : Text
hash = codes "#"

abbrev pub star : Text
star = codes "*"

-- The loop over the split points: the key from each place on, the end included.
unfoldable pub any_suffix : (List Text → Bool) → List Text → Bool
any_suffix next [] = next []
any_suffix next (k ∷ ks) = next (k ∷ ks) || any_suffix next ks

-- What follows the test for "#".
unfoldable pub match_word : Text → (List Text → Bool) → List Text → Bool
match_word w next [] = false
match_word w next (k ∷ ks) = if w == star || w == k then next ks else false

unfoldable pub topic_match : List Text → List Text → Bool
unfolding any_suffix match_word
topic_match [] key = is_nil key
topic_match (w ∷ ws) key =
    let next = topic_match ws in
    if w == hash then if is_nil ws then true else any_suffix next key else match_word w next key

unfoldable pub match_topic_key : Text → Text → Bool
unfolding topic_match split
match_topic_key pattern routing_key =
    if is_nil pattern then true else topic_match (split dot pattern) (split dot routing_key)
