-- ===== src/Filter/Topic/Laws.antt =====
-- internal/filter/matcher.go: what a topic pattern means, and that topicMatch decides it.
use amqp_routing_inspector.Base.{
  Bool, true, List, [], ◌∷◌, ◌≡◌, refl, ◌∙◌, ◌≢◌, ◌⊎◌, ◌↔◌, inl, inr, Bool-cases, nat_eq, list_eq,
  ◌==◌, is_nil, eq_of_beq, beq_of_eq, beq_of_ne, if◌then◌else◌, arith,
}
use amqp_routing_inspector.Base.Text.{Text, dot, split}
use amqp_routing_inspector.Filter.Topic.{
  hash, star, any_suffix, match_word, topic_match, match_topic_key,
}

-- AMQP topic patterns: "*" stands for one word, "#" for any number of words, none included, and any
-- other word for itself.
pub data TopicMatches : List Text → List Text → Type 0 where
  end : TopicMatches [] []
  word :
      {w k : Text} {ws ks : List Text}
      → w ≢ hash
      → (w ≡ star) ⊎ (w ≡ k)
      → TopicMatches ws ks
      → TopicMatches (w ∷ ws) (k ∷ ks)
  hash_none :
      {w : Text} {ws ks : List Text} → w ≡ hash → TopicMatches ws ks → TopicMatches (w ∷ ws) ks
  hash_more :
      {w k : Text} {ws ks : List Text}
      → w ≡ hash
      → TopicMatches (w ∷ ws) ks
      → TopicMatches (w ∷ ws) (k ∷ ks)

hash_all : (w : Text) → w ≡ hash → (ks : List Text) → TopicMatches (w ∷ []) ks
hash_all w e [] = hash_none e end
hash_all w e (k ∷ ks) = hash_more e (hash_all w e ks)

any_suffix_sound :
    (w : Text) (ws : List Text) (next : List Text → Bool)
    → w ≡ hash
    → ((ks : List Text) → next ks ≡ true → TopicMatches ws ks)
    → (ks : List Text) → any_suffix next ks ≡ true
    → TopicMatches (w ∷ ws) ks
unfolding any_suffix
any_suffix_sound w ws next e ih [] h = hash_none e (ih [] h)
any_suffix_sound w ws next e ih (k ∷ ks) h = elim (Bool-cases (next (k ∷ ks))) [
  | inl now ↦ hash_none e (ih (k ∷ ks) now)
  | inr later ↦ hash_more e (any_suffix_sound w ws next e ih ks (ground arith))
]

match_word_sound :
    (w : Text) (ws : List Text) (next : List Text → Bool)
    → w ≢ hash
    → ((ks : List Text) → next ks ≡ true → TopicMatches ws ks)
    → (ks : List Text) → match_word w next ks ≡ true
    → TopicMatches (w ∷ ws) ks
unfolding match_word
match_word_sound w ws next n ih [] h = cc
match_word_sound w ws next n ih (k ∷ ks) h = elim (Bool-cases (w == star)) [
  | inl s ↦ word n (inl (eq_of_beq w star s)) (ih ks (ground arith))
  | inr s ↦ elim (Bool-cases (w == k)) [
    | inl e ↦ word n (inr (eq_of_beq w k e)) (ih ks (ground arith))
    | inr e ↦ absurd (ground arith)
  ]
]

-- Whatever the code matches, the pattern matches.
pub topic_match_sound : (ws ks : List Text) → topic_match ws ks ≡ true → TopicMatches ws ks
unfolding topic_match
topic_match_sound [] [] h = end
topic_match_sound [] (k ∷ ks) h = cc
topic_match_sound (w ∷ ws) ks h = elim (Bool-cases (w == hash)) [
  | inl e ↦
      hash_case w ws (topic_match ws) (eq_of_beq w hash e) (topic_match_sound ws) ks (rw e at h)
  | inr n ↦
      match_word_sound w ws (topic_match ws) (λ e. cc (n, beq_of_eq w hash e))
        (topic_match_sound ws) ks (rw n at h)
]
  where
    hash_case :
        (w : Text) (ws : List Text) (next : List Text → Bool)
        → w ≡ hash
        → ((ks : List Text) → next ks ≡ true → TopicMatches ws ks)
        → (ks : List Text) → (if is_nil ws then true else any_suffix next ks) ≡ true
        → TopicMatches (w ∷ ws) ks
    hash_case w [] next e ih ks h = hash_all w e ks
    hash_case w (v ∷ ws) next e ih ks h = any_suffix_sound w (v ∷ ws) next e ih ks h

any_suffix_here :
    (next : List Text → Bool) (ks : List Text) → next ks ≡ true → any_suffix next ks ≡ true
unfolding any_suffix
any_suffix_here next [] h = h
any_suffix_here next (k ∷ ks) h = rw h

any_suffix_later :
    (next : List Text → Bool) (k : Text) (ks : List Text)
    → any_suffix next ks ≡ true
    → any_suffix next (k ∷ ks) ≡ true
unfolding any_suffix
any_suffix_later next k ks h = ground arith

topic_match-hash :
    (w : Text) (ws ks : List Text)
    → w ≡ hash
    → topic_match (w ∷ ws) ks ≡ (if is_nil ws then true else any_suffix (topic_match ws) ks)
unfolding topic_match
topic_match-hash w ws ks e = rw (beq_of_eq w hash e)

topic_match-word :
    (w k : Text) (ws ks : List Text)
    → w ≢ hash
    → (w ≡ star) ⊎ (w ≡ k)
    → topic_match (w ∷ ws) (k ∷ ks) ≡ topic_match ws ks
unfolding topic_match
topic_match-word w k ws ks n (inl e) = rw (beq_of_ne w hash n, beq_of_eq w star e)
topic_match-word w k ws ks n (inr e) = rw (beq_of_ne w hash n) (ground (arith, beq_of_eq w k e))

-- Whatever the pattern matches, the code matches.
pub topic_match_complete : {ws ks : List Text} → TopicMatches ws ks → topic_match ws ks ≡ true
topic_match_complete end = unfold topic_match in refl
topic_match_complete (word {w} {k} {ws} {ks} n e d) =
    topic_match-word w k ws ks n e ∙ topic_match_complete d
topic_match_complete (hash_none {w} {ws} {ks} e d) =
    rw (topic_match-hash w ws ks e)
      (ground (arith, any_suffix_here (topic_match ws) ks (topic_match_complete d)))
topic_match_complete (hash_more {w} {k} {ws} {ks} e d) = rw (topic_match-hash w ws (k ∷ ks) e) (
    ground (
      arith,
      any_suffix_later (topic_match ws) k ks,
      topic_match-hash w ws ks e,
      topic_match_complete d,
    ))

-- topicMatch decides the meaning of AMQP topic patterns: for every pattern and every key it returns
-- true exactly when the pattern matches the key.
pub topic_match_iff : (ws ks : List Text) → (topic_match ws ks ≡ true) ↔ TopicMatches ws ks
topic_match_iff ws ks = (topic_match_sound ws ks, topic_match_complete)

-- matchTopicKey returns true exactly when the pattern is empty, or its dot-separated words match the
-- dot-separated words of the routing key.
pub match_topic_key_iff :
    (pattern routing_key : Text)
    → (match_topic_key pattern routing_key ≡ true)
      ↔ ((pattern ≡ []) ⊎ TopicMatches (split dot pattern) (split dot routing_key))
unfolding match_topic_key
match_topic_key_iff [] routing_key = (λ _. inl refl, λ _. refl)
match_topic_key_iff (c ∷ p) routing_key =
    (λ h. inr (topic_match_sound _ _ h), elim [ inl e ↦ cc | inr d ↦ topic_match_complete d ])
