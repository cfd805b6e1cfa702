-- ===== src/Firehose/Start.antt =====
-- internal/firehose/consumer.go: the calls that Consume makes, and when it closes the channel.
use amqp_routing_inspector.Base.{
  ℕ, ◌+◌, inl, inr, true, false, List, [], ◌∷◌, ◌≡◌, ◌≢◌, refl, Option, none, some, is_nil,
  Bool-cases, take, ◌++◌,
}
use amqp_routing_inspector.Base.Int.{ℤ, is_positive}
use amqp_routing_inspector.Base.Text.{Text, codes, trim_space}
use amqp_routing_inspector.Firehose.{
  Consumer, new_consumer, Command, open_channel, qos, queue_bind, consume, close_channel, Declared,
  declared, declare_failed, Answers, nil_connection, open_channel_failed, qos_failed,
  ephemeral_declare_failed, named_declare_failed, bind_failed, consume_failed, Started, started,
  start_failed, declaration, declare_error, bind_and_consume, configure, start,
}

-- The exchange has a name, and the prefetch count is positive.
pub record IsConsumer (c : Consumer) : Type 0 where
  pub exchange_named : c.exchange ≢ []
  pub prefetch_positive : is_positive c.prefetch ≡ true

ne-nil : (s : Text) → is_nil s ≡ false → s ≢ []
ne-nil [] h = cc
ne-nil (c ∷ s) h = λ e. cc

-- NewConsumer gives a consumer with a named exchange and a positive prefetch count, whatever it is
-- given.
pub new_consumer-IsConsumer :
    (exchange queue_name consumer_tag : Text) (prefetch : ℤ)
    → IsConsumer (new_consumer exchange queue_name consumer_tag prefetch)
unfolding new_consumer
new_consumer-IsConsumer exchange queue_name consumer_tag prefetch = record {
  exchange_named = elim (Bool-cases (is_nil (trim_space exchange))) [
    | inl e ↦ rw e (λ q. cc)
    | inr e ↦ rw e (ne-nil (trim_space exchange) e)
  ];
  prefetch_positive = elim (Bool-cases (is_positive prefetch)) [
    | inl e ↦ rw e e
    | inr e ↦ rw e refl
  ];
}

-- How often the channel is closed.
unfoldable pub closes : List Command → ℕ
closes [] = 0
closes (close_channel ∷ cs) = closes cs + 1
closes (_ ∷ cs) = closes cs

-- How often Consume itself must close the channel: once where it was opened and an error is returned.
unfoldable pub due : {E : Type 0} → Started E → ℕ
due (started name) = 0
due (start_failed nil_connection) = 0
due (start_failed (open_channel_failed e)) = 0
due (start_failed _) = 1

-- The calls of a start that succeeds with a queue of that name.
abbrev pub full_start : Consumer → Text → List Command
full_start c name =
    open_channel
    ∷ qos c.prefetch 0 false
    ∷ declaration c
    ∷ queue_bind name (codes "#") c.exchange false
    ∷ consume name c.consumer_tag true false false false
    ∷ []

-- The calls up to the one that failed, and the closing of the channel.
abbrev cut_short : Consumer → Text → ℕ → List Command
cut_short c name n = take n (full_start c name) ++ close_channel ∷ []

-- The calls that go with a result.
unfoldable pub calls_of : {E : Type 0} → Consumer → Started E → List Command
unfolding declaration
calls_of c (started name) = full_start c name
calls_of c (start_failed nil_connection) = []
calls_of c (start_failed (open_channel_failed e)) = open_channel ∷ []
calls_of c (start_failed (qos_failed e)) = cut_short c [] 2
calls_of c (start_failed (ephemeral_declare_failed e)) = cut_short c [] 3
calls_of c (start_failed (named_declare_failed q e)) = cut_short c q 3
calls_of c (start_failed (bind_failed name x e)) = cut_short c name 4
calls_of c (start_failed (consume_failed name e)) = cut_short c name 5

answers : {E : Type 0} → Option E → Option E → Declared E → Option E → Option E → Answers E
answers to_open to_qos to_declare to_bind to_consume = record {
  to_open = to_open;
  to_qos = to_qos;
  to_declare = to_declare;
  to_bind = to_bind;
  to_consume = to_consume;
}

start-answers :
    {E : Type 0} (c : Consumer) (o q : Option E) (d : Declared E) (b s : Option E)
    → ((start c (some (answers o q d b s))).0 ≡ calls_of c (start c (some (answers o q d b s))).1)
      × (closes (start c (some (answers o q d b s))).0 ≡ due (start c (some (answers o q d b s))).1)
unfolding start configure bind_and_consume declaration declare_error calls_of closes due answers
start-answers c (some e) q d b s = (refl, refl)
start-answers c none (some e) d b s = (refl, refl)
start-answers c none none (declare_failed e) b s = elim (Bool-cases (is_nil c.queue_name)) [
  | inl h ↦ (simp h refl, simp h refl)
  | inr h ↦ (simp h refl, simp h refl)
]
start-answers c none none (declared n) (some e) s = elim (Bool-cases (is_nil c.queue_name)) [
  | inl h ↦ (simp h refl, simp h refl)
  | inr h ↦ (simp h refl, simp h refl)
]
start-answers c none none (declared n) none (some e) = elim (Bool-cases (is_nil c.queue_name)) [
  | inl h ↦ (simp h refl, simp h refl)
  | inr h ↦ (simp h refl, simp h refl)
]
start-answers c none none (declared n) none none = elim (Bool-cases (is_nil c.queue_name)) [
  | inl h ↦ (simp h refl, simp h refl)
  | inr h ↦ (simp h refl, simp h refl)
]

-- Consume makes the calls that its result says, in their order and no other, and closes the channel
-- exactly once where it opened one and returns an error; it leaves the channel open where it returns
-- none.
pub start_lem :
    {E : Type 0} (c : Consumer) (connection : Option (Answers E))
    → ((start c connection).0 ≡ calls_of c (start c connection).1)
      × (closes (start c connection).0 ≡ due (start c connection).1)
unfolding start calls_of closes due answers
start_lem c none = (refl, refl)
start_lem c (some a) = start-answers c a.to_open a.to_qos a.to_declare a.to_bind a.to_consume
