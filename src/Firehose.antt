-- ===== src/Firehose.antt =====
-- internal/firehose/consumer.go: NewConsumer, and how Consume starts.
pub mod Start
pub mod Forward
mod Tests
use amqp_routing_inspector.Base.{
  ℕ, Bool, true, false, not, List, [], ◌∷◌, ◌++◌, Option, none, some, is_nil, if◌then◌else◌,
}
use amqp_routing_inspector.Base.Int.{ℤ, pos, is_positive}
use amqp_routing_inspector.Base.Text.{Text, codes, trim_space}

-- The logger is left out.
pub record Consumer : Type 0 where
  pub exchange : Text
  pub queue_name : Text
  pub consumer_tag : Text
  pub prefetch : ℤ

-- NewConsumer
unfoldable pub new_consumer : Text → Text → Text → ℤ → Consumer
unfolding trim_space
new_consumer exchange queue_name consumer_tag prefetch =
    let trimmed = trim_space exchange in
    record {
      exchange = if is_nil trimmed then codes "amq.rabbitmq.trace" else trimmed;
      queue_name = trim_space queue_name;
      consumer_tag = trim_space consumer_tag;
      prefetch = if is_positive prefetch then prefetch else pos 200;
    }

-- The calls that Consume makes on the connection and its channel. The flags of a declaration are
-- durable, autoDelete, exclusive and noWait; those of consume are autoAck, exclusive, noLocal, noWait.
pub data Command : Type 0 where
  open_channel : Command
  qos : (prefetch : ℤ) (size : ℕ) (global : Bool) → Command
  queue_declare : (name : Text) (durable auto_delete exclusive no_wait : Bool) → Command
  queue_bind : (name key exchange : Text) (no_wait : Bool) → Command
  consume : (queue tag : Text) (auto_ack exclusive no_local no_wait : Bool) → Command
  close_channel : Command

-- A declared queue's name, or an error.
pub data Declared (E : Type 0) : Type 0 where
  declared : Text → Declared E
  declare_failed : E → Declared E

-- What the broker answers. Consume makes each call at most once, so these are all its answers.
pub record Answers (E : Type 0) : Type 0 where
  pub to_open : Option E
  pub to_qos : Option E
  pub to_declare : Declared E
  pub to_bind : Option E
  pub to_consume : Option E

pub data StartError (E : Type 0) : Type 0 where
  nil_connection : StartError E
  open_channel_failed : E → StartError E
  qos_failed : E → StartError E
  ephemeral_declare_failed : E → StartError E
  named_declare_failed : Text → E → StartError E
  bind_failed : Text → Text → E → StartError E
  consume_failed : Text → E → StartError E

-- The name of the queue that is consumed from, or the error.
pub data Started (E : Type 0) : Type 0 where
  started : Text → Started E
  start_failed : StartError E → Started E

-- The calls that were made, in their order, and the result.
abbrev pub StartRun : Type 0 → Type 0
StartRun E = List Command × Started E

abbrev called : {E : Type 0} → Command → StartRun E → StartRun E
called command (commands, result) = (command ∷ commands, result)

-- An error closes the channel and is returned.
abbrev or_close : {E : Type 0} → Option E → (E → StartError E) → StartRun E → StartRun E
or_close none f next = next
or_close (some e) f next = (close_channel ∷ [], start_failed (f e))

abbrev or_close_declared :
    {E : Type 0} → Declared E → (E → StartError E) → (Text → StartRun E) → StartRun E
or_close_declared (declared name) f next = next name
or_close_declared (declare_failed e) f next = (close_channel ∷ [], start_failed (f e))

-- The call of QueueDeclare in declareQueue.
unfoldable pub declaration : Consumer → Command
declaration c =
    if is_nil c.queue_name
    then queue_declare [] false true true false
    else queue_declare c.queue_name false true false false

-- How declareQueue wraps an error.
unfoldable pub declare_error : {E : Type 0} → Consumer → E → StartError E
declare_error c e =
    if is_nil c.queue_name then ephemeral_declare_failed e else named_declare_failed c.queue_name e

-- Consume behind the declaration.
unfoldable pub bind_and_consume : {E : Type 0} → Consumer → Answers E → Text → StartRun E
bind_and_consume c a name = called (queue_bind name (codes "#") c.exchange false) (
    or_close a.to_bind (bind_failed name c.exchange) (
      called (consume name c.consumer_tag true false false false)
        (or_close a.to_consume (consume_failed name) ([], started name))))

-- Consume behind the opening of the channel.
unfoldable pub configure : {E : Type 0} → Consumer → Answers E → StartRun E
unfolding declaration declare_error bind_and_consume
configure c a = called (qos c.prefetch 0 false) (
    or_close a.to_qos qos_failed (
      called (declaration c)
        (or_close_declared a.to_declare (declare_error c) (bind_and_consume c a))))

abbrev opened : {E : Type 0} → Option E → StartRun E → StartRun E
opened none next = next
opened (some e) next = ([], start_failed (open_channel_failed e))

-- Consume up to its goroutine; `none` is a nil connection.
unfoldable pub start : {E : Type 0} → Consumer → Option (Answers E) → StartRun E
unfolding configure
start c none = ([], start_failed nil_connection)
start c (some a) = called open_channel (opened a.to_open (configure c a))
