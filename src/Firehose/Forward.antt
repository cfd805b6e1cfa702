-- ===== src/Firehose/Forward.antt =====
-- internal/firehose/consumer.go: the goroutine of Consume, and its cleanup function.
pub mod Safety
pub mod Ends
use amqp_routing_inspector.Base.{
  ℕ, ◌+◌, Bool, true, false, List, [], ◌∷◌, ◌++◌, Option, none, some, ◌≡◌, if◌then◌else◌,
}

-- Where the goroutine is. Behind the loop it runs the deferred calls, the cleanup first.
pub data Position (D : Type 0) : Type 0 where
  selecting : Position D
  holding : D → Position D
  cleaning : Position D
  closing_out : Position D
  finished : Position D

-- The goroutine with what it shares. `incoming` is what the source sent and the goroutine has not
-- taken, `passed` what the reader of `out` received, oldest first. No step reads `dropped`: it is what
-- the goroutine held when it saw the end of its context.
pub record Stream (D : Type 0) (E : Type 0) : Type 0 where
  pub incoming : List D
  pub source_closed : Bool
  pub cancelled : Bool
  pub position : Position D
  pub passed : List D
  pub out_closes : ℕ
  pub cleaned : Bool
  pub cleanup_error : Option E
  pub channel_closes : ℕ
  pub dropped : List D

unfoldable pub fresh_stream : {D E : Type 0} → Stream D E
fresh_stream = record {
  incoming = [];
  source_closed = false;
  cancelled = false;
  position = selecting;
  passed = [];
  out_closes = 0;
  cleaned = false;
  cleanup_error = none;
  channel_closes = 0;
  dropped = [];
}

-- The function under the sync.Once; `answer` is what closing the channel returns.
unfoldable pub cleanup : {D E : Type 0} → Option E → Stream D E → Stream D E
cleanup answer s =
    if s.cleaned
    then s
    else record s { cleaned = true; cleanup_error = answer; channel_closes = s.channel_closes + 1 }

-- A move of the goroutine. To pass a delivery on, the reader of `out` must take it.
pub data Move : Type 0 where
  see_end : Move
  receive : Move
  pass_on : Move
  clean_up : Move
  close_out : Move

-- The case of ctx.Done, in either select.
abbrev leave : {D E : Type 0} → Bool → Stream D E → List D → Option (Stream D E)
leave false s ds = none
leave true s ds = some (record s { position = cleaning; dropped = ds })

-- The case of a delivery, or of a closed source.
abbrev take_next : {D E : Type 0} → List D → Bool → Stream D E → Option (Stream D E)
take_next [] false s = none
take_next [] true s = some (record s { position = cleaning })
take_next (d ∷ ds) closed s = some (record s { incoming = ds; position = holding d })

-- One move where the goroutine is at the position; `none` is a move that it cannot make.
abbrev move_at : {D E : Type 0} → Option E → Position D → Move → Stream D E → Option (Stream D E)
move_at answer selecting see_end s = leave s.cancelled s []
move_at answer (holding d) see_end s = leave s.cancelled s (d ∷ [])
move_at answer selecting receive s = take_next s.incoming s.source_closed s
move_at answer (holding d) pass_on s =
    some (record s { position = selecting; passed = s.passed ++ d ∷ [] })
move_at answer cleaning clean_up s = some (record (cleanup answer s) { position = closing_out })
move_at answer closing_out close_out s =
    some (record s { position = finished; out_closes = s.out_closes + 1 })
move_at answer _ _ s = none

unfoldable pub move : {D E : Type 0} → Option E → Move → Stream D E → Option (Stream D E)
unfolding cleanup
move answer m s = move_at answer s.position m s

-- What the goroutine does, and what the others do: the broker's library sends or closes the source,
-- the context ends, and the caller calls the cleanup function.
pub data Action (D : Type 0) (E : Type 0) : Type 0 where
  own : Option E → Move → Action D E
  send : D → Action D E
  close_source : Action D E
  cancel : Action D E
  call_cleanup : Option E → Action D E

unfoldable pub act : {D E : Type 0} → Action D E → Stream D E → Option (Stream D E)
unfolding move cleanup
act (own answer m) s = move answer m s
act (send d) s =
    if s.source_closed then none else some (record s { incoming = s.incoming ++ d ∷ [] })
act close_source s = if s.source_closed then none else some (record s { source_closed = true })
act cancel s = some (record s { cancelled = true })
act (call_cleanup answer) s = some (cleanup answer s)

-- What an action sends.
abbrev pub sent_by : {D E : Type 0} → Action D E → List D
sent_by (send d) = d ∷ []
sent_by _ = []

-- The states that actions lead to from the fresh one, with all that was sent, oldest first.
pub data Reached {D E : Type 0} : List D → Stream D E → Type 0 where
  fresh : Reached [] fresh_stream
  later :
      {sent : List D} {s t : Stream D E} (a : Action D E)
      → Reached sent s
      → act a s ≡ some t
      → Reached (sent ++ sent_by a) t
