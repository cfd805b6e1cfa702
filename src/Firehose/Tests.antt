-- ===== src/Firehose/Tests.antt =====
-- Runs of Consume and of its goroutine, and their theorems at concrete inputs.
use amqp_routing_inspector.Base.{
  ℕ, ◌+◌, ◌≤◌, true, false, List, [], ◌∷◌, ◌≡◌, refl, Option, none, some, length, list_beq,
}
use amqp_routing_inspector.Base.Int.{pos, negsuc}
use amqp_routing_inspector.Base.Text.{Text, codes}
use amqp_routing_inspector.Firehose.{
  Consumer, new_consumer, open_channel, qos, queue_declare, close_channel, declare_failed, Answers,
  start_failed, ephemeral_declare_failed, start,
}
use amqp_routing_inspector.Firehose.Start.{calls_of, closes, due, start_lem}
use amqp_routing_inspector.Firehose.Forward.{
  Stream, holding, closing_out, finished, move, fresh_stream, Move, see_end, receive, pass_on,
  clean_up, close_out, own, send, cancel, call_cleanup, act, Reached, fresh, later,
}
use amqp_routing_inspector.Firehose.Forward.Safety.{IsSafe, Reached-IsSafe}
use amqp_routing_inspector.Firehose.Forward.Ends.{moves, moves_left, GoesOn, moves-GoesOn}

abbrev consumer : Consumer
consumer = new_consumer (codes " ") (codes " ") (codes "tag") (negsuc 3)

abbrev no_queue : Answers Text
no_queue = record {
  to_open = none;
  to_qos = none;
  to_declare = declare_failed (codes "refused");
  to_bind = none;
  to_consume = none;
}

-- An ephemeral queue is declared with the defaults, and the channel is closed where it is refused.
refused_queue : start consumer (some no_queue) ≡ (
  open_channel
      ∷ qos (pos 200) 0 false
      ∷ queue_declare [] false true true false
      ∷ close_channel
      ∷ [],
  start_failed (ephemeral_declare_failed (codes "refused")),
)
unfolding start new_consumer list_beq
refused_queue = refl

start_lem_example :
    ((start consumer (some no_queue)).0 ≡ calls_of consumer (start consumer (some no_queue)).1)
    × (closes (start consumer (some no_queue)).0 ≡ due (start consumer (some no_queue)).1)
start_lem_example = start_lem consumer (some no_queue)

-- A delivery 5 that is passed on, and a delivery 6 that is dropped as the context ends.
abbrev five_passed : Stream ℕ ℕ
five_passed = record fresh_stream { incoming = 6 ∷ []; passed = 5 ∷ [] }

five_passed-Reached : Reached (5 ∷ 6 ∷ []) five_passed
unfolding act fresh_stream
five_passed-Reached =
    later (own none pass_on)
      (later (own none receive) (later (send 6) (later (send 5) fresh refl) refl) refl) refl

abbrev ending : Stream ℕ ℕ
ending = record five_passed { incoming = []; cancelled = true; position = holding 6 }

ending-Reached : Reached (5 ∷ 6 ∷ []) ending
unfolding act fresh_stream
ending-Reached = later cancel (later (own none receive) five_passed-Reached refl) refl

abbrev over : Stream ℕ ℕ
over = record ending {
  position = finished;
  out_closes = 1;
  cleaned = true;
  cleanup_error = some 9;
  channel_closes = 1;
  dropped = 6 ∷ [];
}

-- The caller's cleanup closes the channel, and the goroutine's does not close it again.
over-Reached : Reached (5 ∷ 6 ∷ []) over
unfolding act fresh_stream
over-Reached =
    later (own none close_out)
      (later (own (some 8) clean_up)
        (later (call_cleanup (some 9)) (later (own none see_end) ending-Reached refl) refl) refl)
      refl

Reached-IsSafe_example : IsSafe (5 ∷ 6 ∷ []) over
Reached-IsSafe_example = Reached-IsSafe over-Reached

abbrev last_moves : List (Move × Option ℕ)
last_moves = (see_end, none) ∷ (clean_up, some 9) ∷ []

abbrev closing : Stream ℕ ℕ
closing = record over { position = closing_out; out_closes = 0 }

last_moves_made : moves last_moves ending ≡ some closing
unfolding moves move fresh_stream
last_moves_made = refl

moves-GoesOn_example :
    (length last_moves + moves_left closing ≤ moves_left ending) × GoesOn (some 9) closing
moves-GoesOn_example = moves-GoesOn last_moves ending closing (some 9) refl last_moves_made
