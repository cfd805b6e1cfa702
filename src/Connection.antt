-- ===== src/Connection.antt =====
-- internal/connection/manager.go: connecting with retries and exponential backoff.
pub mod Laws
mod Tests
use amqp_routing_inspector.Base.{ℕ, ◌+◌, ◌-◌, ◌*◌, ◌%◌, ◌^◌, List, [], ◌∷◌, ltb, not, if◌then◌else◌}
use amqp_routing_inspector.Base.Int.{ℤ, pos, negsuc, ltb_ℤ, is_positive}
use amqp_routing_inspector.Base.Decimal.{word, increment, signed}
use amqp_routing_inspector.Base.Text.{Text}

-- The durations are in nanoseconds. The logger is left out, and the dial function is in the attempts.
pub record Manager : Type 0 where
  pub url : Text
  pub reconnect_initial : ℤ
  pub reconnect_max : ℤ

abbrev pub second : ℕ
second = 1000000000

abbrev at_least_initial : Text → ℤ → ℤ → Manager
at_least_initial url initial max = record {
  url = url;
  reconnect_initial = initial;
  reconnect_max = if ltb_ℤ max initial then initial else max;
}

-- NewManager
unfoldable pub new_manager : Text → ℤ → ℤ → Manager
new_manager url reconnect_initial reconnect_max =
    at_least_initial url (if is_positive reconnect_initial then reconnect_initial else pos second)
      (if is_positive reconnect_max then reconnect_max else pos (30 * second))

-- `current * 2`, which wraps.
abbrev pub double : ℤ → ℤ
double (pos n) = signed (n * 2 % word)
double (negsuc n) = signed ((word - (n * 2 + 2) % word) % word)

-- nextBackoff
unfoldable pub next_backoff : ℤ → ℤ → ℤ
next_backoff current max = let next = double current in if ltb_ℤ max next then max else next

-- What one pass of the loop meets: the dial returns a connection, or it fails and then either the
-- timer fires or the context is done. Where both are ready Go picks one: the attempt says which.
pub data Attempt (C : Type 0) : Type 0 where
  dialled : C → Attempt C
  timed_out : Attempt C
  cancelled : Attempt C

-- How the call ends. `retrying` is a call that is still running when the attempts end.
pub data Outcome (C : Type 0) : Type 0 where
  established : C → Outcome C
  context_done : Outcome C
  retrying : Outcome C

-- The outcome, the failures counted, and the delays for which a timer was set.
pub record Run (C : Type 0) : Type 0 where
  pub outcome : Outcome C
  pub failures : ℕ
  pub delays : List ℤ

abbrev ended : {C : Type 0} → Outcome C → ℕ → List ℤ → Run C
ended outcome failures delays = record { outcome = outcome; failures = failures; delays = delays }

abbrev waited : {C : Type 0} → ℤ → Run C → Run C
waited delay r = record r { delays = delay ∷ r.delays }

-- The loop of ConnectWithRetry.
unfoldable pub connect_from : {C : Type 0} → ℤ → ℤ → ℕ → List (Attempt C) → Run C
unfolding next_backoff
connect_from max delay attempt [] = ended retrying attempt []
connect_from max delay attempt (dialled conn ∷ attempts) = ended (established conn) attempt []
connect_from max delay attempt (cancelled ∷ attempts) =
    ended context_done (increment attempt) (delay ∷ [])
connect_from max delay attempt (timed_out ∷ attempts) =
    waited delay (connect_from max (next_backoff delay max) (increment attempt) attempts)

-- ConnectWithRetry
unfoldable pub connect_with_retry : {C : Type 0} → Manager → List (Attempt C) → Run C
unfolding connect_from
connect_with_retry m attempts = connect_from m.reconnect_max m.reconnect_initial 0 attempts
