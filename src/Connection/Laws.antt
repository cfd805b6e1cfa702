-- ===== src/Connection/Laws.antt =====
-- internal/connection/manager.go: the delays of the retries.
use Prim.Native.Nat.{min}
use amqp_routing_inspector.Base.{
  ℕ, zero, suc, ◌+◌, ◌*◌, ◌%◌, ◌^◌, ◌≤◌, ◌<◌, true, List, [], ◌∷◌, ◌++◌, ◌≡◌, refl, ◌∙◌, arith,
}
use amqp_routing_inspector.Base.Int.{ℤ, pos, negsuc, is_negative, to_ℕ}
use amqp_routing_inspector.Base.Decimal.{word, increment}
use amqp_routing_inspector.Base.Text.{Text}
use amqp_routing_inspector.Connection.{
  Manager, new_manager, next_backoff, Attempt, dialled, timed_out, cancelled, established,
  context_done, connect_from, connect_with_retry,
}

-- The delays of `n` failures in a row: doubled each time, and never more than `x`.
unfoldable pub schedule : ℕ → ℕ → ℕ → List ℤ
schedule i x zero = []
schedule i x (suc n) = pos (min i x) ∷ schedule (i * 2) x n

unfoldable pub timeouts : {C : Type 0} → ℕ → List (Attempt C)
timeouts zero = []
timeouts (suc n) = timed_out ∷ timeouts n

next_backoff-min :
    (i x : ℕ) → x < 2 ^ 62 → next_backoff (pos (min i x)) (pos x) ≡ pos (min (i * 2) x)
unfolding next_backoff
next_backoff-min i x h = ground arith

-- nextBackoff wraps: a delay of 2^62 nanoseconds or more that is within the bound is followed by a
-- negative one.
pub next_backoff_wraps :
    (n x : ℕ) → 2 ^ 62 ≤ n → n ≤ x → x < 2 ^ 63 → is_negative (next_backoff (pos n) (pos x)) ≡ true
unfolding next_backoff
next_backoff_wraps n x h k l = ground arith

-- A manager whose delays are positive, the first at most the bound.
unfoldable pub IsManager : Manager → Type 0
IsManager m =
    (m.reconnect_initial ≡ pos (to_ℕ m.reconnect_initial))
    × (m.reconnect_max ≡ pos (to_ℕ m.reconnect_max))
    × (0 < to_ℕ m.reconnect_initial)
    × (to_ℕ m.reconnect_initial ≤ to_ℕ m.reconnect_max)

-- NewManager gives a manager whose delays are positive, the first at most the bound, whatever it is
-- given.
pub new_manager-IsManager : (url : Text) (initial max : ℤ) → IsManager (new_manager url initial max)
unfolding new_manager IsManager
new_manager-IsManager url (pos i) (pos x) = (ground arith, ground arith, ground arith, ground arith)
new_manager-IsManager url (pos i) (negsuc x) =
    (ground arith, ground arith, ground arith, ground arith)
new_manager-IsManager url (negsuc i) (pos x) =
    (ground arith, ground arith, ground arith, ground arith)
new_manager-IsManager url (negsuc i) (negsuc x) = (refl, refl, omega arith, omega arith)

next_failure : (attempt n : ℕ) → (increment attempt + n) % word ≡ (attempt + suc n) % word
unfolding increment
next_failure attempt n = omega arith

zero_plus : (n : ℕ) → 0 + n ≡ n
zero_plus n = omega arith

below : (n : ℕ) → n < word → (n + 0) % word ≡ n
below n h = omega arith

increment_below : (n : ℕ) → increment n < word
unfolding increment
increment_below n = omega arith

min_left : (i x : ℕ) → i ≤ x → min i x ≡ i
min_left i x l = omega arith

module _ {C : Type 0} where
  connect_from-dialled :
      (i x attempt n : ℕ) (conn : C) (rest : List (Attempt C))
      → x < 2 ^ 62
      → attempt < word
      → connect_from (pos x) (pos (min i x)) attempt (timeouts n ++ dialled conn ∷ rest) ≡ record {
        outcome = established conn;
        failures = (attempt + n) % word;
        delays = schedule i x n;
      }
  unfolding connect_from timeouts schedule
  connect_from-dialled i x attempt zero conn rest h a = rw (below attempt a) refl
  connect_from-dialled i x attempt (suc n) conn rest h a =
      rw
        (
          next_backoff-min i x h,
          connect_from-dialled (i * 2) x (increment attempt) n conn rest h
              (increment_below attempt),
          next_failure attempt n,
        )
        refl

  connect_from-cancelled :
      (i x attempt n : ℕ) (rest : List (Attempt C))
      → x < 2 ^ 62
      → connect_from (pos x) (pos (min i x)) attempt (timeouts n ++ cancelled ∷ rest) ≡ record {
        outcome = context_done;
        failures = (attempt + suc n) % word;
        delays = schedule i x (suc n);
      }
  unfolding connect_from increment timeouts schedule
  connect_from-cancelled i x attempt zero rest h = refl
  connect_from-cancelled i x attempt (suc n) rest h =
      rw
        (
          next_backoff-min i x h,
          connect_from-cancelled (i * 2) x (increment attempt) n rest h,
          next_failure attempt (suc n),
        )
        refl

  start :
      (d b : ℤ) (i x : ℕ) (attempts : List (Attempt C))
      → d ≡ pos i
      → b ≡ pos x
      → i ≤ x
      → connect_from b d 0 attempts ≡ connect_from (pos x) (pos (min i x)) 0 attempts
  start d b i x attempts p q l = rw (p, q, min_left i x l) refl

  -- After `n` failures in a row ConnectWithRetry returns the connection that is dialled then, and it
  -- has waited by the schedule: the first delay, doubled each time, never above the bound. If the
  -- context is done at the next failure instead, it returns that, after one more delay was begun.
  -- The delays are positive, the first at most the bound, and the bound below 2^62 nanoseconds.
  pub connect_with_retry_lem :
      (m : Manager) (n : ℕ) (conn : C) (rest : List (Attempt C))
      → IsManager m
      → to_ℕ m.reconnect_max < 2 ^ 62
      → (connect_with_retry m (timeouts n ++ dialled conn ∷ rest) ≡ record {
        outcome = established conn;
        failures = n % word;
        delays = schedule (to_ℕ m.reconnect_initial) (to_ℕ m.reconnect_max) n;
      })
        × (connect_with_retry m (timeouts n ++ cancelled ∷ rest) ≡ record {
          outcome = context_done;
          failures = suc n % word;
          delays = schedule (to_ℕ m.reconnect_initial) (to_ℕ m.reconnect_max) (suc n);
        })
  unfolding connect_with_retry IsManager
  connect_with_retry_lem m n conn rest (p, q, o, l) h =
      let i = to_ℕ m.reconnect_initial in
      let x = to_ℕ m.reconnect_max in
      (
        start m.reconnect_initial m.reconnect_max i x (timeouts n ++ dialled conn ∷ rest) p q l
            ∙ rw (zero_plus n) at (connect_from-dialled i x 0 n conn rest h (omega arith)),
        start m.reconnect_initial m.reconnect_max i x (timeouts n ++ cancelled ∷ rest) p q l
            ∙ rw (zero_plus (suc n)) at (connect_from-cancelled i x 0 n rest h),
      )
