-- ===== src/Connection/Tests.antt =====
-- Runs of the connection manager, and each theorem at a concrete input.
use amqp_routing_inspector.Base.{ℕ, suc, ◌%◌, ◌^◌, ◌-◌, true, [], ◌∷◌, ◌++◌, ◌≡◌, refl, arith}
use amqp_routing_inspector.Base.Int.{pos, negsuc, is_negative}
use amqp_routing_inspector.Base.Decimal.{word, increment}
use amqp_routing_inspector.Base.Text.{codes}
use amqp_routing_inspector.Connection.{
  Manager, new_manager, next_backoff, dialled, timed_out, cancelled, established, context_done,
  connect_with_retry,
}
use amqp_routing_inspector.Connection.Laws.{
  IsManager, schedule, timeouts, next_backoff_wraps, connect_with_retry_lem,
}

abbrev usual : Manager
usual = record { url = codes "amqp://localhost"; reconnect_initial = pos 2; reconnect_max = pos 5 }

backed_off :
    connect_with_retry {C = ℕ} usual (timed_out ∷ timed_out ∷ timed_out ∷ dialled 7 ∷ [])
    ≡ record { outcome = established 7; failures = 3; delays = pos 2 ∷ pos 4 ∷ pos 5 ∷ [] }
unfolding connect_with_retry increment
backed_off = refl

defaults :
    new_manager [] (pos 0) (negsuc 4)
    ≡ record { url = []; reconnect_initial = pos 1000000000; reconnect_max = pos 30000000000 }
unfolding new_manager
defaults = refl

next_backoff_wraps_example : is_negative (next_backoff (pos (2 ^ 62)) (pos (2 ^ 63 - 1))) ≡ true
next_backoff_wraps_example =
    next_backoff_wraps (2 ^ 62) (2 ^ 63 - 1) (omega arith) (omega arith) (omega arith)

connect_with_retry_lem_example :
    (connect_with_retry {C = ℕ} usual (timeouts 3 ++ dialled 7 ∷ [])
      ≡ record { outcome = established 7; failures = 3 % word; delays = schedule 2 5 3 })
    × (connect_with_retry {C = ℕ} usual (timeouts 3 ++ cancelled ∷ [])
        ≡ record { outcome = context_done; failures = suc 3 % word; delays = schedule 2 5 (suc 3) })
unfolding IsManager
connect_with_retry_lem_example =
    connect_with_retry_lem usual 3 7 [] (refl, refl, omega arith, omega arith) (omega arith)
