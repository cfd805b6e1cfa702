-- ===== src/App/Run/Calls.antt =====
-- internal/app/service.go: Run releases what it takes, in order.
use amqp_routing_inspector.Base.{
  Bool, true, false, List, [], ◌∷◌, ◌++◌, ◌≡◌, refl, inl, inr, ◌⊎◌, Option, none, some, arith,
  Bool-cases,
}
use amqp_routing_inspector.App.{
  Renderer, Service, SessionError, render_failed, max_events_reached, reconnect_needed,
  context_done, run_session,
}
use amqp_routing_inspector.App.Run.{
  Pass, context_over, refused, no_connection, consume_refused, session, RunError, RunResult,
  returned, waiting, Call, connect, consume, cleanup, close_connection, close_renderer, Run,
  on_error, after_session, run_passes, run, calling, leaving, close_last, consume_failed,
  session_failed,
}

-- What Run holds.
pub data Held : Type 0 where
  nothing : Held
  connection : Held
  consumer : Held
  renderer_closed : Held

-- What is held behind the calls, or `none` for calls out of order: a connection is opened where none is
-- held, and closed only behind its consumer; the renderer is closed where nothing is held, and last.
abbrev pub held : Held → List Call → Option Held
held h [] = some h
held nothing (connect ∷ cs) = held connection cs
held connection (consume ∷ cs) = held consumer cs
held consumer (cleanup ∷ cs) = held connection cs
held connection (close_connection ∷ cs) = held nothing cs
held nothing (close_renderer ∷ cs) = held renderer_closed cs
held _ _ = none

-- The loop returns with nothing held, or it waits between two passes or in a session.
abbrev Settled : {E : Type 0} → Option Held → RunResult E → Type 0
Settled h (returned e) = h ≡ some nothing
Settled h waiting = (h ≡ some nothing) ⊎ (h ≡ some consumer)

-- Run returns with the renderer closed and nothing else held, or it still waits.
unfoldable pub InOrder : {E : Type 0} → Option Held → RunResult E → Type 0
InOrder h (returned e) = h ≡ some renderer_closed
InOrder h waiting = (h ≡ some nothing) ⊎ (h ≡ some consumer)

module _ {R E : Type 0} (o : Renderer R E) (is_context_error : E → Bool) where
  abbrev IsSettled : Run R E → Type 0
  IsSettled r = Settled (held nothing r.calls) r.result

  on_error-IsSettled :
      (e : E) (failure : RunError E) (over : Bool) (s : Service R) (next : Run R E)
      → IsSettled next
      → IsSettled (on_error o is_context_error e failure over s next)
  unfolding on_error
  on_error-IsSettled e failure true s next h = elim (Bool-cases (is_context_error e)) [
    | inl q ↦ rw q refl
    | inr q ↦ rw q refl
  ]
  on_error-IsSettled e failure false s next h = elim (Bool-cases (is_context_error e)) [
    | inl q ↦ rw q h
    | inr q ↦ rw q refl
  ]

  session-IsSettled :
      (error : Option (SessionError E)) (over : Bool) (s : Service R) (next : Service R → Run R E)
      → ((t : Service R) → IsSettled (next t))
      → IsSettled (
          calling connect (
            calling consume (
              leaving o is_context_error error
                (after_session o is_context_error error over s next))))
  unfolding after_session
  session-IsSettled none over s next h = inr refl
  session-IsSettled (some max_events_reached) over s next h = refl
  session-IsSettled (some context_done) over s next h = refl
  session-IsSettled (some reconnect_needed) over s next h = h s
  session-IsSettled (some (render_failed e)) over s next h =
      on_error-IsSettled e (session_failed e) over s (next s) (h s)

  run_passes-IsSettled :
      (s : Service R) (ps : List (Pass E)) → IsSettled (run_passes o is_context_error s ps)
  unfolding run_passes
  run_passes-IsSettled s [] = inl refl
  run_passes-IsSettled s (context_over ∷ ps) = refl
  run_passes-IsSettled s (refused e ∷ ps) = refl
  run_passes-IsSettled s (no_connection ∷ ps) = refl
  run_passes-IsSettled s (consume_refused e over ∷ ps) =
      on_error-IsSettled e (consume_failed e) over s (run_passes o is_context_error s ps)
        (run_passes-IsSettled s ps)
  run_passes-IsSettled s (session events over ∷ ps) =
      session-IsSettled (run_session o s events).1 over (run_session o s events).0
        (λ t. run_passes o is_context_error t ps) (λ t. run_passes-IsSettled t ps)

held-append :
    (h : Held) (cs ds : List Call) (k : Held) → held h cs ≡ some k → held h (cs ++ ds) ≡ held k ds
held-append h [] ds k e = ground arith
held-append nothing (connect ∷ cs) ds k e = held-append connection cs ds k e
held-append connection (consume ∷ cs) ds k e = held-append consumer cs ds k e
held-append consumer (cleanup ∷ cs) ds k e = held-append connection cs ds k e
held-append connection (close_connection ∷ cs) ds k e = held-append nothing cs ds k e
held-append nothing (close_renderer ∷ cs) ds k e = held-append renderer_closed cs ds k e
held-append _ _ ds k e = ground arith

close_last-InOrder :
    {R E : Type 0} (close : R → R × Option E) (r : Run R E) (result : RunResult E)
    → r.result ≡ result
    → Settled (held nothing r.calls) result
    → InOrder (held nothing (close_last close r result).calls) (close_last close r result).result
unfolding InOrder
close_last-InOrder close r waiting q h = rw q h
close_last-InOrder close r (returned f) q h =
    held-append nothing r.calls (close_renderer ∷ []) nothing h

-- Whatever its passes meet, Run opens a connection only where it holds none, consumes on it at most
-- once, cleans up behind the consumer before it closes the connection, and closes each connection that
-- it opened before it goes on; where it returns, it holds nothing and has closed the renderer once, last
-- of all.
pub run-InOrder :
    {R E : Type 0} (o : Renderer R E) (close : R → R × Option E) (is_context_error : E → Bool)
    (s : Service R) (ps : List (Pass E))
    → InOrder
        (held nothing (run o close is_context_error s ps).calls)
        (run o close is_context_error s ps).result
unfolding run InOrder
run-InOrder o close is_context_error s ps =
    close_last-InOrder close (run_passes o is_context_error s ps)
      (run_passes o is_context_error s ps).result refl
      (run_passes-IsSettled o is_context_error s ps)
