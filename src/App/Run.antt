-- ===== src/App/Run.antt =====
-- internal/app/service.go: Run and runSession, over the connections.
pub mod Calls
pub mod Resume
pub mod Cancelled
mod Tests
use amqp_routing_inspector.Base.{Bool, List, [], ◌∷◌, ◌++◌, Option, none, some, if◌then◌else◌}
use amqp_routing_inspector.App.{
  Renderer, Service, SessionError, render_failed, max_events_reached, reconnect_needed,
  context_done, SessionEvent, run_session,
}

-- One pass of the loop of Run, by what its calls return. The log lines of Run are left out.
pub data Pass (E : Type 0) : Type 0 where
  -- ctx.Err() is an error at the top.
  context_over : Pass E
  -- The error of ConnectWithRetry.
  refused : E → Pass E
  no_connection : Pass E
  -- The error of Consume. The flag of this and of the next is whether ctx.Err() is an error behind it.
  consume_refused : E → Bool → Pass E
  session : List SessionEvent → Bool → Pass E

pub data RunError (E : Type 0) : Type 0 where
  connect_failed : E → RunError E
  nil_connection : RunError E
  consume_failed : E → RunError E
  session_failed : E → RunError E
  close_failed : E → RunError E

-- How Run ends. `waiting` is a run that still goes on when the passes end.
pub data RunResult (E : Type 0) : Type 0 where
  returned : Option (RunError E) → RunResult E
  waiting : RunResult E

-- The calls that take or release something.
pub data Call : Type 0 where
  connect : Call
  consume : Call
  cleanup : Call
  close_connection : Call
  close_renderer : Call

pub record Run (R : Type 0) (E : Type 0) : Type 0 where
  pub service : Service R
  pub calls : List Call
  pub result : RunResult E

abbrev pub stop : {R E : Type 0} → Service R → Option (RunError E) → Run R E
stop s e = record { service = s; calls = []; result = returned e }

abbrev pub calling : {R E : Type 0} → Call → Run R E → Run R E
calling c r = record r { calls = c ∷ r.calls }

module _ {R E : Type 0} (o : Renderer R E) (is_context_error : E → Bool) where
  -- Run's switch, on an error that consuming or rendering met: it may be the end of a context.
  unfoldable pub on_error : E → RunError E → Bool → Service R → Run R E → Run R E
  on_error e failure over s continued =
      if is_context_error e
      then (if over then stop s none else continued)
      else stop s (some failure)

  -- Run's switch. The context's own error means that ctx.Err() is an error now.
  unfoldable pub after_session :
      Option (SessionError E) → Bool → Service R → (Service R → Run R E) → Run R E
  unfolding on_error
  after_session none over s next = record { service = s; calls = []; result = waiting }
  after_session (some max_events_reached) over s next = stop s none
  after_session (some context_done) over s next = stop s none
  after_session (some reconnect_needed) over s next = next s
  after_session (some (render_failed e)) over s next = on_error e (session_failed e) over s (next s)

  -- The calls behind a session: runSession's deferred cleanup, and the closing of the connection. A
  -- session that still waits has made none.
  abbrev pub leaving : Option (SessionError E) → Run R E → Run R E
  leaving none r = r
  leaving (some e) r = calling cleanup (calling close_connection r)

  -- The loop of Run.
  unfoldable pub run_passes : Service R → List (Pass E) → Run R E
  unfolding on_error after_session run_session
  run_passes s [] = record { service = s; calls = []; result = waiting }
  run_passes s (context_over ∷ ps) = stop s none
  run_passes s (refused e ∷ ps) =
      stop s (if is_context_error e then none else some (connect_failed e))
  run_passes s (no_connection ∷ ps) = stop s (some nil_connection)
  run_passes s (consume_refused e over ∷ ps) =
      calling connect
        (calling close_connection (on_error e (consume_failed e) over s (run_passes s ps)))
  run_passes s (session events over ∷ ps) =
      let (s', error) = run_session o s events in
      calling connect
        (calling consume (leaving error (after_session error over s' (λ next. run_passes next ps))))

-- Run's deferred function: an error of closing the renderer is returned where there is no other.
abbrev pub first_error : {E : Type 0} → Option (RunError E) → Option E → Option (RunError E)
first_error (some f) e = some f
first_error none (some e) = some (close_failed e)
first_error none none = none

abbrev pub with_closed : {R E : Type 0} → Run R E → Option (RunError E) → R × Option E → Run R E
with_closed r f (renderer, e) = record {
  service = record r.service { renderer = renderer };
  calls = r.calls ++ close_renderer ∷ [];
  result = returned (first_error f e);
}

abbrev pub close_last : {R E : Type 0} → (R → R × Option E) → Run R E → RunResult E → Run R E
close_last close r waiting = r
close_last close r (returned f) = with_closed r f (close r.service.renderer)

-- Run
unfoldable pub run :
    {R E : Type 0}
    → Renderer R E
    → (R → R × Option E)
    → (E → Bool)
    → Service R
    → List (Pass E)
    → Run R E
unfolding run_passes
run o close is_context_error s ps =
    let r = run_passes o is_context_error s ps in close_last close r r.result
