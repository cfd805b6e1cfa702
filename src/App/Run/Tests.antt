-- ===== src/App/Run/Tests.antt =====
-- Runs over several connections, and their theorems at concrete inputs.
use amqp_routing_inspector.Base.{
  ℕ, zero, suc, Bool, true, false, List, [], ◌∷◌, ◌++◌, ◌≡◌, refl, map, Option, none, some,
  list_beq,
}
use amqp_routing_inspector.Base.Int.{pos}
use amqp_routing_inspector.Base.Text.{codes, to_lower}
use amqp_routing_inspector.Base.Decimal.{increment}
use amqp_routing_inspector.Model.{Time, RoutingTrace}
use amqp_routing_inspector.Parser.Value.{str, field, no_fields}
use amqp_routing_inspector.Parser.Delivery.{Delivery, new_with_config, parse_delivery}
use amqp_routing_inspector.Filter.Matcher.{new_matcher, matches}
use amqp_routing_inspector.App.{Renderer, Service, connection_closed, run_session}
use amqp_routing_inspector.App.Laws.{recorder, arrivals, accepted}
use amqp_routing_inspector.App.Fold.{with_renderer}
use amqp_routing_inspector.App.Diagram.{graph_output, run-diagram}
use amqp_routing_inspector.Graph.{new}
use amqp_routing_inspector.Graph.Counts.{add_traces}
use amqp_routing_inspector.Output
use amqp_routing_inspector.Output.{as_dot, print, new_graph_renderer, RenderError, write_error}
use amqp_routing_inspector.App.Run.{
  Pass, consume_refused, session, returned, close_failed, context_over, first_error, run,
  run_passes,
}
use amqp_routing_inspector.App.Run.Calls.{nothing, held, InOrder, run-InOrder}
use amqp_routing_inspector.App.Run.Resume.{
  Interrupted, pass_of, all_deliveries, result_of, run_passes-Follows,
}

abbrev noon : Time
noon = record { since_zero = 12; zone = 0 }

abbrev message : Delivery
message = record {
  headers = some (field (codes "queue") (str (codes "pay.q")) no_fields);
  routing_key = codes "publish.orders";
  message_id = [];
  correlation_id = [];
  timestamp = noon;
  body = [];
}

abbrev service : Service (List RoutingTrace)
service = record {
  max_events = pos 3;
  warn_unrouted = false;
  parser = new_with_config (pos 0);
  matcher = new_matcher [] [] [] [];
  renderer = [];
  log = [];
  matched_events = 0;
}

-- Errors are numbers, of which 0 is the end of a context.
abbrev is_context_error : ℕ → Bool
is_context_error zero = true
is_context_error (suc e) = false

abbrev recording : Renderer (List RoutingTrace) ℕ
recording = recorder

abbrev closing : List RoutingTrace → List RoutingTrace × Option ℕ
closing r = (r, some 7)

abbrev passes : List (Pass ℕ)
passes =
    consume_refused 0 false
    ∷ session (arrivals ((noon, message) ∷ []) ++ connection_closed ∷ []) false
    ∷ session (arrivals ((noon, message) ∷ (noon, message) ∷ (noon, message) ∷ [])) false
    ∷ []

-- The error of closing the renderer is returned, as max-events is not an error.
closing_fails :
    (run recording closing is_context_error service passes).result
    ≡ returned (some (close_failed 7))
unfolding run run_passes parse_delivery list_beq matches new_matcher to_lower increment
closing_fails = refl

run-InOrder_example :
    InOrder
      (held nothing (run recording closing is_context_error service passes).calls)
      (run recording closing is_context_error service passes).result
run-InOrder_example = run-InOrder recording closing is_context_error service passes

abbrev sessions : List Interrupted
sessions =
    record { deliveries = (noon, message) ∷ []; connection_lost = true; over = false }
    ∷ record { deliveries = []; connection_lost = false; over = false }
    ∷ record {
      deliveries = (noon, message) ∷ (noon, message) ∷ (noon, message) ∷ [];
      connection_lost = true;
      over = false;
    }
    ∷ []

abbrev no_context_error : ℕ → Bool
no_context_error e = false

run_passes-Follows_example :
    ((run_passes recording no_context_error service (map pass_of sessions)).service
      ≡ (run_session recording service (arrivals (all_deliveries sessions))).0)
    × ((run_passes recording no_context_error service (map pass_of sessions)).result
        ≡ result_of (run_session recording service (arrivals (all_deliveries sessions))).1)
run_passes-Follows_example =
    run_passes-Follows recording no_context_error service sessions (λ e. refl)

-- A DOT diagram over three sessions and with no limit.
abbrev unlimited : Service (List RoutingTrace)
unlimited = record service { max_events = pos 0 }

abbrev no_render_error : RenderError ℕ → Bool
no_render_error e = false

run-diagram_example :
    let ts = accepted unlimited.parser unlimited.matcher (all_deliveries sessions) in
    let end =
      run
        (graph_output ℕ as_dot)
        (λ r. Output.close r (some 7))
        no_render_error
        (with_renderer unlimited (new_graph_renderer as_dot (codes "g")))
        (map pass_of sessions ++ context_over ∷ []) in
    (end.service.renderer.written ≡ print as_dot (add_traces (new (codes "g")) ts) ∷ [])
    × (end.result ≡ returned (first_error none (write_error (some 7))))
run-diagram_example =
    run-diagram ℕ as_dot no_render_error (codes "g") (some 7) unlimited none sessions (λ e. refl)
      refl
