-- ===== src/Output/Cli.antt =====
-- internal/output/renderer.go: the line of the CLI renderer.
use amqp_routing_inspector.Base.{ℕ, Bool, List, [], ◌∷◌, ◌++◌, map, Option, is_nil, if◌then◌else◌}
use amqp_routing_inspector.Base.Text.{Text, codes, trim_space, join}
use amqp_routing_inspector.Base.Text.Quote.{quoted}
use amqp_routing_inspector.Model.{Time, utc, QueueDestination, RoutingTrace, resolved}

-- emptyFallback
unfoldable pub empty_fallback : Text → Text → Text
unfolding trim_space
empty_fallback value fallback = if is_nil (trim_space value) then fallback else trim_space value

-- One part of formatDestinations.
unfoldable pub format_destination : QueueDestination → Text
unfolding empty_fallback trim_space
format_destination destination =
    let queue = empty_fallback destination.queue_name (codes "(unknown-queue)") in
    if is_nil (trim_space destination.binding_key)
    then queue
    else queue ++ (codes "(" ++ (destination.binding_key ++ codes ")"))

-- formatDestinations
unfoldable pub format_destinations : List QueueDestination → Text
unfolding format_destination join
format_destinations destinations =
    if is_nil destinations
    then codes "(none)"
    else join (codes ",") (map format_destination destinations)

-- The text of a time in UTC by time.RFC3339Nano, and strconv's table of printable runes.
module _ (rfc3339_nano : Time → Text) (printable : ℕ → Bool) where
  unfoldable pub body_part : Text → Text
  unfolding quoted
  body_part preview = if is_nil preview then [] else codes " body=" ++ quoted printable preview []

  -- The line, with the newline that fmt.Fprintln adds.
  unfoldable pub cli_line : RoutingTrace → Text
  unfolding body_part empty_fallback format_destinations resolved utc
  cli_line trace =
      let event = trace.event in
      rfc3339_nano (utc event.timestamp)
      ++ (codes " exchange="
          ++ (empty_fallback event.exchange_name (codes "(unknown-exchange)")
              ++ (codes " type="
                  ++ (empty_fallback event.exchange_type (codes "(unknown-type)")
                      ++ (codes " routing_key="
                          ++ (empty_fallback event.routing_key (codes "(no-routing-key)")
                              ++ (codes " message_id="
                                  ++ (empty_fallback event.message_id (codes "(no-message-id)")
                                      ++ (codes " destinations="
                                          ++ (format_destinations (resolved trace)
                                              ++ (body_part event.body_preview
                                                  ++ codes "\n")))))))))))

  -- RenderTrace, where `written` holds what was written and `answer` is the writer's error.
  unfoldable pub render_trace :
      {E : Type 0} → List Text → RoutingTrace → Option E → List Text × Option E
  unfolding cli_line
  render_trace written trace answer = (written ++ cli_line trace ∷ [], answer)
