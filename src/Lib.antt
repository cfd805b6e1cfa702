-- ===== src/Lib.antt =====
-- A model of amqp-routing-inspector, which reads the events that a RabbitMQ broker's firehose publishes
-- and shows how exchanges route messages to queues.
--
-- The parts and how they meet. internal/config gives the settings. internal/connection dials the broker
-- with retries. internal/parser turns each firehose delivery into a RoutingEvent. internal/filter keeps
-- the traces that the user asks for, and internal/app hands them to a renderer. The DOT and Mermaid
-- renderers of internal/output fold them into a graph of internal/graph and print it at the end; the
-- others write a line for each trace, count, or pass it on to browsers. internal/firehose binds a
-- queue to the firehose's exchange and passes its deliveries on, and main puts the parts together.
--
-- Which file models what:
--   Model          internal/model/model.go: the records, and the destinations a trace resolves to
--   Config         internal/config/config.go: Config, Default (default_config), Validate (validate);
--                  Config.Flags: newFlagSet; Config.Load: Load with scanConfigPath, applyEnv and the
--                  flags; Config.Load.Fields: the fields and what sets each; Config.Load.Usage:
--                  Usage; Config.Numbers: Go's Atoi and ParseBool
--   Connection     internal/connection/manager.go: NewManager, ConnectWithRetry, nextBackoff
--   Parser         internal/parser/parser.go: Value (header tables, stringFromAny), Names (what the
--                  routing keys of the firehose name), Headers (headerString, parseRoutingKey),
--                  Destinations (parseDestinations and dedupeDestinations), Delivery (ParseDelivery)
--   App            internal/app/service.go: handleDelivery and the loop of runSession; the renderer is an
--                  interface (Renderer), and the events of the select are a list; App.Run: Run with its
--                  deferred calls, over the connections; App.New: New and NewWithDeps; App.Limit, App.Fold
--                  and App.Json: a session up to max-events, with a renderer that does not fail, and with the
--                  JSON renderer; App.Diagram: Run with the DOT and the Mermaid renderer
--   Filter         internal/filter/matcher.go: Topic (matchTopicKey, topicMatch), Glob (matchGlob and
--                  path.Match), Matcher (NewMatcher, Match)
--   Graph          internal/graph/graph.go: New, AddTrace, Edges; Graph.Render: DOT and Mermaid
--   Output         internal/output: the DOT renderer of renderer.go and the Mermaid renderer of mermaid.go;
--                  Output.Cli: the CLI renderer; Output.Json: the JSON renderer, with
--                  encoding/json on the structs of model.go, and a reader of JSON; Output.Choice: NewRenderer and
--                  NewRendererFromConfig; Output.Summary, Output.Prometheus, Output.Statsd, Output.Web: summary.go,
--                  prometheus.go, statsd.go and web.go; Output.Http: what a handler sends
--   Firehose       internal/firehose/consumer.go: NewConsumer and the calls of Consume, as a list of commands;
--                  Firehose.Forward: its goroutine and its cleanup function, step by step
--   Command        cmd/amqp-routing-inspector/main.go: main, from Load over New to the exit code
--   Base           what they share: tests, lists, Go strings and %q, integers, maps, sorting, counting by name
-- A function keeps its Go name in snake case. A method's receiver that it changes is an argument and the
-- result; an error is a value of a result type. The children named Tests hold runs.
--
-- How Go's values are represented:
--   - a string is the list of its runes. strings.TrimSpace is exact for unicode.IsSpace; strings.ToLower
--     is exact on U+0000 to U+00FF, the range that its model lower-cases. A message body is a list of
--     bytes; the text of a []byte header is taken byte by byte, which is right for ASCII.
--   - an int counter is a 64-bit pattern whose increment wraps; limits and durations are integers, and
--     the doubling of a duration wraps at 64 bits.
--   - a map is an association list with each key once; its order stands for the order in which Go walks
--     the map, which the language leaves open. A graph's edges hold their counts in place of pointers.
--   - a time is the nanoseconds since Go's zero time and a zone offset. The clock is an argument.
--   - a header value has the dynamic types that the parser tells apart; a type of another package comes
--     with the text that fmt prints for it.
--   - an attempt of ConnectWithRetry says what its pass of the loop meets: the dial's answer, and which
--     of the timer and the context Go's select takes. The list of attempts is the environment.
--
-- What comes from outside is an argument:
--   - the environment, time.ParseDuration, the decoding of a YAML file and the flag package (Outside in
--     Config.Load); the flag package answers with the flags that it set, and they are set as newFlagSet
--     binds them;
--   - the broker's answers to the calls of Consume, the network's answers to listening and dialling, and
--     the errors of writers;
--   - the texts that fmt makes of floating-point numbers and durations (Figures in Output.Summary), the
--     text of a time in time.RFC3339Nano, and strconv's table of printable runes beyond U+00FF;
--   - what time.Time's MarshalJSON makes of a time, a text or an error (Marshalled in Output.Json); the
--     text that the flag package prints for flags and their defaults; the page of internal/web.
-- A session's events, the passes of Run, the actions around the goroutine of Consume and around the web
-- renderer's clients are lists, in the order in which they take place; every interleaving is one. An
-- action on the web renderer is one critical section or one receive of a handler. A body preview in the
-- CLI line is quoted byte by byte, which is right for ASCII; in JSON it is decoded as UTF-8, as
-- encoding/json does, with the short escapes that it has since Go 1.22. A service's trace has a slice of
-- destinations that is not nil, so they print as an array, empty or not.
--
-- Fuel: path.Match reads a pattern with the pattern's length as fuel, and a class with the length of
-- the text behind its bracket; each piece and each range takes at least one rune, so neither runs out.
-- The reader of JSON takes the text's length, and no value that is printed needs more. All other loops
-- are by structural recursion. path.Match reads its pattern chunk by chunk, the model reads it whole
-- first: an ill-formed pattern is an error either way. It searches the UTF-8 bytes of a name, where a
-- star may stop within a rune, so what it promises is stated for names in ASCII.
--
-- Not modelled: how net/http listens, carries requests to the handlers and shuts down, and how amqp091
-- speaks with the broker; the methods of consumer.go that only pass a call on to amqp091; a parser
-- given to SetParser that is not of internal/parser. Log lines are left out but for those about a
-- delivery, and so are locks, since each operation runs under its renderer's lock.
pub mod Base
pub mod Model
pub mod Filter
pub mod Graph
pub mod Parser
pub mod Connection
pub mod Config
pub mod App
pub mod Output
pub mod Firehose
pub mod Command
