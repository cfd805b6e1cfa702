-- ===== src/Output/Web.antt =====
-- internal/output/web.go: the clients of the server-sent events, and what each still has to read.
pub mod Stream
pub mod Parts
pub mod Clients
pub mod Ends
pub mod Prompt
mod Tests
use amqp_routing_inspector.Base.{
  ℕ, Bool, true, false, List, [], ◌∷◌, ◌++◌, map, Option, none, some, nat_eq, ◌==◌, ltb, length,
  is_nil, if◌then◌else◌,
}
use amqp_routing_inspector.Base.Text.{Text, codes}
use amqp_routing_inspector.Model.{Time, RoutingTrace}
use amqp_routing_inspector.Output.Http.{Response}
use amqp_routing_inspector.Output.Json.{Marshalled, payload, marshal_failed, marshal}

-- The capacity of a client's channel.
abbrev pub capacity : ℕ
capacity = 32

-- A client's channel and its handler: the channel's identity, what is in its buffer, and whether Close
-- has closed it. `read` holds the messages that the handler has taken, and `response` what it has
-- written to the browser.
pub record Client : Type 0 where
  pub id : ℕ
  pub buffer : List Text
  pub read : List Text
  pub response : Text
  pub shut : Bool

pub data Server : Type 0 where
  no_server serving stopped : Server

-- `clients` are the registered ones; a handler that still runs on a channel that is no longer
-- registered is in `leaving`, and those that have returned are in `gone`.
pub record WebRenderer : Type 0 where
  pub server : Server
  pub closed : Bool
  pub clients : List Client
  pub leaving : List Client
  pub gone : List Client

-- newWebRenderer, where `failure` is what listening on the address answers.
unfoldable pub new_web_renderer : {E : Type 0} → Text → Option E → WebRenderer × Option E
new_web_renderer addr failure = (
  record {
    server = if is_nil addr then no_server else serving;
    closed = false;
    clients = [];
    leaving = [];
    gone = [];
  },
  if is_nil addr then none else failure,
)

-- serveIndex, where `page` is the embedded page.
unfoldable pub serve_index : Text → Response
serve_index page = record {
  headers = (codes "Content-Type", codes "text/html; charset=utf-8") ∷ [];
  body = page;
}

-- The headers of serveSSE.
unfoldable pub event_headers : List (Text × Text)
event_headers =
    (codes "Content-Type", codes "text/event-stream")
    ∷ (codes "Cache-Control", codes "no-cache")
    ∷ (codes "Connection", codes "keep-alive")
    ∷ (codes "Access-Control-Allow-Origin", codes "*")
    ∷ []

-- What serveSSE has sent to a client.
unfoldable pub response_of : Client → Response
unfolding event_headers
response_of client = record { headers = event_headers; body = client.response }

-- `select { case ch <- msg: default: }`
unfoldable pub offer : Text → Client → Client
offer msg client =
    if ltb (length client.buffer) capacity
    then record client { buffer = client.buffer ++ msg ∷ [] }
    else client

-- What RenderTrace does with the trace's JSON text.
unfoldable pub broadcast : WebRenderer → Text → WebRenderer
unfolding offer
broadcast r msg = if r.closed then r else record r { clients = map (offer msg) r.clients }

abbrev pub send : {E : Type 0} → WebRenderer → Marshalled E → WebRenderer × Option E
send r (marshal_failed e) = (r, some e)
send r (payload msg) = (broadcast r msg, none)

-- RenderTrace; json.Marshal escapes HTML.
unfoldable pub render_trace :
    {E : Type 0} → (Time → Marshalled E) → WebRenderer → RoutingTrace → WebRenderer × Option E
unfolding broadcast marshal
render_trace marshal_time r trace = send r (marshal marshal_time true trace)

-- serveSSE registers a new channel, also after Close.
unfoldable pub register : ℕ → WebRenderer → WebRenderer
register id r = record r {
  clients = record { id = id; buffer = []; read = []; response = []; shut = false } ∷ r.clients;
}

-- The text of one event.
abbrev pub frame : Text → Text
frame msg = codes "data: " ++ (msg ++ codes "\n\n")

-- A handler behind one round of its loop.
pub data Handler : Type 0 where
  running : Client → Handler
  returned : Client → Handler

-- One receive: a message is written to the browser; from an empty channel that is closed the handler
-- returns, and on one that is open it waits.
abbrev pub taken : List Text → Client → Handler
taken [] client = if client.shut then returned client else running client
taken (msg ∷ msgs) client = running (record client {
  buffer = msgs;
  read = client.read ++ msg ∷ [];
  response = client.response ++ frame msg;
})

unfoldable pub take_message : Client → Handler
take_message client = taken client.buffer client

-- The clients whose handlers go on, and those whose handlers have returned.
abbrev pub Parted : Type 0
Parted = List Client × List Client

abbrev pub parted : Handler → List Client → Parted
parted (running client) rest = (client ∷ rest, [])
parted (returned client) rest = (rest, client ∷ [])

abbrev pub with_first : Client → Parted → Parted
with_first client (rest, out) = (client ∷ rest, out)

unfoldable pub take_by : ℕ → List Client → Parted
unfolding take_message
take_by id [] = ([], [])
take_by id (c ∷ cs) =
    let rest = take_by id cs in if c.id == id then parted (take_message c) cs else with_first c rest

-- The end of a handler whose request is done.
unfoldable pub depart : ℕ → List Client → Parted
depart id [] = ([], [])
depart id (c ∷ cs) =
    let rest = depart id cs in if c.id == id then (cs, c ∷ []) else with_first c rest

-- What follows for the renderer: a handler that returns is no longer registered.
abbrev pub with_parts : WebRenderer → Parted → Parted → WebRenderer
with_parts r (clients, out) (leaving, out') = record r {
  clients = clients;
  leaving = leaving;
  gone = out ++ (out' ++ r.gone);
}

abbrev pub shut_down : Client → Client
shut_down client = record client { shut = true }

abbrev pub stop : Server → Server
stop no_server = no_server
stop _ = stopped

-- Close, which never fails. Shutting the server down is a change of its state alone.
unfoldable pub close : WebRenderer → WebRenderer
close r = if r.closed then r else record r {
  server = stop r.server;
  closed = true;
  clients = [];
  leaving = map shut_down r.clients ++ r.leaving;
}

-- One critical section of the renderer, or one receive of a handler.
pub data Action : Type 0 where
  rendering : RoutingTrace → Action
  registering : ℕ → Action
  taking : ℕ → Action
  departing : ℕ → Action
  closing : Action

module _ {E : Type 0} (marshal_time : Time → Marshalled E) where
  unfoldable pub act : WebRenderer → Action → WebRenderer
  unfolding render_trace register take_by depart close
  act r (rendering trace) = (render_trace marshal_time r trace).0
  act r (registering id) = register id r
  act r (taking id) = with_parts r (take_by id r.clients) (take_by id r.leaving)
  act r (departing id) = with_parts r (depart id r.clients) (depart id r.leaving)
  act r closing = close r

  -- The state behind the actions.
  unfoldable pub after : WebRenderer → List Action → WebRenderer
  unfolding act
  after r [] = r
  after r (a ∷ acts) = after (act r a) acts
