-- ===== src/Output/Http.antt =====
-- internal/output: what a handler sends to an HTTP client.
use amqp_routing_inspector.Base.{List}
use amqp_routing_inspector.Base.Text.{Text}

pub record Response : Type 0 where
  pub headers : List (Text × Text)
  pub body : Text
