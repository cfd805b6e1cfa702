-- ===== src/Parser.antt =====
-- internal/parser/parser.go: firehose deliveries become routing events.
pub mod Value
pub mod Names
pub mod Headers
pub mod Destinations
pub mod Delivery
mod Tests
