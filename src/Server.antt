-- ===== src/Server.antt =====
-- core/src/server.rs: the server around the registry: its read cache with compare-and-set, the
-- conversions to and from the protobuf plane, and the relay of telemetry.
pub mod Convert
pub mod Cache
pub mod Relay
pub mod Export
pub mod Requests
pub mod Serve
mod Sample
