-- ===== src/Registry.antt =====
-- core/src/websocket/protocol.rs: the NT4 registry of topics, publishers and subscribers.
pub mod State
pub mod Core
pub mod Delete
pub mod Values
pub mod Access
pub mod Properties
pub mod Clients
pub mod Meta
pub mod Publish
pub mod Subscribe
pub mod Lifecycle
pub mod Invariant
pub mod FanOut
pub mod Naming
pub mod Deletion
mod Examples
