-- ===== src/Client.antt =====
-- client/src: the client of the server.
pub mod Gate
pub mod Publish
pub mod Reader
pub mod Wire
