-- ===== src/Stream.antt =====
-- internal/eventstream: the operator's connection to the Admin API's live audit stream.
pub mod Pool
pub mod Manager
pub mod Backoff
pub mod Lifecycle
pub mod Url
pub mod Dispatch
