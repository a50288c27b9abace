-- ===== src/Harmony.antt =====
-- The Harmony hub's client: src/core/harmony_connection.cpp and .h, with src/core/connection_wake.h,
-- src/core/retry_backoff.h and src/core/host_validation.h.
pub mod Reconnect
pub mod Host
pub mod Url
pub mod Config
pub mod Wire
pub mod Link
pub mod Exchange
pub mod Connect
pub mod Queue
pub mod Backoff
pub mod Routes
mod Examples
