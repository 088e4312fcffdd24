-- ===== src/Guardian.antt =====
-- internal/guardian: the parent process that starts a worker, watches its heartbeats, and starts
-- it again with a growing delay; the worker's side of the control connection; and its messages.
pub mod Failure
pub mod Backoff
pub mod Watchdog
pub mod Message
pub mod Monitor
pub mod Parent
pub mod Worker
pub mod Agreement
mod Examples
