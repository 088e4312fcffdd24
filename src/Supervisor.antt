-- ===== src/Supervisor.antt =====
-- internal/supervisor: passive health of the upstream proxies, the order in which candidates are
-- tried, network epochs, the fatal signal, and the recovery actions. All state is in one record
-- behind one lock, so each method, or locked part of one, is a function from state to state.
pub mod Outcome
pub mod State
pub mod Health
pub mod Order
pub mod Record
pub mod Recovery
pub mod Status
pub mod Run
mod Examples
