-- ===== src/Server.antt =====
-- internal/server/server.go: the API's access check, the failover over the accounts, and the two ways
-- an answer is relayed.
pub mod Refusals
pub mod Classes
pub mod Relay
pub mod Collected
pub mod Agreement
pub mod Completions
pub mod Typing
pub mod Serving
pub mod Failover
pub mod Asking
pub mod Turns
mod Examples
