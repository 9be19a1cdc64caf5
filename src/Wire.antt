-- ===== src/Wire.antt =====
-- internal/devin/wire.go: the messages of the chat RPC.
pub mod Loop
pub mod Writes
pub mod Tools
pub mod Each
pub mod Numbers
pub mod Configuration
pub mod Prompt
pub mod Trajectory
pub mod Metadata
pub mod Request
pub mod Response
mod Examples
