-- ===== src/Client.antt =====
-- internal/devin/client.go: the client of the backend, its attempts and the streams that it hands back.
pub mod Waits
pub mod Attempts
pub mod Stream
pub mod Sends
pub mod Bounds
pub mod Reach
pub mod Delays
pub mod Frames
mod Examples
