-- ===== src/Egress.antt =====
-- internal/devin/egress.go: the outbound routes, how they are shown, rotated and dialled.
pub mod Specs
pub mod Routes
pub mod Socks
pub mod Masking
pub mod Rotation
pub mod Handshake
mod Examples
