-- ===== src/Dashboard.antt =====
-- internal/dashboard: the panel, its persistent state, who may sign in, and what a session is worth.
pub mod Store
pub mod Bans
pub mod Session
pub mod Login
pub mod Saving
pub mod Ladder
pub mod Tokens
pub mod Pacing
pub mod Attempts
pub mod Acts
pub mod Access
pub mod Passwords
mod Examples
