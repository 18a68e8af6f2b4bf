-- ===== src/Auth.antt =====
-- Interactive authentication: crates/hopenconnect_core/src/auth_bridge.rs.
pub mod Form
pub mod Credentials
pub mod Reply
pub mod Interaction
mod Examples
