-- ===== src/Model.antt =====
-- The data model: crates/hopenconnect_core/src/model.rs.
pub mod Lifecycle
pub mod Kinds
pub mod Profile
pub mod Validate
pub mod Network
pub mod Options
pub mod FromNetwork
