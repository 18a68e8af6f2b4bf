-- ===== src/Owner.antt =====
-- Ownership of the VPN Extension across processes: crates/hopenconnect_core/src/platform_owner.rs.
pub mod Record
pub mod Storage
pub mod Lease
pub mod Journal
pub mod Examples
