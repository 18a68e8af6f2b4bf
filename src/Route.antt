-- ===== src/Route.antt =====
-- The route policy of crates/hopenconnect_core/src/model.rs.
pub mod Prefix
pub mod Cidr
pub mod Exclusion
mod CidrTests
mod Examples
