-- ===== src/Engine.antt =====
-- The coordinator of the VPN in crates/hopenconnect_core/src/engine.rs and engine/platform.rs: one
-- engine in the app, one in its VPN Extension, each behind one lock.
pub mod State
pub mod Diagnostics
pub mod Publish
pub mod Watchdog
pub mod Browser
pub mod Envelope
pub mod Stop
pub mod Attempt
pub mod Ownership
pub mod Keeps
pub mod Start
pub mod Extension
pub mod Recovery
pub mod Cleanup
pub mod Memory
pub mod Connection
pub mod Invariant
pub mod Requests
pub mod Delivery
pub mod Contract
mod Examples
pub mod Reach
