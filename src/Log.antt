-- ===== src/Log.antt =====
-- The logs: what crates/hopenconnect_core/src/log_recording.rs keeps in memory, the names of its
-- files, and the filter of crates/hopenconnect_ui/src/log_filter.rs.
pub mod Filter
pub mod Recorded
pub mod Runtime
pub mod Archive
mod Examples
use h_openconnect.Base.{Text}

pub record DiagnosticEntry : Type 0 where
  pub level : Text
  pub message : Text
  pub timestamp : Text
