-- ===== src/Ui.antt =====
-- The logic of the user interface, crates/hopenconnect_ui/src.
pub mod Routes
