-- ===== src/Bridge.antt =====
-- What the two processes of the application pass to each other.
pub mod State
pub mod Envelope
