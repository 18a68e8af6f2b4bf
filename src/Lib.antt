-- ===== src/Lib.antt =====
-- A model of the core of H-OpenConnect, an OpenConnect VPN client for HarmonyOS: the Rust crates
-- crates/hopenconnect_core and, for small parts, crates/hopenconnect_ui.
--
-- The parts and their files:
--   * Route: IP prefixes, CIDR texts, and the removal of excluded routes
--     (`IpPrefix`, `normalize_route_cidr`, `materialize_excluded_routes` of
--     crates/hopenconnect_core/src/model.rs).
--   * Model: connection profiles and their validation, the network snapshot of a session, and the VPN
--     options made from both (`ConnectionProfile`, `VpnOptions::from_network` of the same file). The
--     routes of the options are handed to Route.
--   * Auth: the login forms, where configured credentials go, how a reply is bound to a form, and the
--     slot through which the connection worker waits for the user
--     (crates/hopenconnect_core/src/auth_bridge.rs). The worker and the UI meet in one lock; every
--     call under it is one step of a relation, in any order.
--   * Owner: the journal file by which the app and its VPN Extension agree on who owns a tunnel
--     (crates/hopenconnect_core/src/platform_owner.rs). Failures of the operating system are the
--     argument `Io`, the JSON codec is the argument `Json` with its round trip.
--   * Bridge: the payloads that the two processes exchange
--     (crates/hopenconnect_core/src/platform_state.rs and platform_ipc.rs).
--   * Engine: the coordinator of the platform VPN, `SessionEngine` of
--     crates/hopenconnect_core/src/engine.rs with the methods of engine/platform.rs, its lines
--     (engine/logging.rs) and its use of the shared memory (platform_ipc.rs). `Inner` is the state
--     under the lock; the app and the Extension are two values of `SessionEngine` that read each
--     other's newest frame. A method is a function from the engine to its answer and the engine
--     afterwards, which keeps what was changed before an error; `Env` has the clocks and the answers
--     of the shared memory during one call, `Host` those of the journal and the leases of Owner.
--     Merging a frame is in Engine/Envelope, starting in Engine/Start, binding and cleaning up in
--     Engine/Extension, stopping in Engine/Stop, Engine/Recovery and Engine/Cleanup; Engine/Memory binds
--     the shared memory, Engine/Requests has the requests to open a sign-in page, Engine/Connection what
--     the worker of engine/connection.rs does under the lock; Engine/Reach has the steps of one engine.
--   * Log: the log buffers, their archives and the filter of the log page
--     (crates/hopenconnect_core/src/log_recording.rs, crates/hopenconnect_ui/src/log_filter.rs).
--   * Ui: the routes of the app (crates/hopenconnect_ui/src/view/route.rs).
--   * Base: numbers, texts, lists, 32-bit integers and IP addresses as the standard library of Rust
--     has them. A text is a list of code points.
--
-- State is a record and an operation returns the new state with its result; clocks, the contents of
-- files and the answers of the operating system are arguments. Unsigned integers are ℕ with the
-- saturation, wrap-around and bounds of the code written out.
--
-- Bounds: `subtract` recurses on fuel 129, one more than the width of an IPv6 address, which the
-- theorems on it show to be enough; `decimal` prints at most 40 digits, more than a u128 has.
--
-- Not modelled: libopenconnect sessions, threads and file descriptors
-- (crates/hopenconnect_core/src/native_session.rs), the files of the profile
-- store, the views and the calls of the platform in crates/hopenconnect_ui, and the ArkTS sources
-- under entry/. A poisoned lock is not modelled either.
mod Base
pub mod Route
pub mod Model
pub mod Auth
pub mod Owner
pub mod Log
pub mod Bridge
pub mod Engine
pub mod Ui
