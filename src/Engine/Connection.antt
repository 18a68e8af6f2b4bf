-- ===== src/Engine/Connection.antt =====
-- What the connection worker does to the state under the lock: `prepare_connect`,
-- `prepare_in_extension` and `attach_tun` of crates/hopenconnect_core/src/engine/connection.rs, in the
-- build with the native library. Each of them locks more than once; every time is an operation of its
-- own here, and what the native library answers in between is an argument. The interaction for the
-- user's answers (`self.auth`) and the last options are left out.
pub mod Ending
pub mod Tick
pub mod Keeps
use h_openconnect.Base.{
  ℕ, ◌+◌, ◌%◌, ◌^◌, ◌==◌, Bool, true, false, ◌&&◌, ◌||◌, not, Option, none, some, Text, codes, ◌++◌,
  if◌then◌else◌, text_eq,
}
use h_openconnect.Base.Int.{ℤ, pos, negsuc}
use h_openconnect.Model.Lifecycle.{
  connecting, authenticating, establishing, connected, failed, is_busy,
}
use h_openconnect.Model.Network.{NetworkSnapshot, SessionStats}
use h_openconnect.Model.Options.{VpnOptions}
use h_openconnect.Bridge.State.{PlatformStartOutcome}
use h_openconnect.Bridge.Envelope.{is_present}
use h_openconnect.Engine.State.{
  no_stats, Inner, SessionEngine, Env, EngineError, ok, err, Action, ◌>>=◌, ◌>>◌, return, change,
  saturating_suc,
}
use h_openconnect.Engine.Diagnostics.{set_lifecycle, push_diag}
use h_openconnect.Engine.Publish.{persist_platform}
use h_openconnect.Engine.Envelope.{with_inner}
use h_openconnect.Engine.Envelope.Merge.{is_terminal_outcome, is_pending, is_opening}
use h_openconnect.Engine.Attempt.{settle}

-- What the authentication or the resumption of a session yields; whether a native session waits for
-- the TUN.
pub record PreparedConnect : Type 0 where
  pub network : NetworkSnapshot
  pub options : VpnOptions
  pub pending : Bool

pub data ConnectResult : Type 0 where
  prepared : PreparedConnect → ConnectResult
  refused : Text → ConnectResult

abbrev pub yes_no : Bool → Text
yes_no true = codes "true"
yes_no false = codes "false"

-- `BACKEND` is a constant of the build.
abbrev pub prepare_line : Text → Text → Bool → Text
prepare_line server backend dry_run =
    codes "prepare connect to "
    ++ server
    ++ codes " (backend="
    ++ backend
    ++ codes ", dry_run="
    ++ yes_no dry_run
    ++ codes ")"

-- `generation += 1` wraps in a release build.
unfoldable pub fresh_connect : Env → Text → Bool → Inner → Inner
fresh_connect env line dry_run i =
    let j = record i {
      dry_run = dry_run;
      platform_vpn_running = false;
      platform_vpn_starting = false;
      platform_start_attempt_id = codes "";
      platform_start_outcome = PlatformStartOutcome.idle;
      platform_extension_attached = false;
      platform_session_handoff = none;
      generation = (i.generation + 1) % 2 ^ 64;
    } in
    let k = set_lifecycle connecting none j in
    push_diag env (codes "info") line
      (record k { snapshot = record (k.snapshot) { stats = no_stats } })

abbrev pub current_generation : Action ℕ
current_generation e = (ok e.inner.generation, e)

-- The first lock of `prepare_connect`, after the profile has been found valid.
unfoldable pub begin_connect : Env → Text → Text → Bool → Action ℕ
begin_connect env server backend dry_run e =
    if is_busy e.inner.snapshot.lifecycle
    then (err EngineError.already_busy, e)
    else if is_present e.inner.running_native || e.inner.pending_native
    then (err EngineError.session_active, e)
    else (do
      change (fresh_connect env (prepare_line server backend dry_run) dry_run)
      persist_platform env
      current_generation)
        e

-- The lock of `prepare_native`.
unfoldable pub begin_authentication : Env → Inner → Inner
begin_authentication env i =
    push_diag env (codes "info")
      (codes "authenticate in UI process and hand off the resulting cookie")
      (set_lifecycle authenticating none i)

abbrev pub get_or : Text → Option Text → Text
get_or default none = default
get_or default (some t) = t

-- A network without an MTU has that of the options.
abbrev pub mtu_or : ℕ → ℤ → ℕ
mtu_or default (pos n) = if n == 0 then default else n
mtu_or default (negsuc n) = default

abbrev pub show_network : Text → ℕ → NetworkSnapshot → Inner → Inner
show_network gateway mtu network i = record i {
  snapshot = record (i.snapshot) {
    network = network;
    stats = record (i.snapshot.stats) {
      assigned_ip = get_or (codes "pending") network.address;
      gateway = get_or gateway network.gateway;
      mtu = mtu_or mtu network.mtu;
    };
  };
}

-- The line without the address and the MTU.
abbrev pub ready_line : Text
ready_line = codes "auth ready"

unfoldable pub connect_prepared : Env → Text → PreparedConnect → Inner → Inner
connect_prepared env server p i =
    let j = show_network server p.options.mtu p.network i in
    let k = push_diag env (codes "info") ready_line (
      set_lifecycle establishing none
        (record j { pending_native = p.pending; platform_vpn_starting = true })) in
    record k {
      platform_session_handoff = some (record {
        attempt_id = codes "";
        options = p.options;
        network = p.network;
        updated_at = env.now_nanos;
      });
    }

unfoldable pub connect_failed : Env → Text → Inner → Inner
connect_failed env message i =
    let j = record i {
      platform_vpn_starting = false;
      platform_vpn_running = false;
      pending_native = false;
    } in
    push_diag env (codes "error") message (set_lifecycle failed (some message) j)

-- A publication whose failure is ignored.
abbrev pub publish_quietly : Env → SessionEngine → SessionEngine
publish_quietly env e = (persist_platform env e).1

-- The last lock of `prepare_connect`.
unfoldable pub finish_connect : Env → ℕ → Text → ConnectResult → Action (Unit {0})
finish_connect env generation server result e =
    if not (e.inner.generation == generation)
    then (err EngineError.stale_generation, e)
    else elim result [
      | prepared p ↦ (do change (connect_prepared env server p); persist_platform env) e
      | refused message ↦
          (err EngineError.native, publish_quietly env (with_inner (connect_failed env message) e))
    ]

abbrev pub next_generation : Inner → Inner
next_generation i = record i { generation = saturating_suc 64 i.generation }

-- The first lock of `prepare_in_extension`.
unfoldable pub begin_prepare_in_extension : Action ℕ
begin_prepare_in_extension = do change next_generation; current_generation

abbrev pub is_stale : ℕ → Text → Inner → Bool
is_stale generation attempt i =
    not (i.generation == generation)
    || not (text_eq i.platform_start_attempt_id attempt)
    || is_terminal_outcome i.platform_start_outcome

unfoldable pub resumed : PreparedConnect → Inner → Inner
resumed p i =
    let j = show_network (codes "") p.options.mtu p.network i in
    set_lifecycle establishing none
      (record j { pending_native = true; platform_vpn_starting = true })

-- Its last lock, with the session that was resumed.
unfoldable pub finish_prepare_in_extension : Env → ℕ → Text → PreparedConnect → Action (Unit {0})
finish_prepare_in_extension env generation attempt p e =
    if is_stale generation attempt e.inner
    then (err EngineError.stale_generation, e)
    else (do change (resumed p); persist_platform env) e

-- The first lock of `attach_tun`: the session that waits is taken.
unfoldable pub begin_attach_tun : SessionEngine → (Bool × ℕ × Text) × SessionEngine
begin_attach_tun e =
    let i = next_generation e.inner in
    (
      (i.pending_native, i.generation, i.platform_start_attempt_id),
      record e { inner = record i { pending_native = false } },
    )

unfoldable pub tun_attached : Env → ℕ → Text → Text → PreparedConnect → Inner → Inner
tun_attached env generation attempt line p i =
    let j = show_network (codes "") i.snapshot.stats.mtu p.network i in
    push_diag env (codes "info") line (
      set_lifecycle connected none (record j {
        running_native = some (record { attempt_id = attempt; generation = generation });
        platform_vpn_running = true;
        platform_vpn_starting = false;
        platform_start_outcome = settle PlatformStartOutcome.connected i.platform_start_outcome;
        connected_at = some env.now;
      }))

-- Its last lock, with the main loop that was spawned; the line names the descriptor.
unfoldable pub finish_attach_tun : Env → ℕ → Text → Text → PreparedConnect → Action (Unit {0})
finish_attach_tun env generation attempt line p e =
    if is_stale generation attempt e.inner || not (is_opening e.inner.snapshot.lifecycle)
    then (err EngineError.stale_generation, e)
    else (do change (tun_attached env generation attempt line p); persist_platform env) e
