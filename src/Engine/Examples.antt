-- ===== src/Engine/Examples.antt =====
-- The theorems on the coordinator at concrete engines: the app, a VPN Extension, and what they answer.
use h_openconnect.Base.{
  ◌<◌, ◌≡◌, refl, arith, true, false, none, some, [], ◌∷◌, codes, Text, text_eq,
}
use h_openconnect.Bridge.State.{PlatformStartOutcome}
use h_openconnect.Bridge.Envelope.{PlatformEnvelope}
use h_openconnect.Owner.Record.{Result}
use h_openconnect.Owner.Storage.{Entry, LockOutcome}
use h_openconnect.Owner.Examples.{codec, no_failure, app}
use h_openconnect.Engine.State.{
  ◌>>=◌, Inner, new_inner, PlatformIpc, SessionEngine, PublishOutcome, RemoteRead, Env, new, ok,
}
use h_openconnect.Engine.Publish.{
  publish_snapshot, notify_platform_start, persist_platform, platform_state,
}
use h_openconnect.Engine.Publish.Frames.{persist-revision}
use h_openconnect.Engine.Envelope.{
  apply_platform_envelope, synced, sync_platform, apply_state, accept_frame, adopts_attempt,
  remote_attempt_matches, remote_advanced, note_frame, drop_pending_native, observe, fail_heartbeat,
}
use h_openconnect.Engine.Envelope.GivenUp.{GoneSilent, envelope-GoneSilent}
use h_openconnect.Engine.Envelope.Ending.{end_reaches_app}
use h_openconnect.Bridge.State.{PlatformVpnState}
use h_openconnect.Engine.Envelope.Rules.{Settled, Ended}
use h_openconnect.Engine.Envelope.Safety.{
  envelope-attempt, envelope-Ended, envelope-stop, sync-attempt,
}
use h_openconnect.Engine.Watchdog.{heartbeat_watchdog_expired, heartbeat_frozen}
use h_openconnect.Engine.Stop.{begin_platform_vpn_os_stop, complete_platform_vpn_os_stop, fenced_at}
use h_openconnect.Base.{List}
use h_openconnect.Engine.Stop.Fence.{StopCall, called, EndsIn, stops_one_by_one, called_all}
use h_openconnect.Engine.Recovery.{claim_current_platform_vpn_stop}
use h_openconnect.Engine.Ownership.{Host}
use h_openconnect.Engine.Attempt.{request_platform_vpn_stop}
use h_openconnect.Engine.Start.{begin_platform_vpn_start_for_intent}
use h_openconnect.Engine.Extension.{extension_answer}
use h_openconnect.Engine.Diagnostics.{push_diag}
use h_openconnect.Engine.Delivery.{frame_of, CanAsk, stop_reaches_extension}
use h_openconnect.Engine.Envelope.Merge.{
  merge, merge_snapshot, merge_transaction, merge_attachment, merge_intent, merge_outcome,
  release_leases, fail_pending,
}
use h_openconnect.Engine.Reach.{
  created, next, intends, begins, initializes, syncs, disconnects, on_inner,
}
use h_openconnect.Engine.Memory.{initialize_platform_shared_memory}
use h_openconnect.Engine.Connection.Ending.{begin_disconnect}
use h_openconnect.Base.{trim, decimal, digits_fuel, is_whitespace, trim_start_matches}
use h_openconnect.Owner.Record.{
  validate_attempt_id, validate_identity, is_complete, to_stored, validate_record,
}
use h_openconnect.Owner.Storage.{lock_journal, read_unlocked, write_unlocked}
use h_openconnect.Owner.Journal.{read, create_pending_exact}
use h_openconnect.Owner.Lease.{acquire_owner_lease_exact, validate_lease_record}
use h_openconnect.Engine.Start.{
  started, intent_refusal, start_refusal, claim_attempt, next_attempt_id,
}
use h_openconnect.Owner.Record.{
  ProcessIdentity, PlatformVpnOwnerLeaseRole, identity_eq, from_stored,
}
use h_openconnect.Owner.Journal.{upgrade_attached_exact}
use h_openconnect.Owner.Journal.Rules.{written}
use h_openconnect.Owner.Lease.{observe_owner_lease_exact, lease_eq}
use h_openconnect.Owner.Examples.{
  encode, decode, put_text, take_text, put_identity, take_identity, put_extension, take_extension,
  extension_of, after_attempt,
}
use h_openconnect.Engine.Ownership.{platform_owner_lease_record}
use h_openconnect.Engine.Start.{pending_journal}
use h_openconnect.Engine.Envelope.{sync_platform_for_binding}
use h_openconnect.Engine.Extension.{
  bind_platform_vpn_start, reopened, attached_state, attachment_changed,
}
use h_openconnect.Engine.Contract.Attached.{Attached, bind-Attached}
use h_openconnect.Bridge.Envelope.{is_present}
use h_openconnect.Engine.Contract.Begun.{Begun, begin-Begun}
use h_openconnect.Engine.Reach.Safety.{EngineReach-Settled}
use h_openconnect.Engine.Stop.{advance_platform_vpn_intent}

abbrev clock : Env
clock = record {
  now = 30000;
  now_nanos = 5;
  now_millis = 1000;
  disk = record { marker = none; builds = false };
  runtime_logs = [];
  publish = PublishOutcome.published;
  remote = RemoteRead.no_frame;
}

abbrev attempt_1 : Text
attempt_1 = codes "5-1"

abbrev empty_envelope : PlatformEnvelope
empty_envelope = record {
  state = none;
  session_handoff = none;
  browser_request = none;
  browser_request_ack = none;
}

-- The start is delivered, and the Extension has it.
abbrev delivered : Inner
delivered = record new_inner {
  platform_start_attempt_id = attempt_1;
  platform_start_outcome = PlatformStartOutcome.connected;
  platform_extension_attached = true;
  platform_vpn_running = true;
  platform_remote_state_seen_at = some 10000;
  platform_remote_stale_since = some 20000;
}

abbrev ui_memory : PlatformIpc
ui_memory = record { is_ui = true; published = empty_envelope; lane = none }

abbrev vpn_memory : PlatformIpc
vpn_memory = record ui_memory { is_ui = false }

abbrev app_engine : SessionEngine
app_engine = record (new Entry.absent) { inner = delivered; platform_ipc = some ui_memory }

abbrev vpn_engine : SessionEngine
vpn_engine = record app_engine { platform_ipc = some vpn_memory }

can_ask : CanAsk attempt_1 (synced clock app_engine).inner
unfolding sync_platform
can_ask = record {
  named = refl;
  current = refl;
  uncleaned = refl;
  has_extension = refl;
  unasked = refl;
}

bound : (synced clock app_engine).platform_ipc ≡ some ui_memory
unfolding sync_platform
bound = refl

abbrev asked : SessionEngine
asked = (request_platform_vpn_stop clock attempt_1 app_engine).1

newer :
    vpn_engine.inner.platform_remote_state_updated_at < asked.inner.platform_local_state_updated_at
unfolding request_platform_vpn_stop ◌>>=◌ persist_platform sync_platform publish_snapshot
    notify_platform_start text_eq push_diag
newer = omega arith

stop_reaches_extension_example :
    ((request_platform_vpn_stop clock attempt_1 app_engine).0 ≡ ok true)
    × (extension_answer attempt_1
          (synced (record clock { remote = frame_of asked }) vpn_engine).inner
        ≡ ok (codes "stopping"))
stop_reaches_extension_example =
    stop_reaches_extension clock (record clock { remote = frame_of asked }) attempt_1 app_engine
      vpn_engine ui_memory vpn_memory can_ask bound refl refl refl refl newer refl

abbrev machine : Host
machine = record {
  identity = Result.ok app;
  journal = no_failure;
  update = no_failure;
  reread = no_failure;
  issuer_lease = record {
    opens = true;
    lock = LockOutcome.acquired;
    writes = true;
    reads = true;
    content = none;
  };
  extension_lease = record {
    opens = true;
    lock = LockOutcome.acquired;
    writes = true;
    reads = true;
    content = none;
  };
}

abbrev intending : SessionEngine
intending = on_inner advance_platform_vpn_intent (new Entry.absent)

abbrev begun : SessionEngine
begun = (begin_platform_vpn_start_for_intent codec clock machine 1 intending).1

-- The app that has shared its memory, begun an attempt and read that the Extension has its TUN.
abbrev sharing : SessionEngine
sharing = (initialize_platform_shared_memory clock true true true (new Entry.absent)).1

abbrev starting : SessionEngine
starting =
    (begin_platform_vpn_start_for_intent codec clock machine 1
      (on_inner advance_platform_vpn_intent sharing)).1

abbrev up_frame : Env
up_frame = record clock {
  remote = RemoteRead.frame (record empty_envelope {
    state = some (record (platform_state clock delivered) { updated_at = 3 });
  });
}

abbrev up_engine : SessionEngine
up_engine = synced up_frame starting

EngineReach-Settled_example : Settled (begin_disconnect clock none up_engine).1.inner
EngineReach-Settled_example = EngineReach-Settled {json = codec} (
    next
      (next
        (next
          (next (next (created Entry.absent) (initializes clock true true true (new Entry.absent)))
            (intends sharing))
          (begins clock machine 1 (on_inner advance_platform_vpn_intent sharing)))
        (syncs up_frame starting))
      (disconnects clock none up_engine))

-- The frame is read: the tunnel is shown as up.
up : up_engine.inner.platform_vpn_running ≡ true
unfolding initialize_platform_shared_memory begin_platform_vpn_start_for_intent ◌>>=◌ intent_refusal
    advance_platform_vpn_intent start_refusal sync_platform claim_attempt read lock_journal
    read_unlocked acquire_owner_lease_exact validate_lease_record validate_attempt_id trim
    next_attempt_id decimal validate_identity create_pending_exact digits_fuel is_whitespace text_eq
    trim_start_matches is_complete to_stored validate_record write_unlocked persist_platform
    publish_snapshot notify_platform_start apply_platform_envelope apply_state accept_frame
    adopts_attempt remote_attempt_matches remote_advanced note_frame drop_pending_native observe
    heartbeat_watchdog_expired heartbeat_frozen platform_state merge merge_snapshot
    merge_transaction merge_attachment merge_intent merge_outcome release_leases fail_pending
    started push_diag
up = refl

abbrev cancelled_engine : SessionEngine
cancelled_engine = record vpn_engine {
  inner = record delivered {
    platform_start_outcome = PlatformStartOutcome.cancelled;
    platform_vpn_running = false;
    platform_stop_requested = true;
  };
}

-- The app's late frame still calls the attempt pending and asks for nothing.
abbrev late : PlatformEnvelope
late = record empty_envelope {
  state = some (record (platform_state clock delivered) {
    start_outcome = PlatformStartOutcome.pending;
    starting = true;
    updated_at = 3;
  });
}

late_attempt :
    (apply_platform_envelope clock false none late
      cancelled_engine).1.inner.platform_start_attempt_id
    ≡ cancelled_engine.inner.platform_start_attempt_id
late_attempt = envelope-attempt clock false late cancelled_engine

envelope-Ended_example :
    Ended (apply_platform_envelope clock false none late cancelled_engine).1.inner
envelope-Ended_example = envelope-Ended clock none false late cancelled_engine late_attempt refl

envelope-stop_example :
    (apply_platform_envelope clock false none late cancelled_engine).1.inner.platform_stop_requested
    ≡ true
envelope-stop_example = envelope-stop clock none false late cancelled_engine late_attempt refl

sync-attempt_example :
    (synced
      (record clock { remote = RemoteRead.frame late })
      vpn_engine).inner.platform_start_attempt_id
    ≡ attempt_1
sync-attempt_example = sync-attempt (record clock { remote = RemoteRead.frame late }) vpn_engine

-- The Extension's frame, read once more after twenty seconds.
abbrev repeated : PlatformEnvelope
repeated = record empty_envelope { state = some (platform_state clock delivered) }

unmarked : app_engine.inner.platform_watchdog_cleanup_recoverable ≡ false
unmarked = refl

marked :
    (apply_platform_envelope clock true none repeated
      app_engine).1.inner.platform_watchdog_cleanup_recoverable
    ≡ true
unfolding apply_platform_envelope apply_state accept_frame adopts_attempt remote_attempt_matches
    remote_advanced note_frame drop_pending_native observe fail_heartbeat heartbeat_watchdog_expired
    heartbeat_frozen platform_state persist_platform publish_snapshot notify_platform_start
    push_diag text_eq
marked = refl

envelope-GoneSilent_example :
    (remote : PlatformVpnState) × (repeated.state ≡ some remote)
    × (remote_attempt_matches remote app_engine.inner ≡ true)
    × GoneSilent clock true remote app_engine.inner
envelope-GoneSilent_example =
    envelope-GoneSilent clock true none repeated app_engine unmarked marked

abbrev claimed : SessionEngine
claimed = record app_engine {
  inner = record delivered {
    platform_vpn_intent_epoch = 2;
    platform_os_stop_epoch = 2;
    platform_os_stop_attempt_id = attempt_1;
  };
}

-- A claim that comes too early, and the completion.
abbrev between : List StopCall
between = StopCall.claims clock machine 2 ∷ StopCall.completes 2 attempt_1 ∷ []

begins_once : (begin_platform_vpn_os_stop 2 attempt_1 claimed.inner).0 ≡ true
unfolding begin_platform_vpn_os_stop fenced_at text_eq
begins_once = refl

begins_again :
    (begin_platform_vpn_os_stop 2 []
      (called_all codec between (called codec (StopCall.begins 2 attempt_1) claimed)).inner).0
    ≡ true
unfolding begin_platform_vpn_os_stop complete_platform_vpn_os_stop fenced_at called_all text_eq
    claim_current_platform_vpn_stop
begins_again = refl

stops_one_by_one_example : EndsIn 2 attempt_1 between
stops_one_by_one_example =
    stops_one_by_one codec 2 2 attempt_1 [] between claimed begins_once begins_again

-- The app has not heard of the end that the Extension publishes.
abbrev told : SessionEngine
told =
    (synced (record clock { remote = frame_of (persist_platform clock cancelled_engine).1 })
      app_engine)

news :
    app_engine.inner.platform_remote_state_updated_at
    < (persist_platform clock cancelled_engine).1.inner.platform_local_state_updated_at
unfolding persist_platform publish_snapshot notify_platform_start
news = omega arith

end_reaches_app_example :
    (told.inner.platform_start_outcome ≡ PlatformStartOutcome.cancelled)
    × (told.inner.platform_vpn_running ≡ false)
    × (told.inner.platform_vpn_starting ≡ false)
    × (told.inner.platform_vpn_cleanup_complete ≡ false)
    × (told.inner.platform_extension_attached ≡ true)
end_reaches_app_example =
    end_reaches_app clock
      (record clock { remote = frame_of (persist_platform clock cancelled_engine).1 }) attempt_1
      cancelled_engine app_engine vpn_memory ui_memory refl refl refl refl refl refl refl refl news
      refl

persist-revision_example :
    0 < (persist_platform clock app_engine).1.inner.platform_local_state_updated_at
persist-revision_example = persist-revision clock app_engine (omega arith)

begins_1 : (begin_platform_vpn_start_for_intent codec clock machine 1 intending).0 ≡ ok attempt_1
unfolding begin_platform_vpn_start_for_intent ◌>>=◌ intent_refusal advance_platform_vpn_intent
    start_refusal sync_platform claim_attempt read lock_journal read_unlocked
    acquire_owner_lease_exact validate_lease_record validate_attempt_id trim next_attempt_id decimal
    validate_identity create_pending_exact digits_fuel is_whitespace text_eq trim_start_matches
    is_complete to_stored validate_record write_unlocked persist_platform publish_snapshot
    notify_platform_start
begins_1 = refl

begin-Begun_example : Begun codec machine attempt_1 begun
begin-Begun_example = begin-Begun codec clock machine 1 intending attempt_1 begins_1

abbrev vpn_process : ProcessIdentity
vpn_process = record app { pid = 8; start_time = 120 }

-- The machine of the Extension, while the app holds its lease.
abbrev vpn_machine : Host
vpn_machine = record machine {
  identity = Result.ok vpn_process;
  issuer_lease = record (machine.issuer_lease) {
    lock = LockOutcome.held_elsewhere;
    content = some (platform_owner_lease_record attempt_1 app PlatformVpnOwnerLeaseRole.issuer);
  };
}

-- The Extension that has got the Want, and the journal as the app has left it.
abbrev wanted : SessionEngine
wanted = record (new (written codec (pending_journal attempt_1 app))) {
  inner = record new_inner {
    platform_start_attempt_id = attempt_1;
    platform_start_outcome = PlatformStartOutcome.pending;
    platform_vpn_starting = true;
  };
}

binds_1 : (bind_platform_vpn_start codec clock vpn_machine attempt_1 wanted).0 ≡ ok (codes "8:120")
unfolding bind_platform_vpn_start ◌>>=◌ sync_platform_for_binding sync_platform reopened push_diag
    read lock_journal read_unlocked observe_owner_lease_exact acquire_owner_lease_exact lease_eq
    identity_eq validate_lease_record validate_attempt_id validate_identity trim is_whitespace
    trim_start_matches is_complete upgrade_attached_exact encode decode put_text take_text
    put_identity take_identity put_extension take_extension extension_of after_attempt from_stored
    to_stored validate_record write_unlocked attached_state attachment_changed persist_platform
    publish_snapshot notify_platform_start decimal digits_fuel text_eq is_present
binds_1 = refl

bind-Attached_example :
    Attached codec vpn_machine attempt_1
      (bind_platform_vpn_start codec clock vpn_machine attempt_1 wanted).1
bind-Attached_example =
    bind-Attached codec clock vpn_machine attempt_1 (codes "8:120") wanted binds_1
