-- ===== src/Engine/Requests.antt =====
-- The calls around the shared memory that leave the attempt alone: `sync_platform_changes` and the
-- one-shot requests to open a sign-in page, crates/hopenconnect_core/src/engine/platform.rs.
use h_openconnect.Base.{
  Option, none, some, Text, codes, ◌++◌, if◌then◌else◌, is_empty, text_eq, trim, decimal,
  Bool-cases, inl, inr,
}
use h_openconnect.Bridge.State.{BrowserOpenRequest}
use h_openconnect.Bridge.Envelope.{is_present}
use h_openconnect.Engine.State.{
  Inner, SessionEngine, PlatformIpc, RemoteRead, Env, CoreResult, EngineError, ok, err, Action,
  ◌>>◌, change, saturating_suc,
}
use h_openconnect.Engine.Publish.{persist_platform}
use h_openconnect.Engine.Browser.{is_fresh, consume_platform_browser_request}
use h_openconnect.Engine.Envelope.{with_inner, sync_platform, synced}
use h_openconnect.Engine.Envelope.Rules.{Settled}
use h_openconnect.Engine.Envelope.Safety.{sync-Settled}
use h_openconnect.Engine.Keeps.{After, same-Keeps, test-Keeps}
use h_openconnect.Engine.Invariant.Methods.{KeepsSettled, publish-Settled, last_published}

-- Without the request that the app has taken, a restarted app cannot take it again.
unfoldable pub sync_platform_changes : Env → Action (Unit {0})
sync_platform_changes env e =
    let (taken, e') = sync_platform env e in if taken then persist_platform env e' else (ok tt, e')

abbrev pub request_opened : Env → Text → Inner → Inner
request_opened env uri i =
    let n = saturating_suc 64 i.platform_browser_request_sequence in
    record i {
      platform_browser_request_sequence = n;
      platform_browser_request = some (record {
        request_id =
            i.platform_start_attempt_id
            ++ codes "-"
            ++ decimal env.now_millis
            ++ codes "-"
            ++ decimal n;
        attempt_id = i.platform_start_attempt_id;
        uri = uri;
        requested_at_ms = env.now_millis;
      });
    }

abbrev pub queue_on : Env → Text → Option PlatformIpc → Action (Unit {0})
queue_on env uri none e = (err EngineError.not_attached, e)
queue_on env uri (some ipc) e =
    if ipc.is_ui
    then (err EngineError.only_from_extension, e)
    else if is_empty e.inner.platform_start_attempt_id
    then (err EngineError.no_attempt, e)
    else (do change (request_opened env uri); persist_platform env) e

unfoldable pub queue_platform_browser_open_request : Env → Text → Action (Unit {0})
queue_platform_browser_open_request env uri e =
    if is_empty (trim uri)
    then (err EngineError.empty_uri, e)
    else queue_on env (trim uri) e.platform_ipc e

-- A request whose receipt cannot be published is not taken.
abbrev pub confirm_taken :
    Text
    → BrowserOpenRequest
    → CoreResult (Unit {0}) × SessionEngine
    → CoreResult (Option BrowserOpenRequest) × SessionEngine
confirm_taken previous request (ok u, e) = (ok (some request), e)
confirm_taken previous request (err x, e) =
    (err x, with_inner (λ i. record i { last_platform_browser_request_id = previous }) e)

abbrev pub take_request : Env → Option BrowserOpenRequest → Action (Option BrowserOpenRequest)
take_request env none e = (ok none, e)
take_request env (some request) e =
    if is_fresh env e.inner request
    then confirm_taken e.inner.last_platform_browser_request_id request (
        persist_platform env
          (with_inner (λ i. (consume_platform_browser_request env (some request) i).1) e))
    else (ok none, e)

abbrev pub take_read : Env → RemoteRead → Action (Option BrowserOpenRequest)
take_read env RemoteRead.read_failed e = (err EngineError.ipc, e)
take_read env RemoteRead.no_frame e = (ok none, e)
take_read env (RemoteRead.frame envelope) e = take_request env envelope.browser_request e

abbrev pub take_on : Env → Option PlatformIpc → Action (Option BrowserOpenRequest)
take_on env none e = (ok none, e)
take_on env (some ipc) e = if ipc.is_ui then take_read env env.remote e else (ok none, e)

unfoldable pub take_platform_browser_open_request : Env → Action (Option BrowserOpenRequest)
take_platform_browser_open_request env e = take_on env e.platform_ipc e

abbrev pub id_of : Option BrowserOpenRequest → Text
id_of none = codes ""
id_of (some request) = request.request_id

abbrev pub skip_request : Env → Text → Action (Unit {0})
skip_request env id e =
    if text_eq e.inner.last_platform_browser_request_id id
    then (ok tt, e)
    else (do change (λ i. record i { last_platform_browser_request_id = id }); persist_platform env)
        e

abbrev pub skip_read : Env → RemoteRead → Action (Unit {0})
skip_read env RemoteRead.read_failed e = (err EngineError.ipc, e)
skip_read env RemoteRead.no_frame e = skip_request env (codes "") e
skip_read env (RemoteRead.frame envelope) e = skip_request env (id_of envelope.browser_request) e

abbrev pub drop_request : Env → Action (Unit {0})
drop_request env e =
    if is_present e.inner.platform_browser_request
    then (do change (λ i. record i { platform_browser_request = none }); persist_platform env) e
    else (ok tt, e)

abbrev pub clear_on : Env → Option PlatformIpc → Action (Unit {0})
clear_on env none e = (ok tt, e)
clear_on env (some ipc) e = if ipc.is_ui then skip_read env env.remote e else drop_request env e

unfoldable pub clear_platform_browser_open_request : Env → Action (Unit {0})
clear_platform_browser_open_request env e = clear_on env e.platform_ipc e

module _ (env : Env) where
  pub changes-Keeps : KeepsSettled (sync_platform_changes env)
  unfolding sync_platform_changes
  changes-Keeps e s =
      let t = sync-Settled env e s in
      test-Keeps Settled (sync_platform env e).0 (λ b. publish-Settled env (synced env e) t)
        (λ b. same-Keeps Settled (ok tt) (synced env e) t)

  queue_on-Settled : (uri : Text) (o : Option PlatformIpc) → KeepsSettled (queue_on env uri o)
  queue_on-Settled uri none e s = record { holds = s }
  queue_on-Settled uri (some ipc) e s =
      test-Keeps Settled ipc.is_ui (λ t. record { holds = s })
        λ t.
          test-Keeps Settled (is_empty e.inner.platform_start_attempt_id)
            (λ u. record { holds = s })
            λ u.
              last_published env (request_opened env uri) e
                (record { stopped = s.stopped; ended = s.ended })

  pub queue-Keeps : (uri : Text) → KeepsSettled (queue_platform_browser_open_request env uri)
  unfolding queue_platform_browser_open_request
  queue-Keeps uri e s =
      test-Keeps Settled (is_empty (trim uri)) (λ t. record { holds = s })
        (λ t. queue_on-Settled (trim uri) e.platform_ipc e s)

  confirm_taken-Settled :
      (previous : Text) (request : BrowserOpenRequest) (r : CoreResult (Unit {0}) × SessionEngine)
      → After Settled r
      → After Settled (confirm_taken previous request r)
  confirm_taken-Settled previous request (ok u, e) a = record { holds = a.holds }
  confirm_taken-Settled previous request (err x, e) a = record {
    holds = record { stopped = a.holds.stopped; ended = a.holds.ended };
  }

  consumed-Settled :
      (request : BrowserOpenRequest) (i : Inner)
      → Settled i
      → Settled (consume_platform_browser_request env (some request) i).1
  unfolding consume_platform_browser_request
  consumed-Settled request i s = elim (Bool-cases (is_fresh env i request)) [
    | inl t ↦ rw t (record { stopped = s.stopped; ended = s.ended })
    | inr t ↦ rw t s
  ]

  take_request-Settled : (o : Option BrowserOpenRequest) → KeepsSettled (take_request env o)
  take_request-Settled none e s = record { holds = s }
  take_request-Settled (some request) e s =
      test-Keeps Settled (is_fresh env e.inner request)
        (λ t. confirm_taken-Settled e.inner.last_platform_browser_request_id request _ (
          publish-Settled env
            (with_inner (λ i. (consume_platform_browser_request env (some request) i).1) e)
            (consumed-Settled request e.inner s)))
        (λ t. record { holds = s })

  take_read-Settled : (r : RemoteRead) → KeepsSettled (take_read env r)
  take_read-Settled RemoteRead.read_failed e s = record { holds = s }
  take_read-Settled RemoteRead.no_frame e s = record { holds = s }
  take_read-Settled (RemoteRead.frame envelope) e s =
      take_request-Settled envelope.browser_request e s

  take_on-Settled : (o : Option PlatformIpc) → KeepsSettled (take_on env o)
  take_on-Settled none e s = record { holds = s }
  take_on-Settled (some ipc) e s =
      test-Keeps Settled ipc.is_ui (λ t. take_read-Settled env.remote e s)
        (λ t. record { holds = s })

  pub take-Keeps : KeepsSettled (take_platform_browser_open_request env)
  unfolding take_platform_browser_open_request
  take-Keeps e s = take_on-Settled e.platform_ipc e s

  skip_request-Settled : (id : Text) → KeepsSettled (skip_request env id)
  skip_request-Settled id e s =
      test-Keeps Settled (text_eq e.inner.last_platform_browser_request_id id)
        (λ t. record { holds = s })
        (λ t. last_published env _ e (record { stopped = s.stopped; ended = s.ended }))

  skip_read-Settled : (r : RemoteRead) → KeepsSettled (skip_read env r)
  skip_read-Settled RemoteRead.read_failed e s = record { holds = s }
  skip_read-Settled RemoteRead.no_frame e s = skip_request-Settled (codes "") e s
  skip_read-Settled (RemoteRead.frame envelope) e s =
      skip_request-Settled (id_of envelope.browser_request) e s

  clear_on-Settled : (o : Option PlatformIpc) → KeepsSettled (clear_on env o)
  clear_on-Settled none e s = record { holds = s }
  clear_on-Settled (some ipc) e s =
      test-Keeps Settled ipc.is_ui (λ t. skip_read-Settled env.remote e s)
        λ t.
          test-Keeps Settled (is_present e.inner.platform_browser_request)
            (λ u. last_published env _ e (record { stopped = s.stopped; ended = s.ended }))
            (λ u. record { holds = s })

  pub clear_request-Keeps : KeepsSettled (clear_platform_browser_open_request env)
  unfolding clear_platform_browser_open_request
  clear_request-Keeps e s = clear_on-Settled e.platform_ipc e s
