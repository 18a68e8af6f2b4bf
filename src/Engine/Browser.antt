-- ===== src/Engine/Browser.antt =====
-- The one-shot requests to open a sign-in page: crates/hopenconnect_core/src/engine.rs and
-- engine/platform.rs.
use h_openconnect.Base.{Bool, false, ◌&&◌, not, Option, none, some, if◌then◌else◌, Text, text_eq}
use h_openconnect.Bridge.State.{BrowserOpenRequest, is_valid_request}
use h_openconnect.Engine.State.{Inner, Env}

abbrev pub is_fresh : Env → Inner → BrowserOpenRequest → Bool
is_fresh env i request =
    is_valid_request env.now_millis request i.platform_start_attempt_id
    && not (text_eq request.request_id i.last_platform_browser_request_id)

unfoldable pub consume_platform_browser_request :
    Env → Option BrowserOpenRequest → Inner → Option BrowserOpenRequest × Inner
consume_platform_browser_request env none i = (none, i)
consume_platform_browser_request env (some request) i =
    if is_fresh env i request
    then (some request, record i { last_platform_browser_request_id = request.request_id })
    else (none, i)

abbrev names_request : Text → Option BrowserOpenRequest → Bool
names_request ack none = false
names_request ack (some request) = text_eq request.request_id ack

unfoldable pub acknowledges : Option Text → Inner → Bool
acknowledges none i = false
acknowledges (some ack) i = names_request ack i.platform_browser_request

unfoldable pub acknowledge_platform_browser_request : Option Text → Inner → Bool × Inner
acknowledge_platform_browser_request ack i = (
  acknowledges ack i,
  record i {
    platform_browser_request = if acknowledges ack i then none else i.platform_browser_request;
  },
)
