-- ===== src/Bridge/Envelope.antt =====
-- The published snapshot of crates/hopenconnect_core/src/platform_ipc.rs.
use h_openconnect.Base.{Bool, true, false, ◌&&◌, ◌||◌, not, Option, none, some, Text}
use h_openconnect.Bridge.State.{PlatformVpnState, SessionHandoff, BrowserOpenRequest}

pub record PlatformEnvelope : Type 0 where
  pub state : Option PlatformVpnState
  pub session_handoff : Option SessionHandoff
  pub browser_request : Option BrowserOpenRequest
  pub browser_request_ack : Option Text

unfoldable pub is_present {ℓ} : {A : Type ℓ} → Option A → Bool
is_present none = false
is_present (some a) = true

-- The new snapshot, and whether a secret of the previous one has to be scrubbed from the region.
unfoldable pub replace_snapshot :
    PlatformEnvelope
    → PlatformVpnState
    → Option SessionHandoff
    → Option BrowserOpenRequest
    → Option Text
    → Bool × PlatformEnvelope
unfolding is_present
replace_snapshot published state handoff request ack = (
  (is_present published.session_handoff && not (is_present handoff))
      || (is_present published.browser_request && not (is_present request)),
  record {
    state = some state;
    session_handoff = handoff;
    browser_request = request;
    browser_request_ack = ack;
  },
)
