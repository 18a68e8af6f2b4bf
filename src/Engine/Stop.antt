-- ===== src/Engine/Stop.antt =====
-- The ordering of start and stop intents, and the fence around an OS stop:
-- crates/hopenconnect_core/src/engine/platform.rs.
pub mod Fence
use h_openconnect.Base.{
  ℕ, ◌+◌, ◌^◌, ltb, Bool, true, false, ◌&&◌, ◌||◌, not, if◌then◌else◌, is_empty, [], Text, text_eq,
  ◌==◌,
}
use h_openconnect.Engine.State.{Inner, EngineError, CoreResult, ok, err}

-- `checked_add(1)` on a u64.
unfoldable pub advance_platform_vpn_intent : Inner → CoreResult ℕ × Inner
advance_platform_vpn_intent i =
    let next = i.platform_vpn_intent_epoch + 1 in
    if ltb next (2 ^ 64)
    then (ok next, record i { platform_vpn_intent_epoch = next })
    else (err EngineError.epoch_exhausted, i)

unfoldable pub is_platform_vpn_intent_current : ℕ → Inner → Bool
is_platform_vpn_intent_current epoch i = ltb 0 epoch && i.platform_vpn_intent_epoch == epoch

-- The fence stands at this intent and attempt.
unfoldable pub fenced_at : ℕ → Text → Inner → Bool
fenced_at epoch attempt i =
    i.platform_os_stop_epoch == epoch && text_eq i.platform_os_stop_attempt_id attempt

unfoldable pub is_platform_vpn_stop_current : ℕ → Text → Inner → Bool
is_platform_vpn_stop_current epoch attempt i =
    ltb 0 epoch
    && i.platform_vpn_intent_epoch == epoch
    && fenced_at epoch attempt i
    && not i.platform_os_stop_in_flight

unfoldable pub begin_platform_vpn_os_stop : ℕ → Text → Inner → Bool × Inner
begin_platform_vpn_os_stop epoch attempt i =
    if epoch == 0 || not (i.platform_vpn_intent_epoch == epoch) || i.platform_os_stop_in_flight
    then (false, i)
    else if i.platform_os_stop_epoch == 0
    then (if is_empty attempt
        then (
          true,
          record i {
            platform_os_stop_epoch = epoch;
            platform_os_stop_attempt_id = [];
            platform_os_stop_in_flight = true;
          },
        )
        else (false, i))
    else if fenced_at epoch attempt i
    then (true, record i { platform_os_stop_in_flight = true })
    else (false, i)

unfoldable pub complete_platform_vpn_os_stop : ℕ → Text → Inner → Bool × Inner
complete_platform_vpn_os_stop epoch attempt i =
    if fenced_at epoch attempt i && i.platform_os_stop_in_flight
    then (
      true,
      record i {
        platform_os_stop_epoch = 0;
        platform_os_stop_attempt_id = [];
        platform_os_stop_in_flight = false;
      },
    )
    else (false, i)

unfoldable pub fail_platform_vpn_os_stop : ℕ → Text → Inner → Bool × Inner
fail_platform_vpn_os_stop epoch attempt i =
    if fenced_at epoch attempt i && i.platform_os_stop_in_flight
    then (true, record i { platform_os_stop_in_flight = false })
    else (false, i)
