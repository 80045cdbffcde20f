-- ===== src/Camera/Recovery.antt =====
-- `_recovery_tick` of ziot_rtp_bridge.py. The sliced wait after an attempt changes no field: what other
-- threads do meanwhile is in the world. `_frame_times` serves only the displayed rate.
pub mod Backoff
pub mod Paths
use ziot_rtp_bridge.Base.{
  ℕ, zero, suc, ◌+◌, ◌-◌, Bool, true, false, not, ◌&&◌, ◌||◌, Option, none, some, List, [], ◌∷◌,
  if◌then◌else◌, ◌==◌, ltb, leb,
}
use ziot_rtp_bridge.Camera.Attempt.{
  start_relay, stop_relay, open_transport, try_return_direct, reannounce, next_backoff,
  record_attempt,
}
use ziot_rtp_bridge.Camera.State.{
  Camera, World, is_some, is_relayed, is_streaming, meanwhile_all, recovery_initial_backoff,
  recovery_dead_threshold, relay_after_failures,
}
use ziot_rtp_bridge.Cloud.Row.{cloud_is_on}

-- Which way a tick went.
pub data Did : Type 0 where
  dropped_relay tried_direct alive waited swept reannounced attempted : Did

-- The tick is not a retry: a wake was not asked for, and the backoff has not passed or the gap is short.
abbrev pub holds_back : ℕ → Camera → Bool
holds_back now c =
    not c.wake_now
    && (ltb (now - c.last_re_rendezvous) c.backoff
        || (not (c.last_rx == 0) && ltb (now - c.last_rx) recovery_dead_threshold))

-- `_last_re_rendezvous` and the count, at the start of a retry.
abbrev pub begin_retry : ℕ → Camera → Camera
begin_retry now c = record c {
  wake_now = false;
  last_re_rendezvous = now;
  re_rendezvous_count = c.re_rendezvous_count + 1;
}

-- Punch-only: the sweep, and its account.
unfoldable pub sweep : World → Camera → Camera
unfolding meanwhile_all record_attempt
sweep w c =
    let c' = meanwhile_all w.later w.meanwhile c in
    if is_streaming w.later c'
    then record c' { consec_failures = 0; backoff = recovery_initial_backoff }
    else record_attempt false c'

-- The relay, if the direct path has failed often enough.
unfoldable pub relay_if_failing : World → Camera → Camera
unfolding start_relay
relay_if_failing w c =
    if leb relay_after_failures c.consec_failures && not (is_relayed c) && not c.force_relay
    then (start_relay w (record c { relay_last_direct_try = w.later })).0
    else c

-- A full attempt, and its account.
unfoldable pub attempt : World → Camera → Camera
unfolding open_transport meanwhile_all record_attempt relay_if_failing
attempt w c =
    let (c', ok) = open_transport w c in
    let c'' = meanwhile_all w.later w.meanwhile c' in
    relay_if_failing w (record_attempt (ok && is_streaming w.later c'') c'')

-- The camera sleeps and its port is registered.
abbrev pub is_asleep : Camera → Bool
is_asleep c = not c.wake_now && not (cloud_is_on c.cloud) && is_some c.sock

abbrev pub slow_down : Camera → Camera
slow_down c = record c { backoff = next_backoff c.backoff }

unfoldable pub recovery_tick : World → Camera → Camera × Did
recovery_tick w c =
    if is_relayed c
    then if is_streaming w.now c
      then (try_return_direct w c, tried_direct)
      else (record (stop_relay c) { relay_last_direct_try = 0 }, dropped_relay)
    else if is_streaming w.now c
    then (record c { backoff = recovery_initial_backoff; consec_failures = 0 }, alive)
    else if holds_back w.now c
    then (record c { wake_now = false }, waited)
    else if not c.has_api
    then (sweep w (begin_retry w.now c), swept)
    else if is_asleep c
    then (slow_down (reannounce w (begin_retry w.now c)), reannounced)
    else (attempt w (begin_retry w.now c), attempted)
