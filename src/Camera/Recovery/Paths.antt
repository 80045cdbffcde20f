-- ===== src/Camera/Recovery/Paths.antt =====
-- Which transport a tick of `_recovery_tick` touches.
use ziot_rtp_bridge.Base.{
  ℕ, ◌+◌, ◌≤◌, ◌≡◌, refl, ap, ◌∙◌, true, false, ◌&&◌, Option, none, some, List, [], ◌∷◌, arith,
  Bytes,
}
use ziot_rtp_bridge.Camera.Attempt.{
  play_first, start_relay, open_transport, try_return_direct, reannounce, record_attempt,
}
use ziot_rtp_bridge.Camera.Recovery.{begin_retry, sweep, relay_if_failing, attempt, recovery_tick}
use ziot_rtp_bridge.Camera.Attempt.Frame.{open_transport-SameAccount}
use ziot_rtp_bridge.Camera.State.{
  Camera, World, StunAnswer, Opened, plays, Meanwhile, rx, online, is_relayed, is_streaming,
  meanwhile_all, update_cloud,
}
use ziot_rtp_bridge.Camera.Stun.{fetch_endpoint, resolve, settle, next_answer}
use ziot_rtp_bridge.Cloud.Row.{Row, relay_urls}

update_cloud_sock : (now : ℕ) (row : Row) (c : Camera) → (update_cloud now row c).sock ≡ c.sock
unfolding update_cloud
update_cloud_sock now row c = ground arith

meanwhile_all_sock :
    (now : ℕ) (es : List Meanwhile) (c : Camera) → (meanwhile_all now es c).sock ≡ c.sock
unfolding meanwhile_all
meanwhile_all_sock now [] c = refl
meanwhile_all_sock now (rx t ∷ es) c = meanwhile_all_sock now es (record c { last_rx = t })
meanwhile_all_sock now (online row ∷ es) c =
    meanwhile_all_sock now es (update_cloud now row c) ∙ update_cloud_sock now row c

play_first_sock :
    (opens : Bytes → Opened) (us : List Bytes) (c : Camera)
    → (play_first opens us c).0.sock ≡ c.sock
unfolding play_first
play_first_sock opens [] c = refl
play_first_sock opens (u ∷ us) c = let rest = play_first_sock opens us c in ground arith

start_relay_sock : (w : World) (c : Camera) → (start_relay w c).0.sock ≡ c.sock
unfolding start_relay
start_relay_sock w c = play_first_sock w.opens (relay_urls c.cloud) c

fetch_endpoint_sock :
    (f : Bytes → Option ℕ) (a : Option StunAnswer) (c : Camera)
    → (fetch_endpoint f a c).0.sock ≡ c.sock
unfolding fetch_endpoint
fetch_endpoint_sock f a c = ground arith

resolve_sock : (w : World) (c : Camera) → (resolve w c).sock ≡ c.sock
unfolding resolve settle
resolve_sock w c =
    let same =
      fetch_endpoint_sock w.inet_aton (next_answer w.stun)
        (record c { last_resolve = some w.now }) in
    ground arith

reannounce_sock : (w : World) (c : Camera) → (reannounce w c).sock ≡ c.sock
unfolding reannounce
reannounce_sock w c =
    let same = resolve_sock w (record c { stun_seq = none; last_resolve = none }) in ground arith

sweep_sock : (w : World) (c : Camera) → (sweep w c).sock ≡ c.sock
unfolding sweep record_attempt
sweep_sock w c = let same = meanwhile_all_sock w.later w.meanwhile c in ground arith

relay_if_failing_sock : (w : World) (c : Camera) → (relay_if_failing w c).sock ≡ c.sock
unfolding relay_if_failing
relay_if_failing_sock w c =
    let same = start_relay_sock w (record c { relay_last_direct_try = w.later }) in ground arith

attempt_forced_sock : (w : World) (c : Camera) → c.force_relay ≡ true → (attempt w c).sock ≡ c.sock
unfolding attempt record_attempt open_transport
attempt_forced_sock w c forced =
    let c' = meanwhile_all w.later w.meanwhile (open_transport w c).0 in
    let ok = (open_transport w c).1 && is_streaming w.later c' in
    let relayed = relay_if_failing_sock w (record_attempt ok c') in
    let same = meanwhile_all_sock w.later w.meanwhile (open_transport w c).0 in
    let opened = start_relay_sock w c in ground arith

-- With --force-relay no tick opens, closes or replaces the socket of the direct path.
pub recovery_tick_forced :
    (w : World) (c : Camera) → c.force_relay ≡ true → (recovery_tick w c).0.sock ≡ c.sock
unfolding recovery_tick try_return_direct
recovery_tick_forced w c forced =
    let swept = sweep_sock w (begin_retry w.now c) in
    let tried = attempt_forced_sock w (begin_retry w.now c) forced in
    let same = reannounce_sock w (begin_retry w.now c) in ground arith

-- A tick of a camera without a cloud and without a relay never replaces its socket: the port its hellos
-- came from stays the port that receives.
pub recovery_tick_punch_only :
    (w : World) (c : Camera)
    → c.has_api ≡ false
    → is_relayed c ≡ false
    → (recovery_tick w c).0.sock ≡ c.sock
unfolding recovery_tick
recovery_tick_punch_only w c offline unrelayed =
    let swept = sweep_sock w (begin_retry w.now c) in ground arith

play_first_plays :
    (opens : Bytes → Opened) (u : Bytes) (us : List Bytes) (c : Camera)
    → opens u ≡ plays
    → (play_first opens (u ∷ us) c).0.relay ≡ some u
unfolding play_first
play_first_plays opens u us c answer = ground arith

relay_if_failing_plays :
    (w : World) (c : Camera) (u : Bytes) (us : List Bytes)
    → c.force_relay ≡ false
    → 3 ≤ c.consec_failures
    → relay_urls c.cloud ≡ u ∷ us
    → w.opens u ≡ plays
    → is_relayed (relay_if_failing w c) ≡ true
unfolding relay_if_failing start_relay
relay_if_failing_plays w c u us free failing urls answer =
    let c' = record c { relay_last_direct_try = w.later } in
    let started : (play_first w.opens (relay_urls c.cloud) c').0.relay ≡ some u =
      rw urls (play_first_plays w.opens u us c' answer) in
    ground arith

-- The third attempt in a row that brings no media ends on the relay, whatever the direct path did, if the
-- first of its URLs plays and neither the relay is forced nor another thread has touched the camera.
pub attempt_reaches_relay :
    (w : World) (c : Camera) (u : Bytes) (us : List Bytes)
    → c.force_relay ≡ false
    → 2 ≤ c.consec_failures
    → w.meanwhile ≡ []
    → c.last_rx + 3000 ≤ w.later
    → relay_urls c.cloud ≡ u ∷ us
    → w.opens u ≡ plays
    → is_relayed (attempt w c) ≡ true
unfolding attempt record_attempt
attempt_reaches_relay w c u us free failing alone silent urls answer =
    let same = open_transport-SameAccount w c in
    let c' = meanwhile_all w.later w.meanwhile (open_transport w c).0 in
    let ok = (open_transport w c).1 && is_streaming w.later c' in
    let still : c' ≡ (open_transport w c).0 = rw alone refl in
    let forced : c'.force_relay ≡ false = ap (λ d. d.force_relay) still ∙ same.same_force ∙ free in
    let cloud : c'.cloud ≡ c.cloud = ap (λ d. d.cloud) still ∙ same.same_cloud in
    let failures : c'.consec_failures ≡ c.consec_failures =
      ap (λ d. d.consec_failures) still ∙ same.same_failures in
    let heard : c'.last_rx ≡ c.last_rx = ap (λ d. d.last_rx) still ∙ same.same_rx in
    relay_if_failing_plays w (record_attempt ok c') u us forced (ground arith)
      (ap relay_urls cloud ∙ urls) answer
