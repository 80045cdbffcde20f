-- ===== src/Camera/Recovery/Backoff.antt =====
-- The pace of `_recovery_tick`: `_backoff`, `_last_re_rendezvous` and `_re_rendezvous_count`.
use ziot_rtp_bridge.Base.{ℕ, ◌+◌, ◌≤◌, ◌<◌, ◌≡◌, ◌⊎◌, inl, Bool, false, ◌&&◌, List, [], ◌∷◌, arith}
use ziot_rtp_bridge.Camera.Attempt.{
  rendezvous, stop_relay, open_transport, try_return_direct, reannounce, next_backoff,
  record_attempt,
}
use ziot_rtp_bridge.Camera.Recovery.{begin_retry, sweep, relay_if_failing, attempt, recovery_tick}
use ziot_rtp_bridge.Camera.Attempt.Frame.{
  SameAccount, rendezvous-SameAccount, start_relay-SameAccount, reannounce-SameAccount,
}
use ziot_rtp_bridge.Camera.State.{
  Camera, World, Meanwhile, rx, online, is_streaming, meanwhile_all, update_cloud,
}
use ziot_rtp_bridge.Cloud.Row.{Row}

-- The backoff is between its first value and its last, or 0 behind a wake that has yet to be used.
pub record IsPaced (c : Camera) : Type 0 where
  pub at_most : c.backoff ≤ 60000
  pub at_least : (5000 ≤ c.backoff) ⊎ (c.backoff ≡ 0)

next_backoff_range : (b : ℕ) → (10000 ≤ next_backoff b) × (next_backoff b ≤ 60000)
next_backoff_range b = (omega arith, omega arith)

update_cloud-IsPaced :
    (now : ℕ) (row : Row) (c : Camera) → IsPaced c → IsPaced (update_cloud now row c)
unfolding update_cloud
update_cloud-IsPaced now row c paced = ground arith

meanwhile_all-IsPaced :
    (now : ℕ) (es : List Meanwhile) (c : Camera) → IsPaced c → IsPaced (meanwhile_all now es c)
unfolding meanwhile_all
meanwhile_all-IsPaced now [] c paced = paced
meanwhile_all-IsPaced now (rx t ∷ es) c paced =
    meanwhile_all-IsPaced now es (record c { last_rx = t }) (ground arith)
meanwhile_all-IsPaced now (online row ∷ es) c paced =
    meanwhile_all-IsPaced now es (update_cloud now row c) (update_cloud-IsPaced now row c paced)

SameAccount-IsPaced : {c d : Camera} → SameAccount c d → IsPaced c → IsPaced d
SameAccount-IsPaced same paced = let h = same.same_backoff in ground arith

record_attempt-IsPaced : (ok : Bool) (c : Camera) → IsPaced (record_attempt ok c)
unfolding record_attempt
record_attempt-IsPaced ok c = record {
  at_most = (next_backoff_range c.backoff).1;
  at_least = inl (omega arith);
}

sweep-IsPaced : (w : World) (c : Camera) → IsPaced (sweep w c)
unfolding sweep
sweep-IsPaced w c =
    let failed_sweep = record_attempt-IsPaced false (meanwhile_all w.later w.meanwhile c) in
    ground arith

relay_if_failing-IsPaced : (w : World) (c : Camera) → IsPaced c → IsPaced (relay_if_failing w c)
unfolding relay_if_failing
relay_if_failing-IsPaced w c paced =
    let same =
      SameAccount-IsPaced
        (start_relay-SameAccount w (record c { relay_last_direct_try = w.later })) in
    ground arith

attempt-IsPaced : (w : World) (c : Camera) → IsPaced (attempt w c)
unfolding attempt
attempt-IsPaced w c =
    let c' = meanwhile_all w.later w.meanwhile (open_transport w c).0 in
    let ok = (open_transport w c).1 && is_streaming w.later c' in
    relay_if_failing-IsPaced w (record_attempt ok c') (record_attempt-IsPaced ok c')

try_return_direct-IsPaced : (w : World) (c : Camera) → IsPaced c → IsPaced (try_return_direct w c)
unfolding try_return_direct
try_return_direct-IsPaced w c paced =
    let c' = record (stop_relay c) { relay_last_direct_try = w.now; last_rx = 0 } in
    let tried = SameAccount-IsPaced (rendezvous-SameAccount w c') in
    let back = start_relay-SameAccount w (record (rendezvous w c').0 { consec_failures = 3 }) in
    ground arith

-- A tick keeps the backoff between 5 s and 60 s, or at 0 behind a wake.
pub recovery_tick-IsPaced : (w : World) (c : Camera) → IsPaced c → IsPaced (recovery_tick w c).0
unfolding recovery_tick
recovery_tick-IsPaced w c paced =
    let returned = try_return_direct-IsPaced w c paced in
    let swept = sweep-IsPaced w (begin_retry w.now c) in
    let attempted = attempt-IsPaced w (begin_retry w.now c) in
    let same = SameAccount-IsPaced (reannounce-SameAccount w (begin_retry w.now c)) in
    let slow = next_backoff_range (reannounce w (begin_retry w.now c)).backoff in ground arith

-- No tick retries before the backoff has passed since the last retry, unless the camera was woken.
pub recovery_tick_no_sooner :
    (w : World) (c : Camera)
    → c.wake_now ≡ false
    → w.now < c.last_re_rendezvous + c.backoff
    → c.last_re_rendezvous ≤ w.now
    → (recovery_tick w c).0.re_rendezvous_count ≡ c.re_rendezvous_count
unfolding recovery_tick try_return_direct
recovery_tick_no_sooner w c asleep early past =
    let c' = record (stop_relay c) { relay_last_direct_try = w.now; last_rx = 0 } in
    let tried = (rendezvous-SameAccount w c').same_count in
    let back =
      (start_relay-SameAccount w (record (rendezvous w c').0 { consec_failures = 3 })).same_count in
    ground arith
