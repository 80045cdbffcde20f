-- ===== src/Camera/Attempt.antt =====
-- One attempt at a transport: `_rendezvous`, `_close_sock`, `_start_relay`, `_stop_relay`,
-- `_open_transport`, `_try_return_direct`, `_reannounce` and `_record_attempt` of ziot_rtp_bridge.py.
-- Calls whose answer changes no field (send-stun-addr, notify, the hellos of a sweep) leave no trace.
pub mod Frame
pub mod Outcome
use ziot_rtp_bridge.Base.{
  ℕ, zero, suc, ◌+◌, ◌-◌, ◌*◌, Bool, true, false, not, ◌&&◌, ◌||◌, Option, none, some, List, [],
  ◌∷◌, if◌then◌else◌, ◌==◌, ltb, Bytes, take, min, max,
}
use ziot_rtp_bridge.Camera.State.{
  Addr, Kind, static_kind, Camera, StunAnswer, Opened, plays, refused, forbidden, failed, World,
  is_some, recovery_initial_backoff, recovery_max_backoff, relay_after_failures, relay_retry_direct,
}
use ziot_rtp_bridge.Camera.Stun.{Fetched, raised, nothing, endpoint, fetch_endpoint, resolve}
use ziot_rtp_bridge.Cloud.Row.{Row, relay_urls}

-- `_close_sock`: only the registered socket itself is cleared.
abbrev pub close_sock : ℕ → Camera → Camera
close_sock s c = elim c.sock [
  | none ↦ c
  | some t ↦ if t == s then record c { sock = none; addr = none } else c
]

-- The five tries at the camera's address.
unfoldable pub find_endpoint :
    (Bytes → Option ℕ) → List (Option StunAnswer) → Camera → Camera × Option Addr
unfolding fetch_endpoint
find_endpoint inet_aton [] c = (c, none)
find_endpoint inet_aton (a ∷ answers) c =
    let (c', fetched) = fetch_endpoint inet_aton a c in
    elim fetched [
      | endpoint addr kind ↦ (record c' { endpoint_kind = some kind }, some addr)
      | raised ↦ find_endpoint inet_aton answers c'
      | nothing ↦ find_endpoint inet_aton answers c'
    ]

-- The transport is installed, at the end of a rendezvous.
abbrev pub install : World → ℕ → Addr → Camera → Camera
install w s a c = record c { sock = some s; addr = some a; last_re_rendezvous = w.later }

-- `_rendezvous` with the socket that it holds.
unfoldable pub rendezvous_on : World → ℕ → Camera → Camera × Bool
unfolding find_endpoint
rendezvous_on w s c =
    if not c.has_api
    then elim c.static_addr [
      | none ↦ (close_sock s c, false)
      | some a ↦ (install w s a (record c { endpoint_kind = some static_kind }), true)
    ]
    else (let (c', found) =
          find_endpoint w.inet_aton (take 5 w.stun) (record c { stun_seq = none }) in
        elim found [
          | some a ↦ (install w s a c', true)
          | none ↦ elim c.static_addr [
            | none ↦ (close_sock s c', false)
            | some a ↦ (install w s a (record c' { endpoint_kind = some static_kind }), true)
          ]
        ])

-- `none` is an exception of `bind` or `getsockname`.
unfoldable pub rendezvous : World → Camera → Camera × Option Bool
unfolding rendezvous_on
rendezvous w c = elim c.sock [
  | some s ↦
      if w.sock_open then (let (c', done) = rendezvous_on w s c in (c', some done)) else (c, none)
  | none ↦ elim w.new_sock [
    | none ↦ (c, none)
    | some s ↦ (let (c', done) = rendezvous_on w s c in (c', some done))
  ]
]

-- The loop over the URLs.
unfoldable pub play_first : (Bytes → Opened) → List Bytes → Camera → Camera × Bool
play_first opens [] c = (c, false)
play_first opens (u ∷ us) c = elim (opens u) [
  | plays ↦ (record c { relay = some u }, true)
  | forbidden ↦ (c, false)
  | refused ↦ play_first opens us c
  | failed ↦ play_first opens us c
]

-- `_start_relay`; the row was handed out under the camera's uid, so its uid is the camera's.
unfoldable pub start_relay : World → Camera → Camera × Bool
unfolding play_first
start_relay w c = play_first w.opens (relay_urls c.cloud) c

abbrev pub stop_relay : Camera → Camera
stop_relay c = record c { relay = none }

abbrev pub is_true : Option Bool → Bool
is_true none = false
is_true (some b) = b

unfoldable pub open_transport : World → Camera → Camera × Bool
unfolding start_relay rendezvous
open_transport w c =
    if c.force_relay
    then start_relay w c
    else (let (c', done) = rendezvous w c in (c', is_true done))

-- While relayed: `_try_return_direct`.
unfoldable pub try_return_direct : World → Camera → Camera
unfolding rendezvous start_relay
try_return_direct w c =
    if c.force_relay || ltb (w.now - c.relay_last_direct_try) relay_retry_direct
    then c
    else (let c' = record (stop_relay c) { relay_last_direct_try = w.now; last_rx = 0 } in
        let (c'', done) = rendezvous w c' in
        if is_true done
        then record c'' { consec_failures = 0; backoff = recovery_initial_backoff }
        else (start_relay w (record c'' { consec_failures = relay_after_failures })).0)

unfoldable pub reannounce : World → Camera → Camera
unfolding resolve
reannounce w c =
    if not c.has_api || not (is_some c.sock) || not w.sock_open
    then c
    else resolve w (record c { stun_seq = none; last_resolve = none })

-- `min(max(self._backoff, RECOVERY_INITIAL_BACKOFF) * 2, RECOVERY_MAX_BACKOFF)`
abbrev pub next_backoff : ℕ → ℕ
next_backoff b = min (max b recovery_initial_backoff * 2) recovery_max_backoff

unfoldable pub record_attempt : Bool → Camera → Camera
record_attempt ok c = record c {
  consec_failures = if ok then 0 else c.consec_failures + 1;
  backoff = next_backoff c.backoff;
}
