-- ===== src/Camera/Punch.antt =====
-- The threads of `ZiotCamera` of ziot_rtp_bridge.py around its transport: `__init__`, `_punch`, `stop` and the rounds
-- of `_receive`. What other threads do while the punch loop waits is the `meanwhile` of a tick.
pub mod Cadence
use ziot_rtp_bridge.Base.{
  ℕ, zero, suc, ◌+◌, ◌-◌, ◌%◌, Bool, true, false, not, ◌&&◌, ◌||◌, Option, none, some, List, [],
  ◌∷◌, ◌++◌, if◌then◌else◌, ◌==◌, ltb, Bytes,
}
use ziot_rtp_bridge.Camera.Attempt.{stop_relay}
use ziot_rtp_bridge.Camera.Direct.{Receiver, Played, handle_direct_packet}
use ziot_rtp_bridge.Camera.State.{
  Addr, Camera, World, is_relayed, meanwhile_all, recovery_initial_backoff,
}
use ziot_rtp_bridge.Camera.Stun.{resolve, resolve_calls, punch_dest}
use ziot_rtp_bridge.Cloud.Row.{Row}

-- `__init__`
abbrev pub new_camera : Bool → Bytes → Bool → Row → Option Addr → Camera
new_camera has_api bind_ip force_relay row static_addr = record {
  has_api = has_api;
  force_relay = force_relay;
  bind_ip = bind_ip;
  static_addr = static_addr;
  cloud = row;
  sock = none;
  addr = none;
  relay = none;
  last_rx = 0;
  wake_now = false;
  backoff = recovery_initial_backoff;
  last_re_rendezvous = 0;
  re_rendezvous_count = 0;
  consec_failures = 0;
  relay_last_direct_try = 0;
  last_resolve = none;
  endpoint_moves = 0;
  endpoint_kind = none;
  stun_seq = none;
  media_source = none;
}

abbrev pub starved_threshold : ℕ
starved_threshold = 2000

abbrev pub heart_every_n_punches : ℕ
heart_every_n_punches = 5

-- `PUNCH` and `HEART`, to an address.
pub data Sent : Type 0 where
  hello heart : Addr → Sent

-- What a tick sends: nothing without a socket, an address or a port, and nothing more after an `OSError`.
abbrev pub sends : Bool → Option ℕ → Option Addr → ℕ → List Sent
sends sock_open (some s) (some (ip, suc port)) tick =
    if not sock_open
    then []
    else if tick % heart_every_n_punches == 0
    then hello (ip, suc port) ∷ heart (ip, suc port) ∷ []
    else hello (ip, suc port) ∷ []
sends sock_open _ _ tick = []

-- The punch loop: its tick, the camera, and what was sent.
pub record Punching : Type 0 where
  pub tick : ℕ
  pub camera : Camera
  pub sent : List Sent

abbrev pub is_starved : World → Camera → Bool
is_starved w c = ltb starved_threshold (w.now - c.last_rx)

abbrev pub resolve_if_starved : World → Camera → Camera × ℕ
resolve_if_starved w c = if is_starved w c then resolve_calls w c else (c, 0)

-- The punch loop leaves the direct path alone.
abbrev pub leaves_alone : Camera → Bool
leaves_alone c = is_relayed c || c.force_relay

-- A round of `_punch`, in front of its wait, and how often it has called `get_stun_addr`.
abbrev pub punch_calls : World → Punching → Punching × ℕ
punch_calls w p =
    let (c, calls) = resolve_if_starved w p.camera in
    if leaves_alone p.camera then (p, 0) else (
      record {
        tick = p.tick + 1;
        camera = c;
        sent = p.sent ++ sends w.sock_open c.sock (punch_dest c) (p.tick + 1);
      },
      calls,
    )

unfoldable pub punch : World → Punching → Punching
unfolding resolve punch_dest
punch w p = (punch_calls w p).0

-- The wait of a round.
abbrev pub rest : World → Punching → Punching
rest w p = record p { camera = meanwhile_all w.later w.meanwhile p.camera }

unfoldable pub punch_all : List World → Punching → Punching
unfolding punch
punch_all [] p = p
punch_all (w ∷ ws) p = punch_all ws (rest w (punch w p))

-- `stop`, which also tells the cloud.
unfoldable pub stop : Camera → Camera
stop c = record (stop_relay c) { sock = none }

-- What `recvfrom` gives: nothing in time, an `OSError`, or a datagram.
pub data Arrived : Type 0 where
  timed_out closed : Arrived
  datagram : Addr → Bytes → Arrived

-- A round of `_receive` at a time: the receiver, the count of datagrams, and what was played.
unfoldable pub receive : ℕ → Arrived → Receiver × ℕ → (Receiver × ℕ) × List Played
unfolding handle_direct_packet
receive now arrived (r, datagrams) =
    if is_relayed r.camera then ((r, datagrams), []) else elim r.camera.sock [
      | none ↦ ((r, datagrams), [])
      | some sock ↦ elim arrived [
        | timed_out ↦ ((r, datagrams), [])
        | closed ↦ ((r, datagrams), [])
        | datagram source packet ↦
            (let (r', taken, played) = handle_direct_packet now sock source packet r in
              ((r', datagrams + 1), played))
      ]
    ]
