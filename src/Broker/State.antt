-- ===== src/Broker/State.antt =====
-- `HttpApi` of ziot_fake_cloud.py. Each of its dictionaries is keyed by the uid and no method reads one
-- camera's item for another, so the model is the items under one uid. Texts are bytes and times are
-- milliseconds of the monotonic clock. Each call runs without a switch to another thread between its steps.
use ziot_rtp_bridge.Base.{
  ℕ, Bool, true, false, not, ◌&&◌, ◌||◌, Option, none, some, List, [], ◌∷◌, ◌++◌, if◌then◌else◌,
  ◌==◌, Bytes,
}
use ziot_rtp_bridge.Base.Int.{ℤ}
use ziot_rtp_bridge.Broker.Answers.{Viewer, Pair, Message, frame_of}

-- A row of `cameras`, without the fields that never change: `_ip`, `_port`, `_pub_ip` with `_pub_port`, and
-- `mediaState` as the number that it shows.
pub record Device : Type 0 where
  pub ip : Bytes
  pub port : ℕ
  pub public : Option (Bytes × ℕ)
  pub media_state : ℕ

-- What stands in `p2p_answer`.
pub record Answer : Type 0 where
  pub pub_ip : Bytes
  pub pub_port : ℕ
  pub loc_ip : Bytes
  pub loc_port : ℕ

-- What passes on the sockets: a frame with what it says, a datagram of the hello, and a frame of the
-- camera.
pub data Event : Type 0 where
  sent : ℕ → Message → Bytes → Event
  hello : Bytes → ℕ → Event
  got : ℕ → Bytes → Event

-- `none` is a missing item; a missing number that the code reads as 0 is 0. A connection is a number that
-- names it, `forced_on` are the connections whose handler has the uid in `_forced_uids`, and `trace` is
-- what has passed, the latest first.
pub record Entry : Type 0 where
  pub uid : Bytes
  pub camera : Option Device
  pub viewer : Option Viewer
  pub link : Option ℕ
  pub last_seq : ℕ
  pub last_keepalive : Option ℕ
  pub heartbeat_dropped : Bool
  pub relay_trigger_at : Option ℕ
  pub p2p_fire_at : Option ℕ
  pub p2p_ready : Option ℕ
  pub p2p_ports : List ℕ
  pub p2p_sent_pair : Option Pair
  pub p2p_sent_seq : Option ℕ
  pub p2p_answer : Option Answer
  pub p2p_sent_at : Option ℕ
  pub seq_no : ℕ
  pub reported_seq : ℕ
  pub pending_seq : ℕ
  pub forced_on : List ℕ
  pub trace : List Event

-- The outside of one call: the clock before and after a frame is written, the wall clock, whether a
-- connection takes a frame within SEND_DEADLINE_S, how many datagrams can be sent, and the addresses that
-- the API and the signalling server were given.
pub record Host : Type 0 where
  pub now : ℕ
  pub later : ℕ
  pub wall : ℕ
  pub takes : ℕ → Message → Bool
  pub datagrams : ℕ
  pub relay_start : Bool
  pub api_relay_host : Bytes
  pub api_relay_port : ℕ
  pub relay_ip : Bytes
  pub relay_port : ℤ
  pub own_ip : Bytes

-- What a call did: a frame went out, none did, or `struct.error` was raised.
pub data Sent : Type 0 where
  went refused raised : Sent

-- The next call, unless this one raised.
abbrev pub and_then : Entry × Sent → (Entry → Entry × Sent) → Entry × Sent
and_then r f = elim r.1 [ raised ↦ (r.0, raised) | went ↦ f r.0 | refused ↦ f r.0 ]

abbrev pub is_some {ℓ} : {A : Type ℓ} → Option A → Bool
is_some none = false
is_some (some _) = true

abbrev pub new_device : Bytes → ℕ → Device
new_device ip port = record { ip = ip; port = port; public = none; media_state = 0 }

abbrev pub new_entry : Bytes → Option Device → Option Viewer → Entry
new_entry uid camera viewer = record {
  uid = uid;
  camera = camera;
  viewer = viewer;
  link = none;
  last_seq = 0;
  last_keepalive = none;
  heartbeat_dropped = false;
  relay_trigger_at = none;
  p2p_fire_at = none;
  p2p_ready = none;
  p2p_ports = [];
  p2p_sent_pair = none;
  p2p_sent_seq = none;
  p2p_answer = none;
  p2p_sent_at = none;
  seq_no = 0;
  reported_seq = 0;
  pending_seq = 0;
  forced_on = [];
  trace = [];
}

-- `add_camera`
unfoldable pub add_camera : Bytes → ℕ → Entry → Entry
add_camera ip port e = record e { camera = some (new_device ip port) }

abbrev pub on_camera : (Device → Device) → Entry → Entry
on_camera f e = elim e.camera [ none ↦ e | some d ↦ record e { camera = some (f d) } ]

unfoldable pub set_media_state : ℕ → Entry → Entry
set_media_state value e = on_camera (λ d. record d { media_state = value }) e

unfoldable pub set_camera_address : Bytes → ℕ → Entry → Entry
set_camera_address ip port e = on_camera (λ d. record d { ip = ip; port = port }) e

unfoldable pub set_camera_public : Bytes → ℕ → Entry → Entry
set_camera_public ip port e = on_camera (λ d. record d { public = some (ip, port) }) e

unfoldable pub set_pending_seq : ℕ → Entry → Entry
set_pending_seq n e = if n == 0 then e else record e { pending_seq = n }

unfoldable pub set_reported_seq : ℕ → Entry → Entry
set_reported_seq n e = record e { reported_seq = n }

-- `port in ports`
abbrev pub has_port : ℕ → List ℕ → Bool
has_port port [] = false
has_port port (p ∷ ps) = p == port || has_port port ps

unfoldable pub note_p2p_port : ℕ → Entry → Entry
note_p2p_port port e =
    if not (port == 0) && not (has_port port e.p2p_ports)
    then record e { p2p_ports = e.p2p_ports ++ port ∷ [] }
    else e

-- `seq_no == self.p2p_sent_seq.get(uid)`
abbrev pub is_seq : Option ℕ → ℕ → Bool
is_seq none n = false
is_seq (some m) n = n == m

unfoldable pub note_p2p_answer : ℕ → Answer → Entry → Entry
note_p2p_answer seq_no answer e =
    if not (seq_no == 0) && is_seq e.p2p_sent_seq seq_no
    then record e { p2p_answer = some answer }
    else e

-- `send_to`: a camera that stalls or errors loses its link.
unfoldable pub send_to : Host → Message → Bytes → Entry → Entry × Sent
unfolding set_media_state
send_to h m frame e = elim e.link [
  | none ↦ (e, refused)
  | some conn ↦
      if h.takes conn m
      then (record e { trace = sent conn m frame ∷ e.trace }, went)
      else (set_media_state 0 (record e { link = none }), refused)
]

-- A message is built and sent.
unfoldable pub push : Host → ℕ → Message → Entry → Entry × Sent
unfolding send_to
push h seq m e = elim (frame_of e.uid seq m) [
  | none ↦ (e, raised)
  | some frame ↦ send_to h m frame e
]
