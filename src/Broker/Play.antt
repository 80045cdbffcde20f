-- ===== src/Broker/Play.antt =====
-- When the broker tells a camera to play: what has passed before it on the sockets.
pub mod Chain
pub mod Calls
pub mod Frame
pub mod Reach
use ziot_rtp_bridge.Base.{
  ℕ, ◌≤◌, ◌≡◌, Bool, true, false, not, ◌&&◌, Option, none, some, List, [], ◌∷◌, if◌then◌else◌, ◌==◌,
  Bytes,
}
use ziot_rtp_bridge.Broker.Answers.{Message, conn_req, play_ctrl}
use ziot_rtp_bridge.Broker.Handler.{reported_state}
use ziot_rtp_bridge.Broker.State.{Event, sent, hello, got, Entry, is_some}
use ziot_rtp_bridge.Signalling.Decode.{decode_fields}

abbrev pub is_conn_req : Message → Bool
is_conn_req (conn_req _ _) = true
is_conn_req _ = false

-- PlayLiveview; the values 2 and 3 pause and stop.
abbrev pub is_play : Message → Bool
is_play (play_ctrl value) = value == 1
is_play _ = false

abbrev pub is_three : Option ℕ → Bool
is_three none = false
is_three (some n) = n == 3

-- A status report with media state 3.
unfoldable pub reports_bound : Bytes → Bool
reports_bound raw = (decode_fields raw).cmd == 0x0004 && is_three (reported_state raw)

-- How far the camera is, from what has passed: 0 until it is asked, 1 once it has the viewer's address, 2 once
-- it has reported its socket bound after that, and 0 again once it plays.
unfoldable pub phase : List Event → ℕ
unfolding reports_bound
phase [] = 0
phase (sent conn m frame ∷ trace) =
    let before = phase trace in if is_conn_req m then 1 else if is_play m then 0 else before
phase (hello ip port ∷ trace) = phase trace
phase (got conn raw ∷ trace) =
    let before = phase trace in if reports_bound raw then (if before == 0 then 0 else 2) else before

-- Each play was sent to a camera that had reported its socket bound since it was asked last, and had not
-- been told to play since.
abbrev pub Orderly : List Event → Type 0
Orderly [] = Unit
Orderly (sent conn m frame ∷ trace) = (is_play m ≡ true → phase trace ≡ 2) × Orderly trace
Orderly (hello ip port ∷ trace) = Orderly trace
Orderly (got conn raw ∷ trace) = Orderly trace

-- What the items of a camera say of its trace.
pub record IsChained (e : Entry) : Type 0 where
  pub asked : is_some e.p2p_fire_at ≡ true → 1 ≤ phase e.trace
  pub waits : is_some e.p2p_ready ≡ true → is_some e.p2p_fire_at ≡ true
  pub bound : is_some e.p2p_ready ≡ true → phase e.trace ≡ 2
  pub orderly : Orderly e.trace
