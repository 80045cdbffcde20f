-- ===== src/Broker/Tests.antt =====
-- A camera that registers, is asked, reports its socket bound, and plays.
use ziot_rtp_bridge.Base.{
  ℕ, ◌+◌, ◌≡◌, ◌≢◌, refl, true, false, none, some, [], ◌∷◌, ◌++◌, arith, Bytes, length, ascii,
}
use ziot_rtp_bridge.Base.Int.{pos}
use ziot_rtp_bridge.Broker.Answers.{Viewer, Pair, strip}
use ziot_rtp_bridge.Broker.Api.{Query, send_stun_addr}
use ziot_rtp_bridge.Broker.Beat.{beat}
use ziot_rtp_bridge.Broker.Handler.{answer_camera, meet, keep_fed}
use ziot_rtp_bridge.Broker.Play.{Orderly}
use ziot_rtp_bridge.Broker.Play.Reach.{
  Reachable, starts, next, registers, frame, ticks, Reachable-Orderly,
}
use ziot_rtp_bridge.Broker.State.{Entry, new_entry, Host, new_device, Answer, raised}
use ziot_rtp_bridge.Broker.Timing.{answer_camera_raises}
use ziot_rtp_bridge.Cloud.Row.{lstrip, rstrip}
use ziot_rtp_bridge.Signalling.Decode.{decode_fields}
use ziot_rtp_bridge.Signalling.Report.{LocalAddr}

abbrev uid : Bytes
uid = ascii "CAM1"

abbrev host : ℕ → Host
host now = record {
  now = now;
  later = now;
  wall = 1700000000;
  takes = λ conn m. true;
  datagrams = 100;
  relay_start = false;
  api_relay_host = [];
  api_relay_port = 0;
  relay_ip = [];
  relay_port = pos 0;
  own_ip = ascii "10.0.0.2";
}

abbrev query : Query
query = record {
  public_ip = [];
  public_port = some (pos 0);
  private_ip = ascii "10.0.0.3";
  private_port = some (pos 5000);
}

-- A frame of the camera; the handler does not check the check byte.
abbrev camera_frame : ℕ → ℕ → Bytes → Bytes
camera_frame cmd seq body =
    0x86
    ∷ 0x86
    ∷ 0
    ∷ cmd
    ∷ 0
    ∷ (4 + length body)
    ∷ 0
    ∷ seq
    ∷ 0
    ∷ 4
    ∷ (uid ++ (body ++ 0 ∷ 0x0d ∷ []))

abbrev register_frame : Bytes
register_frame = camera_frame 1 7 (ascii "V1")

-- One entry: the media state is 3.
abbrev bound_frame : Bytes
bound_frame = camera_frame 4 8 (1 ∷ 0 ∷ 3 ∷ 0 ∷ 3 ∷ [])

abbrev peer : Bytes
peer = ascii "10.0.0.9"

abbrev viewed : Entry
viewed = (send_stun_addr (host 0) query (new_entry uid none none)).0

abbrev asked : Entry
asked = (answer_camera (host 100) 1 peer register_frame viewed).0

abbrev bound : Entry
bound = (answer_camera (host 1000) 1 peer bound_frame asked).0

abbrev playing : Entry
playing = (beat (host 2500) bound).0

playing-Reachable : Reachable playing
playing-Reachable =
    next
      (next
        (next (next (starts uid none none) (registers (host 0) query))
          (frame (host 100) 1 peer register_frame))
        (frame (host 1000) 1 peer bound_frame))
      (ticks (host 2500))

Reachable-Orderly_example : Orderly playing.trace
Reachable-Orderly_example = Reachable-Orderly playing-Reachable

abbrev pair : Pair
pair = record {
  pub_ip = ascii "10.0.0.3";
  pub_port = pos 5000;
  priv_ip = ascii "10.0.0.3";
  priv_port = pos 5000;
}

abbrev viewer : Viewer
viewer = record {
  public_ip = [];
  public_port = pos 0;
  private_ip = ascii "10.0.0.3";
  private_port = pos 5000;
}

-- A camera that was asked a moment ago, on connection 1.
abbrev waiting : Entry
waiting = record (new_entry uid (some (new_device peer 6000)) (some viewer)) {
  link = some 1;
  last_seq = 8;
  p2p_fire_at = some 6100;
  p2p_sent_pair = some pair;
  p2p_sent_seq = some 7;
  p2p_sent_at = some 100;
}

-- The play is out, and the viewer registers again.
abbrev settled : Entry
settled = record waiting { p2p_fire_at = none }

abbrev answering : LocalAddr
answering = record {
  public_ip = ascii "1.2.3.4";
  local_ip = peer;
  public_port = 61000;
  local_port = 6001;
  seq_no = some 7;
}

abbrev answer : Answer
answer = record { pub_ip = ascii "1.2.3.4"; pub_port = 61000; loc_ip = peer; loc_port = 6001 }

abbrev redraw : LocalAddr
redraw = record {
  public_ip = ascii "1.2.3.4";
  local_ip = peer;
  public_port = 61002;
  local_port = 6002;
  seq_no = some 0;
}

abbrev wide : Viewer
wide = record viewer { private_port = pos 70000 }

wide_named : strip wide.private_ip ≢ []
unfolding lstrip rstrip
wide_named = λ e. cc

abbrev wide_entry : Entry
wide_entry = record waiting { viewer = some wide }

register_uid : (decode_fields register_frame).uid ≢ []
unfolding decode_fields
register_uid = λ e. cc

register_cmd : (decode_fields register_frame).cmd ≡ 0x0001
unfolding decode_fields
register_cmd = refl

answer_camera_raises_example :
    answer_camera (host 0) 1 peer register_frame wide_entry
    ≡ ((keep_fed (host 0) 0x0001 (meet 1 peer register_frame wide_entry)).0, raised)
answer_camera_raises_example =
    answer_camera_raises (host 0) 1 peer register_frame wide_entry wide 70000 register_uid
      register_cmd refl wide_named refl (omega arith)
