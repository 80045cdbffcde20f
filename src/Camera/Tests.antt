-- ===== src/Camera/Tests.antt =====
-- A concrete camera and what it meets.
use ziot_rtp_bridge.Base.{
  ℕ, ◌+◌, ◌≡◌, refl, true, false, Option, none, some, [], ◌∷◌, Bytes, ascii, arith,
}
use ziot_rtp_bridge.Base.Int.{pos}
use ziot_rtp_bridge.Camera.Direct.{Receiver, handle_direct_packet, uid_ssrc}
use ziot_rtp_bridge.Camera.Direct.Identity.{handle_direct_packet_foreign}
use ziot_rtp_bridge.Camera.Punch.{Punching}
use ziot_rtp_bridge.Camera.Recovery.{attempt}
use ziot_rtp_bridge.Camera.Recovery.Paths.{attempt_reaches_relay}
use ziot_rtp_bridge.Camera.State.{
  private_kind, Camera, StunAnswer, Opened, plays, World, is_relayed,
}
use ziot_rtp_bridge.Cloud.Row.{Row, takes_rtp, relay_urls}

abbrev home_row : Row
home_row = record {
  uid = ascii "141030191094";
  online_state = some (ascii "1");
  media_state = none;
  relay_ip = some (ascii "10.0.0.1:554");
  device_type = none;
  version = none;
}

-- It has been silent since 1 s, and has failed twice.
abbrev silent_camera : Camera
silent_camera = record {
  has_api = true;
  force_relay = false;
  bind_ip = ascii "192.168.1.2";
  static_addr = none;
  cloud = home_row;
  sock = some 3;
  addr = some (ascii "192.168.1.9", 5000);
  relay = none;
  last_rx = 1000;
  wake_now = false;
  backoff = 20000;
  last_re_rendezvous = 30000;
  re_rendezvous_count = 2;
  consec_failures = 2;
  relay_last_direct_try = 0;
  last_resolve = none;
  endpoint_moves = 0;
  endpoint_kind = some private_kind;
  stun_seq = some (pos 8);
  media_source = none;
}

abbrev answer : StunAnswer
answer = record {
  seq_no = some (pos 7);
  priv_ip = some (ascii "192.168.1.7");
  priv_port = some 5001;
  pub_ip = some (ascii "1.2.3.4");
  pub_port = some 6000;
}

-- `inet_aton` knows one network.
abbrev one_net : Bytes → Option ℕ
one_net _ = some 1

abbrev all_play : Bytes → Opened
all_play _ = plays

abbrev at : ℕ → World
at now = record {
  now = now;
  later = now + 25000;
  inet_aton = one_net;
  new_sock = some 4;
  sock_open = true;
  stun = some answer ∷ [];
  opens = all_play;
  meanwhile = [];
}

abbrev forced_camera : Camera
forced_camera = record silent_camera { force_relay = true }

abbrev offline_camera : Camera
offline_camera = record silent_camera { has_api = false }

home_urls :
    relay_urls home_row
    ≡ ascii "rtsp://10.0.0.1:554/rtp/30191094" ∷ ascii "rtsp://10.0.0.1:554/live/141030191094" ∷ []
unfolding relay_urls takes_rtp
home_urls = refl

attempt_reaches_relay_example : is_relayed (attempt (at 90000) silent_camera) ≡ true
attempt_reaches_relay_example =
    attempt_reaches_relay (at 90000) silent_camera (ascii "rtsp://10.0.0.1:554/rtp/30191094")
      (ascii "rtsp://10.0.0.1:554/live/141030191094" ∷ []) refl (omega arith) refl (omega arith)
      home_urls refl

abbrev receiver : Receiver
receiver = record {
  camera = silent_camera;
  asm = record { frags = []; meta = []; has_on_drop = true };
  ssrc = some 0x30191094;
  learned_ssrc = none;
  foreign_ssrc = 0;
}

mapped : uid_ssrc (ascii "141030191094") ≡ some 0x30191094
unfolding uid_ssrc
mapped = refl

-- An audio packet of SSRC 5.
abbrev foreign_packet : Bytes
foreign_packet = 0x80 ∷ 0 ∷ 0 ∷ 1 ∷ 0 ∷ 0 ∷ 0 ∷ 2 ∷ 0 ∷ 0 ∷ 0 ∷ 5 ∷ 0xff ∷ []

handle_direct_packet_foreign_example :
    ((handle_direct_packet 90000 3 (ascii "9.9.9.9", 1) foreign_packet receiver).1 ≡ false)
    × ((handle_direct_packet 90000 3 (ascii "9.9.9.9", 1) foreign_packet receiver).2 ≡ [])
    × ((handle_direct_packet 90000 3 (ascii "9.9.9.9", 1) foreign_packet receiver).0.camera
        ≡ silent_camera)
    × ((handle_direct_packet 90000 3 (ascii "9.9.9.9", 1) foreign_packet receiver).0.asm
        ≡ receiver.asm)
    × ((handle_direct_packet 90000 3 (ascii "9.9.9.9", 1) foreign_packet receiver).0.learned_ssrc
        ≡ none)
handle_direct_packet_foreign_example =
    handle_direct_packet_foreign 90000 3 (ascii "9.9.9.9", 1) foreign_packet receiver 0x30191094
      refl refl (omega arith)

abbrev learned_receiver : Receiver
learned_receiver = record receiver { camera = offline_camera; learned_ssrc = some 77 }

abbrev punching : Punching
punching = record { tick = 0; camera = silent_camera; sent = [] }
