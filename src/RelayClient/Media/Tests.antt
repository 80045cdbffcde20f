-- ===== src/RelayClient/Media/Tests.antt =====
-- Media and a keepalive's reply, and what a relay sends a new reader.
use ziot_rtp_bridge.Base.{
  ◌≡◌, refl, true, List, [], ◌∷◌, ◌++◌, arith, Bytes, ascii, replicate, words_from, before,
}
use ziot_rtp_bridge.Base.Dict.{Dict}
use ziot_rtp_bridge.Cloud.Row.{lstrip, rstrip}
use ziot_rtp_bridge.Fanout.Newest.{newest}
use ziot_rtp_bridge.Relay.{Packet, Reader, Session, stream}
use ziot_rtp_bridge.Relay.Pump.{AreFramable}
use ziot_rtp_bridge.Relay.Ring.{publish_all}
use ziot_rtp_bridge.Relay.Server.{head_lines}
use ziot_rtp_bridge.RelayClient.Media.{
  line_block, read_response, take_one, rounds, pump, reads_on, escaped,
}
use ziot_rtp_bridge.RelayClient.Media.Relayed.{played, flush_twice, pump-flush_twice}
use ziot_rtp_bridge.RelayClient.Sdp.{Kind, video, audio}

abbrev channels : Dict Kind
channels = (0, video) ∷ (2, audio) ∷ []

abbrev packet : Bytes
packet = 0x80 ∷ 26 ∷ replicate 10 7

-- A packet, one on a channel that was not set up, and one that is too short for an RTP header.
abbrev packets : List Packet
packets = (0, packet) ∷ (1, packet) ∷ (2, 0x80 ∷ []) ∷ []

packets-AreFramable : AreFramable packets
packets-AreFramable =
    (omega arith, omega arith, (omega arith, omega arith, (omega arith, omega arith, tt)))

abbrev new_session : Session
new_session = record { readers = []; packets = 0; bytes = 0; buffer = [] }

abbrev new_reader : Reader
new_reader = record { name = 1; open_sock = true; sent = [] }

-- A reply in front of media is passed over.
reply_passed :
    pump channels (ascii "RTSP/1.0 200 OK\r\nCSeq: 9\r\n\r\n" ++ stream packets)
    ≡ ((video, packet) ∷ [], [], reads_on)
unfolding pump rounds take_one read_response line_block head_lines words_from lstrip rstrip before
    stream
reply_passed = refl

-- A length that is no number is an error that pump does not catch.
bad_length : (pump channels (ascii "RTSP/1.0 200 OK\r\nContent-Length: x\r\n\r\n")).2 ≡ escaped
unfolding pump rounds take_one read_response line_block head_lines words_from lstrip rstrip before
    stream
bad_length = refl

pump-flush_twice_example :
    pump channels (flush_twice (publish_all packets new_session) new_reader).sent
    ≡ (played channels (newest 128 packets ++ newest 128 packets), [], reads_on)
pump-flush_twice_example =
    pump-flush_twice channels packets new_session new_reader packets-AreFramable refl refl refl
