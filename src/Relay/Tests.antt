-- ===== src/Relay/Tests.antt =====
-- A concrete session.
use ziot_rtp_bridge.Base.{◌≡◌, refl, true, List, [], ◌∷◌, arith}
use ziot_rtp_bridge.Relay.{Packet, Reader, Session, waits, step}
use ziot_rtp_bridge.Relay.Pump.{AreFramable}
use ziot_rtp_bridge.Base.{ℕ, Option, none, some, Bytes, ascii, words_from, before}
use ziot_rtp_bridge.Cloud.Row.{lstrip, rstrip}
use ziot_rtp_bridge.Relay.Server.{
  Verb, describe, setup, play, options, Head, head_lines, parse_head, uid_from_uri, Table, serving,
  reader_first, reader_next, reader_continue, reader_run,
}
use ziot_rtp_bridge.Relay.Server.Conversation.{IsServed, reader_run-IsServed}

abbrev two_packets : List Packet
two_packets = (0, 7 ∷ []) ∷ (1, 0x24 ∷ 8 ∷ []) ∷ []

two_packets-AreFramable : AreFramable two_packets
two_packets-AreFramable = (omega arith, omega arith, (omega arith, omega arith, tt))

-- The first three bytes of a frame.
part_waits : step (0x24 ∷ 0 ∷ 0 ∷ []) ≡ waits
unfolding step
part_waits = refl

abbrev new_session : Session
new_session = record { readers = []; packets = 0; bytes = 0; buffer = [] }

abbrev new_reader : Reader
new_reader = record { name = 1; open_sock = true; sent = [] }

abbrev camera : Bytes
camera = ascii "14101234"

abbrev head : Verb → Head
head verb = record { verb = verb; uri = ascii "rtsp://h:8554/live/14101234"; cseq = ascii "1" }

describe_head :
    parse_head (ascii "DESCRIBE rtsp://h:8554/live/14101234 RTSP/1.0\r\nCSeq: 1") ≡ head describe
unfolding parse_head head_lines words_from lstrip rstrip before
describe_head = refl

camera_uid : uid_from_uri (ascii "rtsp://h:8554/live/14101234") ≡ camera
unfolding uid_from_uri before
camera_uid = refl

-- The camera publishes session 3 between the first request and the DESCRIBE.
abbrev rounds : List (Option ℕ × Head)
rounds = (some 3, head describe) ∷ (some 3, head setup) ∷ (some 3, head play) ∷ []

played : (reader_run none (head options) rounds).phase ≡ serving
unfolding reader_run reader_first reader_continue reader_next
played = refl

reader_run-IsServed_example :
    IsServed ((none, head options) ∷ rounds) (reader_run none (head options) rounds)
reader_run-IsServed_example = reader_run-IsServed none (head options) rounds played

abbrev table : Table
table = λ uid. none
