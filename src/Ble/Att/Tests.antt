-- ===== src/Ble/Att/Tests.antt =====
-- A concrete exchange for the theorems on the attribute protocol.
use ziot_rtp_bridge.Base.{
  ℕ, ◌≡◌, refl, true, false, Option, none, some, List, [], ◌∷◌, ◌++◌, if◌then◌else◌, ◌==◌, arith,
  Bytes, ascii, length, take, drop,
}
use ziot_rtp_bridge.Base.Int.{negsuc}
use ziot_rtp_bridge.Ble.{packet, wifi_connect_frame, chunk20}
use ziot_rtp_bridge.Ble.Response.{answer}
use ziot_rtp_bridge.Ble.Chunks.{written}
use ziot_rtp_bridge.Ble.Att.Provision.{EndsWith, ble_provision_delivers}
use ziot_rtp_bridge.Ble.Att.{
  Event, pdu, deadline, ble_provision, all_sent, parsed, values, att_attempt,
}
use ziot_rtp_bridge.Ble.Att.Exchange.{plan}
use ziot_rtp_bridge.Ble.Att.Answered.{GoOn, Turn, turn, script, notified, att_attempt-answer}

abbrev frame : Bytes
frame = 0x86 ∷ 0x86 ∷ ascii "a frame of two writes"

abbrev reply_frame : Bytes
reply_frame = packet 1 (answer 0 (ascii "1410"))

abbrev notice : Bytes → Bytes
notice value = 0x1b ∷ 0x0a ∷ 0 ∷ value

-- The camera asks for an MTU in the middle, and its answer comes in two parts.
abbrev asked : Turn
asked = record { first = []; response = some (0x03 ∷ 0x17 ∷ 0 ∷ []) }

abbrev subscribed : Turn
subscribed = record { first = (0x02 ∷ 0x17 ∷ 0 ∷ []) ∷ []; response = some (0x13 ∷ []) }

abbrev written_turns : List Turn
written_turns =
    record { first = [] ∷ []; response = some (0x13 ∷ []) }
    ∷ record { first = notice (take 10 reply_frame) ∷ []; response = none }
    ∷ []

abbrev at_last : List Bytes
at_last = notice (drop 10 reply_frame) ∷ []

notified_first : GoOn (notice (take 10 reply_frame) ∷ [])
unfolding packet
notified_first = (refl, tt)

two_writes : length written_turns ≡ length (chunk20 frame)
unfolding chunk20
two_writes = refl

answered_whole : values (notified (asked ∷ subscribed ∷ written_turns) at_last) ≡ reply_frame
unfolding packet
answered_whole = refl

abbrev reads : List Event
reads = turn asked (turn subscribed (script written_turns at_last))

att_attempt-answer_example :
    att_attempt (some reads) (chunk20 frame)
    ≡ (plan (chunk20 frame), all_sent (parsed (true, ascii "1410")))
att_attempt-answer_example =
    att_attempt-answer frame asked subscribed written_turns at_last 1 0 (ascii "1410")
      (tt, (refl, refl)) ((refl, tt), (refl, refl))
      (((refl, tt), (refl, refl)), ((notified_first, tt), tt)) two_writes answered_whole
      (omega arith)

abbrev rejecting : List Event
rejecting = deadline ∷ pdu (0x01 ∷ 0x12 ∷ 0x0b ∷ 0 ∷ 5 ∷ []) ∷ []

abbrev silent_camera : List Event
silent_camera = deadline ∷ deadline ∷ pdu [] ∷ deadline ∷ deadline ∷ deadline ∷ []

-- The first connection fails and the second subscription is rejected, and then no request is answered.
abbrev sockets : ℕ → Option (List Event)
sockets attempt = elim (attempt == 1) [
  | true ↦ none
  | false ↦ some (if attempt == 2 then rejecting else silent_camera)
]

abbrev short_frame : Bytes
short_frame = packet 1 (0 ∷ 1 ∷ 1 ∷ b'a' ∷ 1 ∷ b'b' ∷ 1 ∷ b'c' ∷ 0x7f ∷ 0x4c ∷ [])

short_frame_built :
    wifi_connect_frame (ascii "a") (ascii "b") (ascii "c") (negsuc 179) 1 0 ≡ some short_frame
unfolding wifi_connect_frame
short_frame_built = refl

abbrev sent_pdus : List Bytes
sent_pdus = take 2 (plan []) ++ plan (chunk20 short_frame)

provisioned :
    ble_provision sockets (ascii "a") (ascii "b") (ascii "c") (negsuc 179) 1 0 ≡ some (sent_pdus, 0)
unfolding ble_provision
provisioned = refl

ble_provision_delivers_example :
    EndsWith (plan (chunk20 short_frame)) sent_pdus × (written (chunk20 short_frame) ≡ short_frame)
ble_provision_delivers_example =
    ble_provision_delivers sockets (ascii "a") (ascii "b") (ascii "c") (negsuc 179) 1 0 short_frame
      sent_pdus short_frame_built provisioned
