-- ===== src/Relay/Sdp/Tests.antt =====
-- Concrete descriptions.
use ziot_rtp_bridge.Base.{◌≡◌, refl, none, some, [], ◌∷◌, ◌++◌, Bytes, ascii}
use ziot_rtp_bridge.Base.Int.{pos}
use ziot_rtp_bridge.Broker.Api.{str}
use ziot_rtp_bridge.Relay.Sdp
use ziot_rtp_bridge.Relay.Sdp.Described.{parse_sdp-sdp_for}
use ziot_rtp_bridge.RelayClient.Sdp as Client
use ziot_rtp_bridge.RelayClient.Sdp.{video, audio}

parse_sdp-sdp_for_example :
    Client.parse_sdp (Sdp.sdp_for 0 1)
    ≡ record { kind = video; pt = some 26; control = some (ascii "track" ++ str (pos 0)) }
      ∷ record { kind = audio; pt = some 0; control = some (ascii "track" ++ str (pos 1)) }
      ∷ []
parse_sdp-sdp_for_example = parse_sdp-sdp_for 0 1

-- The relay reads its own description.
own_read :
    Sdp.parse_sdp (Sdp.sdp_for 0 1)
    ≡ some (
        record { kind = video; pt = pos 26; control = some (ascii "track0") }
        ∷ record { kind = audio; pt = pos 0; control = some (ascii "track1") }
        ∷ [])
unfolding Sdp.parse_sdp Sdp.sdp_for
own_read = refl

abbrev with_text : Bytes
with_text =
    ascii "m=audio 0 RTP/AVP 0\r\na=control:track1\r\nm=text 0 RTP/AVP 98\r\na=control:track2\r\n"

-- The control of a section of another kind is taken for that of the track in front of it.
control_taken :
    Sdp.parse_sdp with_text
    ≡ some (record { kind = audio; pt = pos 0; control = some (ascii "track2") } ∷ [])
unfolding Sdp.parse_sdp
control_taken = refl

-- A format that is no number raises.
format_raises : Sdp.parse_sdp (ascii "m=video 0 RTP/AVP jpeg\r\n") ≡ none
unfolding Sdp.parse_sdp
format_raises = refl
