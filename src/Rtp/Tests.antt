-- ===== src/Rtp/Tests.antt =====
-- A concrete packet for the theorems on RTP.
use ziot_rtp_bridge.Base.{◌≡◌, refl, some, [], ◌∷◌, ◌++◌, Bytes, arith}
use ziot_rtp_bridge.Rtp.{rtp_payload}
use ziot_rtp_bridge.Rtp.Payload.{Carries}

-- Version 2 with padding, one CSRC and an extension of one word.
abbrev packet_header : Bytes
packet_header =
    0xb1 ∷ 26 ∷ 0 ∷ 1 ∷ 0 ∷ 0 ∷ 0 ∷ 2 ∷ 0 ∷ 0 ∷ 0 ∷ 3 ∷ 0 ∷ 0 ∷ 0 ∷ 4 ∷ 0xbe ∷ 0xde ∷ 0 ∷ 1 ∷ 9 ∷ 9
    ∷ 9 ∷ 9 ∷ []

abbrev packet : Bytes
packet = packet_header ++ (7 ∷ 8 ∷ []) ++ (0 ∷ 2 ∷ [])

packet-Carries : Carries packet (7 ∷ 8 ∷ [])
packet-Carries = record {
  header = packet_header;
  padding = 0 ∷ 2 ∷ [];
  splits = refl;
  header_len = refl;
  padding_ok = (omega arith, refl);
}

packet_payload : rtp_payload packet ≡ some (7 ∷ 8 ∷ [])
unfolding rtp_payload
packet_payload = refl
