-- ===== src/Rtp.antt =====
-- `rtp_payload` and `is_rtp_media` of ziot_rtp_bridge.py. A mask of low bits is written `%`, and a test
-- of one bit of a byte `/` and `%`.
pub mod Payload
mod Tests
use ziot_rtp_bridge.Base.{
  ℕ, ◌+◌, ◌-◌, ◌*◌, ◌/◌, ◌%◌, ◌^◌, Bool, true, false, not, ◌||◌, ◌&&◌, Option, none, some, List, [],
  ◌∷◌, if◌then◌else◌, ◌==◌, ltb, Bytes, byte_at, be16_at, be32_at, length, take, drop, ◌>>=◌,
}

-- `pkt[0] & 0x0f`, the number of CSRC identifiers.
abbrev pub csrc_count : Bytes → ℕ
csrc_count pkt = byte_at pkt 0 % 16

-- `pkt[0] & 0x10`
abbrev pub has_extension : Bytes → Bool
has_extension pkt = byte_at pkt 0 / 16 % 2 == 1

-- `pkt[0] & 0x20`
abbrev pub has_padding : Bytes → Bool
has_padding pkt = byte_at pkt 0 / 32 % 2 == 1

-- The offset behind the header extension, if there is one.
abbrev pub skip_extension : Bytes → ℕ → Option ℕ
skip_extension pkt off =
    if has_extension pkt
    then if ltb (length pkt) (off + 4) then none else some (off + (4 + 4 * be16_at pkt (off + 2)))
    else some off

-- The payload without its trailing padding.
abbrev pub strip_padding : Bytes → Bytes → Option Bytes
strip_padding pkt payload =
    let pad = byte_at payload (length payload - 1) in
    if not (has_padding pkt)
    then some payload
    else if length payload == 0
    then none
    else if pad == 0 || ltb (length payload) pad
    then none
    else some (take (length payload - pad) payload)

unfoldable pub rtp_payload : Bytes → Option Bytes
rtp_payload pkt =
    if ltb (length pkt) 12
    then none
    else (skip_extension pkt (12 + 4 * csrc_count pkt) >>= λ off.
        if ltb (length pkt) off then none else strip_padding pkt (drop off pkt))

-- RTP version 2 with a payload type of these cameras, and with the SSRC if one is wanted.
unfoldable pub is_rtp_media : Bytes → Option ℕ → Bool
is_rtp_media payload want_ssrc =
    if ltb (length payload) 12
    then false
    else if not (byte_at payload 0 / 64 % 4 == 2)
    then false
    else if not (byte_at payload 1 % 128 == 0 || byte_at payload 1 % 128 == 26)
    then false
    else elim want_ssrc [ none ↦ true | some ssrc ↦ be32_at payload 8 == ssrc ]
