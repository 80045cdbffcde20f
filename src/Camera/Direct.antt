-- ===== src/Camera/Direct.antt =====
-- The direct media path: `_handle_direct_packet`, `ingest_rtp_media` and `uid_ssrc` of
-- ziot_rtp_bridge.py. The log lines leave no trace.
pub mod Identity
use ziot_rtp_bridge.Audio.{ulaw_to_pcm16}
use ziot_rtp_bridge.Base.{
  ℕ, ◌+◌, ◌-◌, ◌*◌, ◌/◌, ◌%◌, Bool, true, false, not, ◌&&◌, ◌||◌, Option, none, some, List, [], ◌∷◌,
  if◌then◌else◌, ◌==◌, ltb, leb, Bytes, byte_at, be32_at, length, drop,
}
use ziot_rtp_bridge.Camera.State.{Addr, Camera}
use ziot_rtp_bridge.Cloud.Version.{is_digit, digit_value}
use ziot_rtp_bridge.Jpeg.Reassembler.{Reassembler, Event, feed}
use ziot_rtp_bridge.Rtp.{rtp_payload}

pub data Media : Type 0 where
  video audio : Media

-- `on_audio` and the callbacks of the reassembler.
pub data Played : Type 0 where
  frame : Event → Played
  pcm : Bytes → Played

-- The camera, its receive thread's reassembler, and the fields that only this path uses.
pub record Receiver : Type 0 where
  pub camera : Camera
  pub asm : Reassembler
  pub ssrc : Option ℕ
  pub learned_ssrc : Option ℕ
  pub foreign_ssrc : ℕ

abbrev pub frames : List Event → List Played
frames [] = []
frames (e ∷ es) = frame e ∷ frames es

abbrev pub mark_rx : ℕ → Receiver → Receiver
mark_rx now r = record r { camera = record r.camera { last_rx = now } }

-- `ingest_rtp_media`, at a time.
unfoldable pub ingest_rtp_media : ℕ → Media → Bytes → Receiver → Receiver × Bool × List Played
ingest_rtp_media now video packet r =
    let (asm', taken, events) = feed r.asm packet in
    if taken
    then (mark_rx now (record r { asm = asm' }), true, frames events)
    else (record r { asm = asm' }, false, frames events)
ingest_rtp_media now audio packet r = elim (rtp_payload packet) [
  | none ↦ (r, false, [])
  | some [] ↦ (r, false, [])
  | some (b ∷ bs) ↦ (mark_rx now r, true, pcm (ulaw_to_pcm16 (b ∷ bs)) ∷ [])
]

-- `{26: "video", 0: "audio"}.get(packet[1] & 0x7f)`
abbrev pub media_kind : Bytes → Option Media
media_kind packet =
    if byte_at packet 1 % 128 == 26
    then some video
    else if byte_at packet 1 % 128 == 0
    then some audio
    else none

abbrev pub is_it : Option ℕ → ℕ → Bool
is_it none x = false
is_it (some y) x = x == y

-- The SSRC is checked, or learned: the new state, and whether the packet is taken.
unfoldable pub check_ssrc : ℕ → Receiver → Receiver × Bool
check_ssrc seen r = elim r.ssrc [
  | none ↦ (r, true)
  | some wanted ↦ elim r.learned_ssrc [
    | none ↦
        if not r.camera.has_api
        then (record r { learned_ssrc = some seen }, true)
        else if seen == wanted
        then (r, true)
        else (record r { foreign_ssrc = r.foreign_ssrc + 1 }, false)
    | some learned ↦
        if seen == wanted
        then (r, true)
        else if not r.camera.has_api && seen == learned
        then (r, true)
        else (record r { foreign_ssrc = r.foreign_ssrc + 1 }, false)
  ]
]

-- `_handle_direct_packet` on a packet that the socket `sock` has received.
unfoldable pub handle_direct_packet :
    ℕ → ℕ → Addr → Bytes → Receiver → Receiver × Bool × List Played
unfolding check_ssrc ingest_rtp_media
handle_direct_packet now sock source packet r =
    if not (is_it r.camera.sock sock)
    then (r, false, [])
    else if ltb (length packet) 12
    then (r, false, [])
    else if not (byte_at packet 0 / 64 == 2)
    then (r, false, [])
    else elim (media_kind packet) [
      | none ↦ (r, false, [])
      | some kind ↦
          (let (r', taken) = check_ssrc (be32_at packet 8) r in
            if taken
            then ingest_rtp_media now kind packet
                (record r' { camera = record r'.camera { media_source = some source } })
            else (r', false, []))
    ]

-- The hexadecimal number of a list of decimal digits.
abbrev pub hex_of : ℕ → Bytes → ℕ
hex_of acc [] = acc
hex_of acc (d ∷ ds) = hex_of (acc * 16 + digit_value d) ds

abbrev pub all_digits : Bytes → Bool
all_digits [] = true
all_digits (b ∷ bs) = is_digit b && all_digits bs

-- `uid_ssrc`; the test for a length below 8 covers the empty one.
unfoldable pub uid_ssrc : Bytes → Option ℕ
uid_ssrc uid =
    if not (all_digits uid) || ltb (length uid) 8
    then none
    else some (hex_of 0 (drop (length uid - 8) uid))
