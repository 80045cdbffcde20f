-- ===== src/Relay/Sdp.antt =====
-- The descriptions of ziot_relay.py: `sdp_for` and `parse_sdp`, on ASCII texts.
pub mod Lines
pub mod Described
mod Tests
use ziot_rtp_bridge.Base.{
  ℕ, Bool, true, false, Option, none, some, List, [], ◌∷◌, ◌++◌, if◌then◌else◌, Bytes, bytes_eq,
  ascii, drop, starts_with, words_from, before, ◌>>=◌,
}
use ziot_rtp_bridge.Base.Int.{ℤ, pos}
use ziot_rtp_bridge.Broker.Api.{str}
use ziot_rtp_bridge.Cloud.Number.{int_text}
use ziot_rtp_bridge.Cloud.Row.{lstrip, rstrip}
use ziot_rtp_bridge.RelayClient.Sdp.{Kind, video, audio, split_lines}

abbrev pub control_line : ℕ → Bytes
control_line track = ascii "a=control:track" ++ str (pos track)

abbrev pub sdp_lines : ℕ → ℕ → List Bytes
sdp_lines video_track audio_track =
    ascii "v=0"
    ∷ ascii "o=- 1 1 IN IP4 127.0.0.1"
    ∷ ascii "s=Test"
    ∷ ascii "a=type:broadcast"
    ∷ ascii "t=0 0"
    ∷ ascii "c=IN IP4 0.0.0.0"
    ∷ ascii "m=video 0 RTP/AVP 26"
    ∷ control_line video_track
    ∷ ascii "m=audio 0 RTP/AVP 0"
    ∷ ascii "a=rtpmap:0 PCMU/8000/1"
    ∷ control_line audio_track
    ∷ []

-- Each line with its end.
abbrev pub lines_text : List Bytes → Bytes
lines_text [] = []
lines_text (l ∷ ls) = l ++ (b'\r' ∷ b'\n' ∷ lines_text ls)

-- The path has no effect.
unfoldable pub sdp_for : ℕ → ℕ → Bytes
unfolding str
sdp_for video_track audio_track = lines_text (sdp_lines video_track audio_track)

pub record Track : Type 0 where
  pub kind : Kind
  pub pt : ℤ
  pub control : Option Bytes

-- The tracks so far, the last one first.
abbrev pub Tracks : Type 0
Tracks = List Track

abbrev pub media_kind : List Bytes → Option Kind
media_kind [] = none
media_kind (m ∷ ms) =
    if bytes_eq m (ascii "m=video")
    then some video
    else if bytes_eq m (ascii "m=audio")
    then some audio
    else none

-- `int(parts[3].split("/")[0]) if len(parts) > 3 else 0`
abbrev pub media_pt : List Bytes → Option ℤ
media_pt (m ∷ port ∷ proto ∷ f ∷ fs) = int_text (before (b'/' ∷ []) f)
media_pt _ = some (pos 0)

abbrev pub open_track : Option Kind → ℤ → Tracks → Tracks
open_track none pt ts = ts
open_track (some k) pt ts = record { kind = k; pt = pt; control = none } ∷ ts

abbrev pub set_control : Bytes → Tracks → Tracks
set_control control [] = []
set_control control (t ∷ ts) = record t { control = some control } ∷ ts

-- A stripped line; `none` is a `ValueError`.
unfoldable pub read_line : Bytes → Tracks → Option Tracks
unfolding int_text words_from before
read_line line ts =
    if starts_with (ascii "m=") line
    then (media_pt (words_from [] line) >>= λ (pt : ℤ).
        some (open_track (media_kind (words_from [] line)) pt ts))
    else some (if starts_with (ascii "a=control:") line then set_control (drop 10 line) ts else ts)

unfoldable pub read_lines : List Bytes → Tracks → Option Tracks
unfolding read_line lstrip rstrip
read_lines [] ts = some ts
read_lines (l ∷ ls) ts = read_line (rstrip (lstrip l)) ts >>= λ (ts' : Tracks). read_lines ls ts'

abbrev pub reverse_onto : Tracks → Tracks → Tracks
reverse_onto [] out = out
reverse_onto (t ∷ ts) out = reverse_onto ts (t ∷ out)

unfoldable pub parse_sdp : Bytes → Option Tracks
unfolding split_lines read_lines
parse_sdp body = read_lines (split_lines [] body) [] >>= λ (ts : Tracks). some (reverse_onto ts [])
