-- ===== src/Signalling/Tests.antt =====
-- Concrete frames and streams for the theorems on signalling.
use ziot_rtp_bridge.Base.{
  ◌<◌, ◌≡◌, refl, false, none, some, [], ◌∷◌, ◌++◌, Bytes, ascii, length, arith,
}
use ziot_rtp_bridge.Signalling.Decode.{fields, decode_signalling}
use ziot_rtp_bridge.Signalling.Decode.RoundTrip.{parts, decode_signalling-signalling_frame}
use ziot_rtp_bridge.Signalling.Frame.{signalling_frame, xor, IsFrame}
use ziot_rtp_bridge.Signalling.Report.{parse_status_report}
use ziot_rtp_bridge.Signalling.Report.Entries.{entries, parse_status_report-entries}
use ziot_rtp_bridge.Signalling.Split.{split_signalling}
use ziot_rtp_bridge.Signalling.Split.Reads.{looks_http, handle_reads, handle_reads-joined}
use ziot_rtp_bridge.Signalling.Split.Request.{blank_line}
use ziot_rtp_bridge.Signalling.Split.Sound.{Cuts, split_signalling-Cuts}
use ziot_rtp_bridge.Signalling.Split.Straddle.{IsMagicFree, tail, split_signalling_loses}

-- The frame of command 1 with number 2, the uid "AB" and no body, and its two halves.
abbrev first_half : Bytes
first_half = 0x86 ∷ 0x86 ∷ 0x00 ∷ 0x01 ∷ 0x00 ∷ 0x02 ∷ 0x00 ∷ []

abbrev second_half : Bytes
second_half = 0x02 ∷ 0x00 ∷ 0x02 ∷ 0x41 ∷ 0x42 ∷ 0x00 ∷ 0x0d ∷ []

abbrev small_frame : Bytes
small_frame = first_half ++ second_half

small_frame-built : signalling_frame 1 2 (ascii "AB") [] none false ≡ some small_frame
unfolding signalling_frame xor
small_frame-built = refl

small_frame-IsFrame : IsFrame small_frame
unfolding xor
small_frame-IsFrame = record {
  magic_first = refl;
  magic_second = refl;
  size = refl;
  bounded = omega arith;
  ended = refl;
  checked = refl;
}

small_frame-IsMagicFree : IsMagicFree (tail small_frame)
small_frame-IsMagicFree = ground arith

decode_signalling-signalling_frame_example :
    decode_signalling small_frame
    ≡ record { bytes = 14; content = fields (parts 1 2 2 (ascii "AB") []) }
decode_signalling-signalling_frame_example =
    decode_signalling-signalling_frame 1 2 (ascii "AB") [] false small_frame-built

-- Garbage, a frame, and the half of the next.
split_signalling-Cuts_example :
    Cuts
      (0x00 ∷ small_frame ++ first_half)
      (split_signalling (0x00 ∷ small_frame ++ first_half)).0
      (split_signalling (0x00 ∷ small_frame ++ first_half)).1
split_signalling-Cuts_example = split_signalling-Cuts (0x00 ∷ small_frame ++ first_half)

binary_first : looks_http (small_frame ++ first_half) ≡ false
unfolding looks_http
binary_first = refl

binary_second : looks_http second_half ≡ false
unfolding looks_http
binary_second = refl

no_blank_line : blank_line (small_frame ++ small_frame) ≡ none
unfolding blank_line
no_blank_line = refl

-- A read in the middle of the second of two frames.
handle_reads-joined_example :
    handle_reads [] [] ((small_frame ++ first_half) ∷ second_half ∷ [])
    ≡ (small_frame ∷ small_frame ∷ [], [])
handle_reads-joined_example =
    handle_reads-joined ((small_frame ++ first_half) ∷ second_half ∷ [])
      (small_frame ∷ small_frame ∷ [])
      (
        small_frame-IsFrame,
        small_frame-IsMagicFree,
        (small_frame-IsFrame, small_frame-IsMagicFree, tt),
      )
      (binary_first, (binary_second, tt)) no_blank_line refl

-- A frame with 86 86 in its body, of which all but the end has arrived.
abbrev lost_part : Bytes
lost_part = 0x86 ∷ 0x86 ∷ 0x00 ∷ 0x01 ∷ 0x00 ∷ 0x02 ∷ 0x00 ∷ 0x02 ∷ 0x00 ∷ 0x00 ∷ 0x86 ∷ 0x86 ∷ []

abbrev lost_end : Bytes
lost_end = 0x01 ∷ 0x0d ∷ []

lost-IsFrame : IsFrame (lost_part ++ lost_end)
unfolding xor
lost-IsFrame = record {
  magic_first = refl;
  magic_second = refl;
  size = refl;
  bounded = omega arith;
  ended = refl;
  checked = refl;
}

lost-has_magic : ¬ IsMagicFree (tail lost_part)
lost-has_magic h = ground arith

split_signalling_loses_example : length (split_signalling lost_part).1 < 12
split_signalling_loses_example =
    split_signalling_loses lost_part lost_end lost-IsFrame (omega arith) (omega arith)
      lost-has_magic

-- Two values of id 3, and half an entry.
parse_status_report-entries_example :
    parse_status_report (3 ∷ (entries ((3, 1) ∷ (3, 2) ∷ []) ++ 0 ∷ 5 ∷ [])) ≡ (3, 2) ∷ []
parse_status_report-entries_example =
    parse_status_report-entries ((3, 1) ∷ (3, 2) ∷ []) 1 (0 ∷ 5 ∷ []) (omega arith)
