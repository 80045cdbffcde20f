-- ===== src/Jpeg/Tests.antt =====
-- Concrete fragments and frames for the theorems on JPEG.
use mathlib.Core.List.{Permᴰ}
use ziot_rtp_bridge.Base.{
  ◌≡◌, inr, refl, true, false, none, some, List, [], ◌∷◌, ◌++◌, Bytes, drop, replicate, arith,
}
use ziot_rtp_bridge.Base.Dict.{lookup, IsDict}
use ziot_rtp_bridge.Jpeg.Header.{build_jpeg_header}
use ziot_rtp_bridge.Jpeg.Header.Walk.{walk, expected, walk-build_jpeg_header}
use ziot_rtp_bridge.Jpeg.Reassembler.{
  Meta, Reassembler, emit, on_drop, Fragment, jpeg, store, frame_events, finish, prune, accept,
  feed, parse_fragment,
}
use ziot_rtp_bridge.Rtp.{rtp_payload}
use ziot_rtp_bridge.Jpeg.Reassembler.Frames.{
  accept_all, HasRoom, accept_all_whole, accept_all_broken,
}
use ziot_rtp_bridge.Jpeg.Reassembler.Pending.{IsBounded, feed-IsBounded}
use ziot_rtp_bridge.Jpeg.Scan.{scan_data}

abbrev fresh : Reassembler
fresh = record { frags = []; meta = []; has_on_drop = true }

abbrev small_tables : Meta
small_tables = record { width = 640; height = 480; qtables = replicate 128 1; jtype = 1; dri = 0 }

-- The end of the frame comes before its start.
abbrev late_start : List Fragment
late_start =
    record { marker = false; ts = 5; frag_off = 2; tables = none; body = 3 ∷ [] }
    ∷ record { marker = true; ts = 5; frag_off = 0; tables = some small_tables; body = 1 ∷ 2 ∷ [] }
    ∷ []

abbrev pieces : List Bytes
pieces = (1 ∷ 2 ∷ []) ∷ (3 ∷ []) ∷ []

fresh-HasRoom : HasRoom fresh 5
fresh-HasRoom = record { frags_absent = tt; meta_absent = tt; room = omega arith }

accept_all_whole_example :
    accept_all fresh late_start ≡ (fresh, emit (jpeg small_tables (1 ∷ 2 ∷ 3 ∷ [])) ∷ [])
accept_all_whole_example =
    accept_all_whole fresh 5 late_start pieces small_tables fresh-HasRoom (refl, refl, (refl, refl))
      (omega arith, (omega arith, tt)) (Permᴰ.swap refl refl) refl

-- Bytes are missing at two places, and the packets came out of order.
abbrev with_gap : List Fragment
with_gap =
    record { marker = false; ts = 5; frag_off = 3; tables = none; body = 4 ∷ [] }
    ∷ record { marker = false; ts = 5; frag_off = 0; tables = some small_tables; body = 1 ∷ [] }
    ∷ record { marker = true; ts = 5; frag_off = 6; tables = none; body = 7 ∷ [] }
    ∷ []

accept_all_broken_example : accept_all fresh with_gap ≡ (fresh, on_drop ∷ [])
accept_all_broken_example =
    accept_all_broken fresh 5 with_gap fresh-HasRoom ((refl, refl, (refl, refl, (refl, refl))))
      (ground arith)
      (inr (
        3,
        (1 ∷ []) ∷ [],
        4 ∷ [],
        (6, 7 ∷ []) ∷ [],
        (λ e. absurd (omega (arith, e))),
        (omega arith, (omega arith, (omega arith, tt))),
        Permᴰ.swap refl refl,
      ))

abbrev lone : Fragment
lone = record { marker = true; ts = 5; frag_off = 0; tables = some small_tables; body = 1 ∷ [] }

lone_emits : (accept fresh lone).1 ≡ emit (jpeg small_tables (1 ∷ [])) ∷ []
unfolding accept store finish frame_events scan_data
lone_emits = refl

fresh-IsBounded : IsBounded fresh
fresh-IsBounded = record {
  frags_dict = tt;
  meta_dict = tt;
  pending = omega arith;
  meta_pending = λ k h. tt;
}

feed-IsBounded_example : IsBounded (feed fresh (0x80 ∷ 26 ∷ [])).0
feed-IsBounded_example = feed-IsBounded fresh (0x80 ∷ 26 ∷ []) fresh-IsBounded

short_refused : (feed fresh (0x80 ∷ 26 ∷ [])).1 ≡ false
unfolding feed parse_fragment rtp_payload
short_refused = refl

abbrev nine : Reassembler
nine = record fresh {
  frags =
      (1, []) ∷ (2, []) ∷ (3, []) ∷ (4, []) ∷ (5, []) ∷ (6, []) ∷ (7, []) ∷ (8, []) ∷ (9, []) ∷ [];
}

nine-IsDict : IsDict nine.frags
nine-IsDict = ground arith

two_gone : lookup 2 (prune nine).frags ≡ none
unfolding prune
two_gone = refl

seven_kept : lookup 7 (prune nine).frags ≡ some []
unfolding prune
seven_kept = refl

walk-build_jpeg_header_example :
    walk 9 (drop 2 (build_jpeg_header 640 480 (replicate 128 1) 1 0 ++ 5 ∷ []))
    ≡ some (expected 0, 5 ∷ [])
walk-build_jpeg_header_example =
    walk-build_jpeg_header 640 480 1 0 (5 ∷ []) (replicate 128 1) (omega arith)
