-- ===== src/Signalling/Split/Complete.antt =====
-- `split_signalling` on a valid frame in front of anything.
use ziot_rtp_bridge.Base.{
  ℕ, ◌+◌, ◌<◌, ◌≡◌, sym, ◌∙◌, false, [], ◌∷◌, ◌++◌, arith, Bytes, be16_at, length, take, drop,
  length-append, take-append, drop-append, get_or-append_left,
}
use ziot_rtp_bridge.Signalling.Frame.{IsFrame}
use ziot_rtp_bridge.Signalling.Split.{cut, is_corrupt, claimed_size, scan_from, split_signalling}
use ziot_rtp_bridge.Signalling.Split.Rounds.{split_signalling_rounds}

pub be16_at-append :
    (i : ℕ) (f rest : Bytes) → i + 1 < length f → be16_at (f ++ rest) i ≡ be16_at f i
be16_at-append i f rest h =
    cc (
      get_or-append_left i f rest 0 (omega arith),
      get_or-append_left (i + 1) f rest 0 (omega arith),
    )

not_corrupt : (f : Bytes) → IsFrame f → is_corrupt f ≡ false
not_corrupt f v = ground arith

-- The first round of the scan stops at the frame.
scan_from-IsFrame : (f rest : Bytes) → IsFrame f → scan_from (f ++ rest) ≡ cut f rest
unfolding scan_from
scan_from-IsFrame [] rest v = absurd (omega (arith, v.size))
scan_from-IsFrame (a ∷ []) rest v = absurd (omega (arith, v.size))
scan_from-IsFrame (a ∷ b ∷ bs) rest v =
    let f = a ∷ b ∷ bs in
    let size : claimed_size (f ++ rest) ≡ length f =
      rw (be16_at-append 4 f rest (omega (arith, v.size))) (sym v.size) in
    let taken : take (claimed_size (f ++ rest)) (f ++ rest) ≡ f = take-append _ f rest size in
    let dropped : drop (claimed_size (f ++ rest)) (f ++ rest) ≡ rest = drop-append _ f rest size in
    ground (arith, v.bounded, v.size, not_corrupt f v, length-append f rest, taken, dropped)

-- A valid frame at the front is cut out whole, and the rest is split as if it stood alone.
pub split_signalling-frame :
    (f rest : Bytes)
    → IsFrame f
    → split_signalling (f ++ rest) ≡ (f ∷ (split_signalling rest).0, (split_signalling rest).1)
split_signalling-frame f rest v =
    split_signalling_rounds (f ++ rest) ∙ rw (scan_from-IsFrame f rest v)
