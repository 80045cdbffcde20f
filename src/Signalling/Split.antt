-- ===== src/Signalling/Split.antt =====
-- `split_signalling` of ziot_fake_cloud.py. A position in `data` is the suffix that starts there:
-- `data[scan:end]` is `take` of a suffix, and the search for the next magic walks down the list.
mod Rounds
pub mod Complete
pub mod Straddle
pub mod Sound
pub mod Request
pub mod Reads
use ziot_rtp_bridge.Base.{
  ℕ, zero, suc, ◌+◌, ◌-◌, ◌≡◌, refl, Bool, true, false, not, ◌&&◌, ◌||◌, Option, none, some, List,
  [], ◌∷◌, arith, if◌then◌else◌, ◌==◌, ltb, Bytes, byte_at, be16_at, bytes_eq, length, take, drop,
}
use ziot_rtp_bridge.Signalling.Frame.{xor}

abbrev pub sig_frame_max : ℕ
sig_frame_max = 4096

-- The suffix starts with 86 86.
abbrev pub is_magic : Bytes → Bool
is_magic (a ∷ b ∷ _) = a == 0x86 && b == 0x86
is_magic _ = false

-- `end - scan`
abbrev pub claimed_size : Bytes → ℕ
claimed_size s = 12 + be16_at s 4

abbrev pub is_overlong : Bytes → Bool
is_overlong s = ltb sig_frame_max (claimed_size s) || ltb (length s) (claimed_size s)

-- `frame[-1] != 0x0D or _xor(frame[:-2]) != frame[-2]`
abbrev pub is_corrupt : Bytes → Bool
is_corrupt f =
    not (byte_at f (length f - 1) == 0x0d)
    || not (xor (take (length f - 2) f) == byte_at f (length f - 2))

-- How the inner loop ends: at a valid frame and what follows it, at a magic with no room for a
-- header, or with no magic left.
pub data Scan : Type 0 where
  cut : Bytes → Bytes → Scan
  short : Bytes → Scan
  missing : Scan

unfoldable pub scan_from : Bytes → Scan
scan_from [] = missing
scan_from (b ∷ bs) =
    let s = b ∷ bs in
    let next = scan_from bs in
    let size = claimed_size s in
    if not (is_magic s)
    then next
    else if ltb (length s) 10
    then short s
    else if is_overlong s
    then next
    else if is_corrupt (take size s)
    then next
    else cut (take size s) (drop size s)

-- `data.rfind(b"\x86\x86", pos)`
unfoldable pub last_magic : Bytes → Option Bytes
last_magic [] = none
last_magic (b ∷ bs) = elim (last_magic bs) [
  | some t ↦ some t
  | none ↦ if is_magic (b ∷ bs) then some (b ∷ bs) else none
]

-- `data[-1:]`
unfoldable pub last_byte : Bytes → Bytes
last_byte [] = []
last_byte (b ∷ []) = b ∷ []
last_byte (b ∷ c ∷ bs) = last_byte (c ∷ bs)

-- What is kept when no frame is left.
unfoldable pub leftover : Bytes → Bytes
unfolding last_magic last_byte
leftover s = elim (last_magic s) [
  | some t ↦ t
  | none ↦ if bytes_eq (last_byte s) (0x86 ∷ []) then last_byte s else []
]

-- The outer loop. Each round but the last takes a frame off the input, so its length is fuel enough.
pub split_loop : ℕ → Bytes → List Bytes × Bytes
split_loop zero s = ([], [])
split_loop (suc fuel) s = elim (scan_from s) [
  | cut f rest ↦ let (fs, t) = split_loop fuel rest in (f ∷ fs, t)
  | short t ↦ ([], t)
  | missing ↦ ([], leftover s)
]

unfoldable pub split_signalling : Bytes → List Bytes × Bytes
unfolding split_loop scan_from leftover
split_signalling s = split_loop (length s) s
