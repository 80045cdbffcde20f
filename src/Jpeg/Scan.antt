-- ===== src/Jpeg/Scan.antt =====
-- `_scan_data` of ziot_rtp_bridge.py. The dictionary of a frame's fragments is the list of its items.
pub mod Order
pub mod Whole
use ziot_rtp_bridge.Base.{
  ℕ, ◌+◌, Bool, true, false, ◌&&◌, Option, none, some, List, [], ◌∷◌, ◌++◌, if◌then◌else◌, ◌==◌,
  ltb, Bytes, length,
}

-- The fragments of one frame: its offset and its data.
abbrev pub Parts : Type 0
Parts = List (ℕ × Bytes)

unfoldable pub insert_sorted : ℕ × Bytes → Parts → Parts
insert_sorted e [] = e ∷ []
insert_sorted e (x ∷ xs) = if ltb x.0 e.0 then x ∷ insert_sorted e xs else e ∷ x ∷ xs

-- The items in the order of `sorted(parts)`.
unfoldable pub sorted : Parts → Parts
unfolding insert_sorted
sorted [] = []
sorted (x ∷ xs) = insert_sorted x (sorted xs)

-- The loop over the offsets: each is where the data before it ends.
abbrev pub is_unbroken : ℕ → Parts → Bool
is_unbroken expected [] = true
is_unbroken expected ((off, part) ∷ rest) =
    off == expected && is_unbroken (expected + length part) rest

-- `b"".join(…)`
abbrev pub join_parts : Parts → Bytes
join_parts [] = []
join_parts ((_, part) ∷ rest) = part ++ join_parts rest

unfoldable pub scan_data : Parts → Option Bytes
unfolding sorted
scan_data parts = if is_unbroken 0 (sorted parts) then some (join_parts (sorted parts)) else none
