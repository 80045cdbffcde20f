-- ===== src/Audio.antt =====
-- `_build_ulaw_table` and `ulaw_to_pcm16` of ziot_rtp_bridge.py. A sample is the 16 bits of its two's
-- complement.
pub mod Samples
mod Tests
use ziot_rtp_bridge.Base.{
  ℕ, ◌+◌, ◌-◌, ◌*◌, ◌/◌, ◌%◌, ◌^◌, ◌<◌, ◌≡◌, refl, List, [], ◌∷◌, if◌then◌else◌, leb, Bytes, length,
  get_or, ap, arith,
}

-- `(((u & 0x0f) << 3) + 0x84) << ((u & 0x70) >> 4)`
abbrev pub magnitude : ℕ → ℕ
magnitude u = (u % 16 * 8 + 132) * 2 ^ (u / 16 % 8)

-- An entry of the table.
unfoldable pub ulaw_sample : ℕ → ℕ
ulaw_sample byte =
    let u = 255 - byte in
    if leb 128 u then (65536 + 132 - magnitude u) % 65536 else magnitude u - 132

-- Each sample as `struct.pack("<h", v)`.
unfoldable pub ulaw_to_pcm16 : Bytes → Bytes
ulaw_to_pcm16 [] = []
ulaw_to_pcm16 (b ∷ bs) = ulaw_sample b % 256 ∷ ulaw_sample b / 256 ∷ ulaw_to_pcm16 bs
