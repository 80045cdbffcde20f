-- ===== src/Ble.antt =====
-- The Bluetooth provisioning frame of ziot_fake_cloud.py: `_lp`, `wifi_connect_frame`, `chunk20` and
-- `parse_provision_response`. Texts are their UTF-8 bytes.
pub mod Att
pub mod Chunks
pub mod Response
mod Tests
use ziot_rtp_bridge.Base.{
  ℕ, zero, suc, ◌+◌, ◌-◌, ◌*◌, ◌/◌, ◌%◌, ◌^◌, Bool, true, false, not, ◌&&◌, ◌||◌, Option, none,
  some, List, [], ◌∷◌, ◌++◌, if◌then◌else◌, ◌==◌, ltb, Bytes, byte_at, be16_at, be16, length, take,
  drop, ◌>>=◌,
}
use ziot_rtp_bridge.Base.Int.{ℤ, pos, negsuc}
use ziot_rtp_bridge.Signalling.Frame.{xor, sealed}

-- `_lp`; `none` is its `ValueError`.
abbrev pub lp : Bytes → Option Bytes
lp raw = if ltb 255 (length raw) then none else some (length raw ∷ raw)

-- The minutes, negative ones with a bias of 0x8000, as the 16 bits that are sent.
abbrev pub timezone : ℤ → ℕ
timezone (pos n) = n % 2 ^ 16
timezone (negsuc n) = (2 ^ 16 + 0x8000 - suc n % 2 ^ 16) % 2 ^ 16

-- What the XOR covers.
abbrev pub packet_head : ℕ → Bytes → Bytes
packet_head seq payload =
    0x86
    ∷ 0x86
    ∷ (be16 (4 + length payload + 1) ++ (be16 seq ++ (be16 (length payload) ++ payload)))

-- The frame around a payload.
unfoldable pub packet : ℕ → Bytes → Bytes
packet seq payload = sealed (packet_head seq payload)

abbrev pub nonce : ℕ → Bytes
nonce reg_code = if reg_code == 0 then [] else be16 (reg_code / 2 ^ 16) ++ be16 (reg_code % 2 ^ 16)

unfoldable pub wifi_connect_frame : Bytes → Bytes → Bytes → ℤ → ℕ → ℕ → Option Bytes
unfolding packet
wifi_connect_frame ssid pwd sig_addr tz_minutes seq reg_code =
    (lp ssid >>= λ s. lp pwd >>= λ p. lp sig_addr >>= λ a. some (
      packet seq
        (0x00 ∷ 0x01 ∷ (s ++ (p ++ (a ++ (be16 (timezone tz_minutes) ++ nonce reg_code)))))))

-- The slices of twenty bytes, with as many rounds as there are bytes.
unfoldable pub chunks : ℕ → Bytes → List Bytes
chunks zero s = []
chunks (suc fuel) [] = []
chunks (suc fuel) (b ∷ bs) = take 20 (b ∷ bs) ∷ chunks fuel (drop 20 (b ∷ bs))

unfoldable pub chunk20 : Bytes → List Bytes
unfolding chunks
chunk20 frame = chunks (length frame) frame

-- `{"result": …, "uid": …}`; `none` is a `ValueError`, or the `IndexError` of a payload below four bytes.
unfoldable pub parse_provision_response : Bytes → Option (Bool × Bytes)
parse_provision_response s =
    let dlen = be16_at s 6 in
    let sub = take dlen (drop 8 s) in
    if ltb (length s) 10 || not (byte_at s 0 == 0x86) || not (byte_at s 1 == 0x86)
    then none
    else if ltb (length s) (8 + dlen + 2)
    then none
    else if not (xor (take (8 + dlen) s) == byte_at s (8 + dlen))
    then none
    else if not (byte_at s (9 + dlen) == 0x0d)
    then none
    else if ltb (length sub) 4 || not (be16_at sub 0 == 0x8001)
    then none
    else some (byte_at sub 2 == 0, take (byte_at sub 3) (drop 4 sub))
