-- ===== src/Signalling/Frame.antt =====
-- `_xor` and `signalling_frame` of ziot_fake_cloud.py.
pub mod Valid
use ziot_rtp_bridge.Base.{
  ℕ, ◌+◌, ◌-◌, ◌≤◌, bit_xor, ◌≡◌, Bool, true, false, Option, none, some, [], ◌∷◌, ◌++◌, Bytes,
  byte_at, be16_at, be16, pack16, ljust, length, take, ◌>>=◌,
}

-- `x = 0; for b in data: x ^= b`
xor_from : ℕ → Bytes → ℕ
xor_from x [] = x
xor_from x (b ∷ bs) = xor_from (bit_xor x b) bs

unfoldable pub xor : Bytes → ℕ
unfolding xor_from
xor = xor_from 0

-- The bytes from the magic to the end symbol.
abbrev pub covered : ℕ → ℕ → ℕ → Bytes → Bytes → Bytes
covered cmd len seq uid body =
    0x86 ∷ 0x86 ∷ (be16 cmd ++ (be16 len ++ (be16 seq ++ (be16 (length uid) ++ (uid ++ body)))))

abbrev pub sealed : Bytes → Bytes
sealed head = head ++ (xor head ∷ 0x0d ∷ [])

-- `body[:32].ljust(32, b"\x00")` if `pad`.
abbrev pub padded : Bool → Bytes → Bytes
padded true body = ljust 32 (take 32 body)
padded false body = body

-- `length`, or what follows the header.
abbrev pub length_or : Option ℕ → ℕ → ℕ
length_or none n = n
length_or (some l) n = l

-- `none` is the `struct.error` of a field that does not fit two bytes.
unfoldable pub signalling_frame : ℕ → ℕ → Bytes → Bytes → Option ℕ → Bool → Option Bytes
signalling_frame cmd seq uid body len pad = do
  let body' = padded pad body
  let l = length_or len (length uid + length body')
  c ← pack16 cmd
  l' ← pack16 l
  s ← pack16 seq
  u ← pack16 (length uid)
  some (sealed (0x86 ∷ 0x86 ∷ (c ++ (l' ++ (s ++ (u ++ (uid ++ body')))))))

-- What a receiver can check of a frame, without the code that builds one.
pub record IsFrame (f : Bytes) : Type 0 where
  pub magic_first : byte_at f 0 ≡ 0x86
  pub magic_second : byte_at f 1 ≡ 0x86
  pub size : length f ≡ 12 + be16_at f 4
  pub bounded : length f ≤ 4096
  pub ended : byte_at f (length f - 1) ≡ 0x0d
  pub checked : byte_at f (length f - 2) ≡ xor (take (length f - 2) f)
