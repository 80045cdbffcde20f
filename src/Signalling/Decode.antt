-- ===== src/Signalling/Decode.antt =====
-- `decode_signalling` of ziot_fake_cloud.py. Texts are kept as their bytes: the decoder's
-- `decode("utf-8", "replace")` and the hexadecimal forms are only for the log.
pub mod RoundTrip
use ziot_rtp_bridge.Base.{
  ℕ, ◌+◌, ◌-◌, Bool, true, false, not, ◌&&◌, ◌||◌, Option, none, some, List, [], ◌∷◌, ◌++◌,
  if◌then◌else◌, ◌==◌, ltb, Bytes, byte_at, be16_at, length, take, drop,
}
use ziot_rtp_bridge.Signalling.Frame.{xor}

pub record Fields : Type 0 where
  pub cmd : ℕ
  pub len : ℕ
  pub seq : ℕ
  pub uid_len : ℕ
  pub uid : Bytes
  pub xor_ok : Option Bool
  pub body : Bytes

-- The keys that the dictionary has besides "bytes".
pub data Content : Type 0 where
  hex : Bytes → Content
  fields : Fields → Content

pub record Decoded : Type 0 where
  pub bytes : ℕ
  pub content : Content

-- `s.rstrip("\x00")`
unfoldable pub rstrip_nul : Bytes → Bytes
rstrip_nul [] = []
rstrip_nul (b ∷ bs) = elim (rstrip_nul bs) [
  | [] ↦ if b == 0 then [] else b ∷ []
  | c ∷ cs ↦ b ∷ c ∷ cs
]

-- `if body and body[-1] == 0x0D: body = body[:-1]`
unfoldable pub strip_end : Bytes → Bytes
strip_end [] = []
strip_end (b ∷ bs) =
    let s = b ∷ bs in if byte_at s (length s - 1) == 0x0d then take (length s - 1) s else s

-- `if body: out["xor_ok"] = …`
unfoldable pub checksum_of : Bytes → Bytes → Option Bool
checksum_of whole [] = none
checksum_of whole (b ∷ bs) =
    some (xor (take (length whole - 2) whole) == byte_at whole (length whole - 2))

unfoldable pub decode_fields : Bytes → Fields
unfolding strip_end rstrip_nul checksum_of
decode_fields s =
    let uid_len = be16_at s 8 in
    let body = strip_end (drop (10 + uid_len) s) in
    record {
      cmd = be16_at s 2;
      len = be16_at s 4;
      seq = be16_at s 6;
      uid_len = uid_len;
      uid = take uid_len (drop 10 s);
      xor_ok = checksum_of s body;
      body = rstrip_nul body;
    }

unfoldable pub decode_signalling : Bytes → Decoded
decode_signalling s = record {
  bytes = length s;
  content =
      if ltb (length s) 10 || not (byte_at s 0 == 0x86 && byte_at s 1 == 0x86)
      then hex (take 64 s)
      else fields (decode_fields s);
}
