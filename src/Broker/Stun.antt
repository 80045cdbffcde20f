-- ===== src/Broker/Stun.antt =====
-- `stun_binding_success` of ziot_fake_cloud.py. The C library's `inet_aton` is an argument.
pub mod Reply
mod Tests
pub mod Xor
use ziot_rtp_bridge.Base.{
  ℕ, ◌+◌, ◌*◌, bit_xor, Bool, true, false, not, ◌&&◌, ◌||◌, Option, none, some, List, [], ◌∷◌, ◌++◌,
  if◌then◌else◌, ◌==◌, ltb, Bytes, be16_at, be16, pack16, length, take, drop, ◌>>=◌,
}

-- The four bytes of an address, or zeros for an `OSError`.
abbrev pub raw_addr : (Bytes → Option Bytes) → Bytes → Bytes
raw_addr inet_aton ip = elim (inet_aton ip) [ none ↦ 0 ∷ 0 ∷ 0 ∷ 0 ∷ [] | some raw ↦ raw ]

-- `bytes(a ^ b for a, b in zip(raw, mask))`
abbrev pub xor_bytes : Bytes → Bytes → Bytes
xor_bytes (a ∷ as_) (b ∷ bs) = bit_xor a b ∷ xor_bytes as_ bs
xor_bytes _ _ = []

-- `attr`
abbrev pub attr : ℕ → Bytes → Bytes
attr atype value = be16 atype ++ (be16 (length value) ++ value)

-- `addr_field`
abbrev pub addr_field : (Bytes → Option Bytes) → Bytes → ℕ → Option Bytes
addr_field inet_aton ip port = do p ← pack16 port; some (0 ∷ 1 ∷ (p ++ raw_addr inet_aton ip))

unfoldable pub stun_xor_addr : (Bytes → Option Bytes) → Bytes → ℕ → Bytes → Bytes → Option Bytes
stun_xor_addr inet_aton ip port cookie txid = do
  p ← pack16 (bit_xor port 0x2112)
  some (0 ∷ 1 ∷ (p ++ xor_bytes (raw_addr inet_aton ip) (cookie ++ take 4 txid)))

-- The reply with its four attributes.
abbrev pub binding_reply : Bytes → Bytes → Bytes → Bytes → Bytes → Bytes
binding_reply cookie txid mapped source xored =
    let body =
      attr 0x0001 mapped ++ (attr 0x0004 source ++ (attr 0x8020 xored ++ attr 0x0020 xored)) in
    be16 0x0101 ++ (be16 (length body) ++ (cookie ++ (txid ++ body)))

-- The empty reply is none that is sent; `none` is a `struct.error`.
unfoldable pub stun_binding_success :
    (Bytes → Option Bytes) → Bytes → Bytes → ℕ → Bytes → ℕ → Option Bytes
unfolding stun_xor_addr
stun_binding_success inet_aton request seen_ip peer_port own_ip server_port =
    if ltb (length request) 20 || not (be16_at request 0 == 0x0001) then some [] else (do
      mapped ← addr_field inet_aton seen_ip peer_port
      source ← addr_field inet_aton own_ip server_port
      let cookie = take 4 (drop 4 request)
      let txid = take 12 (drop 8 request)
      xored ← stun_xor_addr inet_aton seen_ip peer_port cookie txid
      some (binding_reply cookie txid mapped source xored))
