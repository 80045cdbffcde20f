-- ===== src/Broker/Stun/Reply.antt =====
-- The layout of the reply to a STUN request.
use ziot_rtp_bridge.Base.{
  ℕ, ◌+◌, zero, suc, ◌≤◌, ◌<◌, ◌≡◌, inl, inr, refl, sym, ap, ◌∙◌, Option, some, [], ◌∷◌, ◌++◌, min,
  arith, Bytes, be16_at, be16, bit_xor, length, take, drop, length-append, length-take, length-drop,
  take-append, append_assoc, drop_add, Option-cases,
}
use ziot_rtp_bridge.Broker.Stun.Xor.{bit_xor_small}
use native.Mathlib.Nat.{zero-add, suc-add}
use ziot_rtp_bridge.Broker.Stun.{
  raw_addr, xor_bytes, attr, addr_field, stun_xor_addr, binding_reply, stun_binding_success,
}

-- The C library's function packs an address into four bytes.
abbrev pub PacksFour : (Bytes → Option Bytes) → Type 0
PacksFour inet_aton = (ip raw : Bytes) → inet_aton ip ≡ some raw → length raw ≡ 4

length-raw_addr :
    (inet_aton : Bytes → Option Bytes) (ip : Bytes)
    → PacksFour inet_aton
    → length (raw_addr inet_aton ip) ≡ 4
length-raw_addr inet_aton ip four = elim (Option-cases (inet_aton ip)) [
  | inl bad ↦ rw (raw_addr, bad) refl
  | inr (raw, packed) ↦ rw (raw_addr, packed) (four ip raw packed)
]

length-xor_bytes : (a b : Bytes) → length (xor_bytes a b) ≡ min (length a) (length b)
length-xor_bytes [] [] = refl
length-xor_bytes [] (y ∷ ys) = omega arith
length-xor_bytes (x ∷ xs) [] = omega arith
length-xor_bytes (x ∷ xs) (y ∷ ys) = omega (arith, length-xor_bytes xs ys)

addr_field_packs :
    (inet_aton : Bytes → Option Bytes) (ip : Bytes) (port : ℕ)
    → PacksFour inet_aton
    → port < 65536
    → (f : Bytes) × (addr_field inet_aton ip port ≡ some f) × (length f ≡ 8)
addr_field_packs inet_aton ip port four small =
    let raw = length-raw_addr inet_aton ip four in
    (0 ∷ 1 ∷ (be16 port ++ raw_addr inet_aton ip), ground arith, omega arith)

stun_xor_addr_packs :
    (inet_aton : Bytes → Option Bytes) (ip : Bytes) (port : ℕ) (cookie txid : Bytes)
    → PacksFour inet_aton
    → length cookie ≡ 4
    → length txid ≡ 12
    → bit_xor port 0x2112 < 65536
    → (f : Bytes) × (stun_xor_addr inet_aton ip port cookie txid ≡ some f) × (length f ≡ 8)
unfolding stun_xor_addr
stun_xor_addr_packs inet_aton ip port cookie txid four c t small =
    let mask = cookie ++ take 4 txid in
    let raw = length-raw_addr inet_aton ip four in
    let masked = length-append cookie (take 4 txid) in
    let four_more = length-take 4 txid in
    let xored = length-xor_bytes (raw_addr inet_aton ip) mask in
    (
      0 ∷ 1 ∷ (be16 (bit_xor port 0x2112) ++ xor_bytes (raw_addr inet_aton ip) mask),
      ground arith,
      omega arith,
    )

-- The reply to a request: its size, the length that it says, and the identifiers that it repeats.
abbrev pub IsBindingReply : Bytes → Bytes → Type 0
IsBindingReply request reply =
    (length reply ≡ 68)
    × (be16_at reply 2 ≡ 48)
    × (take 16 (drop 4 reply) ≡ take 16 (drop 4 request))

length-attr : (atype : ℕ) (value : Bytes) → length (attr atype value) ≡ 4 + length value
length-attr atype value = omega arith

take_add : (m n : ℕ) (s : Bytes) → take (m + n) s ≡ take m s ++ take n (drop m s)
take_add zero n s = rw zero-add refl
take_add (suc m) zero [] = rw suc-add refl
take_add (suc m) (suc n) [] = rw suc-add refl
take_add (suc m) n (x ∷ xs) = rw suc-add (ap (x ∷◌) (take_add m n xs))

-- The cookie and the transaction identifier of a request.
identifiers :
    (request : Bytes)
    → take 4 (drop 4 request) ++ take 12 (drop 8 request) ≡ take 16 (drop 4 request)
identifiers request = rw (drop_add 4 4 request) (sym (take_add 4 12 (drop 4 request)))

abbrev body_of : Bytes → Bytes → Bytes → Bytes
body_of mapped source xored =
    attr 0x0001 mapped ++ (attr 0x0004 source ++ (attr 0x8020 xored ++ attr 0x0020 xored))

length-body_of :
    (mapped source xored : Bytes)
    → length mapped ≡ 8
    → length source ≡ 8
    → length xored ≡ 8
    → length (body_of mapped source xored) ≡ 48
length-body_of mapped source xored m s x =
    let last = length-append (attr 0x8020 xored) (attr 0x0020 xored) in
    let two = length-append (attr 0x0004 source) (attr 0x8020 xored ++ attr 0x0020 xored) in
    let all =
      length-append (attr 0x0001 mapped)
        (attr 0x0004 source ++ (attr 0x8020 xored ++ attr 0x0020 xored)) in
    omega arith

binding_reply-IsBindingReply :
    (request mapped source xored : Bytes)
    → 20 ≤ length request
    → length mapped ≡ 8
    → length source ≡ 8
    → length xored ≡ 8
    → IsBindingReply request
        (binding_reply (take 4 (drop 4 request)) (take 12 (drop 8 request)) mapped source xored)
binding_reply-IsBindingReply request mapped source xored long m s x =
    let body = body_of mapped source xored in
    let cookie = take 4 (drop 4 request) in
    let txid = take 12 (drop 8 request) in
    let sized = length-body_of mapped source xored m s x in
    let first = length-take 4 (drop 4 request) in
    let from_four = length-drop 4 request in
    let second = length-take 12 (drop 8 request) in
    let from_eight = length-drop 8 request in
    let inner = length-append txid body in
    let outer = length-append cookie (txid ++ body) in
    let both = length-append cookie txid in
    (
      omega arith,
      rw sized refl,
      ap (take 16) (sym (append_assoc cookie txid body))
          ∙ (take-append 16 (cookie ++ txid) body (omega arith) ∙ identifiers request),
    )

-- A binding request of twenty bytes or more is answered with a reply of 68 bytes that says its length and
-- repeats the cookie and the transaction identifier, when the C library's function packs addresses into
-- four bytes and the ports are below 65,536.
pub stun_binding_success-IsBindingReply :
    (inet_aton : Bytes → Option Bytes) (request seen_ip own_ip : Bytes) (peer_port server_port : ℕ)
    → PacksFour inet_aton
    → 20 ≤ length request
    → be16_at request 0 ≡ 1
    → peer_port < 65536
    → server_port < 65536
    → (reply : Bytes) × (stun_binding_success inet_aton request seen_ip peer_port own_ip server_port
        ≡ some reply)
      × IsBindingReply request reply
unfolding stun_binding_success stun_xor_addr
stun_binding_success-IsBindingReply inet_aton request seen_ip own_ip peer_port server_port four long
      binding p q =
    let cookie = take 4 (drop 4 request) in
    let txid = take 12 (drop 8 request) in
    let c = length-take 4 (drop 4 request) in
    let from_four = length-drop 4 request in
    let t = length-take 12 (drop 8 request) in
    let from_eight = length-drop 8 request in
    let xor = bit_xor_small peer_port 0x2112 p (omega arith) in
    let mapped = addr_field_packs inet_aton seen_ip peer_port four p in
    let source = addr_field_packs inet_aton own_ip server_port four q in
    let xored =
      stun_xor_addr_packs inet_aton seen_ip peer_port cookie txid four (omega arith) (omega arith)
        xor in
    (
      binding_reply cookie txid mapped.0 source.0 xored.0,
      rw (mapped.1, source.1, xored.1) (ground arith),
      binding_reply-IsBindingReply request mapped.0 source.0 xored.0 long mapped.2 source.2 xored.2,
    )
