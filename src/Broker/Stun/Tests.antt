-- ===== src/Broker/Stun/Tests.antt =====
-- A binding request and its reply.
use ziot_rtp_bridge.Base.{
  ◌≡◌, refl, Option, none, some, [], ◌∷◌, if◌then◌else◌, arith, Bytes, bytes_eq, ascii, replicate,
  Bool-cases, inl, inr,
}
use ziot_rtp_bridge.Broker.Stun.{stun_binding_success, stun_xor_addr}
use ziot_rtp_bridge.Broker.Stun.Reply.{
  PacksFour, IsBindingReply, stun_binding_success-IsBindingReply,
}

-- The C library's function, as far as the test needs it.
abbrev packs : Bytes → Option Bytes
packs ip = if bytes_eq ip (ascii "10.0.0.5") then some (10 ∷ 0 ∷ 0 ∷ 5 ∷ []) else none

packs-PacksFour : PacksFour packs
packs-PacksFour ip raw e = elim (Bool-cases (bytes_eq ip (ascii "10.0.0.5"))) [
  | inl known ↦ ground arith
  | inr other ↦ absurd (ground arith)
]

abbrev request : Bytes
request = 0 ∷ 1 ∷ 0 ∷ 0 ∷ 0x21 ∷ 0x12 ∷ 0xa4 ∷ 0x42 ∷ replicate 12 7

-- A request of another kind is not answered.
other_request : stun_binding_success packs (0 ∷ 2 ∷ replicate 18 0) [] 1 [] 2 ≡ some []
unfolding stun_binding_success
other_request = refl

-- The mask of the port is the cookie's first half.
xored_port :
    stun_xor_addr packs (ascii "10.0.0.5") 0x2112 (0x21 ∷ 0x12 ∷ 0xa4 ∷ 0x42 ∷ []) []
    ≡ some (0 ∷ 1 ∷ 0 ∷ 0 ∷ 0x2b ∷ 0x12 ∷ 0xa4 ∷ 0x47 ∷ [])
unfolding stun_xor_addr
xored_port = refl

stun_binding_success-IsBindingReply_example :
    (reply : Bytes) × (stun_binding_success packs request (ascii "10.0.0.5") 5000 (ascii "0") 3478
      ≡ some reply)
    × IsBindingReply request reply
stun_binding_success-IsBindingReply_example =
    stun_binding_success-IsBindingReply packs request (ascii "10.0.0.5") (ascii "0") 5000 3478
      packs-PacksFour (omega arith) refl (omega arith) (omega arith)
