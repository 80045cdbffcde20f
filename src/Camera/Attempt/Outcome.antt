-- ===== src/Camera/Attempt/Outcome.antt =====
-- How a rendezvous ends, and when the relay is tried.
use ziot_rtp_bridge.Base.{
  ℕ, ◌≡◌, ◌⊎◌, inl, inr, refl, true, false, Option, none, some, List, [], ◌∷◌, arith, Option-cases,
  Bytes, take,
}
use ziot_rtp_bridge.Camera.Attempt.{find_endpoint, rendezvous_on, rendezvous}
use ziot_rtp_bridge.Camera.State.{Camera, World, StunAnswer, is_some}
use ziot_rtp_bridge.Camera.Stun.{fetch_endpoint}

find_endpoint_sock :
    (f : Bytes → Option ℕ) (answers : List (Option StunAnswer)) (c : Camera)
    → ((find_endpoint f answers c).0.sock ≡ c.sock)
      × ((find_endpoint f answers c).0.relay ≡ c.relay)
unfolding find_endpoint fetch_endpoint
find_endpoint_sock f [] c = (refl, refl)
find_endpoint_sock f (a ∷ answers) c =
    let rest = find_endpoint_sock f answers (fetch_endpoint f a c).0 in ground arith

-- With the socket s: a success installs s and an address, a failure leaves no socket, or the one it had.
rendezvous_on_outcome :
    (w : World) (s : ℕ) (c : Camera)
    → (c.sock ≡ none) ⊎ (c.sock ≡ some s)
    → (((rendezvous_on w s c).1 ≡ true)
        × ((rendezvous_on w s c).0.sock ≡ some s)
        × (is_some (rendezvous_on w s c).0.addr ≡ true))
      ⊎ (((rendezvous_on w s c).1 ≡ false) × ((rendezvous_on w s c).0.sock ≡ none))
unfolding rendezvous_on
rendezvous_on_outcome w s c had =
    let same = find_endpoint_sock w.inet_aton (take 5 w.stun) (record c { stun_seq = none }) in
    ground arith

-- The socket of a rendezvous: the one there is, or a new one.
abbrev pub sock_for : World → Camera → Option ℕ
sock_for w c = elim c.sock [ some s ↦ some s | none ↦ w.new_sock ]

-- A rendezvous that succeeds has an address and the socket that the camera had, or a new one if it had
-- none; one that fails has closed its socket; one that raises has changed nothing.
pub rendezvous_outcome :
    (w : World) (c : Camera)
    → (((rendezvous w c).1 ≡ some true)
        × (is_some (rendezvous w c).0.addr ≡ true)
        × ((rendezvous w c).0.sock ≡ sock_for w c)
        × (is_some (sock_for w c) ≡ true))
      ⊎ ((((rendezvous w c).1 ≡ some false) × ((rendezvous w c).0.sock ≡ none))
          ⊎ (((rendezvous w c).1 ≡ none) × ((rendezvous w c).0 ≡ c)))
unfolding rendezvous
rendezvous_outcome w c = elim (Option-cases c.sock) [
  | inr (s, e) ↦ let on = rendezvous_on_outcome w s c (inr e) in ground arith
  | inl e ↦ elim (Option-cases w.new_sock) [
    | inr (s, e') ↦ let on = rendezvous_on_outcome w s c (inl e) in ground arith
    | inl e' ↦ ground arith
  ]
]
