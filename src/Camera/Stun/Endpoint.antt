-- ===== src/Camera/Stun/Endpoint.antt =====
-- Which endpoint is picked, and how it moves.
use ziot_rtp_bridge.Base.{
  ℕ, ◌≡◌, ◌⊎◌, inl, inr, refl, true, Option, none, some, arith, Bool-cases, Bytes,
}
use ziot_rtp_bridge.Base.Int.{ℤ, ltb_ℤ}
use ziot_rtp_bridge.Camera.State.{
  Addr, private_kind, public_kind, Camera, StunAnswer, World, is_some,
}
use ziot_rtp_bridge.Camera.Stun.{
  accepts_seq, accept_stun, usable, pick_endpoint, same_subnet, subnet_mask, Fetched, raised,
  nothing, endpoint, fetch_endpoint, settle, next_answer, too_soon, resolve,
}

settle_seq : (c : Camera) (r : Fetched) → (settle c r).stun_seq ≡ c.stun_seq
unfolding settle
settle_seq c raised = refl
settle_seq c nothing = refl
settle_seq c (endpoint a kind) = ground arith

accept_stun_seq :
    (d : StunAnswer) (c : Camera)
    → is_some c.stun_seq ≡ true
    → (is_some (accept_stun d c).0.stun_seq ≡ true)
      × (accepts_seq c.stun_seq (accept_stun d c).0.stun_seq ≡ true)
unfolding accept_stun
accept_stun_seq d c known = ground arith

fetch_endpoint_seq :
    (f : Bytes → Option ℕ) (a : Option StunAnswer) (c : Camera)
    → is_some c.stun_seq ≡ true
    → (is_some (fetch_endpoint f a c).0.stun_seq ≡ true)
      × (accepts_seq c.stun_seq (fetch_endpoint f a c).0.stun_seq ≡ true)
unfolding fetch_endpoint
fetch_endpoint_seq f none c known = ground arith
fetch_endpoint_seq f (some d) c known = let taken = accept_stun_seq d c known in ground arith

-- Polling the broker keeps the sequence number and never takes it back: the new one would be accepted
-- after the old one.
pub resolve_seq :
    (w : World) (c : Camera)
    → is_some c.stun_seq ≡ true
    → (is_some (resolve w c).stun_seq ≡ true)
      × (accepts_seq c.stun_seq (resolve w c).stun_seq ≡ true)
unfolding resolve
resolve_seq w c known =
    let c' = record c { last_resolve = some w.now } in
    let r = fetch_endpoint w.inet_aton (next_answer w.stun) c' in
    let fetched = fetch_endpoint_seq w.inet_aton (next_answer w.stun) c' known in
    let settled = settle_seq r.0 r.1 in
    elim (Bool-cases (too_soon w.now c.last_resolve)) [
      | inl e ↦ ground arith
      | inr e ↦ ground arith
    ]

-- An answer older than the last one moves nothing.
pub resolve_stale :
    (w : World) (c : Camera) (d : StunAnswer) (last seq : ℤ)
    → c.has_api ≡ true
    → next_answer w.stun ≡ some d
    → c.stun_seq ≡ some last
    → d.seq_no ≡ some seq
    → ltb_ℤ seq last ≡ true
    → ((resolve w c).addr ≡ c.addr)
      × ((resolve w c).endpoint_kind ≡ c.endpoint_kind)
      × ((resolve w c).stun_seq ≡ c.stun_seq)
      × ((resolve w c).endpoint_moves ≡ c.endpoint_moves)
unfolding resolve fetch_endpoint accept_stun settle
resolve_stale w c d last seq online answer known given stale = ground arith

-- The private pair is picked if it is usable and on the bridge's subnet; else the public one if it is
-- usable; else the private one if it is; else there is no endpoint.
pub pick_endpoint_cases :
    (f : Bytes → Option ℕ) (bind_ip : Bytes) (d : StunAnswer)
    → ((a : Addr) × ((usable d.priv_ip d.priv_port ≡ some a)
          × (same_subnet f bind_ip a.0 subnet_mask ≡ true)
          × (pick_endpoint f bind_ip d ≡ some (a, private_kind))))
      ⊎ (((a : Addr) × ((usable d.pub_ip d.pub_port ≡ some a)
              × (pick_endpoint f bind_ip d ≡ some (a, public_kind))))
          ⊎ (((a : Addr) × ((usable d.pub_ip d.pub_port ≡ none)
                  × (usable d.priv_ip d.priv_port ≡ some a)
                  × (pick_endpoint f bind_ip d ≡ some (a, private_kind))))
              ⊎ ((usable d.pub_ip d.pub_port ≡ none)
                  × (usable d.priv_ip d.priv_port ≡ none)
                  × (pick_endpoint f bind_ip d ≡ none))))
unfolding pick_endpoint
pick_endpoint_cases f bind_ip d = ground arith
