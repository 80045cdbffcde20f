-- ===== src/Camera/Punch/Cadence.antt =====
-- How often the punch loop asks the broker, and when it sends nothing.
use ziot_rtp_bridge.Base.{
  ℕ, ◌+◌, ◌≤◌, ◌≡◌, ◌∙◌, refl, inl, inr, Bool, true, false, not, ◌&&◌, Option, none, some, List, [],
  ◌∷◌, if◌then◌else◌, arith, Bool-cases,
}
use ziot_rtp_bridge.Camera.State.{Camera, World, StunAnswer}
use ziot_rtp_bridge.Camera.Stun.{
  Fetched, raised, nothing, endpoint, settle, fetch_endpoint, accept_stun, next_answer,
  resolve_calls, resolve, too_soon,
}
use ziot_rtp_bridge.Camera.Punch.{is_starved, leaves_alone, Punching, punch_calls, punch, rest}

-- How often the rounds call `get_stun_addr` of the broker.
abbrev pub questions : List World → Punching → ℕ
questions [] p = 0
questions (w ∷ ws) p = (punch_calls w p).1 + questions ws (rest w (punch w p))

-- A round looks for the camera.
asks : World → Camera → Bool
asks w c = not (leaves_alone c) && (is_starved w c && not (too_soon w.now c.last_resolve))

one_if : Bool → ℕ
one_if true = 1
one_if false = 0

-- The time of the last round, where the clock never goes back.
abbrev pub Rises : ℕ → List World → Type 0
Rises t [] = Unit
Rises t (w ∷ ws) = (t ≤ w.now) × Rises w.now ws

abbrev pub last_now : ℕ → List World → ℕ
last_now t [] = t
last_now t (w ∷ ws) = last_now w.now ws

settle-last_resolve : (c : Camera) (f : Fetched) → (settle c f).last_resolve ≡ c.last_resolve
unfolding settle
settle-last_resolve c raised = refl
settle-last_resolve c nothing = refl
settle-last_resolve c (endpoint a kind) = ground arith

accept_stun-last_resolve :
    (d : StunAnswer) (c : Camera) → (accept_stun d c).0.last_resolve ≡ c.last_resolve
unfolding accept_stun
accept_stun-last_resolve d c = ground arith

fetch_endpoint-last_resolve :
    (w : World) (answer : Option StunAnswer) (c : Camera)
    → (fetch_endpoint w.inet_aton answer c).0.last_resolve ≡ c.last_resolve
unfolding fetch_endpoint
fetch_endpoint-last_resolve w none c = ground arith
fetch_endpoint-last_resolve w (some d) c = let one = accept_stun-last_resolve d c in ground arith

resolve_calls-last_resolve :
    (w : World) (c : Camera)
    → (resolve_calls w c).0.last_resolve
      ≡ (if too_soon w.now c.last_resolve then c.last_resolve else some w.now)
resolve_calls-last_resolve w c = elim (Bool-cases (too_soon w.now c.last_resolve)) [
  | inl soon ↦ rw soon refl
  | inr late ↦
      let c' = record c { last_resolve = some w.now } in
      let (c'', f) = fetch_endpoint w.inet_aton (next_answer w.stun) c' in
      rw late (settle-last_resolve c'' f ∙ fetch_endpoint-last_resolve w (next_answer w.stun) c')
]

resolve-last_resolve :
    (w : World) (c : Camera)
    → (resolve w c).last_resolve
      ≡ (if too_soon w.now c.last_resolve then c.last_resolve else some w.now)
unfolding resolve
resolve-last_resolve w c = resolve_calls-last_resolve w c
