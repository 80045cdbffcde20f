-- ===== src/Camera/Attempt/Frame.antt =====
-- What an attempt at a transport leaves alone.
use ziot_rtp_bridge.Base.{
  ℕ, ◌≡◌, inl, inr, ◌∙◌, Bool, true, false, Option, none, some, List, [], ◌∷◌, if◌then◌else◌, arith,
  Bool-cases, Bytes, take,
}
use ziot_rtp_bridge.Camera.Attempt.{
  find_endpoint, rendezvous_on, rendezvous, play_first, start_relay, open_transport, reannounce,
}
use ziot_rtp_bridge.Camera.State.{Camera, World, StunAnswer, Opened}
use ziot_rtp_bridge.Camera.Stun.{
  Fetched, raised, nothing, endpoint, fetch_endpoint, resolve, settle, next_answer, too_soon,
}
use ziot_rtp_bridge.Cloud.Row.{relay_urls}

-- The pace and the account of failures, the configuration and the relay.
pub record SameAccount (c d : Camera) : Type 0 where
  pub same_backoff : d.backoff ≡ c.backoff
  pub same_failures : d.consec_failures ≡ c.consec_failures
  pub same_count : d.re_rendezvous_count ≡ c.re_rendezvous_count
  pub same_api : d.has_api ≡ c.has_api
  pub same_force : d.force_relay ≡ c.force_relay
  pub same_wake : d.wake_now ≡ c.wake_now
  pub same_rx : d.last_rx ≡ c.last_rx
  pub same_cloud : d.cloud ≡ c.cloud

pub SameAccount-trans : {c d e : Camera} → SameAccount c d → SameAccount d e → SameAccount c e
SameAccount-trans p q = record {
  same_backoff = q.same_backoff ∙ p.same_backoff;
  same_failures = q.same_failures ∙ p.same_failures;
  same_count = q.same_count ∙ p.same_count;
  same_api = q.same_api ∙ p.same_api;
  same_force = q.same_force ∙ p.same_force;
  same_wake = q.same_wake ∙ p.same_wake;
  same_rx = q.same_rx ∙ p.same_rx;
  same_cloud = q.same_cloud ∙ p.same_cloud;
}

fetch_endpoint-SameAccount :
    (f : Bytes → Option ℕ) (a : Option StunAnswer) (c : Camera)
    → SameAccount c (fetch_endpoint f a c).0
unfolding fetch_endpoint
fetch_endpoint-SameAccount f a c = ground arith

find_endpoint-SameAccount :
    (f : Bytes → Option ℕ) (answers : List (Option StunAnswer)) (c : Camera)
    → SameAccount c (find_endpoint f answers c).0
unfolding find_endpoint
find_endpoint-SameAccount f [] c = ground arith
find_endpoint-SameAccount f (a ∷ answers) c =
    let rest = find_endpoint-SameAccount f answers (fetch_endpoint f a c).0 in
    let first = fetch_endpoint-SameAccount f a c in
    let both = SameAccount-trans first rest in ground arith

rendezvous_on-SameAccount : (w : World) (s : ℕ) (c : Camera) → SameAccount c (rendezvous_on w s c).0
unfolding rendezvous_on
rendezvous_on-SameAccount w s c =
    let found =
      find_endpoint-SameAccount w.inet_aton (take 5 w.stun) (record c { stun_seq = none }) in
    ground arith

-- Any answer of the inner part will do.
on_sock-SameAccount :
    (c : Camera) (on : ℕ → Camera × Bool) (o new : Option ℕ) (is_open : Bool)
    → ((s : ℕ) → SameAccount c (on s).0)
    → SameAccount c (
        let r : Camera × Option Bool = elim o [
          | some s ↦ if is_open then ((on s).0, some (on s).1) else (c, none)
          | none ↦ elim new [ none ↦ (c, none) | some s ↦ ((on s).0, some (on s).1) ]
        ] in
        r.0)
on_sock-SameAccount c on (some s) new true same = same s
on_sock-SameAccount c on (some s) new false same = ground arith
on_sock-SameAccount c on none (some s) is_open same = same s
on_sock-SameAccount c on none none is_open same = ground arith

pub rendezvous-SameAccount : (w : World) (c : Camera) → SameAccount c (rendezvous w c).0
unfolding rendezvous
rendezvous-SameAccount w c =
    on_sock-SameAccount c (λ s. rendezvous_on w s c) c.sock w.new_sock w.sock_open
      (λ s. rendezvous_on-SameAccount w s c)

play_first-SameAccount :
    (opens : Bytes → Opened) (us : List Bytes) (c : Camera)
    → SameAccount c (play_first opens us c).0
unfolding play_first
play_first-SameAccount opens [] c = ground arith
play_first-SameAccount opens (u ∷ us) c =
    let rest = play_first-SameAccount opens us c in ground arith

pub start_relay-SameAccount : (w : World) (c : Camera) → SameAccount c (start_relay w c).0
unfolding start_relay
start_relay-SameAccount w c = play_first-SameAccount w.opens (relay_urls c.cloud) c

pub open_transport-SameAccount : (w : World) (c : Camera) → SameAccount c (open_transport w c).0
unfolding open_transport
open_transport-SameAccount w c =
    let relay = start_relay-SameAccount w c in
    let direct = rendezvous-SameAccount w c in ground arith

settle-SameAccount : (c : Camera) (r : Fetched) → SameAccount c (settle c r)
unfolding settle
settle-SameAccount c raised = ground arith
settle-SameAccount c nothing = ground arith
settle-SameAccount c (endpoint a kind) = ground arith

resolve-SameAccount : (w : World) (c : Camera) → SameAccount c (resolve w c)
unfolding resolve
resolve-SameAccount w c =
    let c' = record c { last_resolve = some w.now } in
    let r = fetch_endpoint w.inet_aton (next_answer w.stun) c' in
    let before = fetch_endpoint-SameAccount w.inet_aton (next_answer w.stun) c' in
    let same = SameAccount-trans before (settle-SameAccount r.0 r.1) in
    elim (Bool-cases (too_soon w.now c.last_resolve)) [
      | inl e ↦ ground arith
      | inr e ↦ ground arith
    ]

pub reannounce-SameAccount : (w : World) (c : Camera) → SameAccount c (reannounce w c)
unfolding reannounce
reannounce-SameAccount w c =
    let resolved = resolve-SameAccount w (record c { stun_seq = none; last_resolve = none }) in
    ground arith
