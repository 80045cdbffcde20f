-- ===== src/Camera/Stun.antt =====
-- Where the camera is: `same_subnet`, `_accept_stun`, `_pick_endpoint`, `_fetch_endpoint`, `_resolve` and
-- `_punch_dest` of ziot_rtp_bridge.py.
pub mod Endpoint
use ziot_rtp_bridge.Base.{
  ℕ, zero, suc, ◌+◌, ◌-◌, ◌≤◌, ◌<◌, ◌≡◌, ◌≢◌, ◌⊎◌, inl, inr, refl, sym, ap, Bool, true, false, not,
  ◌&&◌, ◌||◌, Option, none, some, List, [], ◌∷◌, if◌then◌else◌, ◌==◌, ltb, Bytes, bytes_eq, ascii,
  bit_and, arith, Option-cases, Bool-cases,
}
use ziot_rtp_bridge.Base.Int.{ℤ, ltb_ℤ, ◌≤ℤ◌}
use ziot_rtp_bridge.Camera.State.{
  Addr, Kind, private_kind, public_kind, static_kind, static_lan, Camera, StunAnswer, World,
  is_some, resolve_min_interval,
}

abbrev pub subnet_mask : Bytes
subnet_mask = ascii "255.255.255.0"

unfoldable pub same_subnet : (Bytes → Option ℕ) → Bytes → Bytes → Bytes → Bool
same_subnet inet_aton a b mask = elim (inet_aton a) [
  | none ↦ false
  | some ia ↦ elim (inet_aton b) [
    | none ↦ false
    | some ib ↦ elim (inet_aton mask) [ none ↦ false | some im ↦ bit_and ia im == bit_and ib im ]
  ]
]

-- `int(d["seqNo"])` is gated; an answer with none is taken.
abbrev pub accepts_seq : Option ℤ → Option ℤ → Bool
accepts_seq last none = true
accepts_seq none (some seq) = true
accepts_seq (some last) (some seq) = not (ltb_ℤ seq last)

unfoldable pub accept_stun : StunAnswer → Camera → Camera × Bool
accept_stun d c = elim d.seq_no [
  | none ↦ (c, true)
  | some seq ↦
      if accepts_seq c.stun_seq (some seq)
      then (record c { stun_seq = some seq }, true)
      else (c, false)
]

-- `all(pair)`: an address that is not empty and a port that is not 0.
abbrev pub usable : Option Bytes → Option ℕ → Option Addr
usable (some (b ∷ bs)) (some (suc p)) = some (b ∷ bs, suc p)
usable _ _ = none

-- `none` is the `KeyError`.
unfoldable pub pick_endpoint : (Bytes → Option ℕ) → Bytes → StunAnswer → Option (Addr × Kind)
pick_endpoint inet_aton bind_ip d =
    let priv = usable d.priv_ip d.priv_port in
    let public = usable d.pub_ip d.pub_port in
    let near = λ (a : Addr). same_subnet inet_aton bind_ip a.0 subnet_mask in
    let fallback : Option (Addr × Kind) = elim public [
      | some a ↦ some (a, public_kind)
      | none ↦ elim priv [ some a ↦ some (a, private_kind) | none ↦ none ]
    ] in
    elim priv [ some a ↦ if near a then some (a, private_kind) else fallback | none ↦ fallback ]

-- What `_fetch_endpoint` does: it raises, returns None, or an endpoint.
pub data Fetched : Type 0 where
  raised nothing : Fetched
  endpoint : Addr → Kind → Fetched

-- The configured LAN address, with the camera's private port if there is one.
abbrev pub pin : Option Addr → Option ℕ → Addr → Kind → Fetched
pin (some (i ∷ is, _)) (some (suc p)) a kind = endpoint (i ∷ is, suc p) static_lan
pin (some (i ∷ is, _)) _ a kind = endpoint (i ∷ is, a.1) static_lan
pin _ _ a kind = endpoint a kind

unfoldable pub fetch_endpoint : (Bytes → Option ℕ) → Option StunAnswer → Camera → Camera × Fetched
unfolding accept_stun
fetch_endpoint inet_aton answer c =
    if not c.has_api
    then (
      c,
      elim c.media_source [
        | some a ↦ endpoint a static_kind
        | none ↦ elim c.static_addr [ some a ↦ endpoint a static_kind | none ↦ nothing ]
      ],
    )
    else elim answer [
      | none ↦ (c, raised)
      | some d ↦
          (let (c', taken) = accept_stun d c in
            if not taken then (c', nothing) else elim (pick_endpoint inet_aton c.bind_ip d) [
              | none ↦ (c', raised)
              | some (a, kind) ↦ (c', pin c.static_addr d.priv_port a kind)
            ])
    ]

abbrev pub addr_eq : Addr → Addr → Bool
addr_eq a b = bytes_eq a.0 b.0 && a.1 == b.1

-- `addr != self.addr`
abbrev pub moved : Option Addr → Addr → Bool
moved none a = true
moved (some b) a = not (addr_eq b a)

-- `now - self._last_resolve < RESOLVE_MIN_INTERVAL`
abbrev pub too_soon : ℕ → Option ℕ → Bool
too_soon now none = false
too_soon now (some t) = ltb (now - t) resolve_min_interval

-- `_resolve`, with what it has fetched.
unfoldable pub settle : Camera → Fetched → Camera
settle c raised = c
settle c nothing = c
settle c (endpoint a kind) =
    if moved c.addr a
    then record c {
      endpoint_kind = some kind;
      addr = some a;
      endpoint_moves = c.endpoint_moves + 1;
    }
    else record c { endpoint_kind = some kind }

-- The answer that the next call gets.
abbrev pub next_answer : List (Option StunAnswer) → Option StunAnswer
next_answer [] = none
next_answer (a ∷ _) = a

-- `_resolve`: the camera, and how often `get_stun_addr` was called.
abbrev pub resolve_calls : World → Camera → Camera × ℕ
resolve_calls w c =
    if too_soon w.now c.last_resolve
    then (c, 0)
    else (let (c', fetched) =
          fetch_endpoint w.inet_aton (next_answer w.stun)
            (record c { last_resolve = some w.now }) in
        (settle c' fetched, if c.has_api then 1 else 0))

unfoldable pub resolve : World → Camera → Camera
unfolding settle fetch_endpoint
resolve w c = (resolve_calls w c).0

unfoldable pub punch_dest : Camera → Option Addr
punch_dest c =
    if not c.has_api then elim c.media_source [ some a ↦ some a | none ↦ c.addr ] else c.addr
