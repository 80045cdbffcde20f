-- ===== src/Broker/Play/Chain.antt =====
-- What each operation of the broker keeps of `IsChained`.
use ziot_rtp_bridge.Base.{
  ℕ, zero, suc, ◌≡◌, ◌≢◌, ◌⊎◌, inl, inr, refl, ◌∙◌, Bool, true, false, none, List, [], ◌∷◌, ◌++◌,
  if◌then◌else◌, arith, Bytes, take, bytes_eq, Bool-cases, Option-cases, if-cases,
}
use ziot_rtp_bridge.Broker.Answers.{Pair, Message, conn_req, play_ctrl, frame_of}
use ziot_rtp_bridge.Broker.Chain.{
  viewer_pair, note_conn_req, send_conn_req, ask, ask_unless_recent, forget, ask_if_reached,
  schedule_p2p_live, p2p_socket_bound, punch_ports, hellos, add_all, punch_camera,
  serve_due_p2p_fire,
}
use ziot_rtp_bridge.Broker.Play.{is_conn_req, is_play, phase, Orderly, IsChained}
use ziot_rtp_bridge.Broker.State.{
  Event, sent, hello, Entry, Host, Sent, went, refused, raised, is_some, set_media_state, send_to,
  push,
}

-- The items of the chain and the trace are as they were.
pub record SameChain (e e' : Entry) : Type 0 where
  pub fire_at : e'.p2p_fire_at ≡ e.p2p_fire_at
  pub ready : e'.p2p_ready ≡ e.p2p_ready
  pub trace : e'.trace ≡ e.trace

pub SameChain-IsChained : (e e' : Entry) → SameChain e e' → IsChained e → IsChained e'
SameChain-IsChained e e' s c = record {
  asked = rw s.fire_at (rw s.trace c.asked);
  waits = rw s.ready (rw s.fire_at c.waits);
  bound = rw s.ready (rw s.trace c.bound);
  orderly = rw s.trace c.orderly;
}

pub set_media_state-SameChain : (n : ℕ) (e : Entry) → SameChain e (set_media_state n e)
unfolding set_media_state
set_media_state-SameChain n e = ground arith

-- How sending a message ends: nothing goes out, or its frame does.
abbrev Pushed : Message → Entry → Entry × Sent → Type 0
Pushed m e r =
    (SameChain e r.0 × (r.1 ≢ went))
    ⊎ ((conn : ℕ) × (f : Bytes) × (r ≡ (record e { trace = sent conn m f ∷ e.trace }, went)))

send_to-Pushed : (h : Host) (m : Message) (f : Bytes) (e : Entry) → Pushed m e (send_to h m f e)
unfolding send_to
send_to-Pushed h m f e = elim (Option-cases e.link) [
  | inl gone ↦ inl (rw gone (record { fire_at = refl; ready = refl; trace = refl }, λ x. cc))
  | inr (conn, linked) ↦ elim (Bool-cases (h.takes conn m)) [
    | inl takes ↦ inr (conn, f, rw linked (rw takes refl))
    | inr stalls ↦
        let same = set_media_state-SameChain 0 (record e { link = none }) in
        inl (
          rw linked (
            rw stalls
              (record { fire_at = same.fire_at; ready = same.ready; trace = same.trace }, λ x. cc)))
  ]
]

pub push-Pushed : (h : Host) (seq : ℕ) (m : Message) (e : Entry) → Pushed m e (push h seq m e)
unfolding push
push-Pushed h seq m e = elim (Option-cases (frame_of e.uid seq m)) [
  | inl none_built ↦
      inl (rw (push, none_built) (record { fire_at = refl; ready = refl; trace = refl }, λ x. cc))
  | inr (f, built) ↦ rw (push, built) (send_to-Pushed h m f e)
]

sent-IsChained :
    (conn : ℕ) (m : Message) (f : Bytes) (e : Entry)
    → is_conn_req m ≡ false
    → is_play m ≡ false
    → IsChained e
    → IsChained (record e { trace = sent conn m f ∷ e.trace })
unfolding phase
sent-IsChained conn m f e a b c =
    let same : phase (sent conn m f ∷ e.trace) ≡ phase e.trace = ground arith in
    record {
      asked = rw same c.asked;
      waits = c.waits;
      bound = rw same c.bound;
      orderly = (λ t. cc, c.orderly);
    }

-- Any message that neither asks nor plays.
pub push-IsChained :
    (h : Host) (seq : ℕ) (m : Message) (e : Entry)
    → is_conn_req m ≡ false
    → is_play m ≡ false
    → IsChained e
    → IsChained (push h seq m e).0
push-IsChained h seq m e a b c = elim (push-Pushed h seq m e) [
  | inl (same, _) ↦ SameChain-IsChained e (push h seq m e).0 same c
  | inr (conn, f, gone) ↦ rw gone (sent-IsChained conn m f e a b c)
]

pub push-SamePhase :
    (h : Host) (seq : ℕ) (m : Message) (e : Entry)
    → is_conn_req m ≡ false
    → is_play m ≡ false
    → phase (push h seq m e).0.trace ≡ phase e.trace
unfolding phase
push-SamePhase h seq m e a b = elim (push-Pushed h seq m e) [
  | inl (same, _) ↦ rw same.trace refl
  | inr (conn, f, gone) ↦ rw gone (ground arith)
]

note_conn_req-IsChained :
    (h : Host) (pair : Pair) (seq n : ℕ) (e : Entry) (r : Entry × Sent)
    → Pushed (conn_req pair n) e r
    → is_some e.p2p_ready ≡ false
    → IsChained e
    → IsChained (note_conn_req h pair seq r).0
unfolding phase
note_conn_req-IsChained h pair seq n e (e', refused) (inl (same, kept)) quiet c =
    SameChain-IsChained e e' same c
note_conn_req-IsChained h pair seq n e (e', raised) (inl (same, kept)) quiet c =
    SameChain-IsChained e e' same c
note_conn_req-IsChained h pair seq n e (e', went) (inl (same, kept)) quiet c = absurd (kept refl)
note_conn_req-IsChained h pair seq n e r (inr (conn, f, gone)) quiet c = rw gone (record {
  asked = λ x. omega arith;
  waits = λ x. refl;
  bound = λ x. cc;
  orderly = (λ t. cc, c.orderly);
})

send_conn_req-IsChained :
    (h : Host) (pair : Pair) (e : Entry)
    → is_some e.p2p_ready ≡ false
    → IsChained e
    → IsChained (send_conn_req h pair e).0
unfolding send_conn_req
send_conn_req-IsChained h pair e quiet c =
    note_conn_req-IsChained h pair e.last_seq e.pending_seq e _
      (push-Pushed h e.last_seq (conn_req pair e.pending_seq) e) quiet c

unready-IsChained : (e : Entry) → IsChained e → IsChained (record e { p2p_ready = none })
unready-IsChained e c = record {
  asked = c.asked;
  waits = λ x. cc;
  bound = λ x. cc;
  orderly = c.orderly;
}

-- Whatever the last play left, no readiness stands while the camera is asked.
quiet-IsChained :
    (e : Entry)
    → IsChained e
    → (is_some (if is_some e.p2p_fire_at then record e { p2p_ready = none } else e).p2p_ready
        ≡ false)
      × IsChained (if is_some e.p2p_fire_at then record e { p2p_ready = none } else e)
quiet-IsChained e c =
    if-cases (λ (x : Entry). (is_some x.p2p_ready ≡ false) × IsChained x) (is_some e.p2p_fire_at)
      (λ pending. (refl, unready-IsChained e c)) (λ idle. (ground (arith, c.waits), c))

ask-IsChained :
    (h : Host) (force : Bool) (pair : Pair) (e : Entry)
    → IsChained e
    → IsChained (ask h force pair e).0
unfolding ask ask_unless_recent
ask-IsChained h force pair e c =
    let (quiet, c') = quiet-IsChained e c in
    let asked = send_conn_req-IsChained h pair _ quiet c' in ground arith

ask_if_reached-IsChained :
    (h : Host) (force : Bool) (e : Entry) → IsChained e → IsChained (ask_if_reached h force e).0
unfolding ask_if_reached
ask_if_reached-IsChained h force e c = elim (Option-cases (viewer_pair e.viewer)) [
  | inl nobody ↦ ground arith
  | inr (pair, known) ↦ let asked = ask-IsChained h force pair e c in ground arith
]

pub schedule_p2p_live-IsChained :
    (h : Host) (force : Bool) (e : Entry) → IsChained e → IsChained (schedule_p2p_live h force e).0
unfolding schedule_p2p_live
schedule_p2p_live-IsChained h true e c =
    ask_if_reached-IsChained h true (forget e)
      (record { asked = λ x. cc; waits = λ x. cc; bound = λ x. cc; orderly = c.orderly })
schedule_p2p_live-IsChained h false e c = ask_if_reached-IsChained h false e c

-- A report that the socket is bound has arrived.
pub p2p_socket_bound-IsChained :
    (now : ℕ) (e : Entry)
    → (is_some e.p2p_fire_at ≡ true → phase e.trace ≡ 2)
    → IsChained e
    → IsChained (p2p_socket_bound now e)
unfolding p2p_socket_bound
p2p_socket_bound-IsChained now e reported c =
    if-cases IsChained (is_some e.p2p_fire_at)
      (λ pending. record {
        asked = λ x. omega (arith, reported pending);
        waits = λ x. refl;
        bound = λ x. reported pending;
        orderly = c.orderly;
      })
      (λ idle. c)

-- Datagrams leave the phase and the order as they are.
phase-hellos :
    (n : ℕ) (ip : Bytes) (ports : List ℕ) (trace : List Event)
    → (phase (add_all (take n (hellos ip ports)) trace) ≡ phase trace)
      × (Orderly trace → Orderly (add_all (take n (hellos ip ports)) trace))
unfolding phase
phase-hellos zero ip ports trace = (refl, λ o. o)
phase-hellos (suc n) ip [] trace = (refl, λ o. o)
phase-hellos (suc n) ip (p ∷ ps) trace = phase-hellos n ip ps (hello ip p ∷ trace)

-- The hello changes the trace only, and nothing that the trace says.
punch_camera-IsPunched :
    (h : Host) (e : Entry)
    → (phase (punch_camera h e).trace ≡ phase e.trace)
      × (Orderly e.trace → Orderly (punch_camera h e).trace)
      × ((punch_camera h e).p2p_fire_at ≡ e.p2p_fire_at)
      × ((punch_camera h e).p2p_ready ≡ e.p2p_ready)
unfolding punch_camera
punch_camera-IsPunched h e = elim (Option-cases e.camera) [
  | inl unknown ↦ rw (punch_camera, unknown) (refl, λ o. o, refl, refl)
  | inr (d, known) ↦
      let ports = punch_ports d e.p2p_ports in
      let (same, kept) = phase-hellos h.datagrams d.ip (ports ++ (ports ++ ports)) e.trace in
      elim (Bool-cases (bytes_eq d.ip [])) [
        | inl nowhere ↦ rw (punch_camera, known) (rw nowhere (refl, λ o. o, refl, refl))
        | inr somewhere ↦ rw (punch_camera, known) (rw somewhere (same, kept, refl, refl))
      ]
]

-- A play to a camera that has reported its socket bound.
play-IsChained :
    (h : Host) (seq : ℕ) (e : Entry)
    → phase e.trace ≡ 2
    → e.p2p_fire_at ≡ none
    → e.p2p_ready ≡ none
    → Orderly e.trace
    → IsChained (push h seq (play_ctrl 1) e).0
play-IsChained h seq e bound no_fire no_ready o = elim (push-Pushed h seq (play_ctrl 1) e) [
  | inl (same, _) ↦ SameChain-IsChained e (push h seq (play_ctrl 1) e).0 same (record {
    asked = λ x. omega (arith, bound);
    waits = rw no_ready (λ x. cc);
    bound = λ x. bound;
    orderly = o;
  })
  | inr (conn, f, gone) ↦ rw gone (record {
    asked = rw no_fire (λ x. cc);
    waits = rw no_ready (λ x. cc);
    bound = rw no_ready (λ x. cc);
    orderly = (λ _. bound, o);
  })
]

pub serve_due_p2p_fire-IsChained :
    (h : Host) (e : Entry) → IsChained e → IsChained (serve_due_p2p_fire h e).0
unfolding serve_due_p2p_fire
serve_due_p2p_fire-IsChained h e c =
    let e' = record e { p2p_fire_at = none; p2p_ready = none } in
    let c' : IsChained e' = record {
      asked = λ x. cc;
      waits = λ x. cc;
      bound = λ x. cc;
      orderly = c.orderly;
    } in
    let (same, kept, no_fire, no_ready) = punch_camera-IsPunched h e' in
    elim (Bool-cases (is_some e.p2p_ready)) [
      | inl ready ↦
          let plays =
            play-IsChained h e.last_seq (punch_camera h e') (same ∙ c.bound ready) no_fire no_ready
              (kept c.orderly) in
          ground arith
      | inr unready ↦ ground arith
    ]
