-- ===== src/Broker/Play/Frame.antt =====
-- What a frame of the camera keeps of `IsChained`.
use ziot_rtp_bridge.Base.{
  ℕ, ◌≤◌, ◌≡◌, inl, inr, refl, true, false, not, Option, none, some, List, ◌∷◌, if◌then◌else◌, ◌==◌,
  arith, Bytes, Option-cases, Option-elim, if-cases,
}
use ziot_rtp_bridge.Broker.Answers.{Message, pullvideo}
use ziot_rtp_bridge.Broker.Beat.{keepalive_due, keepalive, schedule_relay_trigger}
use ziot_rtp_bridge.Broker.Chain.{schedule_p2p_live}
use ziot_rtp_bridge.Broker.Handler.{
  meet, keep_fed, armed, take_address, take_status, take_report, reported_state, reply_to,
  start_chain, answer_with, then_trigger, after_answer, report_and_answer, answer_camera, body_of,
}
use ziot_rtp_bridge.Broker.Play.{is_three, is_conn_req, is_play, reports_bound, phase, IsChained}
use ziot_rtp_bridge.Broker.Play.Chain.{
  SameChain, SameChain-IsChained, set_media_state-SameChain, push-IsChained, push-SamePhase,
  schedule_p2p_live-IsChained, p2p_socket_bound-IsChained,
}
use ziot_rtp_bridge.Broker.State.{
  Event, got, Entry, Host, Sent, went, refused, raised, and_then, is_some, has_port, add_camera,
  set_media_state, push,
}
use ziot_rtp_bridge.Signalling.Decode.{decode_fields}
use ziot_rtp_bridge.Signalling.Report.{LocalAddr, parse_local_addr_report}
use ziot_rtp_bridge.Broker.Play.Calls.{and_then-IsChained}

-- Of a state in which a frame has arrived: a camera that was asked is bound, if the frame reports so.
abbrev Heard : Bytes → Entry → Type 0
Heard raw e = reports_bound raw ≡ true → 1 ≤ phase e.trace → phase e.trace ≡ 2

-- The phase behind a frame of the camera.
phase-got :
    (conn : ℕ) (raw : Bytes) (trace : List Event)
    → (1 ≤ phase trace → 1 ≤ phase (got conn raw ∷ trace))
      × (phase trace ≡ 2 → phase (got conn raw ∷ trace) ≡ 2)
      × (reports_bound raw ≡ true
          → 1 ≤ phase (got conn raw ∷ trace)
          → phase (got conn raw ∷ trace) ≡ 2)
unfolding phase
phase-got conn raw trace = (ground arith, ground arith, ground arith)

got-IsChained :
    (conn : ℕ) (raw : Bytes) (e e' : Entry)
    → e'.p2p_fire_at ≡ e.p2p_fire_at
    → e'.p2p_ready ≡ e.p2p_ready
    → e'.trace ≡ got conn raw ∷ e.trace
    → IsChained e
    → IsChained e' × Heard raw e'
got-IsChained conn raw e e' fire ready trace c =
    let (more, same, told) = phase-got conn raw e.trace in
    (
      record {
        asked = rw fire (rw trace (λ x. more (c.asked x)));
        waits = rw ready (rw fire c.waits);
        bound = rw ready (rw trace (λ x. same (c.bound x)));
        orderly = rw trace c.orderly;
      },
      rw trace told,
    )

meet-IsChained :
    (conn : ℕ) (peer raw : Bytes) (e : Entry)
    → IsChained e
    → IsChained (meet conn peer raw e) × Heard raw (meet conn peer raw e)
unfolding meet add_camera
meet-IsChained conn peer raw e c =
    got-IsChained conn raw e (meet conn peer raw e) (ground arith) (ground arith) refl c

keep_fed-IsChained :
    (h : Host) (cmd : ℕ) (raw : Bytes) (e : Entry)
    → IsChained e × Heard raw e
    → IsChained (keep_fed h cmd e).0 × Heard raw (keep_fed h cmd e).0
unfolding keep_fed keepalive_due keepalive
keep_fed-IsChained h cmd raw e (c, heard) =
    let e' = record e { last_keepalive = some h.now } in
    let c' : IsChained e' = record {
      asked = c.asked;
      waits = c.waits;
      bound = c.bound;
      orderly = c.orderly;
    } in
    let pushed = push-IsChained h e.last_seq pullvideo e' refl refl c' in
    let same = push-SamePhase h e.last_seq pullvideo e' refl refl in ground arith

-- What the address report changes is none of the chain's.
take_address-SameChain : (r : LocalAddr) (e : Entry) → SameChain e (take_address r e)
unfolding take_address
take_address-SameChain r e = ground arith

take_status-IsChained :
    (now : ℕ) (state : Option ℕ) (e : Entry)
    → (is_three state ≡ true → is_some e.p2p_fire_at ≡ true → phase e.trace ≡ 2)
    → IsChained e
    → IsChained (take_status now state e)
unfolding take_status
take_status-IsChained now none e bound c = c
take_status-IsChained now (some s) e bound c =
    let same = set_media_state-SameChain s e in
    let c' = SameChain-IsChained e (set_media_state s e) same c in
    if-cases IsChained (s == 3)
      (λ three.
        p2p_socket_bound-IsChained now (set_media_state s e)
          (rw same.fire_at (rw same.trace (bound three))) c')
      (λ other. c')

take_report-IsChained :
    (now : ℕ) (raw : Bytes) (e : Entry)
    → IsChained e × Heard raw e
    → IsChained (take_report now raw e)
unfolding take_report reports_bound
take_report-IsChained now raw e (c, heard) =
    let f = decode_fields raw in
    let addressed =
      λ (r : LocalAddr). SameChain-IsChained e (take_address r e) (take_address-SameChain r e) c in
    if-cases IsChained (f.cmd == 0x0003)
      (λ address.
        Option-elim
          (λ (o : Option LocalAddr). IsChained (elim o [ none ↦ e | some r ↦ take_address r e ]))
          (parse_local_addr_report (body_of raw f.uid_len)) (λ _. c) (λ r _. addressed r))
      (λ _.
        if-cases IsChained (f.cmd == 0x0004)
          (λ is_status.
            take_status-IsChained now (reported_state raw) e
              (λ three pending. heard (ground arith) (c.asked pending)) c)
          (λ _. c))

then_trigger-IsChained : (h : Host) (e : Entry) → IsChained e → IsChained (then_trigger h e).0
unfolding schedule_relay_trigger
then_trigger-IsChained h e c = ground arith

start_chain-IsChained :
    (h : Host) (conn : ℕ) (e : Entry) → IsChained e → IsChained (start_chain h conn e).0
unfolding start_chain schedule_relay_trigger
start_chain-IsChained h conn e c =
    let e' = if has_port conn e.forced_on then e else record e { forced_on = conn ∷ e.forced_on } in
    let c' : IsChained e' = ground arith in
    and_then-IsChained (schedule_p2p_live h (not (has_port conn e.forced_on)) e') (then_trigger h)
      (schedule_p2p_live-IsChained h (not (has_port conn e.forced_on)) e' c')
      (then_trigger-IsChained h)

-- No answer asks or plays.
reply_to-IsNeutral :
    (h : Host) (peer : Bytes) (cmd : ℕ) (e : Entry) (m : Message)
    → reply_to h peer cmd e ≡ some m
    → (is_conn_req m ≡ false) × (is_play m ≡ false)
unfolding reply_to
reply_to-IsNeutral h peer cmd e m r = ground arith

after_answer-IsChained :
    (h : Host) (conn cmd port : ℕ) (e : Entry)
    → IsChained e
    → IsChained (after_answer h conn cmd port e).0
after_answer-IsChained h conn cmd port e c =
    let started = start_chain-IsChained h conn e c in ground arith

answer_with-IsChained :
    (h : Host) (conn : ℕ) (peer : Bytes) (cmd : ℕ) (e : Entry)
    → IsChained e
    → IsChained (answer_with h conn peer cmd e).0
unfolding answer_with
answer_with-IsChained h conn peer cmd e c = elim (Option-cases (reply_to h peer cmd e)) [
  | inl silent ↦ rw (answer_with, silent) c
  | inr (m, answered) ↦
      let (not_req, not_play) = reply_to-IsNeutral h peer cmd e m answered in
      rw (answer_with, answered)
        (and_then-IsChained (push h e.last_seq m e) (after_answer h conn cmd (armed h peer e).1)
          (push-IsChained h e.last_seq m e not_req not_play c)
          (after_answer-IsChained h conn cmd (armed h peer e).1))
]

-- A frame that has been fed: its report is taken and answered.
fed-IsChained :
    (h : Host) (conn : ℕ) (peer raw : Bytes) (r : Entry × Sent)
    → IsChained r.0 × Heard raw r.0
    → IsChained (and_then r (report_and_answer h conn peer raw)).0
fed-IsChained h conn peer raw (e, went) both =
    answer_with-IsChained h conn peer (decode_fields raw).cmd (take_report h.now raw e)
      (take_report-IsChained h.now raw e both)
fed-IsChained h conn peer raw (e, refused) both =
    answer_with-IsChained h conn peer (decode_fields raw).cmd (take_report h.now raw e)
      (take_report-IsChained h.now raw e both)
fed-IsChained h conn peer raw (e, raised) both = both.0

pub answer_camera-IsChained :
    (h : Host) (conn : ℕ) (peer raw : Bytes) (e : Entry)
    → IsChained e
    → IsChained (answer_camera h conn peer raw e).0
unfolding answer_camera
answer_camera-IsChained h conn peer raw e c =
    let cmd = (decode_fields raw).cmd in
    let met = meet-IsChained conn peer raw e c in
    let fed = keep_fed-IsChained h cmd raw (meet conn peer raw e) met in
    let answered = fed-IsChained h conn peer raw (keep_fed h cmd (meet conn peer raw e)) fed in
    ground arith
