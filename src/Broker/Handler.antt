-- ===== src/Broker/Handler.antt =====
-- `StreamHandler._vendor_answer`, `_answer_camera` and `finish` of ziot_fake_cloud.py, with an `HttpApi` and without
-- `ack_sweep`, on the frames of one uid.
use ziot_rtp_bridge.Base.{
  ℕ, ◌+◌, ◌-◌, not, ◌&&◌, Option, none, some, [], ◌∷◌, if◌then◌else◌, ◌==◌, Bytes, bytes_eq, length,
  take, drop,
}
use ziot_rtp_bridge.Base.Dict.{lookup}
use ziot_rtp_bridge.Broker.Answers.{
  Message, registration, clock, pullvideo, config, pushvideo, status, ack, arm_target, text_or,
}
use ziot_rtp_bridge.Broker.Api.{push_url}
use ziot_rtp_bridge.Broker.Beat.{keepalive_due, keepalive, schedule_relay_trigger}
use ziot_rtp_bridge.Broker.Chain.{schedule_p2p_live, p2p_socket_bound}
use ziot_rtp_bridge.Broker.State.{
  Entry, Host, Sent, refused, and_then, got, add_camera, has_port, set_media_state,
  set_camera_address, set_camera_public, set_reported_seq, note_p2p_port, note_p2p_answer, push,
}
use ziot_rtp_bridge.Signalling.Decode.{decode_fields}
use ziot_rtp_bridge.Signalling.Report.{LocalAddr, parse_status_report, parse_local_addr_report}

-- `raw[10 + uid_len:-2]`
abbrev pub body_of : Bytes → ℕ → Bytes
body_of raw uid_len = drop (10 + uid_len) (take (length raw - 2) raw)

-- The address that a registration of a camera at `peer` is armed with.
unfoldable pub armed : Host → Bytes → Entry → Bytes × ℕ
unfolding arm_target
armed h peer e = arm_target e.viewer h.relay_ip h.relay_port (text_or h.own_ip peer)

-- What answers a command, once its report has been taken; `none` for the address report.
unfoldable pub reply_to : Host → Bytes → ℕ → Entry → Option Message
unfolding armed push_url
reply_to h peer cmd e =
    if cmd == 0x0001
    then some (registration (armed h peer e).0 (armed h peer e).1 (text_or h.own_ip peer))
    else if cmd == 0x0021
    then some (clock h.wall)
    else if cmd == 0x0003
    then none
    else if cmd == 0x0002
    then some pullvideo
    else if cmd == 0x0004
    then some (status 4)
    else if cmd == 0x1601
    then some config
    else if cmd == 0x0020
    then some (pushvideo (push_url h e))
    else some (ack cmd)

-- A camera that is not known is added.
abbrev pub known : Bytes → Entry → Entry
known peer e = elim e.camera [ none ↦ add_camera peer 0 e | some _ ↦ e ]

-- The connection and the sequence number are kept.
unfoldable pub meet : ℕ → Bytes → Bytes → Entry → Entry
unfolding add_camera
meet conn peer raw e = record (known peer e) {
  link = some conn;
  last_seq = (decode_fields raw).seq;
  trace = got conn raw ∷ e.trace;
}

abbrev pub or_zero : Option ℕ → ℕ
or_zero none = 0
or_zero (some n) = n

unfoldable pub take_address : LocalAddr → Entry → Entry
unfolding set_camera_address note_p2p_port set_camera_public set_reported_seq note_p2p_answer
take_address r e =
    let n = or_zero r.seq_no in
    let e' =
      set_camera_public r.public_ip r.public_port
        (note_p2p_port r.local_port (set_camera_address r.local_ip r.local_port e)) in
    note_p2p_answer n
      (record {
        pub_ip = r.public_ip;
        pub_port = r.public_port;
        loc_ip = r.local_ip;
        loc_port = r.local_port;
      })
      (if n == 0 then e' else set_reported_seq n e')

unfoldable pub take_status : ℕ → Option ℕ → Entry → Entry
unfolding set_media_state p2p_socket_bound
take_status now state e = elim state [
  | none ↦ e
  | some s ↦ if s == 3 then p2p_socket_bound now (set_media_state s e) else set_media_state s e
]

-- The wire id 3 of a status report.
unfoldable pub reported_state : Bytes → Option ℕ
unfolding parse_status_report
reported_state raw = lookup 3 (parse_status_report (body_of raw (decode_fields raw).uid_len))

-- What the reports of a frame change.
unfoldable pub take_report : ℕ → Bytes → Entry → Entry
unfolding take_address take_status reported_state
take_report now raw e =
    let f = decode_fields raw in
    if f.cmd == 0x0003
    then elim (parse_local_addr_report (body_of raw f.uid_len)) [
      | none ↦ e
      | some r ↦ take_address r e
    ]
    else if f.cmd == 0x0004
    then take_status now (reported_state raw) e
    else e

abbrev pub then_trigger : Host → Entry → Entry × Sent
then_trigger h e = (schedule_relay_trigger h e, refused)

-- What a registration starts, once it has been answered with a target.
unfoldable pub start_chain : Host → ℕ → Entry → Entry × Sent
unfolding schedule_p2p_live schedule_relay_trigger
start_chain h conn e =
    let forced = has_port conn e.forced_on in
    let e' = if forced then e else record e { forced_on = conn ∷ e.forced_on } in
    and_then (schedule_p2p_live h (not forced) e') (then_trigger h)

-- The periodic push, unless the camera asks to pull its video.
unfoldable pub keep_fed : Host → ℕ → Entry → Entry × Sent
unfolding keepalive_due keepalive
keep_fed h cmd e =
    let (e', due) = keepalive_due h.now e in
    if cmd == 0x0002 then (e, refused) else if due then keepalive h e' else (e', refused)

-- What follows an answer that armed a port.
abbrev pub after_answer : Host → ℕ → ℕ → ℕ → Entry → Entry × Sent
after_answer h conn cmd port e =
    if cmd == 0x0001 && not (port == 0) then start_chain h conn e else (e, refused)

-- The answer, and what follows it.
unfoldable pub answer_with : Host → ℕ → Bytes → ℕ → Entry → Entry × Sent
unfolding reply_to start_chain push armed
answer_with h conn peer cmd e = elim (reply_to h peer cmd e) [
  | none ↦ (e, refused)
  | some m ↦ and_then (push h e.last_seq m e) (after_answer h conn cmd (armed h peer e).1)
]

-- A report is taken before its answer is sent.
abbrev pub report_and_answer : Host → ℕ → Bytes → Bytes → Entry → Entry × Sent
report_and_answer h conn peer raw e =
    answer_with h conn peer (decode_fields raw).cmd (take_report h.now raw e)

-- `_answer_camera` on a frame that a connection has read; a frame without a uid is only logged.
unfoldable pub answer_camera : Host → ℕ → Bytes → Bytes → Entry → Entry × Sent
unfolding meet keep_fed take_report answer_with
answer_camera h conn peer raw e =
    if bytes_eq (decode_fields raw).uid []
    then (e, refused)
    else and_then (keep_fed h (decode_fields raw).cmd (meet conn peer raw e))
        (report_and_answer h conn peer raw)

-- `finish`: only a link that is this connection is dropped.
unfoldable pub finish : ℕ → Entry → Entry
unfolding set_media_state
finish conn e = elim e.link [
  | none ↦ e
  | some c ↦ if c == conn then set_media_state 0 (record e { link = none }) else e
]
