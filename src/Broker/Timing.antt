-- ===== src/Broker/Timing.antt =====
-- When the 0x8101 and the play go out, and when they do not.
use ziot_rtp_bridge.Base.{
  ℕ, ◌≤◌, ◌∙◌, ◌^◌, ◌≡◌, ◌≢◌, inl, inr, refl, ap, ap₂, false, Option, none, some, [], ◌∷◌, pack16,
  arith, Bytes, bytes_eq, Option-cases,
}
use ziot_rtp_bridge.Base.Int.{pos}
use ziot_rtp_bridge.Broker.Answers.{
  Viewer, registration, vendor_registration_answer, frame_of, strip, arm_target, text_or,
}
use ziot_rtp_bridge.Broker.Api.{stun}
use ziot_rtp_bridge.Broker.Handler.{
  or_zero, take_address, armed, reply_to, answer_with, meet, keep_fed, take_report,
  report_and_answer, answer_camera, finish,
}
use ziot_rtp_bridge.Broker.State.{
  Device, Answer, Entry, Host, Sent, went, refused, raised, and_then, is_seq, set_media_state,
  set_camera_address, set_camera_public, set_reported_seq, add_camera, note_p2p_port,
  note_p2p_answer, send_to, push,
}
use ziot_rtp_bridge.Signalling.Decode.{decode_fields}
use ziot_rtp_bridge.Broker.Beat.{keepalive_due, keepalive}
use ziot_rtp_bridge.Signalling.Report.{LocalAddr}

-- Once a report has answered the 0x8101, a report with another number moves nothing that stun-addr serves.
pub stun_redraw :
    (seq_no : Option ℕ) (r : LocalAddr) (a : Answer) (e : Entry)
    → e.p2p_answer ≡ some a
    → is_seq e.p2p_sent_seq (or_zero r.seq_no) ≡ false
    → (stun seq_no (take_address r e)).endpoint ≡ a
unfolding stun take_address set_camera_address set_camera_public set_reported_seq note_p2p_port
    note_p2p_answer
stun_redraw seq_no r a e answered other = ground arith

-- The report that answers the 0x8101 is what stun-addr serves, with its number, whatever it served before.
pub stun_answer :
    (r : LocalAddr) (n : ℕ) (e : Entry)
    → r.seq_no ≡ some n
    → n ≢ 0
    → e.p2p_sent_seq ≡ some n
    → stun none (take_address r e) ≡ record {
      endpoint = record {
        pub_ip = r.public_ip;
        pub_port = r.public_port;
        loc_ip = r.local_ip;
        loc_port = r.local_port;
      };
      number = n;
    }
unfolding stun take_address set_camera_address set_camera_public set_reported_seq note_p2p_port
    note_p2p_answer
stun_answer r n e reported some_number asked = ground arith

-- A connection that ends takes only its own link with it, and then the camera shows as idle.
pub finish_link :
    (conn : ℕ) (e : Entry)
    → ((e.link ≡ some conn)
        → ((finish conn e).link ≡ none)
          × ((d : Device) → (finish conn e).camera ≡ some d → d.media_state ≡ 0))
      × ((e.link ≢ some conn) → finish conn e ≡ e)
unfolding finish set_media_state
finish_link conn e = (λ linked. (ground arith, λ d known. ground arith), λ other. ground arith)

bytes_eq_nil : (s : Bytes) → s ≢ [] → bytes_eq s [] ≡ false
bytes_eq_nil [] h = absurd (h refl)
bytes_eq_nil (c ∷ cs) h = refl

registration_none :
    (uid : Bytes) (seq : ℕ) (ip : Bytes) (port : ℕ) (own : Bytes)
    → 2 ^ 16 ≤ port
    → frame_of uid seq (registration ip port own) ≡ none
unfolding frame_of vendor_registration_answer
registration_none uid seq ip port own large =
    let overflows : pack16 port ≡ none = ground arith in
    elim (Option-cases (pack16 seq)) [ inl e ↦ rw e refl | inr (s, e) ↦ rw e (rw overflows refl) ]

answer_with_raises :
    (h : Host) (conn : ℕ) (peer : Bytes) (e : Entry) (v : Viewer) (port : ℕ)
    → e.viewer ≡ some v
    → strip v.private_ip ≢ []
    → v.private_port ≡ pos port
    → 2 ^ 16 ≤ port
    → answer_with h conn peer 0x0001 e ≡ (e, raised)
unfolding answer_with reply_to armed arm_target push frame_of vendor_registration_answer
answer_with_raises h conn peer e v port registered named p large =
    let blank : bytes_eq (strip v.private_ip) [] ≡ false =
      bytes_eq_nil (strip v.private_ip) named in
    let to_port : (armed h peer e).1 ≡ port = ground arith in
    let fails =
      registration_none e.uid e.last_seq (armed h peer e).0 (armed h peer e).1
        (text_or h.own_ip peer) (omega (arith, to_port)) in
    ground arith

meet_viewer : (conn : ℕ) (peer raw : Bytes) (e : Entry) → (meet conn peer raw e).viewer ≡ e.viewer
unfolding meet add_camera
meet_viewer conn peer raw e = ground arith

keep_fed_viewer : (h : Host) (cmd : ℕ) (e : Entry) → (keep_fed h cmd e).0.viewer ≡ e.viewer
unfolding keep_fed keepalive_due keepalive push send_to set_media_state
keep_fed_viewer h cmd e = ground arith

raised_after :
    (r : Entry × Sent) (f : Entry → Entry × Sent)
    → f r.0 ≡ (r.0, raised)
    → and_then r f ≡ (r.0, raised)
raised_after (e, went) f h = h
raised_after (e, refused) f h = h
raised_after (e, raised) f h = refl

-- Where the viewer has registered a private address with a port that needs more than two bytes, a registration of
-- the camera is never answered: struct.error is raised, and only what was done before its answer stays, which is
-- that the connection, the number and the camera are noted and that a due keepalive is sent.
pub answer_camera_raises :
    (h : Host) (conn : ℕ) (peer raw : Bytes) (e : Entry) (v : Viewer) (port : ℕ)
    → (decode_fields raw).uid ≢ []
    → (decode_fields raw).cmd ≡ 0x0001
    → e.viewer ≡ some v
    → strip v.private_ip ≢ []
    → v.private_port ≡ pos port
    → 2 ^ 16 ≤ port
    → answer_camera h conn peer raw e ≡ ((keep_fed h 0x0001 (meet conn peer raw e)).0, raised)
unfolding answer_camera take_report
answer_camera_raises h conn peer raw e v port named command registered address p large =
    let fed = keep_fed h 0x0001 (meet conn peer raw e) in
    let kept : fed.0.viewer ≡ some v =
      keep_fed_viewer h 0x0001 (meet conn peer raw e) ∙ meet_viewer conn peer raw e ∙ registered in
    let fails = answer_with_raises h conn peer fed.0 v port kept address p large in
    let has_uid = bytes_eq_nil (decode_fields raw).uid named in
    let no_report : take_report h.now raw fed.0 ≡ fed.0 = rw (take_report, command) refl in
    let answering : report_and_answer h conn peer raw fed.0 ≡ (fed.0, raised) =
      ap₂ (answer_with h conn peer) command no_report ∙ fails in
    rw (answer_camera, has_uid)
      (ap (λ n. and_then (keep_fed h n (meet conn peer raw e)) (report_and_answer h conn peer raw))
          command
        ∙ raised_after fed (report_and_answer h conn peer raw) answering)
