-- ===== src/Broker/Play/Calls.antt =====
-- What the worker, the HTTP requests and the end of a connection keep of `IsChained`.
use ziot_rtp_bridge.Base.{ℕ, refl, false, none, arith, Bytes}
use ziot_rtp_bridge.Broker.Answers.{pullvideo, heartbeat, relay_trigger, play_ctrl}
use ziot_rtp_bridge.Broker.Api.{Query, register_viewer, send_stun_addr, notify_live_event}
use ziot_rtp_bridge.Broker.Beat.{
  keepalive, send_heartbeat, push_relay_trigger, serve_due_relay_trigger, feed, beat,
}
use ziot_rtp_bridge.Broker.Chain.{serve_due_p2p_fire}
use ziot_rtp_bridge.Broker.Handler.{finish}
use ziot_rtp_bridge.Broker.Play.{IsChained}
use ziot_rtp_bridge.Broker.Play.Chain.{
  push-IsChained, schedule_p2p_live-IsChained, serve_due_p2p_fire-IsChained,
}
use ziot_rtp_bridge.Broker.State.{
  Entry, Host, Sent, went, refused, raised, and_then, set_media_state, set_pending_seq,
}

pub and_then-IsChained :
    (r : Entry × Sent) (f : Entry → Entry × Sent)
    → IsChained r.0
    → ((e : Entry) → IsChained e → IsChained (f e).0)
    → IsChained (and_then r f).0
and_then-IsChained (e, went) f c next = next e c
and_then-IsChained (e, refused) f c next = next e c
and_then-IsChained (e, raised) f c next = c

pub keepalive-IsChained : (h : Host) (e : Entry) → IsChained e → IsChained (keepalive h e).0
unfolding keepalive
keepalive-IsChained h e c =
    let pushed = push-IsChained h e.last_seq pullvideo e refl refl c in ground arith

pub send_heartbeat-IsChained :
    (h : Host) (e : Entry) → IsChained e → IsChained (send_heartbeat h e).0
unfolding send_heartbeat
send_heartbeat-IsChained h e c =
    let c' : IsChained (record e { heartbeat_dropped = false }) = record {
      asked = c.asked;
      waits = c.waits;
      bound = c.bound;
      orderly = c.orderly;
    } in
    let pushed =
      push-IsChained h e.last_seq heartbeat (record e { heartbeat_dropped = false }) refl refl c' in
    ground arith

pub push_relay_trigger-IsChained :
    (h : Host) (e : Entry) → IsChained e → IsChained (push_relay_trigger h e).0
unfolding push_relay_trigger
push_relay_trigger-IsChained h e c =
    let pushed = push-IsChained h e.last_seq relay_trigger e refl refl c in ground arith

pub serve_due_relay_trigger-IsChained :
    (h : Host) (e : Entry) → IsChained e → IsChained (serve_due_relay_trigger h e).0
unfolding serve_due_relay_trigger
serve_due_relay_trigger-IsChained h e c =
    let e' = record e { relay_trigger_at = none } in
    let c' : IsChained e' = record {
      asked = c.asked;
      waits = c.waits;
      bound = c.bound;
      orderly = c.orderly;
    } in
    let pushed = push_relay_trigger-IsChained h e' c' in ground arith

pub feed-IsChained : (h : Host) (e : Entry) → IsChained e → IsChained (feed h e).0
unfolding feed
feed-IsChained h e c = let fed = keepalive-IsChained h e c in ground arith

pub beat-IsChained : (h : Host) (e : Entry) → IsChained e → IsChained (beat h e).0
unfolding beat
beat-IsChained h e c =
    and_then-IsChained (and_then (feed h e) (serve_due_relay_trigger h)) (serve_due_p2p_fire h)
      (and_then-IsChained (feed h e) (serve_due_relay_trigger h) (feed-IsChained h e c)
        (serve_due_relay_trigger-IsChained h))
      (serve_due_p2p_fire-IsChained h)

pub finish-IsChained : (conn : ℕ) (e : Entry) → IsChained e → IsChained (finish conn e)
unfolding finish set_media_state
finish-IsChained conn e c = ground arith

pub send_stun_addr-IsChained :
    (h : Host) (q : Query) (e : Entry) → IsChained e → IsChained (send_stun_addr h q e).0
unfolding send_stun_addr register_viewer set_pending_seq
send_stun_addr-IsChained h q e c =
    let e' = register_viewer q e in
    schedule_p2p_live-IsChained h false (set_pending_seq e'.seq_no e') (ground arith)

pub notify_live_event-IsChained :
    (h : Host) (event : Bytes) (e : Entry) → IsChained e → IsChained (notify_live_event h event e).0
unfolding notify_live_event
notify_live_event-IsChained h event e c =
    let live = schedule_p2p_live-IsChained h false e c in
    let beats = send_heartbeat-IsChained h e c in
    let pauses = push-IsChained h e.last_seq (play_ctrl 2) e refl refl c in
    let stops = push-IsChained h e.last_seq (play_ctrl 3) e refl refl c in
    let relays = push_relay_trigger-IsChained h e c in ground arith
