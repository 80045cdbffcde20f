-- ===== src/Broker/Chain.antt =====
-- The direct chain of `HttpApi`, of ziot_fake_cloud.py: `schedule_p2p_live` asks the camera to bind its socket,
-- `p2p_socket_bound` hears that it has, and `serve_due_p2p_fires` sends the hello and the play.
use ziot_rtp_bridge.Base.{
  ℕ, ◌+◌, ◌-◌, Bool, false, not, ◌&&◌, ◌||◌, Option, none, some, List, [], ◌∷◌, ◌++◌, if◌then◌else◌,
  ◌==◌, ltb, Bytes, bytes_eq, take,
}
use ziot_rtp_bridge.Base.Int.{ℤ, pos, negsuc}
use ziot_rtp_bridge.Broker.Answers.{Viewer, Pair, conn_req, play_ctrl, strip, is_zero, text_or}
use ziot_rtp_bridge.Broker.State.{
  Device, Event, hello, Entry, Host, Sent, went, refused, raised, is_some, has_port, push,
}

abbrev pub p2p_play_fallback : ℕ
p2p_play_fallback = 6000

abbrev pub p2p_resend_min : ℕ
p2p_resend_min = 30000

abbrev pub p2p_play_settle : ℕ
p2p_play_settle = 1500

abbrev pub int_eq : ℤ → ℤ → Bool
int_eq (pos m) (pos n) = m == n
int_eq (negsuc m) (negsuc n) = m == n
int_eq _ _ = false

-- `pair == self.p2p_sent_pair.get(uid)`
abbrev pub pair_eq : Pair → Pair → Bool
pair_eq p q =
    bytes_eq p.pub_ip q.pub_ip
    && (int_eq p.pub_port q.pub_port
        && (bytes_eq p.priv_ip q.priv_ip && int_eq p.priv_port q.priv_port))

abbrev pub is_pair : Option Pair → Pair → Bool
is_pair none pair = false
is_pair (some p) pair = pair_eq p pair

-- The addresses that the 0x8101 carries; `none` where no viewer is registered.
unfoldable pub viewer_pair : Option Viewer → Option Pair
viewer_pair none = none
viewer_pair (some v) =
    let priv_ip = strip v.private_ip in
    if bytes_eq priv_ip [] || is_zero v.private_port
    then none
    else some (record {
      pub_ip = text_or (strip v.public_ip) priv_ip;
      pub_port = if is_zero v.public_port then v.private_port else v.public_port;
      priv_ip = priv_ip;
      priv_port = v.private_port;
    })

-- `age < P2P_RESEND_MIN_S`, where a missing time is minus infinity.
abbrev pub is_recent : ℕ → Option ℕ → Bool
is_recent now none = false
is_recent now (some t) = ltb (now - t) p2p_resend_min

-- What is kept of an 0x8101 that went out.
abbrev pub note_conn_req : Host → Pair → ℕ → Entry × Sent → Entry × Sent
note_conn_req h pair seq (e, went) = (
  record e {
    p2p_sent_pair = some pair;
    p2p_sent_seq = some seq;
    p2p_answer = none;
    p2p_sent_at = some h.later;
    p2p_ports = [];
    p2p_fire_at = some (h.later + p2p_play_fallback);
  },
  went,
)
note_conn_req h pair seq (e, refused) = (e, refused)
note_conn_req h pair seq (e, raised) = (e, raised)

-- The 0x8101 is sent.
unfoldable pub send_conn_req : Host → Pair → Entry → Entry × Sent
unfolding push
send_conn_req h pair e =
    note_conn_req h pair e.last_seq (push h e.last_seq (conn_req pair e.pending_seq) e)

-- An unchanged pair is held back for a while, unless the camera has just registered.
unfoldable pub ask_unless_recent : Host → Bool → Pair → Entry → Entry × Sent
unfolding send_conn_req
ask_unless_recent h force pair e =
    if not force && (is_pair e.p2p_sent_pair pair && is_recent h.now e.p2p_sent_at)
    then (e, refused)
    else send_conn_req h pair e

-- A chain that is pending for the same pair is left alone; for another pair its readiness is void.
unfoldable pub ask : Host → Bool → Pair → Entry → Entry × Sent
unfolding ask_unless_recent
ask h force pair e =
    if is_some e.p2p_fire_at && is_pair e.p2p_sent_pair pair
    then (e, refused)
    else ask_unless_recent h force pair
        (if is_some e.p2p_fire_at then record e { p2p_ready = none } else e)

-- A camera that is connected is asked, where a viewer is registered.
unfoldable pub ask_if_reached : Host → Bool → Entry → Entry × Sent
unfolding ask viewer_pair
ask_if_reached h force e =
    if not (is_some e.link)
    then (e, refused)
    else elim (viewer_pair e.viewer) [ none ↦ (e, refused) | some pair ↦ ask h force pair e ]

-- What a registration forgets of the chain.
abbrev pub forget : Entry → Entry
forget e = record e { p2p_fire_at = none; p2p_ready = none; p2p_sent_at = none }

unfoldable pub schedule_p2p_live : Host → Bool → Entry → Entry × Sent
unfolding ask_if_reached
schedule_p2p_live h force e = ask_if_reached h force (if force then forget e else e)

unfoldable pub p2p_socket_bound : ℕ → Entry → Entry
p2p_socket_bound now e =
    if is_some e.p2p_fire_at
    then record e { p2p_ready = some now; p2p_fire_at = some (now + p2p_play_settle) }
    else e

-- The ports that get the hello.
abbrev pub punch_ports : Device → List ℕ → List ℕ
punch_ports d ports =
    if not (d.port == 0) && not (has_port d.port ports) then ports ++ d.port ∷ [] else ports

abbrev pub hellos : Bytes → List ℕ → List Event
hellos ip [] = []
hellos ip (p ∷ ps) = hello ip p ∷ hellos ip ps

-- The latest first.
abbrev pub add_all : List Event → List Event → List Event
add_all [] trace = trace
add_all (x ∷ xs) trace = add_all xs (x ∷ trace)

-- `punch_camera`: three rounds, up to the first datagram that cannot be sent.
unfoldable pub punch_camera : Host → Entry → Entry
punch_camera h e = elim e.camera [
  | none ↦ e
  | some d ↦
      let ports = punch_ports d e.p2p_ports in
      let rounds = hellos d.ip (ports ++ (ports ++ ports)) in
      if bytes_eq d.ip [] then e else record e { trace = add_all (take h.datagrams rounds) e.trace }
]

-- The body of the loop of `serve_due_p2p_fires`, for this camera; the result is whether a play went out.
unfoldable pub serve_due_p2p_fire : Host → Entry → Entry × Sent
unfolding punch_camera push
serve_due_p2p_fire h e = elim e.p2p_fire_at [
  | none ↦ (e, refused)
  | some due ↦
      let e' = record e { p2p_fire_at = none; p2p_ready = none } in
      if ltb h.now due
      then (e, refused)
      else if not (is_some e.p2p_ready)
      then (e', refused)
      else if not (is_some e'.link)
      then (e', refused)
      else push h e'.last_seq (play_ctrl 1) (punch_camera h e')
]
