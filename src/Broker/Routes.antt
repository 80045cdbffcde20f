-- ===== src/Broker/Routes.antt =====
-- `respond` of `HttpApi` of ziot_fake_cloud.py: which route a request takes, and what it does to the state. The request is what
-- `parse_qs` and `json.loads` make of it; the state of a camera is that of `HttpApi` under its uid.
mod Tests
use ziot_rtp_bridge.Base.{
  ℕ, Bool, true, false, not, ◌&&◌, ◌||◌, Option, none, some, List, [], ◌∷◌, ◌++◌, if◌then◌else◌,
  ◌==◌, Bytes, bytes_eq, ascii, starts_with,
}
use ziot_rtp_bridge.Broker.Api.{Query, Stun, stun, send_stun_addr, notify_live_event}
use ziot_rtp_bridge.Broker.State.{Entry, Host, Sent, went, refused, raised, add_camera}
use ziot_rtp_bridge.Http.{rstrip_slash, lstrip_slash}

-- A camera's registration: its `uid`, `ip` and `port`; `none` is a port that is no number.
pub record Registration : Type 0 where
  pub uid : Bytes
  pub ip : Bytes
  pub port : Option ℕ

-- The query is given as text, and as what the routes take from it.
pub record Request : Type 0 where
  pub method : Bytes
  pub path : Bytes
  pub query : Bytes
  pub uid : Bytes
  pub event : Bytes
  pub viewer : Query
  pub body : Registration

pub data Call : Type 0 where
  redirect : Bytes → Call
  device_list get_sig_ip share_list send_cmd unknown : Call
  register : Registration → Call
  send_stun : Bytes → Query → Call
  stun_addr viewer_of camera_of package_of : Bytes → Call
  notify : Bytes → Bytes → Call

abbrev pub ends_slash : Bytes → Bool
ends_slash [] = false
ends_slash (c ∷ []) = c == b'/'
ends_slash (c ∷ d ∷ ds) = ends_slash (d ∷ ds)

abbrev pub is_empty : Bytes → Bool
is_empty [] = true
is_empty (c ∷ cs) = false

-- `path.endswith("/") and path.strip("/")`
abbrev pub redirects : Bytes → Bool
redirects path = ends_slash path && not (is_empty (rstrip_slash (lstrip_slash path)))

abbrev pub location : Bytes → Bytes → Bytes
location path query =
    if is_empty query then rstrip_slash path else rstrip_slash path ++ (b'?' ∷ query)

-- `path.rsplit("/", 1)[-1]`, with the part read so far.
abbrev pub last_segment : Bytes → Bytes → Bytes
last_segment part [] = part
last_segment part (c ∷ cs) = last_segment (if c == b'/' then [] else part ++ c ∷ []) cs

-- The routes, for a path that is not redirected.
abbrev pub route_on : Request → Call
route_on r =
    if bytes_eq r.path (ascii "/api/v1/ipc") && bytes_eq r.method (ascii "GET")
    then device_list
    else if bytes_eq r.path (ascii "/api/v1/ipc") && bytes_eq r.method (ascii "POST")
    then register r.body
    else if bytes_eq r.path (ascii "/api/v1/ipc-function/get-sig-ip")
    then get_sig_ip
    else if bytes_eq r.path (ascii "/api/v1/ipc/send-stun-addr")
    then send_stun r.uid r.viewer
    else if starts_with (ascii "/api/v1/ipc/stun-addr/") r.path
    then stun_addr (last_segment [] r.path)
    else if bytes_eq r.path (ascii "/api/v1/ipc/notify-live-event")
    then notify r.uid r.event
    else if starts_with (ascii "/api/v1/ipc/viewer/") r.path
    then viewer_of (last_segment [] r.path)
    else if starts_with (ascii "/api/v1/ipc/") r.path
    then camera_of (last_segment [] r.path)
    else if bytes_eq r.path (ascii "/api/v1/share-list")
    then share_list
    else if bytes_eq r.path (ascii "/api/v1/cloud-service-record/current-package")
    then package_of r.uid
    else if bytes_eq r.path (ascii "/api/v1/cmd/send-cmd")
    then send_cmd
    else unknown

unfoldable pub route : Request → Call
route r = if redirects r.path then redirect (location r.path r.query) else route_on r

-- The items of `HttpApi` under each uid.
abbrev pub Table : Type 0
Table = Bytes → Entry

abbrev pub set : Bytes → Entry → Table → Table
set uid e table = λ other. if bytes_eq other uid then e else table other

-- The status, with the `code` of the envelope and the `data` that depends on the state; or an exception.
pub data Reply : Type 0 where
  moved : Bytes → Reply
  ok ok_400 not_found raises : Reply
  endpoint : Stun → Reply

abbrev pub sent_reply : Sent → Reply → Reply
sent_reply raised reply = raises
sent_reply went reply = reply
sent_reply refused reply = reply

-- The new registration, or none.
abbrev pub take_registration : Registration → Table → Table × Reply
take_registration g table = if is_empty g.uid then (table, ok) else elim g.port [
  | none ↦ (table, raises)
  | some port ↦ (set g.uid (add_camera g.ip port (table g.uid)) table, ok)
]

-- What a call does, with what it meets of the outside under each uid.
unfoldable pub perform : (Bytes → Host) → Call → Table → Table × Reply
unfolding add_camera send_stun_addr notify_live_event stun
perform h (redirect loc) table = (table, moved loc)
perform h (register g) table = take_registration g table
perform h get_sig_ip table = (table, ok_400)
perform h (send_stun uid q) table =
    let (e, s) = send_stun_addr (h uid) q (table uid) in
    (set uid e table, sent_reply s (endpoint (stun (some e.seq_no) (table uid))))
perform h (stun_addr uid) table = (table, endpoint (stun none (table uid)))
perform h (notify uid event) table =
    let (e, s) = notify_live_event (h uid) event (table uid) in (set uid e table, sent_reply s ok)
perform h unknown table = (table, not_found)
perform h device_list table = (table, ok)
perform h share_list table = (table, ok)
perform h send_cmd table = (table, ok)
perform h (viewer_of uid) table = (table, ok)
perform h (camera_of uid) table = (table, ok)
perform h (package_of uid) table = (table, ok)

unfoldable pub respond : (Bytes → Host) → Request → Table → Table × Reply
unfolding route perform
respond h r table = perform h (route r) table
