-- ===== src/Ble/Att.antt =====
-- The attribute protocol of ziot_fake_cloud.py, by which a frame reaches the camera: `_att_read`,
-- `_att_is_peer_mtu_request`, `_att_request`, `_att_attempt` and `ble_provision`. The events are what the
-- reads of the socket give, in order, and the list ends where the socket raises `OSError`. The printed lines
-- are left out, the reply excepted.
pub mod Exchange
pub mod Answered
pub mod Provision
mod Tests
use ziot_rtp_bridge.Base.{
  ℕ, zero, suc, ◌+◌, ◌*◌, Bool, true, false, ◌&&◌, Option, none, some, List, [], ◌∷◌, ◌++◌,
  if◌then◌else◌, ◌==◌, leb, Bytes, byte_at, length, drop, ◌>>=◌,
}
use ziot_rtp_bridge.Base.Int.{ℤ}
use ziot_rtp_bridge.Ble.{parse_provision_response, wifi_connect_frame, chunk20}

-- A read gives a whole PDU, empty for a timeout, or the loop finds its time over.
pub data Event : Type 0 where
  pdu : Bytes → Event
  deadline : Event

abbrev pub Note : Type 0
Note = ℕ × Bytes

abbrev pub is_note : Bytes → Bool
is_note p = byte_at p 0 == 0x1b && leb 3 (length p)

-- `(handle, value)`
abbrev pub note : Bytes → Note
note p = (byte_at p 1 + byte_at p 2 * 256, drop 3 p)

abbrev pub att_is_peer_mtu_request : Bytes → Bool
att_is_peer_mtu_request p = leb 3 (length p) && byte_at p 0 == 0x02

abbrev pub is_error : Bytes → Bool
is_error p = byte_at p 0 == 0x01

-- The PDUs that were sent, the notifications, and what is still to be read.
pub record Session : Type 0 where
  pub sent : List Bytes
  pub notes : List Note
  pub events : List Event

-- The loop of `_att_request`: the response, or `b""` when the time is over; `none` is an `OSError`.
unfoldable pub listen : List Event → List Note → Option (Bytes × List Note × List Event)
listen [] notes = none
listen (deadline ∷ es) notes = some ([], notes, es)
listen (pdu [] ∷ es) notes = listen es notes
listen (pdu (b ∷ bs) ∷ es) notes =
    let p = b ∷ bs in
    let noted = listen es (notes ++ note p ∷ []) in
    let skipped = listen es notes in
    if is_note p then noted else if att_is_peer_mtu_request p then skipped else some (p, notes, es)

-- What `_att_request` leaves, and its response if it returns one.
abbrev pub heard : Session → Option (Bytes × List Note × List Event) → Session × Option Bytes
heard s none = (s, none)
heard s (some (p, notes, es)) = (record s { notes = notes; events = es }, some p)

unfoldable pub att_request : ℕ → Bytes → Session → Session × Option Bytes
unfolding listen
att_request opcode payload s = elim s.events [
  | [] ↦ (s, none)
  | _ ↦ heard (record s { sent = s.sent ++ (opcode ∷ payload) ∷ [] }) (listen s.events s.notes)
]

-- The loop that listens to the camera's answer.
unfoldable pub drain : List Event → List Note → Option (List Note)
drain [] notes = none
drain (deadline ∷ es) notes = some notes
drain (pdu p ∷ es) notes =
    let noted = drain es (notes ++ note p ∷ []) in
    let skipped = drain es notes in if is_note p then noted else skipped

abbrev pub values : List Note → Bytes
values [] = []
values (n ∷ ns) = n.1 ++ values ns

-- What is printed of the camera's answer.
pub data Reply : Type 0 where
  silent unparseable : Reply
  parsed : Bool × Bytes → Reply

abbrev pub reply_of : Bytes → Reply
reply_of [] = silent
reply_of (b ∷ bs) = elim (parse_provision_response (b ∷ bs)) [
  | some answer ↦ parsed answer
  | none ↦ unparseable
]

-- What `_att_attempt` returns, a reply with `'sent'`.
pub data Outcome : Type 0 where
  connect_failed link_failed subscription_rejected : Outcome
  write_rejected : ℕ → Outcome
  all_sent : Reply → Outcome

-- The PDUs of the attempt, opcode first.
abbrev pub mtu_payload : Bytes
mtu_payload = 247 ∷ 0 ∷ []

abbrev pub cccd_payload : Bytes
cccd_payload = 0x0b ∷ 0 ∷ 1 ∷ 0 ∷ []

abbrev pub write_payload : Bytes → Bytes
write_payload chunk = 0x08 ∷ 0 ∷ chunk

-- Behind the last write.
abbrev pub finish : Session → Option (List Note) → List Bytes × Outcome
finish s none = (s.sent, link_failed)
finish s (some notes) = (s.sent, all_sent (reply_of (values notes)))

-- Behind a write, with what follows it.
abbrev pub after_write : ℕ → List Bytes × Outcome → Session × Option Bytes → List Bytes × Outcome
after_write i rest (s, none) = (s.sent, link_failed)
after_write i rest (s, some p) = if is_error p then (s.sent, write_rejected i) else rest

-- The writes, the first of them with its number.
unfoldable pub write_chunks : ℕ → List Bytes → Session → List Bytes × Outcome
unfolding att_request drain parse_provision_response
write_chunks i [] s = finish s (drain s.events s.notes)
write_chunks i (chunk ∷ chunks) s =
    let r = att_request 0x12 (write_payload chunk) s in
    after_write i (write_chunks (suc i) chunks r.0) r

abbrev pub after_cccd : List Bytes → Session × Option Bytes → List Bytes × Outcome
after_cccd chunks (s, none) = (s.sent, link_failed)
after_cccd chunks (s, some p) =
    if is_error p then (s.sent, subscription_rejected) else write_chunks 0 chunks s

abbrev pub after_mtu : List Bytes → Session × Option Bytes → List Bytes × Outcome
after_mtu chunks (s, none) = (s.sent, link_failed)
after_mtu chunks (s, some _) = after_cccd chunks (att_request 0x12 cccd_payload s)

-- The PDUs that were sent, and the outcome; `none` where `connect` fails. The socket can be made and bound.
unfoldable pub att_attempt : Option (List Event) → List Bytes → List Bytes × Outcome
unfolding att_request write_chunks
att_attempt none chunks = ([], connect_failed)
att_attempt (some events) chunks =
    after_mtu chunks
      (att_request 0x02 mtu_payload (record { sent = []; notes = []; events = events }))

-- The attempts that are left, the first of them with its number, and whether one of them returned `'sent'`.
-- Each has a socket of its own.
unfoldable pub tries : ℕ → ℕ → (ℕ → Option (List Event)) → List Bytes → List Bytes × Bool
unfolding att_attempt
tries zero attempt sockets chunks = ([], false)
tries (suc n) attempt sockets chunks =
    let r = att_attempt (sockets attempt) chunks in
    let rest = tries n (suc attempt) sockets chunks in
    elim r.1 [ all_sent _ ↦ (r.0, true) | _ ↦ (r.0 ++ rest.0, rest.1) ]

-- `ble_provision` behind its options: what is sent and the exit code, or the `ValueError` of a text that is
-- too long.
unfoldable pub ble_provision :
    (ℕ → Option (List Event)) → Bytes → Bytes → Bytes → ℤ → ℕ → ℕ → Option (List Bytes × ℕ)
unfolding wifi_connect_frame chunk20 tries
ble_provision sockets ssid pwd sig_addr tz seq reg_code =
    wifi_connect_frame ssid pwd sig_addr tz seq reg_code >>= λ (frame : Bytes).
    let (sent, ok) = tries 3 1 sockets (chunk20 frame) in some (sent, (if ok then 0 else 1))
