-- ===== src/Relay.antt =====
-- `interleaved`, `Session` and `Relay._pump_interleaved` of ziot_relay.py. Each call runs without a switch
-- to another thread between its steps; the time of the last packet is left out.
pub mod Pump
pub mod Ring
pub mod Sdp
pub mod Server
mod Tests
use ziot_rtp_bridge.Base.{
  ℕ, zero, suc, ◌+◌, ◌-◌, ◌<◌, ◌≡◌, Bool, true, false, ◌&&◌, ◌||◌, Option, none, some, List, [],
  ◌∷◌, ◌++◌, if◌then◌else◌, ◌==◌, ltb, Bytes, byte_at, be16_at, pack16, length, take, drop, ◌>>=◌,
  ascii, starts_with,
}

-- A channel and what was sent on it.
abbrev pub Packet : Type 0
Packet = ℕ × Bytes

-- `none` is the exception for a channel or a length that does not fit.
abbrev pub interleaved : Packet → Option Bytes
interleaved p =
    if ltb p.0 256
    then (pack16 (length p.1) >>= λ size. some (0x24 ∷ p.0 ∷ (size ++ p.1)))
    else none

-- A reader's socket: whether it still takes chunk, and the bytes that it was sent.
pub record Reader : Type 0 where
  pub name : ℕ
  pub open_sock : Bool
  pub sent : Bytes

pub record Session : Type 0 where
  pub readers : List Reader
  pub packets : ℕ
  pub bytes : ℕ
  pub buffer : List Packet

abbrev pub buffer_packets : ℕ
buffer_packets = 128

-- `reader.send(…)`; an `OSError` is passed over.
abbrev pub send : Bytes → Reader → Reader
send chunk r = if r.open_sock then record r { sent = r.sent ++ chunk } else r

abbrev pub send_each : Bytes → List Reader → List Reader
send_each chunk [] = []
send_each chunk (r ∷ rs) = send chunk r ∷ send_each chunk rs

-- `if len(self.buffer) > self.BUFFER_PACKETS: del self.buffer[0]`
abbrev pub trim : List Packet → List Packet
trim buffer = if ltb buffer_packets (length buffer) then drop 1 buffer else buffer

-- `publish`; a packet that cannot be framed raises before any reader is sent anything.
unfoldable pub publish : Packet → Session → Session
publish p s =
    let s' = record s {
      packets = s.packets + 1;
      bytes = s.bytes + length p.1;
      buffer = trim (s.buffer ++ p ∷ []);
    } in
    elim (interleaved p) [
      | none ↦ s'
      | some chunk ↦ record s' { readers = send_each chunk s.readers }
    ]

-- The bytes of packets that can all be framed.
unfoldable pub stream : List Packet → Bytes
stream [] = []
stream (p ∷ ps) = elim (interleaved p) [ none ↦ [] | some chunk ↦ chunk ++ stream ps ]

-- `flush_to`
unfoldable pub flush_to : Session → Reader → Reader
unfolding stream
flush_to s r = send (stream s.buffer) r

-- What follows the blank line of a head, once it has arrived.
unfoldable pub after_head : Bytes → Option Bytes
after_head [] = none
after_head (c ∷ cs) =
    let later = after_head cs in
    if starts_with (ascii "\r\n\r\n") (c ∷ cs) then some (drop 4 (c ∷ cs)) else later

-- One step on the bytes that have arrived: a packet is cut off, something else is skipped, or more has
-- to be read.
pub data Step : Type 0 where
  cut : Packet → Bytes → Step
  skipped : Bytes → Step
  waits : Step

unfoldable pub step : Bytes → Step
step [] = waits
step (b ∷ bs) =
    let s = b ∷ bs in
    let size = be16_at s 2 in
    if b == 0x24
    then if ltb (length s) 4 || ltb (length s) (4 + size)
      then waits
      else cut (byte_at s 1, take size (drop 4 s)) (drop (4 + size) s)
    else if b == b'R'
    then elim (after_head s) [ none ↦ waits | some rest ↦ skipped rest ]
    else skipped bs

-- `_pump_interleaved` on what has arrived. Each round takes a byte at least, so the length is fuel enough.
unfoldable pub pump : ℕ → Bytes → List Packet × Bytes
unfolding step
pump zero s = ([], s)
pump (suc fuel) s = elim (step s) [
  | cut p rest ↦ let (ps, end) = pump fuel rest in (p ∷ ps, end)
  | skipped rest ↦ pump fuel rest
  | waits ↦ ([], s)
]

unfoldable pub pump_interleaved : Bytes → List Packet × Bytes
unfolding pump
pump_interleaved s = pump (length s) s
