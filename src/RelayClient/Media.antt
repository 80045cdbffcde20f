-- ===== src/RelayClient/Media.antt =====
-- `_consume_interleaved`, `_read_response` and `pump` of RelayStream of ziot_rtp_bridge.py, on the bytes that have arrived.
-- Texts are bytes, and `int` is read as plain decimal digits. The keepalive requests that pump sends leave no trace.
pub mod Relayed
mod Tests
use ziot_rtp_bridge.Base.{
  ℕ, zero, suc, ◌+◌, Bool, true, false, not, ◌&&◌, ◌||◌, Option, none, some, List, [], ◌∷◌, ◌++◌,
  if◌then◌else◌, ◌==◌, ltb, Bytes, bytes_eq, byte_at, be16_at, length, take, drop, ascii,
  starts_with, words_from, before,
}
use ziot_rtp_bridge.Base.Dict.{Dict, lookup}
use ziot_rtp_bridge.Cloud.Row.{lstrip, rstrip}
use ziot_rtp_bridge.Relay.Server.{head_lines, nth_word, lower}
use ziot_rtp_bridge.RelayClient.Sdp.{Kind, to_int}

-- What is read from the front of the buffer: media of a channel, or a response, and what follows it; more has to
-- be read; a `ConnectionError`; or a `ValueError`. The last three have what `_buf` holds then, behind what was
-- taken from it.
pub data Taken : Type 0 where
  media : ℕ → Bytes → Bytes → Taken
  response : ℕ → Bytes → Taken
  short malformed raises : Bytes → Taken

-- `_consume_interleaved`, up to its dispatch.
abbrev pub consume_interleaved : Bytes → Taken
consume_interleaved s =
    let size = be16_at s 2 in
    if ltb (length s) 4
    then short s
    else if ltb (length s) (4 + size)
    then short (drop 4 s)
    else media (byte_at s 1) (take size (drop 4 s)) (drop (4 + size) s)

-- `_read_line_block`: the head, read so far, and what follows its blank line.
unfoldable pub line_block : Bytes → Bytes → Option (Bytes × Bytes)
line_block head [] = none
line_block head (c ∷ cs) =
    let later = line_block (head ++ c ∷ []) cs in
    if starts_with (ascii "\r\n\r\n") (c ∷ cs) then some (head, drop 3 cs) else later

-- `int(lines[0].split()[1])`
abbrev pub status_of : List Bytes → Option ℕ
status_of [] = none
status_of (l ∷ ls) = to_int (nth_word (words_from [] l) 1)

-- `hdrs.get("content-length")`: the last line of that name.
abbrev pub content_length : Option Bytes → List Bytes → Option Bytes
content_length found [] = found
content_length found (l ∷ ls) =
    let name = lower (rstrip (lstrip (before (b':' ∷ []) l))) in
    let value = rstrip (lstrip (drop (length (before (b':' ∷ []) l) + 1) l)) in
    content_length (if bytes_eq name (ascii "content-length") then some value else found) ls

abbrev pub header_lines : List Bytes → List Bytes
header_lines [] = []
header_lines (l ∷ ls) = ls

-- The body of a response, behind its head.
abbrev pub read_body : ℕ → Option Bytes → Bytes → Taken
read_body status none rest = response status rest
read_body status (some text) rest = elim (to_int text) [
  | none ↦ raises rest
  | some n ↦ if ltb (length rest) n then short rest else response status (drop n rest)
]

-- `_read_response`, where a response stands in front.
unfoldable pub read_response : Bytes → Taken
unfolding line_block head_lines words_from
read_response s = elim (line_block [] s) [
  | none ↦ short s
  | some (head, rest) ↦ elim (status_of (head_lines [] head)) [
    | none ↦ malformed rest
    | some status ↦ read_body status (content_length none (header_lines (head_lines [] head))) rest
  ]
]

-- A round of `pump`.
unfoldable pub take_one : Bytes → Taken
unfolding read_response
take_one [] = short []
take_one (b ∷ bs) = if b == b'$' then consume_interleaved (b ∷ bs) else read_response (b ∷ bs)

-- What goes to `ingest_rtp_media`.
abbrev pub dispatch : Dict Kind → ℕ → Bytes → List (Kind × Bytes)
dispatch channels channel packet = elim (lookup channel channels) [
  | none ↦ []
  | some kind ↦ if ltb (length packet) 12 then [] else (kind, packet) ∷ []
]

-- Why a pump stands: it reads on, or it has met one of the errors.
pub data Ending : Type 0 where
  reads_on ended escaped : Ending

-- `pump` on what has arrived, with what `_buf` holds at the end. Each round takes a byte at least, so the length is fuel enough.
unfoldable pub rounds : ℕ → Dict Kind → Bytes → List (Kind × Bytes) × Bytes × Ending
unfolding take_one
rounds zero channels s = ([], s, reads_on)
rounds (suc fuel) channels s = elim (take_one s) [
  | media channel packet rest ↦
      let (played, left, ending) = rounds fuel channels rest in
      (dispatch channels channel packet ++ played, left, ending)
  | response status rest ↦ rounds fuel channels rest
  | short left ↦ ([], left, reads_on)
  | malformed left ↦ ([], left, ended)
  | raises left ↦ ([], left, escaped)
]

unfoldable pub pump : Dict Kind → Bytes → List (Kind × Bytes) × Bytes × Ending
unfolding rounds
pump channels s = rounds (length s) channels s
