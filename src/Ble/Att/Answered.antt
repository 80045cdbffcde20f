-- ===== src/Ble/Att/Answered.antt =====
-- `_att_attempt` with a camera that answers, whose notifications come at any place of the exchange.
use ziot_rtp_bridge.Base.{
  ℕ, suc, ◌<◌, ◌≡◌, refl, sym, ap, ap₂, ◌∙◌, Bool, true, false, ◌||◌, Option, none, some, List, [],
  ◌∷◌, ◌++◌, if◌then◌else◌, ◌==◌, map, append_assoc, append-nil, arith, Bytes, length,
}
use ziot_rtp_bridge.Ble.{packet, chunk20, parse_provision_response}
use ziot_rtp_bridge.Ble.Response.{answer, parse_provision_response-packet}
use ziot_rtp_bridge.Ble.Att.{
  Event, pdu, deadline, Note, is_note, note, att_is_peer_mtu_request, is_error, mtu_payload,
  cccd_payload, Session, heard, listen, att_request, drain, values, Reply, reply_of, parsed,
  Outcome, all_sent, write_payload, finish, after_write, write_chunks, after_mtu, after_cccd,
  att_attempt,
}
use ziot_rtp_bridge.Ble.Att.Exchange.{write_pdu, plan}

-- `_att_request` goes on after such a PDU.
abbrev pub goes_on : Bytes → Bool
goes_on [] = true
goes_on (b ∷ bs) = is_note (b ∷ bs) || att_is_peer_mtu_request (b ∷ bs)

abbrev pub GoOn : List Bytes → Type 0
GoOn [] = Unit
GoOn (p ∷ ps) = (goes_on p ≡ true) × GoOn ps

abbrev pub notes_of : List Bytes → List Note
notes_of [] = []
notes_of (p ∷ ps) = if is_note p then note p ∷ notes_of ps else notes_of ps

abbrev pub pdus : List Bytes → List Event → List Event
pdus [] es = es
pdus (p ∷ ps) es = pdu p ∷ pdus ps es

-- What is read after a request: what comes first, and the response, if there is one in time.
pub record Turn : Type 0 where
  pub first : List Bytes
  pub response : Option Bytes

abbrev pub response_event : Option Bytes → Event
response_event none = deadline
response_event (some p) = pdu p

abbrev pub response_bytes : Option Bytes → Bytes
response_bytes none = []
response_bytes (some p) = p

abbrev pub IsResponse : Option Bytes → Type 0
IsResponse none = Unit
IsResponse (some p) = (goes_on p ≡ false) × (is_error p ≡ false)

abbrev pub IsTurn : Turn → Type 0
IsTurn t = GoOn t.first × IsResponse t.response

abbrev pub AreTurns : List Turn → Type 0
AreTurns [] = Unit
AreTurns (t ∷ ts) = IsTurn t × AreTurns ts

abbrev pub turn : Turn → List Event → List Event
turn t es = pdus t.first (response_event t.response ∷ es)

-- All that is read: the turns, and what comes until the time is over.
abbrev pub script : List Turn → List Bytes → List Event
script [] last = pdus last (deadline ∷ [])
script (t ∷ ts) last = turn t (script ts last)

-- The notifications among it, in order.
abbrev pub notified : List Turn → List Bytes → List Note
notified [] last = notes_of last
notified (t ∷ ts) last = notes_of t.first ++ notified ts last

listen-pdus :
    (ps : List Bytes) (es : List Event) (notes : List Note)
    → GoOn ps
    → listen (pdus ps es) notes ≡ listen es (notes ++ notes_of ps)
unfolding listen
listen-pdus [] es notes h = ap (listen es) (sym (append-nil notes))
listen-pdus ([] ∷ ps) es notes (g, h) = listen-pdus ps es notes h
listen-pdus ((b ∷ bs) ∷ ps) es notes (g, h) =
    let noted = listen-pdus ps es (notes ++ note (b ∷ bs) ∷ []) h in
    let skipped = listen-pdus ps es notes h in
    let joined = append_assoc notes (note (b ∷ bs) ∷ []) (notes_of ps) in ground arith

drain-pdus :
    (ps : List Bytes) (es : List Event) (notes : List Note)
    → drain (pdus ps (deadline ∷ es)) notes ≡ some (notes ++ notes_of ps)
unfolding drain
drain-pdus [] es notes = ap (λ (ns : List Note). some ns) (sym (append-nil notes))
drain-pdus (p ∷ ps) es notes =
    let noted = drain-pdus ps es (notes ++ note p ∷ []) in
    let skipped = drain-pdus ps es notes in
    let joined = append_assoc notes (note p ∷ []) (notes_of ps) in ground arith

listen-response :
    (o : Option Bytes) (es : List Event) (notes : List Note)
    → IsResponse o
    → listen (response_event o ∷ es) notes ≡ some (response_bytes o, notes, es)
unfolding listen
listen-response none es notes h = refl
listen-response (some []) es notes (g, h) = absurd (ground arith)
listen-response (some (b ∷ bs)) es notes (g, h) = ground arith

not_error : (o : Option Bytes) → IsResponse o → is_error (response_bytes o) ≡ false
not_error none h = refl
not_error (some p) h = h.1

abbrev session : List Bytes → List Note → List Event → Session
session sent notes events = record { sent = sent; notes = notes; events = events }

listened :
    (ps sent : List Bytes) (p : Bytes) (opcode : ℕ) (payload : Bytes) (notes : List Note)
    (e : Event) (es later : List Event) (now : List Note)
    → listen (pdus ps (e ∷ es)) notes ≡ some (p, now, later)
    → att_request opcode payload (session sent notes (pdus ps (e ∷ es)))
      ≡ (session (sent ++ (opcode ∷ payload) ∷ []) now later, some p)
unfolding att_request
listened [] sent p opcode payload notes e es later now h = ap (heard _) h
listened (q ∷ ps) sent p opcode payload notes e es later now h = ap (heard _) h

att_request-turn :
    (opcode : ℕ) (payload : Bytes) (sent : List Bytes) (notes : List Note) (t : Turn)
    (es : List Event)
    → IsTurn t
    → att_request opcode payload (session sent notes (turn t es)) ≡ (
      session (sent ++ (opcode ∷ payload) ∷ []) (notes ++ notes_of t.first) es,
      some (response_bytes t.response),
    )
att_request-turn opcode payload sent notes t es (g, r) =
    listened t.first sent (response_bytes t.response) opcode payload notes
      (response_event t.response) es es (notes ++ notes_of t.first)
      (listen-pdus t.first (response_event t.response ∷ es) notes g
        ∙ listen-response t.response es (notes ++ notes_of t.first) r)

after_write-accepted :
    (i : ℕ) (p : Bytes) (s : Session) (rest : List Bytes × Outcome)
    → is_error p ≡ false
    → after_write i rest (s, some p) ≡ rest
after_write-accepted i p s rest h = ground arith

write_chunks-answered :
    (i : ℕ) (chunks sent : List Bytes) (notes : List Note) (ts : List Turn) (last : List Bytes)
    → AreTurns ts
    → length ts ≡ length chunks
    → write_chunks i chunks (session sent notes (script ts last))
      ≡ (sent ++ map write_pdu chunks, all_sent (reply_of (values (notes ++ notified ts last))))
unfolding write_chunks
write_chunks-answered i [] sent notes [] last h e =
    ap (finish (session sent notes (pdus last (deadline ∷ [])))) (drain-pdus last [] notes)
    ∙ ap (λ (xs : List Bytes). (xs, all_sent (reply_of (values (notes ++ notes_of last)))))
        (sym (append-nil sent))
write_chunks-answered i [] sent notes (t ∷ ts) last h e = absurd (omega arith)
write_chunks-answered i (chunk ∷ chunks) sent notes [] last h e = absurd (omega arith)
write_chunks-answered i (chunk ∷ chunks) sent notes (t ∷ ts) last (h, hs) e =
    let now = sent ++ write_pdu chunk ∷ [] in
    let noted = notes ++ notes_of t.first in
    let later = script ts last in
    let rest = write_chunks (suc i) chunks (session now noted later) in
    ap (λ (r : Session × Option Bytes). after_write i (write_chunks (suc i) chunks r.0) r)
      (att_request-turn 0x12 (write_payload chunk) sent notes t later h)
    ∙ after_write-accepted i (response_bytes t.response) (session now noted later) rest
        (not_error t.response h.1)
    ∙ write_chunks-answered (suc i) chunks now noted ts last hs (omega arith)
    ∙ ap₂ (λ (xs : List Bytes) (ns : List Note). (xs, all_sent (reply_of (values ns))))
        (append_assoc sent (write_pdu chunk ∷ []) (map write_pdu chunks))
        (append_assoc notes (notes_of t.first) (notified ts last))

after_cccd-accepted :
    (chunks : List Bytes) (p : Bytes) (s : Session)
    → is_error p ≡ false
    → after_cccd chunks (s, some p) ≡ write_chunks 0 chunks s
after_cccd-accepted chunks p s h = ground arith

-- A camera that does not reject a request, and that takes as many of them as there are chunks, gets the
-- whole plan of PDUs, and what it notifies, wherever it does so, is read as one byte string in order.
att_attempt_answered :
    (chunks : List Bytes) (mtu cccd : Turn) (ts : List Turn) (last : List Bytes)
    → IsTurn mtu
    → IsTurn cccd
    → AreTurns ts
    → length ts ≡ length chunks
    → att_attempt (some (turn mtu (turn cccd (script ts last)))) chunks
      ≡ (plan chunks, all_sent (reply_of (values (notified (mtu ∷ cccd ∷ ts) last))))
unfolding att_attempt
att_attempt_answered chunks mtu cccd ts last m c h e =
    let first = notes_of mtu.first in
    let second = first ++ notes_of cccd.first in
    let later = script ts last in
    let opened = (0x02 ∷ mtu_payload) ∷ [] in
    let asked = opened ++ (0x12 ∷ cccd_payload) ∷ [] in
    ap (after_mtu chunks) (att_request-turn 0x02 mtu_payload [] [] mtu (turn cccd later) m)
    ∙ ap (after_cccd chunks) (att_request-turn 0x12 cccd_payload opened first cccd later c)
    ∙ after_cccd-accepted chunks (response_bytes cccd.response) (session asked second later)
        (not_error cccd.response c.1)
    ∙ write_chunks-answered 0 chunks asked second ts last h e
    ∙ ap (λ (ns : List Note). (plan chunks, all_sent (reply_of (values ns))))
        (append_assoc first (notes_of cccd.first) (notified ts last))

reply_of-packet :
    (said : Bytes) (seq status : ℕ) (uid : Bytes)
    → said ≡ packet seq (answer status uid)
    → length uid < 256
    → reply_of said ≡ parsed ((status == 0), uid)
unfolding packet
reply_of-packet [] seq status uid h small = absurd (ground (arith, h))
reply_of-packet (b ∷ bs) seq status uid h small =
    let read =
      ap parse_provision_response h ∙ parse_provision_response-packet seq status uid small in
    ground (arith, read)

-- A camera that does not reject the MTU request, the subscription or one of the writes, be it silent, and
-- whose notifications, at whatever places among its responses, timeouts and MTU requests, are together its
-- answer frame: the attempt sends every planned PDU and returns `'sent'`, and the reply printed is the
-- status and the uid of that frame.
pub att_attempt-answer :
    (frame : Bytes) (mtu cccd : Turn) (ts : List Turn) (last : List Bytes) (seq status : ℕ)
    (uid : Bytes)
    → IsTurn mtu
    → IsTurn cccd
    → AreTurns ts
    → length ts ≡ length (chunk20 frame)
    → values (notified (mtu ∷ cccd ∷ ts) last) ≡ packet seq (answer status uid)
    → length uid < 256
    → att_attempt (some (turn mtu (turn cccd (script ts last)))) (chunk20 frame)
      ≡ (plan (chunk20 frame), all_sent (parsed ((status == 0), uid)))
att_attempt-answer frame mtu cccd ts last seq status uid m c h e said small =
    att_attempt_answered (chunk20 frame) mtu cccd ts last m c h e
    ∙ ap (λ (r : Reply). (plan (chunk20 frame), all_sent r))
        (reply_of-packet (values (notified (mtu ∷ cccd ∷ ts) last)) seq status uid said small)
