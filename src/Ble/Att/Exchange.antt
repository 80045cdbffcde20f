-- ===== src/Ble/Att/Exchange.antt =====
-- What `_att_attempt` sends, whatever the socket does.
use ziot_rtp_bridge.Base.{
  ℕ, suc, ◌+◌, ◌≤◌, ◌<◌, ◌≡◌, refl, sym, ap, subst, ◌∙◌, ◌⊎◌, inl, inr, Option, none, some, List,
  [], ◌∷◌, ◌++◌, map, append_assoc, append-nil, arith, if-cases, Bytes, length, take,
}
use ziot_rtp_bridge.Ble.{chunk20}
use ziot_rtp_bridge.Ble.Chunks.{written, chunk20_lem}
use ziot_rtp_bridge.Ble.Att.{
  Event, Note, heard, listen, Session, att_request, drain, Outcome, connect_failed, link_failed,
  subscription_rejected, write_rejected, all_sent, is_error, mtu_payload, cccd_payload,
  write_payload, finish, after_write, write_chunks, after_cccd, after_mtu, att_attempt,
}

abbrev pub write_pdu : Bytes → Bytes
write_pdu chunk = 0x12 ∷ write_payload chunk

-- The PDUs of a whole attempt: the MTU request, the subscription, and a write for each chunk.
abbrev pub plan : List Bytes → List Bytes
plan chunks = (0x02 ∷ mtu_payload) ∷ (0x12 ∷ cccd_payload) ∷ map write_pdu chunks

-- How many of the writes are sent, the first of them with a number.
abbrev pub AreWritten : ℕ → ℕ → Outcome → ℕ → Type 0
AreWritten first total connect_failed k = 1 ≤ 0
AreWritten first total link_failed k = k ≤ total
AreWritten first total subscription_rejected k = 1 ≤ 0
AreWritten first total (write_rejected i) k = (suc i ≡ first + k) × (1 ≤ k) × (k ≤ total)
AreWritten first total (all_sent _) k = k ≡ total

-- How many of the planned PDUs are sent.
abbrev pub AreSent : ℕ → Outcome → ℕ → Type 0
AreSent total connect_failed k = k ≡ 0
AreSent total link_failed k = k ≤ 2 + total
AreSent total subscription_rejected k = k ≡ 2
AreSent total (write_rejected i) k = (k ≡ 3 + i) × (i < total)
AreSent total (all_sent _) k = k ≡ 2 + total

-- The PDUs are the first ones planned, as many as the outcome says.
abbrev pub IsExchange : List Bytes → List Bytes × Outcome → Type 0
IsExchange chunks (sent, how) =
    (k : ℕ) × (sent ≡ take k (plan chunks)) × AreSent (length chunks) how k

-- A request is sent, or the socket had failed before.
abbrev IsRequested : Bytes → List Bytes → Session × Option Bytes → Type 0
IsRequested p before (s, none) = (s.sent ≡ before) ⊎ (s.sent ≡ before ++ p ∷ [])
IsRequested p before (s, some _) = s.sent ≡ before ++ p ∷ []

heard-IsRequested :
    (p : Bytes) (before : List Bytes) (s : Session) (o : Option (Bytes × List Note × List Event))
    → s.sent ≡ before ++ p ∷ []
    → IsRequested p before (heard s o)
heard-IsRequested p before s none h = inr h
heard-IsRequested p before s (some _) h = h

request_on :
    (opcode : ℕ) (payload : Bytes) (sent : List Bytes) (notes : List Note) (events : List Event)
    → IsRequested
        (opcode ∷ payload)
        sent
        (att_request opcode payload (record { sent = sent; notes = notes; events = events }))
unfolding att_request
request_on opcode payload sent notes [] = inl refl
request_on opcode payload sent notes (e ∷ es) = heard-IsRequested _ _ _ (listen (e ∷ es) notes) refl

att_request-IsRequested :
    (opcode : ℕ) (payload : Bytes) (s : Session)
    → IsRequested (opcode ∷ payload) s.sent (att_request opcode payload s)
att_request-IsRequested opcode payload s = request_on opcode payload s.sent s.notes s.events

-- The first writes of a list are added to what was sent before.
abbrev IsWriting : List Bytes → ℕ → List Bytes → List Bytes × Outcome → Type 0
IsWriting before first chunks (sent, how) =
    (k : ℕ) × (sent ≡ before ++ take k (map write_pdu chunks))
    × AreWritten first (length chunks) how k

finish-IsWriting :
    (i : ℕ) (s : Session) (o : Option (List Note)) → IsWriting s.sent i [] (finish s o)
finish-IsWriting i s none = (0, sym (append-nil s.sent), omega arith)
finish-IsWriting i s (some _) = (0, sym (append-nil s.sent), refl)

counted_next :
    (i n k : ℕ) (how : Outcome) → AreWritten (suc i) n how k → AreWritten i (suc n) how (suc k)
counted_next i n k connect_failed h = h
counted_next i n k link_failed h = omega arith
counted_next i n k subscription_rejected h = h
counted_next i n k (write_rejected j) (e, h, g) = (omega arith, omega arith, omega arith)
counted_next i n k (all_sent _) h = omega arith

after_write-IsWriting :
    (i : ℕ) (chunk : Bytes) (chunks before : List Bytes) (r : Session × Option Bytes)
    (rest : List Bytes × Outcome)
    → IsRequested (write_pdu chunk) before r
    → IsWriting r.0.sent (suc i) chunks rest
    → IsWriting before i (chunk ∷ chunks) (after_write i rest r)
after_write-IsWriting i chunk chunks before (s, none) rest (inl h) g =
    (0, h ∙ sym (append-nil before), omega arith)
after_write-IsWriting i chunk chunks before (s, none) rest (inr h) g = (1, h, omega arith)
after_write-IsWriting i chunk chunks before (s, some p) rest h (k, e, w) =
    if-cases (IsWriting before i (chunk ∷ chunks)) (is_error p)
      (λ _. (1, h, (omega arith, omega arith, omega arith)))
      (λ _. (
        suc k,
        e
            ∙ ap (λ (xs : List Bytes). xs ++ take k (map write_pdu chunks)) h
            ∙ append_assoc before (write_pdu chunk ∷ []) (take k (map write_pdu chunks)),
        counted_next i (length chunks) k rest.1 w,
      ))

write_chunks-IsWriting :
    (i : ℕ) (chunks : List Bytes) (s : Session)
    → IsWriting s.sent i chunks (write_chunks i chunks s)
unfolding write_chunks
write_chunks-IsWriting i [] s = finish-IsWriting i s (drain s.events s.notes)
write_chunks-IsWriting i (chunk ∷ chunks) s =
    let r = att_request 0x12 (write_payload chunk) s in
    after_write-IsWriting i chunk chunks s.sent r (write_chunks (suc i) chunks r.0)
      (att_request-IsRequested 0x12 (write_payload chunk) s)
      (write_chunks-IsWriting (suc i) chunks r.0)

counted_after : (n k : ℕ) (how : Outcome) → AreWritten 0 n how k → AreSent n how (suc (suc k))
counted_after n k connect_failed h = absurd (omega arith)
counted_after n k link_failed h = omega arith
counted_after n k subscription_rejected h = absurd (omega arith)
counted_after n k (write_rejected i) (e, h, g) = (omega arith, omega arith)
counted_after n k (all_sent _) h = omega arith

abbrev mtu_sent : List Bytes
mtu_sent = (0x02 ∷ mtu_payload) ∷ []

abbrev both_sent : List Bytes
both_sent = (0x02 ∷ mtu_payload) ∷ (0x12 ∷ cccd_payload) ∷ []

after_cccd-IsExchange :
    (chunks : List Bytes) (r : Session × Option Bytes)
    → IsRequested (0x12 ∷ cccd_payload) mtu_sent r
    → IsExchange chunks (after_cccd chunks r)
after_cccd-IsExchange chunks (s, none) (inl h) = (1, h, omega arith)
after_cccd-IsExchange chunks (s, none) (inr h) = (2, h, omega arith)
after_cccd-IsExchange chunks (s, some p) h =
    let (k, e, w) = write_chunks-IsWriting 0 chunks s in
    if-cases (IsExchange chunks) (is_error p) (λ _. (2, h, refl))
      (λ _. (
        suc (suc k),
        e ∙ ap (λ (xs : List Bytes). xs ++ take k (map write_pdu chunks)) h,
        counted_after (length chunks) k (write_chunks 0 chunks s).1 w,
      ))

after_mtu-IsExchange :
    (chunks : List Bytes) (r : Session × Option Bytes)
    → IsRequested (0x02 ∷ mtu_payload) [] r
    → IsExchange chunks (after_mtu chunks r)
after_mtu-IsExchange chunks (s, none) (inl h) = (0, h, omega arith)
after_mtu-IsExchange chunks (s, none) (inr h) = (1, h, omega arith)
after_mtu-IsExchange chunks (s, some _) h =
    after_cccd-IsExchange chunks (att_request 0x12 cccd_payload s) (
      subst
        (λ (xs : List Bytes).
          IsRequested (0x12 ∷ cccd_payload) xs (att_request 0x12 cccd_payload s))
        h (att_request-IsRequested 0x12 cccd_payload s))

-- Whatever the socket does, the attempt sends the first PDUs of its plan: the MTU request, the
-- subscription, and a write to handle 8 for each chunk of the frame in order, whose bodies together are the
-- frame. It sends all of them when it returns `'sent'`, none when it cannot connect, two when the
-- subscription is rejected, and the writes up to the rejected one when a write is.
pub att_attempt-IsExchange :
    (socket : Option (List Event)) (frame : Bytes)
    → IsExchange (chunk20 frame) (att_attempt socket (chunk20 frame))
      × (written (chunk20 frame) ≡ frame)
unfolding att_attempt
att_attempt-IsExchange none frame = ((0, refl, refl), (chunk20_lem frame).0)
att_attempt-IsExchange (some events) frame =
    let s : Session = record { sent = []; notes = []; events = events } in
    (
      after_mtu-IsExchange (chunk20 frame) (att_request 0x02 mtu_payload s)
          (att_request-IsRequested 0x02 mtu_payload s),
      (chunk20_lem frame).0,
    )
