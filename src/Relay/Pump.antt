-- ===== src/Relay/Pump.antt =====
-- `_pump_interleaved` on a stream of packets.
use ziot_rtp_bridge.Base.{
  ℕ, zero, suc, ◌+◌, ◌*◌, ◌/◌, ◌%◌, ◌≤◌, ◌<◌, ◌≡◌, inl, inr, refl, some, List, [], ◌∷◌, ◌++◌, arith,
  Bytes, be16_at, length, drop, length-append, length-drop, take-append, drop-append, append_assoc,
  Option-cases,
}
use ziot_rtp_bridge.Relay.{
  Packet, interleaved, stream, after_head, Step, cut, skipped, waits, step, pump, pump_interleaved,
}

-- Every packet has a channel and a length that fit the frame.
abbrev pub AreFramable : List Packet → Type 0
AreFramable [] = Unit
AreFramable (p ∷ ps) = (p.0 < 256) × (length p.1 < 65536) × AreFramable ps

abbrev pub framed : Packet → Bytes
framed p = 0x24 ∷ p.0 ∷ (length p.1 / 256 % 256) ∷ (length p.1 % 256) ∷ p.1

pub interleaved-framed :
    (p : Packet) → p.0 < 256 → length p.1 < 65536 → interleaved p ≡ some (framed p)
interleaved-framed p h k = ground arith

step-framed :
    (p : Packet) (rest : Bytes) → length p.1 < 65536 → step (framed p ++ rest) ≡ cut p rest
unfolding step
step-framed (c, body) rest k =
    let n = length body / 256 % 256 * 256 + length body % 256 in
    let size : n ≡ length body = omega arith in
    let whole = length-append body rest in
    let taken = take-append n body rest size in
    let gone : drop (4 + n) (framed (c, body) ++ rest) ≡ rest =
      drop-append (4 + n) (framed (c, body)) rest (omega arith) in
    ground arith

pump-stream :
    (fuel : ℕ) (ps : List Packet) (part : Bytes)
    → AreFramable ps
    → step part ≡ waits
    → length ps ≤ fuel
    → pump fuel (stream ps ++ part) ≡ (ps, part)
unfolding pump stream
pump-stream zero [] part v w h = refl
pump-stream (suc fuel) [] part v w h = ground arith
pump-stream zero (p ∷ ps) part v w h = absurd (omega arith)
pump-stream (suc fuel) (p ∷ ps) part v w h =
    let first = interleaved-framed p v.0 v.1 in
    let assoc = append_assoc (framed p) (stream ps) part in
    let cuts = step-framed p (stream ps ++ part) v.1 in
    let rest = pump-stream fuel ps part v.2 w (omega arith) in ground arith

pub length-stream : (ps : List Packet) → AreFramable ps → length ps ≤ length (stream ps)
unfolding stream
length-stream [] v = omega arith
length-stream (p ∷ ps) v =
    let first = interleaved-framed p v.0 v.1 in
    let rest = length-stream ps v.2 in
    let sum = length-append (framed p) (stream ps) in ground arith

-- The pump reads from the frames of any packets exactly these packets, in order, and keeps what has
-- arrived of the next one.
pub pump_interleaved-stream :
    (ps : List Packet) (part : Bytes)
    → AreFramable ps
    → step part ≡ waits
    → pump_interleaved (stream ps ++ part) ≡ (ps, part)
unfolding pump_interleaved
pump_interleaved-stream ps part v w =
    let long = length-stream ps v in
    let sum = length-append (stream ps) part in
    pump-stream (length (stream ps ++ part)) ps part v w (omega arith)

after_head_shrinks : (s rest : Bytes) → after_head s ≡ some rest → length rest < length s
unfolding after_head
after_head_shrinks [] rest e = cc
after_head_shrinks (c ∷ cs) rest e =
    let later = after_head_shrinks cs rest in let gone = length-drop 4 (c ∷ cs) in ground arith

-- What a step leaves is shorter than what it was given.
abbrev Shrinks : ℕ → Step → Type 0
Shrinks n (cut p rest) = length rest < n
Shrinks n (skipped rest) = length rest < n
Shrinks n waits = Unit

step-Shrinks : (s : Bytes) → Shrinks (length s) (step s)
unfolding step
step-Shrinks [] = tt
step-Shrinks (b ∷ bs) =
    let gone = length-drop (4 + be16_at (b ∷ bs) 2) (b ∷ bs) in
    let behind = after_head_shrinks (b ∷ bs) in
    elim (Option-cases (after_head (b ∷ bs))) [
      | inl e ↦ ground arith
      | inr (rest, e) ↦ let shorter = behind rest e in ground arith
    ]

-- The round that a step starts, with the rounds behind it.
abbrev go_on : (Bytes → List Packet × Bytes) → Bytes → Step → List Packet × Bytes
go_on later s (cut p rest) = (p ∷ (later rest).0, (later rest).1)
go_on later s (skipped rest) = later rest
go_on later s waits = ([], s)

pump-go_on : (fuel : ℕ) (s : Bytes) → pump (suc fuel) s ≡ go_on (pump fuel) s (step s)
unfolding pump
pump-go_on fuel s = ground arith

go_on_waits :
    (later : Bytes → List Packet × Bytes) (s : Bytes) (r : Step)
    → step s ≡ r
    → ((rest : Bytes) → length rest < length s → step (later rest).1 ≡ waits)
    → Shrinks (length s) r
    → step (go_on later s r).1 ≡ waits
go_on_waits later s (cut p rest) e all shorter = all rest shorter
go_on_waits later s (skipped rest) e all shorter = all rest shorter
go_on_waits later s waits e all shorter = e

pump_waits : (fuel : ℕ) (s : Bytes) → length s ≤ fuel → step (pump fuel s).1 ≡ waits
unfolding pump step
pump_waits zero [] h = refl
pump_waits zero (b ∷ bs) h = absurd (omega arith)
pump_waits (suc fuel) s h = rw (pump-go_on fuel s) (
    go_on_waits (pump fuel) s (step s) refl (λ rest shorter. pump_waits fuel rest (omega arith))
      (step-Shrinks s))

-- The pump stops only where more has to be read: what it keeps holds no whole packet at its front.
pub pump_interleaved_waits : (s : Bytes) → step (pump_interleaved s).1 ≡ waits
unfolding pump_interleaved
pump_interleaved_waits s = pump_waits (length s) s (omega arith)
