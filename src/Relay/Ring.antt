-- ===== src/Relay/Ring.antt =====
-- `publish` and `flush_to` of a session.
use ziot_rtp_bridge.Base.{
  ℕ, zero, suc, ◌-◌, ◌≤◌, ◌≡◌, inl, inr, refl, ap, ◌∙◌, true, List, [], ◌∷◌, ◌++◌, ltb, arith,
  length, drop, length-append, length-drop, append_assoc, append-nil, Bool-cases,
}
use ziot_rtp_bridge.Fanout.Newest.{newest}
use ziot_rtp_bridge.Relay.{
  Packet, Reader, Session, trim, publish, stream, flush_to, pump_interleaved, step,
}
use ziot_rtp_bridge.Relay.Pump.{AreFramable, pump_interleaved-stream}

drop-append_le : (n : ℕ) (xs ys : List Packet) → n ≤ length xs → drop n (xs ++ ys) ≡ drop n xs ++ ys
drop-append_le zero xs ys h = refl
drop-append_le (suc n) [] ys h = absurd (omega arith)
drop-append_le (suc n) (x ∷ xs) ys h = drop-append_le n xs ys (omega arith)

drop_one : (n : ℕ) (xs : List Packet) → drop 1 (drop n xs) ≡ drop (suc n) xs
drop_one zero [] = refl
drop_one zero (x ∷ xs) = refl
drop_one (suc n) [] = refl
drop_one (suc n) (x ∷ xs) = drop_one n xs

trim-newest :
    (seen : List Packet) (p : Packet)
    → trim (newest 128 seen ++ p ∷ []) ≡ newest 128 (seen ++ p ∷ [])
trim-newest seen p =
    let kept = length-drop (length seen - 128) seen in
    let longer = length-append (newest 128 seen) (p ∷ []) in
    let all = length-append seen (p ∷ []) in
    let moved = drop-append_le (length seen - 128) seen (p ∷ []) (omega arith) in
    let one = drop_one (length seen - 128) (seen ++ p ∷ []) in
    elim (Bool-cases (ltb 128 (length (newest 128 seen ++ p ∷ [])))) [
      | inl full ↦
          let next : suc (length seen - 128) ≡ length (seen ++ p ∷ []) - 128 = ground arith in
          ground arith
      | inr fits ↦
          let same : length seen - 128 ≡ length (seen ++ p ∷ []) - 128 = ground arith in
          ground arith
    ]

abbrev pub publish_all : List Packet → Session → Session
publish_all [] s = s
publish_all (p ∷ ps) s = publish_all ps (publish p s)

publish_buffer : (p : Packet) (s : Session) → (publish p s).buffer ≡ trim (s.buffer ++ p ∷ [])
unfolding publish
publish_buffer p s = ground arith

pub publish_all-newest :
    (ps seen : List Packet) (s : Session)
    → s.buffer ≡ newest 128 seen
    → (publish_all ps s).buffer ≡ newest 128 (seen ++ ps)
publish_all-newest [] seen s e = rw append-nil e
publish_all-newest (p ∷ ps) seen s e =
    publish_all-newest ps (seen ++ p ∷ []) (publish p s)
      (publish_buffer p s ∙ ap (λ b. trim (b ++ p ∷ [])) e ∙ trim-newest seen p)
    ∙ ap (newest 128) (append_assoc seen (p ∷ []) ps)

pub AreFramable-drop : (n : ℕ) (ps : List Packet) → AreFramable ps → AreFramable (drop n ps)
AreFramable-drop zero ps v = v
AreFramable-drop (suc n) [] v = tt
AreFramable-drop (suc n) (p ∷ ps) v = AreFramable-drop n ps v.2

-- A reader that joins a session which has published any packets is sent frames from which a pump reads
-- exactly the newest 128 of these, in order.
pub flush_to-publish_all :
    (ps : List Packet) (s : Session) (r : Reader)
    → AreFramable ps
    → s.buffer ≡ []
    → r.open_sock ≡ true
    → r.sent ≡ []
    → pump_interleaved (flush_to (publish_all ps s) r).sent ≡ (newest 128 ps, [])
unfolding flush_to step
flush_to-publish_all ps s r v empty takes none_yet =
    let kept = publish_all-newest ps [] s empty in
    let framable = AreFramable-drop (length ps - 128) ps v in
    let chunk = ap stream kept in
    let padded = append-nil (stream (newest 128 ps)) in
    let sent : (flush_to (publish_all ps s) r).sent ≡ stream (newest 128 ps) ++ [] = ground arith in
    ap pump_interleaved sent ∙ pump_interleaved-stream (newest 128 ps) [] framable refl
