-- ===== src/RelayClient/Media/Relayed.antt =====
-- What the relay sends a reader, as its client reads it.
use ziot_rtp_bridge.Base.{
  ℕ, zero, suc, ◌+◌, ◌-◌, ◌*◌, ◌/◌, ◌%◌, ◌≤◌, ◌<◌, ◌≡◌, ◌∙◌, ap, sym, refl, true, List, [], ◌∷◌,
  ◌++◌, arith, Bytes, length, drop, length-append, take-append, drop-append, append_assoc,
}
use ziot_rtp_bridge.Base.Dict.{Dict}
use ziot_rtp_bridge.Fanout.Newest.{newest}
use ziot_rtp_bridge.Relay.{Packet, stream, Reader, Session, flush_to}
use ziot_rtp_bridge.Relay.Pump.{AreFramable, framed, interleaved-framed, length-stream}
use ziot_rtp_bridge.Relay.Ring.{publish_all, publish_all-newest, AreFramable-drop}
use ziot_rtp_bridge.RelayClient.Media.{media, take_one, dispatch, reads_on, rounds, pump}
use ziot_rtp_bridge.RelayClient.Sdp.{Kind}

-- The media that packets bring, on the channels that were set up.
abbrev pub played : Dict Kind → List Packet → List (Kind × Bytes)
played channels [] = []
played channels (p ∷ ps) = dispatch channels p.0 p.1 ++ played channels ps

take_one-framed :
    (channel : ℕ) (body rest : Bytes)
    → length body < 65536
    → take_one (framed (channel, body) ++ rest) ≡ media channel body rest
unfolding take_one
take_one-framed channel body rest k =
    let n = length body / 256 % 256 * 256 + length body % 256 in
    let size : n ≡ length body = omega arith in
    let whole = length-append body rest in
    let taken = take-append n body rest size in
    let gone : drop (4 + n) (framed (channel, body) ++ rest) ≡ rest =
      drop-append (4 + n) (framed (channel, body)) rest (omega arith) in
    ground arith

rounds-stream :
    (fuel : ℕ) (channels : Dict Kind) (ps : List Packet)
    → AreFramable ps
    → length ps ≤ fuel
    → rounds fuel channels (stream ps) ≡ (played channels ps, [], reads_on)
unfolding rounds stream take_one
rounds-stream zero channels [] v h = refl
rounds-stream (suc fuel) channels [] v h = refl
rounds-stream zero channels (p ∷ ps) v h = absurd (omega arith)
rounds-stream (suc fuel) channels (p ∷ ps) v h =
    let first = interleaved-framed p v.0 v.1 in
    let cuts = take_one-framed p.0 p.1 (stream ps) v.1 in
    let rest = rounds-stream fuel channels ps v.2 (omega arith) in ground arith

-- From the frames of any packets the client takes exactly the packets.
pump-stream :
    (channels : Dict Kind) (ps : List Packet)
    → AreFramable ps
    → pump channels (stream ps) ≡ (played channels ps, [], reads_on)
unfolding pump
pump-stream channels ps v =
    let long = length-stream ps v in rounds-stream (length (stream ps)) channels ps v (omega arith)

stream-append : (ps qs : List Packet) → AreFramable ps → stream (ps ++ qs) ≡ stream ps ++ stream qs
unfolding stream
stream-append [] qs v = refl
stream-append (p ∷ ps) qs (a, b, v) =
    let first = interleaved-framed p a b in
    let rest = stream-append ps qs v in
    let assoc = append_assoc (framed p) (stream ps) (stream qs) in ground arith

AreFramable-append :
    (ps qs : List Packet) → AreFramable ps → AreFramable qs → AreFramable (ps ++ qs)
AreFramable-append [] qs v w = w
AreFramable-append (p ∷ ps) qs (a, b, v) w = (a, b, AreFramable-append ps qs v w)

-- What PLAY sends a reader behind its answer: the code flushes the buffer twice.
abbrev pub flush_twice : Session → Reader → Reader
flush_twice s r = flush_to s (flush_to s r)

-- The client of a reader that joins a session, which has published any packets that can be framed since it
-- began empty, plays exactly the newest 128 of these that are on its channels and have an RTP header's
-- length, in order, and then the same ones again, since PLAY flushes the buffer twice, and goes on. Nothing is
-- published between the two.
pub pump-flush_twice :
    (channels : Dict Kind) (ps : List Packet) (s : Session) (r : Reader)
    → AreFramable ps
    → s.buffer ≡ []
    → r.open_sock ≡ true
    → r.sent ≡ []
    → pump channels (flush_twice (publish_all ps s) r).sent
      ≡ (played channels (newest 128 ps ++ newest 128 ps), [], reads_on)
unfolding flush_to
pump-flush_twice channels ps s r v empty takes none_yet =
    let kept = publish_all-newest ps [] s empty in
    let framable = AreFramable-drop (length ps - 128) ps v in
    let chunk = ap stream kept in
    let two = stream-append (newest 128 ps) (newest 128 ps) framable in
    let sent : (flush_twice (publish_all ps s) r).sent
        ≡ stream (newest 128 ps) ++ stream (newest 128 ps) =
      ground arith in
    ap (pump channels) (sent ∙ sym two)
    ∙ pump-stream channels (newest 128 ps ++ newest 128 ps)
        (AreFramable-append (newest 128 ps) (newest 128 ps) framable framable)
