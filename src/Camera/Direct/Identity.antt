-- ===== src/Camera/Direct/Identity.antt =====
-- Whose packets the direct path takes.
use ziot_rtp_bridge.Base.{ℕ, ◌≡◌, ◌≢◌, true, false, some, [], arith, Bytes, be32_at}
use ziot_rtp_bridge.Camera.Direct.{
  Media, video, audio, Receiver, ingest_rtp_media, check_ssrc, handle_direct_packet,
}
use ziot_rtp_bridge.Camera.State.{Addr}

ingest_rtp_media_identity :
    (now : ℕ) (kind : Media) (packet : Bytes) (r : Receiver)
    → ((ingest_rtp_media now kind packet r).0.learned_ssrc ≡ r.learned_ssrc)
      × ((ingest_rtp_media now kind packet r).0.foreign_ssrc ≡ r.foreign_ssrc)
      × ((ingest_rtp_media now kind packet r).0.camera.media_source ≡ r.camera.media_source)
unfolding ingest_rtp_media
ingest_rtp_media_identity now video packet r = ground arith
ingest_rtp_media_identity now audio packet r = ground arith

-- With a cloud, a packet whose SSRC is not the camera's is refused: nothing is played, nothing of the
-- camera or of the frames in progress changes, and at most the count of foreign packets does.
pub handle_direct_packet_foreign :
    (now sock : ℕ) (source : Addr) (packet : Bytes) (r : Receiver) (wanted : ℕ)
    → r.camera.has_api ≡ true
    → r.ssrc ≡ some wanted
    → be32_at packet 8 ≢ wanted
    → ((handle_direct_packet now sock source packet r).1 ≡ false)
      × ((handle_direct_packet now sock source packet r).2 ≡ [])
      × ((handle_direct_packet now sock source packet r).0.camera ≡ r.camera)
      × ((handle_direct_packet now sock source packet r).0.asm ≡ r.asm)
      × ((handle_direct_packet now sock source packet r).0.learned_ssrc ≡ r.learned_ssrc)
unfolding handle_direct_packet check_ssrc
handle_direct_packet_foreign now sock source packet r wanted online known foreign = ground arith

-- An SSRC once learned is never replaced.
pub handle_direct_packet_learned :
    (now sock : ℕ) (source : Addr) (packet : Bytes) (r : Receiver) (learned : ℕ)
    → r.learned_ssrc ≡ some learned
    → (handle_direct_packet now sock source packet r).0.learned_ssrc ≡ some learned
unfolding handle_direct_packet check_ssrc
handle_direct_packet_learned now sock source packet r learned known =
    let same = λ (k : Media) (r' : Receiver). ingest_rtp_media_identity now k packet r' in
    ground arith
