-- ===== src/Watchdog/Tests.antt =====
-- A stream that is dead in two runs.
use ziot_rtp_bridge.Base.{◌≡◌, refl, Bool, true, false, none, some, List, [], ◌∷◌, Bytes, ascii}
use ziot_rtp_bridge.Watchdog.{
  CamRow, Bridge, Stream, Go2Rtc, main, go2rtc_stream_state, go2rtc_has_video, go2rtc_stream_uid,
  uid_in_text, cam_of, dead, idle,
}
use ziot_rtp_bridge.Watchdog.Runs.{Tick, streaks_after, is_dead_again, main_restarts_again}
use ziot_rtp_bridge.Watchdog.Streaks.{main_fresh}

abbrev uid : Bytes
uid = ascii "141012345"

abbrev row : Bool → CamRow
row streaming = record {
  uid = uid;
  streaming = streaming;
  fps = 9000;
  last_rx = some 100;
  mode = ascii "direct";
}

abbrev bridge : Bridge
bridge = record { failed = false; phase = ascii "ready"; cameras = none ∷ some (row true) ∷ [] }

abbrev silent : Stream
silent = record {
  name = ascii "cat_cam_1";
  producers = record { blobs = ascii "http://h:8085/cam/141012345" ∷ []; bytes_recv = some 0 } ∷ [];
}

silent_uid : go2rtc_stream_uid silent ≡ some uid
unfolding go2rtc_stream_uid uid_in_text
silent_uid = refl

silent_dead : go2rtc_stream_state silent (some (row true) ∷ []) ≡ dead
unfolding go2rtc_stream_state go2rtc_stream_uid uid_in_text cam_of go2rtc_has_video
silent_dead = refl

silent_idle : go2rtc_stream_state silent (some (row false) ∷ []) ≡ idle
unfolding go2rtc_stream_state go2rtc_stream_uid uid_in_text cam_of go2rtc_has_video
silent_idle = refl

abbrev go2rtc : Go2Rtc
go2rtc = some (silent ∷ [])

-- A run that found the stream dead, and one behind it that go2rtc did not answer.
abbrev before : List Tick
before = (bridge, (none, true)) ∷ (bridge, (go2rtc, true)) ∷ []

main_restarts_again_example :
    (main bridge go2rtc (streaks_after before) true).restarts ≡ is_dead_again bridge go2rtc before
main_restarts_again_example =
    main_restarts_again before bridge go2rtc true (tt, ((tt, tt), tt)) (tt, tt)

main_fresh_example : (main bridge go2rtc (λ _. 0) true).restarts ≡ false
main_fresh_example = main_fresh bridge go2rtc true (tt, tt)
