-- ===== src/RelayClient/Tests.antt =====
-- A relay that demands credentials and serves one track that can be decoded.
use ziot_rtp_bridge.Base.{
  ℕ, ◌≡◌, refl, none, some, List, [], ◌∷◌, ◌++◌, Bytes, ascii, words_from, before,
}
use ziot_rtp_bridge.Camera.State.{Opened}
use ziot_rtp_bridge.Cloud.Row.{lstrip, rstrip}
use ziot_rtp_bridge.RelayClient.Open.{Response, Act, answers, Client, open_stream}
use ziot_rtp_bridge.RelayClient.Open.Honest.{open_stream-IsHonest}
use ziot_rtp_bridge.RelayClient.Open.Requests.{IsHonest}
use ziot_rtp_bridge.RelayClient.Sdp.{
  video, audio, Section, choose_pt, split_lines, read_line, read_lines, tracks_of, parse_sdp,
}

-- The MD5 digest and the base64 encoding are stood for by other functions.
abbrev md5 : Bytes → Bytes
md5 s = b'h' ∷ s

abbrev base64 : Bytes → Bytes
base64 s = s

abbrev client : Client
client = record {
  url = ascii "rtsp://h/live/1";
  user = some (ascii "u");
  password = some (ascii "p");
  cseq = 0;
  session = [];
  session_timeout = 60;
  challenge = none;
  channels = [];
  sent = [];
}

abbrev response : ℕ → Response
response status = record { status = status; www_authenticate = none; session = none; body = [] }

abbrev sdp : Bytes
sdp =
    ascii "v=0\r\nm=video 0 RTP/AVP 96\r\na=rtpmap:96 H264/90000\r\n"
    ++ ascii "m=audio 0 RTP/AVP 8 97\r\na=rtpmap:97 pcmu/8000\r\na=control:track2\r\n"

abbrev acts : List Act
acts =
    answers
      (record (response 401) { www_authenticate = some (ascii "Digest realm=\"r\", nonce=\"n\"") })
    ∷ answers (response 200)
    ∷ answers (record (response 200) { body = sdp })
    ∷ answers (record (response 200) { session = some (ascii "7;timeout=30") })
    ∷ answers (response 200)
    ∷ []

abbrev opened : Client × Opened
opened = open_stream md5 base64 client acts

sdp_tracks :
    parse_sdp sdp
    ≡ record { kind = video; pt = none; control = none }
      ∷ record { kind = audio; pt = some 97; control = some (ascii "track2") }
      ∷ []
unfolding parse_sdp split_lines read_lines read_line tracks_of choose_pt words_from before lstrip
    rstrip
sdp_tracks = refl

open_stream-IsHonest_example : IsHonest md5 base64 opened.0
open_stream-IsHonest_example = open_stream-IsHonest md5 base64 client acts tt

abbrev nobody : Client
nobody = record client { user = none; password = none }

abbrev denied : Response
denied = record (response 401) { www_authenticate = some (ascii "Basic realm=\"r\"") }

abbrev audio_section : Section
audio_section = record {
  kind = ascii "audio";
  fmts = 8 ∷ 97 ∷ [];
  rtpmap = (97, ascii "PCMU") ∷ [];
  control = none;
}
