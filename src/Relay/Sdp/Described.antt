-- ===== src/Relay/Sdp/Described.antt =====
-- What the bridge's client reads in a description that the relay makes.
use ziot_rtp_bridge.Base.{
  ℕ, ◌≡◌, refl, ap, ◌∙◌, Option, none, some, List, [], ◌∷◌, ◌++◌, Bytes, ascii, words_from, before,
}
use ziot_rtp_bridge.Base.Int.{pos}
use ziot_rtp_bridge.Broker.Api.{str}
use ziot_rtp_bridge.Cloud.Row.{lstrip, rstrip}
use ziot_rtp_bridge.Relay.Sdp
use ziot_rtp_bridge.RelayClient.Sdp as Client
use ziot_rtp_bridge.RelayClient.Sdp.{video, audio, is_line_end, split_lines}
use ziot_rtp_bridge.Base.Dict.{Dict}
use ziot_rtp_bridge.Relay.Sdp.Lines.{
  first_lines, control_lines, audio_lines, split_lines-sdp_for, strip_control, strip_track,
}

read_lines-append :
    (xs ys : List Bytes) (s : Client.Scan)
    → Client.read_lines (xs ++ ys) s ≡ Client.read_lines ys (Client.read_lines xs s)
unfolding Client.read_lines
read_lines-append [] ys s = refl
read_lines-append (x ∷ xs) ys s = read_lines-append xs ys (Client.read_line (Client.strip x) s)

abbrev section : Bytes → ℕ → Dict Bytes → Option Bytes → Client.Section
section kind pt rtpmap control = record {
  kind = kind;
  fmts = pt ∷ [];
  rtpmap = rtpmap;
  control = control;
}

abbrev scan : List Client.Section → Client.Section → Client.Scan
scan sections sec = record { sections = sections; cur = some sec }

abbrev controlled : ℕ → Client.Section → Client.Section
controlled n sec = record sec { control = some (ascii "track" ++ str (pos n)) }

control_line_read :
    (n : ℕ) (secs : List Client.Section) (sec : Client.Section)
    → Client.read_line (Client.strip (Sdp.control_line n)) (scan secs sec)
      ≡ scan secs (controlled n sec)
unfolding Client.read_line
control_line_read n secs sec =
    ap (λ (l : Bytes). Client.read_line l (scan secs sec)) (strip_control n)
    ∙ ap (λ (c : Bytes). scan secs (record sec { control = some c })) (strip_track n)

empty_line_read :
    (secs : List Client.Section) (sec : Client.Section)
    → Client.read_line (Client.strip []) (scan secs sec) ≡ scan secs sec
unfolding Client.read_line lstrip rstrip
empty_line_read secs sec = refl

control_lines_read :
    (n : ℕ) (secs : List Client.Section) (sec : Client.Section)
    → Client.read_lines (control_lines n) (scan secs sec) ≡ scan secs (controlled n sec)
unfolding Client.read_lines
control_lines_read n secs sec =
    ap (λ (s : Client.Scan). Client.read_line (Client.strip []) s) (control_line_read n secs sec)
    ∙ empty_line_read secs (controlled n sec)

abbrev no_scan : Client.Scan
no_scan = record { sections = []; cur = none }

first_lines_read :
    Client.read_lines first_lines no_scan ≡ scan [] (section (ascii "video") 26 [] none)
unfolding Client.read_lines Client.read_line words_from before lstrip rstrip
first_lines_read = refl

audio_lines_read :
    (sec : Client.Section)
    → Client.read_lines audio_lines (scan [] sec)
      ≡ scan (sec ∷ []) (section (ascii "audio") 0 ((0, ascii "PCMU") ∷ []) none)
unfolding Client.read_lines Client.read_line words_from before lstrip rstrip
audio_lines_read sec = refl

abbrev video_section : ℕ → Client.Section
video_section v = controlled v (section (ascii "video") 26 [] none)

abbrev audio_section : ℕ → Client.Section
audio_section a = controlled a (section (ascii "audio") 0 ((0, ascii "PCMU") ∷ []) none)

-- The lines of a part, and then the others.
then_read :
    (xs ys : List Bytes) (s s' s'' : Client.Scan)
    → Client.read_lines xs s ≡ s'
    → Client.read_lines ys s' ≡ s''
    → Client.read_lines (xs ++ ys) s ≡ s''
then_read xs ys s s' s'' h g = read_lines-append xs ys s ∙ (ap (Client.read_lines ys) h ∙ g)

last_line_read :
    (secs : List Client.Section) (sec : Client.Section)
    → Client.read_lines ([] ∷ []) (scan secs sec) ≡ scan secs sec
unfolding Client.read_lines
last_line_read secs sec = empty_line_read secs sec

sdp_read :
    (v a : ℕ)
    → Client.read_lines (split_lines [] (Sdp.sdp_for v a)) no_scan
      ≡ scan (video_section v ∷ []) (audio_section a)
sdp_read v a =
    ap (λ (ls : List Bytes). Client.read_lines ls no_scan) (split_lines-sdp_for v a)
    ∙ then_read first_lines _ no_scan _ _ first_lines_read (
        then_read (control_lines v) _ _ _ _ (control_lines_read v [] _) (
          then_read audio_lines _ _ _ _ (audio_lines_read (video_section v)) (
            then_read (control_lines a) _ _ _ _ (control_lines_read a (video_section v ∷ []) _)
              (last_line_read (video_section v ∷ []) (audio_section a)))))

tracks_read :
    (v a : ℕ)
    → Client.tracks_of (video_section v ∷ audio_section a ∷ [])
      ≡ record { kind = video; pt = some 26; control = some (ascii "track" ++ str (pos v)) }
        ∷ record { kind = audio; pt = some 0; control = some (ascii "track" ++ str (pos a)) }
        ∷ []
unfolding Client.tracks_of Client.choose_pt
tracks_read v a = refl

-- Of the description that the relay makes for a publisher without one, the bridge's client reads the JPEG video
-- and the PCMU audio, each with the track that it was made for.
pub parse_sdp-sdp_for :
    (v a : ℕ)
    → Client.parse_sdp (Sdp.sdp_for v a)
      ≡ record { kind = video; pt = some 26; control = some (ascii "track" ++ str (pos v)) }
        ∷ record { kind = audio; pt = some 0; control = some (ascii "track" ++ str (pos a)) }
        ∷ []
unfolding Client.parse_sdp
parse_sdp-sdp_for v a =
    ap (λ (s : Client.Scan). Client.tracks_of (Client.close_section s)) (sdp_read v a)
    ∙ tracks_read v a
