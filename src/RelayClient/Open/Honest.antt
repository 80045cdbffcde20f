-- ===== src/RelayClient/Open/Honest.antt =====
-- What `open` sends.
use ziot_rtp_bridge.Base.{
  ℕ, ◌+◌, inl, inr, Option, none, some, List, [], ◌∷◌, ◌==◌, Bytes, bytes_eq, Bool-cases,
  Option-elim,
}
use ziot_rtp_bridge.Base.Dict.{Dict}
use ziot_rtp_bridge.Camera.State.{Opened}
use ziot_rtp_bridge.RelayClient.Open.{
  options, describe, setup, play, Response, Act, Client, got, lost, no_credentials, bad_scheme,
  Exchange, request, keep_session, go_on, playing, play_on, then_track, start_play, setup_tracks,
  on_tracks, described, after_describe, after_options, open_stream,
}
use ziot_rtp_bridge.RelayClient.Sdp.{Kind, Track, parse_sdp, track_url}
use ziot_rtp_bridge.RelayClient.Open.Requests.{IsHonest, request-IsHonest}

module _ (md5 base64 : Bytes → Bytes) where
  go_on-IsHonest :
      (next : Response → Client → List Act → Client × Opened) (x : Exchange)
      → ((r : Response) (c : Client) (acts : List Act)
          → IsHonest md5 base64 c
          → IsHonest md5 base64 (next r c acts).0)
      → IsHonest md5 base64 x.0
      → IsHonest md5 base64 (go_on md5 base64 next x).0
  go_on-IsHonest next (c, (acts, got r)) keeps h = elim (Bool-cases (r.status == 200)) [
    | inl good ↦ rw good (keeps r c acts h)
    | inr bad ↦ rw bad h
  ]
  go_on-IsHonest next (c, (acts, lost)) keeps h = h
  go_on-IsHonest next (c, (acts, no_credentials)) keeps h = h
  go_on-IsHonest next (c, (acts, bad_scheme)) keeps h = h

  play_on-IsHonest :
      (d : Dict Kind) (c : Client) (x : Exchange)
      → IsHonest md5 base64 c
      → IsHonest md5 base64 x.0
      → IsHonest md5 base64 (play_on md5 base64 d c x).0
  play_on-IsHonest [] c x h k = h
  play_on-IsHonest (item ∷ d) c x h k = go_on-IsHonest (playing md5 base64) x (λ r c' acts h'. h') k

  start_play-IsHonest :
      (c : Client) (acts : List Act)
      → IsHonest md5 base64 c
      → IsHonest md5 base64 (start_play md5 base64 c acts).0
  unfolding start_play
  start_play-IsHonest c acts h =
      play_on-IsHonest c.channels c (request md5 base64 play c.url c acts) h
        (request-IsHonest md5 base64 play c.url c acts h)

  setup_tracks-IsHonest :
      (ts : List Track) (channel : ℕ) (c : Client) (acts : List Act)
      → IsHonest md5 base64 c
      → IsHonest md5 base64 (setup_tracks md5 base64 ts channel c acts).0
  unfolding setup_tracks
  setup_tracks-IsHonest [] channel c acts h = start_play-IsHonest c acts h
  setup_tracks-IsHonest (t ∷ ts) channel c acts h =
      Option-elim
        (λ (o : Option ℕ).
          IsHonest md5 base64
            (elim o as (λ _. Client × Opened) [
              | none ↦ setup_tracks md5 base64 ts channel c acts
              | some _ ↦
                  go_on md5 base64
                    (then_track md5 base64 (setup_tracks md5 base64 ts) channel t.kind)
                    (request md5 base64 setup (track_url c.url t.control) c acts)
            ]).0)
        t.pt (λ _. setup_tracks-IsHonest ts channel c acts h)
        (λ pt _.
          go_on-IsHonest (then_track md5 base64 (setup_tracks md5 base64 ts) channel t.kind)
            (request md5 base64 setup (track_url c.url t.control) c acts)
            (λ r c' acts' h'.
              setup_tracks-IsHonest ts (channel + 2) (keep_session md5 base64 channel t.kind r c')
                acts' h')
            (request-IsHonest md5 base64 setup (track_url c.url t.control) c acts h))

  on_tracks-IsHonest :
      (ts : List Track) (c : Client) (acts : List Act)
      → IsHonest md5 base64 c
      → IsHonest md5 base64 (on_tracks md5 base64 ts c acts).0
  on_tracks-IsHonest [] c acts h = h
  on_tracks-IsHonest (t ∷ ts) c acts h = setup_tracks-IsHonest (t ∷ ts) 0 c acts h

  described-IsHonest :
      (r : Response) (c : Client) (acts : List Act)
      → IsHonest md5 base64 c
      → IsHonest md5 base64 (described md5 base64 r c acts).0
  unfolding described
  described-IsHonest r c acts h =
      let set = on_tracks-IsHonest (parse_sdp r.body) c acts h in
      elim (Bool-cases (bytes_eq r.body [])) [ inl empty ↦ rw empty h | inr full ↦ rw full set ]

  after_describe-IsHonest :
      (x : Exchange) → IsHonest md5 base64 x.0 → IsHonest md5 base64 (after_describe md5 base64 x).0
  after_describe-IsHonest (c, (acts, got r)) h =
      go_on-IsHonest (described md5 base64) (c, (acts, got r)) described-IsHonest h
  after_describe-IsHonest (c, (acts, lost)) h = h
  after_describe-IsHonest (c, (acts, no_credentials)) h = h
  after_describe-IsHonest (c, (acts, bad_scheme)) h = h

  -- Opening a stream never replays credentials: each request that carries some carries those computed for
  -- its own method and URI, whatever the relay demands and when.
  pub open_stream-IsHonest :
      (c : Client) (acts : List Act)
      → IsHonest md5 base64 c
      → IsHonest md5 base64 (open_stream md5 base64 c acts).0
  unfolding open_stream
  open_stream-IsHonest c acts h =
      go_on-IsHonest (after_options md5 base64) (request md5 base64 options c.url c acts)
        (λ r c' acts' h'.
          after_describe-IsHonest (request md5 base64 describe c'.url c' acts')
            (request-IsHonest md5 base64 describe c'.url c' acts' h'))
        (request-IsHonest md5 base64 options c.url c acts h)
