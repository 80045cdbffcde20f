-- ===== src/RelayClient/Open/Plays.antt =====
-- What has been set up when `open` succeeds.
use ziot_rtp_bridge.Base.{ℕ, ◌+◌, ◌<◌, ◌≡◌, ◌≢◌, none, some, List, [], ◌∷◌, Bytes}
use ziot_rtp_bridge.Base.Dict.{Dict}
use ziot_rtp_bridge.RelayClient.Open.{
  options, describe, setup, play, Response, Act, Client, got, Exchange, request, keep_session,
}
use ziot_rtp_bridge.RelayClient.Open.Takes.{In, Takes}
use ziot_rtp_bridge.RelayClient.Sdp.{Kind, Track, parse_sdp, track_url}

-- The kinds of the tracks that can be decoded.
abbrev pub playable : List Track → List Kind
playable [] = []
playable (t ∷ ts) = elim t.pt [ none ↦ playable ts | some _ ↦ t.kind ∷ playable ts ]

-- Every other channel, from the first on.
abbrev pub numbered : ℕ → List Kind → Dict Kind
numbered channel [] = []
numbered channel (k ∷ ks) = (channel, k) ∷ numbered (channel + 2) ks

abbrev IsBelow : ℕ → Dict Kind → Type 0
IsBelow n [] = Unit
IsBelow n (item ∷ d) = (item.0 < n) × IsBelow n d

module _ (md5 base64 : Bytes → Bytes) where
  -- A request was answered with status 200.
  abbrev pub IsGood : Exchange → Response → Type 0
  IsGood x r = (x.1.1 ≡ got r) × (r.status ≡ 200)

  -- From here on each track that can be decoded was set up by a SETUP for it, on the next channel, and then
  -- the client has sent PLAY, and each of these requests was answered with status 200.
  abbrev pub AreSetUp : List Track → ℕ → Client → List Act → Client → Type 0
  AreSetUp [] channel c acts c' =
      let x = request md5 base64 play c.url c acts in (r : Response) × IsGood x r × (x.0 ≡ c')
  AreSetUp (t ∷ ts) channel c acts c' =
      let later = AreSetUp ts in
      elim t.pt [
        | none ↦ later channel c acts c'
        | some _ ↦
            let x = request md5 base64 setup (track_url c.url t.control) c acts in
            (r : Response) × IsGood x r
            × later (channel + 2) (keep_session md5 base64 channel t.kind r x.0) x.1.0 c'
      ]

  -- What a client that plays has set up.
  abbrev HasSetUp : Dict Kind → Client → Type 0
  HasSetUp d c = (c.channels ≡ d) × (c.channels ≢ [])

  -- Of a description in the response to DESCRIBE, which the relay gave with status 200, the tracks have been
  -- set up.
  abbrev pub IsDescribed : List Act → Exchange → Client → Type 0
  IsDescribed acts x c =
      (r : Response) × In r acts
      × IsGood x r
      × AreSetUp (parse_sdp r.body) 0 x.0 x.1.0 c
      × (c.channels ≡ numbered 0 (playable (parse_sdp r.body)))
      × (c.channels ≢ [])

  -- OPTIONS was answered with status 200, then DESCRIBE.
  abbrev pub IsOpened : Client → List Act → Client → Type 0
  IsOpened c acts c' =
      let x = request md5 base64 options c.url c acts in
      (r : Response) × IsGood x r
      × IsDescribed acts (request md5 base64 describe x.0.url x.0 x.1.0) c'
