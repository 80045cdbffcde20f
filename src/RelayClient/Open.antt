-- ===== src/RelayClient/Open.antt =====
-- `RelayStream._request` and `open` of ziot_rtp_bridge.py, on a connection that stands. What the relay does with each
-- request is an input. The MD5 digest and the base64 encoding are arguments.
pub mod Takes
pub mod Requests
pub mod Honest
pub mod Plays
use ziot_rtp_bridge.Base.{
  ℕ, ◌+◌, ◌*◌, Bool, true, false, not, ◌&&◌, ◌||◌, Option, none, some, List, [], ◌∷◌, ◌++◌,
  if◌then◌else◌, ◌==◌, Bytes, bytes_eq, drop, ascii, starts_with, before,
}
use ziot_rtp_bridge.Base.Dict.{Dict, insert}
use ziot_rtp_bridge.Camera.State.{Opened, plays, refused, forbidden, failed}
use ziot_rtp_bridge.RelayClient.Auth.{auth_header, text_of}
use ziot_rtp_bridge.RelayClient.Sdp.{Kind, Track, strip, digits, parse_sdp, track_url}

pub data Method : Type 0 where
  options describe setup play : Method

abbrev pub name_of : Method → Bytes
name_of options = ascii "OPTIONS"
name_of describe = ascii "DESCRIBE"
name_of setup = ascii "SETUP"
name_of play = ascii "PLAY"

-- A response, with the headers that the client reads.
pub record Response : Type 0 where
  pub status : ℕ
  pub www_authenticate : Option Bytes
  pub session : Option Bytes
  pub body : Bytes

-- What the relay does with a request: it answers, or the connection is lost or goes quiet.
pub data Act : Type 0 where
  answers : Response → Act
  breaks : Act

-- A request as it was sent; `session` is empty where the header is missing.
pub record Request : Type 0 where
  pub method : Method
  pub uri : Bytes
  pub cseq : ℕ
  pub session : Bytes
  pub authorization : Option Bytes

-- The client; an empty session is none, times are seconds, and `sent` is what it has sent.
pub record Client : Type 0 where
  pub url : Bytes
  pub user : Option Bytes
  pub password : Option Bytes
  pub cseq : ℕ
  pub session : Bytes
  pub session_timeout : ℕ
  pub challenge : Option Bytes
  pub channels : Dict Kind
  pub sent : List Request

-- How a request ends: with a response, or with `ConnectionError`, `PermissionError` or `ValueError`.
pub data Reply : Type 0 where
  got : Response → Reply
  lost no_credentials bad_scheme : Reply

-- The client, what the relay has left to do, and the reply.
abbrev pub Exchange : Type 0
Exchange = Client × (List Act × Reply)

-- `send()`
abbrev pub send : Method → Bytes → Option Bytes → Client → Client
send method uri auth c = record c {
  cseq = c.cseq + 1;
  sent =
      c.sent
      ++ record {
        method = method;
        uri = uri;
        cseq = c.cseq + 1;
        session = c.session;
        authorization = auth;
      }
        ∷ [];
}

-- The response is read, and nothing more is sent.
abbrev pub read_reply : Client → List Act → Exchange
read_reply c [] = (c, ([], lost))
read_reply c (breaks ∷ acts) = (c, (acts, lost))
read_reply c (answers r ∷ acts) = (c, (acts, got r))

module _ (md5 base64 : Bytes → Bytes) where
  abbrev pub header_for : Client → Method → Bytes → Bytes → Option Bytes
  header_for c method uri challenge =
      auth_header md5 base64 (text_of c.user) (text_of c.password) (name_of method) uri challenge

  -- A challenge is answered once.
  abbrev pub retry : Method → Bytes → Bytes → Client → List Act → Exchange
  retry method uri challenge c acts = elim (header_for c method uri challenge) [
    | none ↦ (c, (acts, bad_scheme))
    | some auth ↦ read_reply (send method uri (some auth) c) acts
  ]

  abbrev pub on_response : Method → Bytes → Response → Client → List Act → Exchange
  on_response method uri r c acts = elim r.www_authenticate [
    | none ↦ (c, (acts, got r))
    | some challenge ↦ if not (r.status == 401) then (c, (acts, got r)) else elim c.user [
      | none ↦ (c, (acts, no_credentials))
      | some _ ↦ retry method uri challenge (record c { challenge = some challenge }) acts
    ]
  ]

  -- The reply to a request that has been sent.
  abbrev pub answer_to : Method → Bytes → Client → List Act → Exchange
  answer_to method uri c [] = (c, ([], lost))
  answer_to method uri c (breaks ∷ acts) = (c, (acts, lost))
  answer_to method uri c (answers r ∷ acts) = on_response method uri r c acts

  unfoldable pub request : Method → Bytes → Client → List Act → Exchange
  request method uri c acts = elim c.challenge [
    | none ↦ answer_to method uri (send method uri none c) acts
    | some challenge ↦ elim (header_for c method uri challenge) [
      | none ↦ (record c { cseq = c.cseq + 1 }, (acts, bad_scheme))
      | some auth ↦ answer_to method uri (send method uri (some auth) c) acts
    ]
  ]

  -- The digits behind the first "timeout=" that has some.
  abbrev pub first_digits : Bytes → Bytes
  first_digits [] = []
  first_digits (c ∷ cs) = elim (digits 0 (c ∷ [])) [ none ↦ [] | some _ ↦ c ∷ first_digits cs ]

  abbrev pub timeout_in : Bytes → Option ℕ
  timeout_in [] = none
  timeout_in (c ∷ cs) =
      let found = first_digits (drop 8 (c ∷ cs)) in
      let later = timeout_in cs in
      if starts_with (ascii "timeout=") (c ∷ cs) && not (bytes_eq found [])
      then digits 0 found
      else later

  abbrev pub or_else {ℓ} : {A : Type ℓ} → Option A → A → A
  or_else none a = a
  or_else (some b) a = b

  -- A track that has been set up on a channel.
  abbrev pub keep_session : ℕ → Kind → Response → Client → Client
  keep_session channel kind r c = record c {
    session = elim r.session [ none ↦ c.session | some s ↦ strip (before (b';' ∷ []) s) ];
    session_timeout = elim r.session [
      | none ↦ c.session_timeout
      | some s ↦ or_else (timeout_in s) c.session_timeout
    ];
    channels = insert channel kind c.channels;
  }

  -- What a reply that is no response makes of `open`.
  abbrev pub failure : Reply → Opened
  failure no_credentials = forbidden
  failure _ = failed

  -- A reply goes on to the next step if its status is 200.
  abbrev pub go_on : (Response → Client → List Act → Client × Opened) → Exchange → Client × Opened
  go_on next (c, (acts, got r)) = if r.status == 200 then next r c acts else (c, refused)
  go_on next (c, (acts, reply)) = (c, failure reply)

  abbrev pub playing : Response → Client → List Act → Client × Opened
  playing r c acts = (c, plays)

  -- PLAY, if there is anything to play.
  abbrev pub play_on : Dict Kind → Client → Exchange → Client × Opened
  play_on [] c x = (c, refused)
  play_on (_ ∷ _) c x = go_on playing x

  unfoldable pub start_play : Client → List Act → Client × Opened
  unfolding request
  start_play c acts = play_on c.channels c (request play c.url c acts)

  -- The track has its channel, and the next one is set up.
  abbrev pub then_track :
      (ℕ → Client → List Act → Client × Opened)
      → ℕ
      → Kind
      → Response
      → Client
      → List Act
      → Client × Opened
  then_track later channel kind r c acts = later (channel + 2) (keep_session channel kind r c) acts

  -- The loop over the tracks, and what follows it.
  unfoldable pub setup_tracks : List Track → ℕ → Client → List Act → Client × Opened
  unfolding request start_play
  setup_tracks [] channel c acts = start_play c acts
  setup_tracks (t ∷ ts) channel c acts =
      let later = setup_tracks ts in
      elim t.pt [
        | none ↦ later channel c acts
        | some _ ↦
            go_on (then_track later channel t.kind)
              (request setup (track_url c.url t.control) c acts)
      ]

  abbrev pub on_tracks : List Track → Client → List Act → Client × Opened
  on_tracks [] c acts = (c, refused)
  on_tracks (t ∷ ts) c acts = setup_tracks (t ∷ ts) 0 c acts

  -- The description, which is not empty, is read.
  unfoldable pub described : Response → Client → List Act → Client × Opened
  unfolding setup_tracks parse_sdp
  described r c acts =
      if bytes_eq r.body [] then (c, refused) else on_tracks (parse_sdp r.body) c acts

  -- Behind the DESCRIBE a lost connection is a relay without a stream.
  abbrev pub after_describe : Exchange → Client × Opened
  after_describe (c, (acts, lost)) = (c, refused)
  after_describe (c, (acts, got r)) = go_on described (c, (acts, got r))
  after_describe (c, (acts, no_credentials)) = (c, forbidden)
  after_describe (c, (acts, bad_scheme)) = (c, failed)

  abbrev pub after_options : Response → Client → List Act → Client × Opened
  after_options r c acts = after_describe (request describe c.url c acts)

  unfoldable pub open_stream : Client → List Act → Client × Opened
  unfolding request described
  open_stream c acts = go_on after_options (request options c.url c acts)
