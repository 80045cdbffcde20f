-- ===== src/RelayClient/Open/Requests.antt =====
-- What the client sends.
use ziot_rtp_bridge.Base.{
  ◌+◌, ◌≡◌, inl, inr, sym, subst, Option, none, some, List, [], ◌∷◌, ◌++◌, ◌==◌, arith, Bytes,
  Bool-cases, Option-cases,
}
use ziot_rtp_bridge.RelayClient.Auth.{auth_header, text_of}
use ziot_rtp_bridge.RelayClient.Open.{
  Method, name_of, Response, Act, answers, breaks, Request, Client, got, no_credentials, bad_scheme,
  Exchange, send, read_reply, header_for, on_response, answer_to, request,
}

module _ (md5 base64 : Bytes → Bytes) where
  -- The credentials of a request, if it has any, are computed for its own method and URI.
  abbrev pub IsOwn : Option Bytes → Option Bytes → Request → Type 0
  IsOwn user password r = elim r.authorization [
    | none ↦ Unit
    | some a ↦
        (challenge : Bytes) × (auth_header md5 base64 (text_of user) (text_of password)
            (name_of r.method) r.uri challenge
          ≡ some a)
  ]

  abbrev pub AreOwn : Option Bytes → Option Bytes → List Request → Type 0
  AreOwn user password [] = Unit
  AreOwn user password (r ∷ rs) = IsOwn user password r × AreOwn user password rs

  abbrev pub IsHonest : Client → Type 0
  IsHonest c = AreOwn c.user c.password c.sent

  AreOwn-append :
      (user password : Option Bytes) (rs : List Request) (r : Request)
      → AreOwn user password rs
      → IsOwn user password r
      → AreOwn user password (rs ++ r ∷ [])
  AreOwn-append user password [] r h own = (own, tt)
  AreOwn-append user password (q ∷ rs) r h own = (h.0, AreOwn-append user password rs r h.1 own)

  send_bare-IsHonest :
      (m : Method) (uri : Bytes) (c : Client) → IsHonest c → IsHonest (send m uri none c)
  send_bare-IsHonest m uri c h = AreOwn-append c.user c.password c.sent _ h tt

  send_signed-IsHonest :
      (m : Method) (uri challenge a : Bytes) (c : Client)
      → header_for md5 base64 c m uri challenge ≡ some a
      → IsHonest c
      → IsHonest (send m uri (some a) c)
  send_signed-IsHonest m uri challenge a c signed h =
      AreOwn-append c.user c.password c.sent _ h (challenge, signed)

  read_reply-IsHonest : (c : Client) (acts : List Act) → IsHonest c → IsHonest (read_reply c acts).0
  read_reply-IsHonest c [] h = h
  read_reply-IsHonest c (breaks ∷ acts) h = h
  read_reply-IsHonest c (answers r ∷ acts) h = h

  on_response-IsHonest :
      (m : Method) (uri : Bytes) (a : Response) (c : Client) (acts : List Act)
      → IsHonest c
      → IsHonest (on_response md5 base64 m uri a c acts).0
  on_response-IsHonest m uri a c acts h =
      let P = λ (x : Exchange). IsHonest x.0 in
      let x = on_response md5 base64 m uri a c acts in
      elim (Option-cases a.www_authenticate) [
        | inl quiet ↦ let e : x ≡ (c, (acts, got a)) = ground arith in subst P (sym e) h
        | inr (ch, asks) ↦ elim (Bool-cases (a.status == 401)) [
          | inr other ↦ let e : x ≡ (c, (acts, got a)) = ground arith in subst P (sym e) h
          | inl unauthorised ↦ elim (Option-cases c.user) [
            | inl nobody ↦
                let e : x ≡ (c, (acts, no_credentials)) = ground arith in subst P (sym e) h
            | inr (u, somebody) ↦
                let c' = record c { challenge = some ch } in
                elim (Option-cases (header_for md5 base64 c' m uri ch)) [
                  | inl strange ↦
                      let e : x ≡ (c', (acts, bad_scheme)) = ground arith in subst P (sym e) h
                  | inr (w, known) ↦
                      let e : x ≡ read_reply (send m uri (some w) c') acts = ground arith in
                      subst P (sym e) (
                        read_reply-IsHonest (send m uri (some w) c') acts
                          (send_signed-IsHonest m uri ch w c' known h))
                ]
          ]
        ]
      ]

  answer_to-IsHonest :
      (m : Method) (uri : Bytes) (c : Client) (acts : List Act)
      → IsHonest c
      → IsHonest (answer_to md5 base64 m uri c acts).0
  answer_to-IsHonest m uri c [] h = h
  answer_to-IsHonest m uri c (breaks ∷ acts) h = h
  answer_to-IsHonest m uri c (answers a ∷ acts) h = on_response-IsHonest m uri a c acts h

  pub request-IsHonest :
      (m : Method) (uri : Bytes) (c : Client) (acts : List Act)
      → IsHonest c
      → IsHonest (request md5 base64 m uri c acts).0
  unfolding request
  request-IsHonest m uri c acts h =
      let P = λ (x : Exchange). IsHonest x.0 in
      let x = request md5 base64 m uri c acts in
      elim (Option-cases c.challenge) [
        | inl calm ↦
            let e : x ≡ answer_to md5 base64 m uri (send m uri none c) acts = ground arith in
            subst P (sym e)
              (answer_to-IsHonest m uri (send m uri none c) acts (send_bare-IsHonest m uri c h))
        | inr (ch, challenged) ↦ elim (Option-cases (header_for md5 base64 c m uri ch)) [
          | inl strange ↦
              let e : x ≡ (record c { cseq = c.cseq + 1 }, (acts, bad_scheme)) = ground arith in
              subst P (sym e) h
          | inr (w, known) ↦
              let e : x ≡ answer_to md5 base64 m uri (send m uri (some w) c) acts = ground arith in
              subst P (sym e) (
                answer_to-IsHonest m uri (send m uri (some w) c) acts
                  (send_signed-IsHonest m uri ch w c known h))
        ]
      ]

  -- Without a user, a demand for credentials ends the request, and nothing more is sent.
  pub request_unauthorised :
      (m : Method) (uri challenge : Bytes) (r : Response) (c : Client) (acts : List Act)
      → c.user ≡ none
      → c.challenge ≡ none
      → r.status ≡ 401
      → r.www_authenticate ≡ some challenge
      → request md5 base64 m uri c (answers r ∷ acts) ≡ (send m uri none c, (acts, no_credentials))
  unfolding request
  request_unauthorised m uri challenge r c acts nobody calm denied asks = ground arith
