-- ===== src/RelayClient/Open/Takes.antt =====
-- Which responses a request takes from what the relay does.
use ziot_rtp_bridge.Base.{
  ◌+◌, ◌≡◌, ◌⊎◌, inl, inr, sym, ap, subst, true, false, none, some, List, [], ◌∷◌, ◌==◌, arith,
  Bytes, Bool-cases, Option-cases,
}
use ziot_rtp_bridge.RelayClient.Open.{
  Method, Response, Act, answers, breaks, Client, Reply, got, no_credentials, bad_scheme, Exchange,
  send, read_reply, header_for, on_response, answer_to, request,
}

-- A response that the relay gives.
abbrev pub In : Response → List Act → Type 0
In r [] = true ≡ false
In r (breaks ∷ acts) = In r acts
In r (answers a ∷ acts) = (r ≡ a) ⊎ In r acts

abbrev response_of : Response → Reply → Response
response_of r (got a) = a
response_of r _ = r

got_injective : (r a : Response) → got a ≡ got r → r ≡ a
got_injective r a e = sym (ap (response_of r) e)

module _ (md5 base64 : Bytes → Bytes) where
  -- A request takes acts off the front, and its response is one of these.
  abbrev pub Takes : List Act → Exchange → Type 0
  Takes acts x =
      ((r : Response) → In r x.1.0 → In r acts) × ((r : Response) → x.1.1 ≡ got r → In r acts)

  read_reply-Takes : (c : Client) (acts : List Act) → Takes acts (read_reply c acts)
  read_reply-Takes c [] = ((λ r i. i), λ r e. cc)
  read_reply-Takes c (breaks ∷ acts) = ((λ r i. i), λ r e. cc)
  read_reply-Takes c (answers a ∷ acts) = ((λ r i. inr i), λ r e. inl (got_injective r a e))

  Takes-later :
      (a : Response) (acts : List Act) (x : Exchange) → Takes acts x → Takes (answers a ∷ acts) x
  Takes-later a acts x (rest, own) = ((λ r i. inr (rest r i)), λ r e. inr (own r e))

  -- The response itself ends the request.
  ends-Takes :
      (a : Response) (c : Client) (acts : List Act) → Takes (answers a ∷ acts) (c, (acts, got a))
  ends-Takes a c acts = ((λ r i. inr i), λ r e. inl (got_injective r a e))

  on_response-Takes :
      (m : Method) (uri : Bytes) (a : Response) (c : Client) (acts : List Act)
      → Takes (answers a ∷ acts) (on_response md5 base64 m uri a c acts)
  on_response-Takes m uri a c acts =
      let P = λ (x : Exchange). Takes (answers a ∷ acts) x in
      let x = on_response md5 base64 m uri a c acts in
      elim (Option-cases a.www_authenticate) [
        | inl quiet ↦
            let e : x ≡ (c, (acts, got a)) = ground arith in subst P (sym e) (ends-Takes a c acts)
        | inr (ch, asks) ↦ elim (Bool-cases (a.status == 401)) [
          | inr other ↦
              let e : x ≡ (c, (acts, got a)) = ground arith in subst P (sym e) (ends-Takes a c acts)
          | inl unauthorised ↦ elim (Option-cases c.user) [
            | inl nobody ↦
                let e : x ≡ (c, (acts, no_credentials)) = ground arith in
                subst P (sym e) ((λ r i. inr i), λ r i. cc)
            | inr (u, somebody) ↦
                let c' = record c { challenge = some ch } in
                elim (Option-cases (header_for md5 base64 c' m uri ch)) [
                  | inl strange ↦
                      let e : x ≡ (c', (acts, bad_scheme)) = ground arith in
                      subst P (sym e) ((λ r i. inr i), λ r i. cc)
                  | inr (h, known) ↦
                      let y = read_reply (send m uri (some h) c') acts in
                      let e : x ≡ y = ground arith in
                      subst P (sym e)
                        (Takes-later a acts y (read_reply-Takes (send m uri (some h) c') acts))
                ]
          ]
        ]
      ]

  answer_to-Takes :
      (m : Method) (uri : Bytes) (c : Client) (acts : List Act)
      → Takes acts (answer_to md5 base64 m uri c acts)
  answer_to-Takes m uri c [] = ((λ r i. i), λ r e. cc)
  answer_to-Takes m uri c (breaks ∷ acts) = ((λ r i. i), λ r e. cc)
  answer_to-Takes m uri c (answers a ∷ acts) = on_response-Takes m uri a c acts

  pub request-Takes :
      (m : Method) (uri : Bytes) (c : Client) (acts : List Act)
      → Takes acts (request md5 base64 m uri c acts)
  unfolding request
  request-Takes m uri c acts =
      let P = λ (x : Exchange). Takes acts x in
      let x = request md5 base64 m uri c acts in
      elim (Option-cases c.challenge) [
        | inl calm ↦
            let e : x ≡ answer_to md5 base64 m uri (send m uri none c) acts = ground arith in
            subst P (sym e) (answer_to-Takes m uri (send m uri none c) acts)
        | inr (ch, challenged) ↦ elim (Option-cases (header_for md5 base64 c m uri ch)) [
          | inl strange ↦
              let e : x ≡ (record c { cseq = c.cseq + 1 }, (acts, bad_scheme)) = ground arith in
              subst P (sym e) ((λ r i. i), λ r i. cc)
          | inr (h, known) ↦
              let e : x ≡ answer_to md5 base64 m uri (send m uri (some h) c) acts = ground arith in
              subst P (sym e) (answer_to-Takes m uri (send m uri (some h) c) acts)
        ]
      ]
