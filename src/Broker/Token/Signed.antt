-- ===== src/Broker/Token/Signed.antt =====
-- Which tokens are valid.
use ziot_rtp_bridge.Base.{
  zero, suc, ◌-◌, ◌%◌, ◌≤◌, subst, length, replicate, ℕ, ◌+◌, ◌≡◌, ◌∙◌, refl, sym, ap, inl, inr,
  true, false, some, List, [], ◌∷◌, ◌++◌, ◌==◌, ltb, Bytes, bytes_eq_refl, bytes_eq_sound,
  append_assoc, append-nil, arith, Option-cases,
}
use ziot_rtp_bridge.Broker.Token.{
  Crypto, expires, strip_pad, pad, b64, split_dots, joined, mint_local_token, is_current,
  check_parts, local_token_valid,
}

-- No dot stands in a text.
abbrev pub IsDotless : Bytes → Type 0
IsDotless [] = Unit
IsDotless (c ∷ cs) = ((c == b'.') ≡ false) × IsDotless cs

-- No equals sign stands in a text.
abbrev pub IsUnpadded : Bytes → Type 0
IsUnpadded [] = Unit
IsUnpadded (c ∷ cs) = ((c == b'=') ≡ false) × IsUnpadded cs

-- What base64 documents of an encoding: characters of its alphabet, which has no dot and no equals sign, and
-- behind them as many equals signs as make the length a multiple of four, at most two.
pub record IsEncoding (s : Bytes) : Type 0 where
  pub body : Bytes
  pub signs : ℕ
  pub whole : s ≡ body ++ replicate signs b'='
  pub few : signs ≤ 2
  pub fours : (length body + signs) % 4 ≡ 0
  pub unpadded : IsUnpadded body
  pub dotless : IsDotless body

-- What base64 and JSON document: an encoding is laid out so, it is decoded to what was encoded, and the expiry of
-- the claims is read back.
pub record IsLawful (k : Crypto) : Type 0 where
  pub encoding : (raw : Bytes) → IsEncoding (k.encode raw)
  pub decoded : (raw : Bytes) → k.decode (k.encode raw) ≡ some raw
  pub read_back : (now exp : ℕ) → k.exp_of (k.claims now exp) ≡ expires exp

strip_pad-unpadded : (body : Bytes) → IsUnpadded body → strip_pad body ≡ body
strip_pad-unpadded [] h = refl
strip_pad-unpadded (c ∷ []) (h, hs) = rw h refl
strip_pad-unpadded (c ∷ d ∷ ds) (h, hs) = let rest = strip_pad-unpadded (d ∷ ds) hs in rw rest refl

strip_pad-signs : (n : ℕ) → strip_pad (replicate n b'=') ≡ []
strip_pad-signs zero = refl
strip_pad-signs (suc n) = rw (strip_pad-signs n) refl

strip_pad-padded :
    (body : Bytes) (n : ℕ) → IsUnpadded body → strip_pad (body ++ replicate n b'=') ≡ body
strip_pad-padded [] n h = strip_pad-signs n
strip_pad-padded (c ∷ []) n (h, hs) = let gone = strip_pad-signs n in ground arith
strip_pad-padded (c ∷ d ∷ ds) n (h, hs) = let rest = strip_pad-padded (d ∷ ds) n hs in rw rest refl

-- The padding that was taken off is put back.
pad-strip_pad : (s : Bytes) → IsEncoding s → pad (strip_pad s) ≡ s
pad-strip_pad s e =
    let stripped = ap strip_pad e.whole ∙ strip_pad-padded e.body e.signs e.unpadded in
    let few = e.few in
    let fours = e.fours in
    let signs : (4 - length e.body % 4) % 4 ≡ e.signs = omega arith in
    ap pad stripped ∙ ap (λ n. e.body ++ replicate n b'=') signs ∙ sym e.whole

pub b64-IsDotless : (k : Crypto) → IsLawful k → (raw : Bytes) → IsDotless (b64 k raw)
b64-IsDotless k l raw =
    let e = l.encoding raw in
    let stripped = ap strip_pad e.whole ∙ strip_pad-padded e.body e.signs e.unpadded in
    subst IsDotless (sym stripped) e.dotless

pub decode-b64 : (k : Crypto) → IsLawful k → (raw : Bytes) → k.decode (pad (b64 k raw)) ≡ some raw
decode-b64 k l raw = ap k.decode (pad-strip_pad (k.encode raw) (l.encoding raw)) ∙ l.decoded raw

pub split_dots-dotless : (part s : Bytes) → IsDotless s → split_dots part s ≡ (part ++ s) ∷ []
unfolding split_dots
split_dots-dotless part [] d = ap (λ (t : Bytes). t ∷ []) (sym (append-nil part))
split_dots-dotless part (c ∷ cs) (d, ds) = rw d (
    split_dots-dotless (part ++ c ∷ []) cs ds
    ∙ ap (λ (t : Bytes). t ∷ []) (append_assoc part (c ∷ []) cs))

pub split_dots-joined :
    (part a b : Bytes) → IsDotless a → split_dots part (joined a b) ≡ (part ++ a) ∷ split_dots [] b
unfolding split_dots
split_dots-joined part [] b d = ap (λ (t : Bytes). t ∷ split_dots [] b) (sym (append-nil part))
split_dots-joined part (c ∷ cs) b (d, ds) = rw d (
    split_dots-joined (part ++ c ∷ []) cs b ds
    ∙ ap (λ (t : Bytes). t ∷ split_dots [] b) (append_assoc part (c ∷ []) cs))

-- The parts of a minted token.
pub split_dots-three :
    (a b c : Bytes)
    → IsDotless a
    → IsDotless b
    → IsDotless c
    → split_dots [] (joined (joined a b) c) ≡ a ∷ b ∷ c ∷ []
split_dots-three a b c da db dc =
    ap (split_dots []) (append_assoc a (b'.' ∷ b) (b'.' ∷ c))
    ∙ (split_dots-joined [] a (joined b c) da
        ∙ ap (a ∷◌) (split_dots-joined [] b c db ∙ ap (b ∷◌) (split_dots-dotless [] c dc)))

check_parts_good :
    (k : Crypto) (now exp : ℕ) (header payload signature text : Bytes)
    → k.decode (pad signature) ≡ some (k.sign (joined header payload))
    → k.decode (pad payload) ≡ some text
    → k.exp_of text ≡ expires exp
    → check_parts k now (header ∷ payload ∷ signature ∷ []) ≡ some (ltb now exp)
check_parts_good k now exp header payload signature text s p e =
    let same = bytes_eq_refl (k.sign (joined header payload)) in ground arith

-- A token that the broker has minted is valid exactly until its time to live is over.
pub local_token_valid-mint_local_token :
    (k : Crypto) (now ttl later : ℕ)
    → IsLawful k
    → local_token_valid k later (mint_local_token k now ttl) ≡ some (ltb later (now + ttl))
unfolding local_token_valid mint_local_token
local_token_valid-mint_local_token k now ttl later l =
    let header = b64 k k.header in
    let payload = b64 k (k.claims now (now + ttl)) in
    let signature = k.sign (joined header payload) in
    let claims = k.claims now (now + ttl) in
    ap (check_parts k later) (
      split_dots-three header payload (b64 k signature) (b64-IsDotless k l k.header)
        (b64-IsDotless k l claims) (b64-IsDotless k l signature))
    ∙ check_parts_good k later (now + ttl) header payload (b64 k signature) claims
        (decode-b64 k l signature) (decode-b64 k l claims) (l.read_back now (now + ttl))

-- What a valid token is: three parts, of which the last is the broker's signature of the other two, and the second has not expired.
abbrev pub IsSigned : Crypto → ℕ → Bytes → Type 0
IsSigned k now token =
    (header : Bytes) × (payload : Bytes) × (signature : Bytes) × (split_dots [] token
      ≡ header ∷ payload ∷ signature ∷ [])
    × (k.decode (pad signature) ≡ some (k.sign (joined header payload)))
    × (is_current k now payload ≡ some true)

check_parts-signed :
    (k : Crypto) (now : ℕ) (header payload signature : Bytes)
    → check_parts k now (header ∷ payload ∷ signature ∷ []) ≡ some true
    → (k.decode (pad signature) ≡ some (k.sign (joined header payload)))
      × (is_current k now payload ≡ some true)
check_parts-signed k now header payload signature e =
    elim (Option-cases (k.decode (pad signature))) [
      | inl bad ↦ absurd (ground arith)
      | inr (got, decoded) ↦
          let same = bytes_eq_sound (k.sign (joined header payload)) got (ground arith) in
          (decoded ∙ ap some (sym same), ground arith)
    ]

-- Only a token that carries the broker's own signature of its two other parts is valid.
pub local_token_valid-IsSigned :
    (k : Crypto) (now : ℕ) (token : Bytes)
    → local_token_valid k now token ≡ some true
    → IsSigned k now token
unfolding local_token_valid
local_token_valid-IsSigned k now token e = of_parts (split_dots [] token) refl e
  where
    of_parts :
        (parts : List Bytes)
        → split_dots [] token ≡ parts
        → check_parts k now parts ≡ some true
        → IsSigned k now token
    of_parts [] s e = cc
    of_parts (a ∷ []) s e = cc
    of_parts (a ∷ b ∷ []) s e = cc
    of_parts (a ∷ b ∷ c ∷ []) s e =
        let (decoded, current) = check_parts-signed k now a b c e in (a, b, c, s, decoded, current)
    of_parts (a ∷ b ∷ c ∷ d ∷ ds) s e = cc
