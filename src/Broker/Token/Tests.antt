-- ===== src/Broker/Token/Tests.antt =====
-- A broker with an encoding of four characters for a byte.
use ziot_rtp_bridge.Base.{
  ◌+◌, ◌-◌, ◌%◌, ◌≡◌, refl, Option, none, some, [], ◌∷◌, ◌++◌, ltb, Bytes, length, replicate, arith,
  ascii,
}
use ziot_rtp_bridge.Base.Int.{pos}
use ziot_rtp_bridge.Cloud.Number.{Json, number}
use ziot_rtp_bridge.Broker.Token.{
  Crypto, Claims, no_json, expires, mint_local_token, local_token_valid,
}
use ziot_rtp_bridge.Broker.Token.Signed.{
  IsDotless, IsUnpadded, IsLawful, local_token_valid-mint_local_token,
}

-- Four characters for a byte, and two with two equals signs at the end.
abbrev body : Bytes → Bytes
body [] = b'A' ∷ b'A' ∷ []
body (c ∷ cs) = b'A' ∷ b'A' ∷ b'A' ∷ (c + 100) ∷ body cs

abbrev encode : Bytes → Bytes
encode s = body s ++ replicate 2 b'='

abbrev decode : Bytes → Option Bytes
decode (a ∷ b ∷ c ∷ d ∷ e ∷ es) = elim (decode (e ∷ es)) [
  | none ↦ none
  | some r ↦ some ((d - 100) ∷ r)
]
decode _ = some []

abbrev first_byte : Bytes → Claims
first_byte [] = no_json
first_byte (c ∷ cs) = expires c

abbrev crypto : Crypto
crypto = record {
  encode = encode;
  decode = decode;
  sign = λ s. length s ∷ [];
  claims = λ now exp. exp ∷ [];
  exp_of = first_byte;
  header = ascii "h";
}

body-IsUnpadded : (s : Bytes) → IsUnpadded (body s)
body-IsUnpadded [] = (refl, (refl, tt))
body-IsUnpadded (c ∷ cs) = (refl, (refl, (refl, (ground arith, body-IsUnpadded cs))))

body-IsDotless : (s : Bytes) → IsDotless (body s)
body-IsDotless [] = (refl, (refl, tt))
body-IsDotless (c ∷ cs) = (refl, (refl, (refl, (ground arith, body-IsDotless cs))))

length-body : (s : Bytes) → (length (body s) + 2) % 4 ≡ 0
length-body [] = refl
length-body (c ∷ cs) = let rest = length-body cs in omega arith

decode-encode : (s : Bytes) → decode (encode s) ≡ some s
decode-encode [] = refl
decode-encode (c ∷ []) = ground arith
decode-encode (c ∷ d ∷ ds) = let rest = decode-encode (d ∷ ds) in ground arith

crypto-IsLawful : IsLawful crypto
crypto-IsLawful = record {
  encoding = λ raw. record {
    body = body raw;
    signs = 2;
    whole = refl;
    few = omega arith;
    fours = length-body raw;
    unpadded = body-IsUnpadded raw;
    dotless = body-IsDotless raw;
  };
  decoded = decode-encode;
  read_back = λ now exp. refl;
}

abbrev token : Bytes
token = mint_local_token crypto 50 10

local_token_valid-mint_local_token_example :
    local_token_valid crypto 59 (mint_local_token crypto 50 10) ≡ some (ltb 59 (50 + 10))
local_token_valid-mint_local_token_example =
    local_token_valid-mint_local_token crypto 50 10 59 crypto-IsLawful

abbrev first_text : Bytes → Option Json
first_text [] = none
first_text (c ∷ cs) = some (number (pos c))
