-- ===== src/Broker/Token.antt =====
-- `mint_local_token` and `local_token_valid` of ziot_fake_cloud.py. The library's base64, JSON and HMAC are arguments, the
-- claims are their expiry, and times are seconds.
pub mod Signed
mod Tests
use ziot_rtp_bridge.Base.{
  ℕ, ◌+◌, ◌-◌, ◌%◌, Bool, true, false, not, Option, none, some, List, [], ◌∷◌, ◌++◌, if◌then◌else◌,
  ◌==◌, ltb, Bytes, bytes_eq, length, replicate,
}

-- What `json.loads` and `int(claims.get("exp", 0))` make of a text: no JSON, claims of which the expiry cannot
-- be read, which raises, or the expiry, 0 a missing one.
pub data Claims : Type 0 where
  no_json no_number : Claims
  expires : ℕ → Claims

-- `urlsafe_b64encode` and `urlsafe_b64decode` (`none` is an exception), the signature with the secret of the
-- broker, the claims as JSON and how they are read, and the header as JSON.
pub record Crypto : Type 0 where
  pub encode : Bytes → Bytes
  pub decode : Bytes → Option Bytes
  pub sign : Bytes → Bytes
  pub claims : ℕ → ℕ → Bytes
  pub exp_of : Bytes → Claims
  pub header : Bytes

-- `rstrip(b"=")`
abbrev pub strip_pad : Bytes → Bytes
strip_pad [] = []
strip_pad (c ∷ cs) = elim (strip_pad cs) [
  | [] ↦ if c == b'=' then [] else c ∷ []
  | d ∷ ds ↦ c ∷ d ∷ ds
]

-- `"=" * (-len(s) % 4)`
abbrev pub pad : Bytes → Bytes
pad s = s ++ replicate ((4 - length s % 4) % 4) b'='

-- `b64`
abbrev pub b64 : Crypto → Bytes → Bytes
b64 k raw = strip_pad (k.encode raw)

-- `s.split(".")`, with the part read so far.
unfoldable pub split_dots : Bytes → Bytes → List Bytes
split_dots part [] = part ∷ []
split_dots part (c ∷ cs) =
    let next = split_dots [] cs in
    let longer = split_dots (part ++ c ∷ []) cs in if c == b'.' then part ∷ next else longer

abbrev pub joined : Bytes → Bytes → Bytes
joined a b = a ++ (b'.' ∷ b)

unfoldable pub mint_local_token : Crypto → ℕ → ℕ → Bytes
mint_local_token k now ttl =
    let signing_input = joined (b64 k k.header) (b64 k (k.claims now (now + ttl))) in
    joined signing_input (b64 k (k.sign signing_input))

-- The claims of a payload have not expired; `none` is an exception.
abbrev pub is_current : Crypto → ℕ → Bytes → Option Bool
is_current k now payload = elim (k.decode (pad payload)) [
  | none ↦ some false
  | some text ↦ elim (k.exp_of text) [
    | no_json ↦ some false
    | no_number ↦ none
    | expires exp ↦ some (ltb now exp)
  ]
]

abbrev pub check_parts : Crypto → ℕ → List Bytes → Option Bool
check_parts k now (header ∷ payload ∷ signature ∷ []) = elim (k.decode (pad signature)) [
  | none ↦ some false
  | some got ↦
      if not (bytes_eq (k.sign (joined header payload)) got)
      then some false
      else is_current k now payload
]
check_parts k now _ = some false

-- `none` is the exception of an expiry that is no number.
unfoldable pub local_token_valid : Crypto → ℕ → Bytes → Option Bool
unfolding split_dots
local_token_valid k now token = check_parts k now (split_dots [] token)
