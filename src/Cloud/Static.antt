-- ===== src/Cloud/Static.antt =====
-- `parse_static_endpoints` of ziot_rtp_bridge.py, on ASCII texts. A value of the config is the text that
-- `str()` makes of it, and `ipaddress` is modelled as far as IPv4 goes, since all else is refused.
pub mod Printed
pub mod Accepted
use ziot_rtp_bridge.Base.{
  ℕ, ◌+◌, ◌*◌, Bool, true, false, not, ◌&&◌, ◌||◌, Option, none, some, List, [], ◌∷◌, ◌++◌,
  if◌then◌else◌, ◌==◌, ltb, leb, Bytes, ascii, length, ◌>>=◌,
}
use ziot_rtp_bridge.Base.Int.{ℤ, pos, negsuc}
use ziot_rtp_bridge.Broker.Api.{str}
use ziot_rtp_bridge.Broker.Token.{split_dots}
use ziot_rtp_bridge.Cloud.Version.{is_digit, digit_value}
use ziot_rtp_bridge.Cloud.Number.{is_blank, strip, lstrip, rstrip, int_text}

-- The four octets of an IPv4 address.
pub record Octets : Type 0 where
  pub a : ℕ
  pub b : ℕ
  pub c : ℕ
  pub d : ℕ

-- `str(addr)`
unfoldable pub dotted : Octets → Bytes
unfolding str
dotted o =
    str (pos o.a) ++ (b'.' ∷ (str (pos o.b) ++ (b'.' ∷ (str (pos o.c) ++ (b'.' ∷ str (pos o.d))))))

abbrev pub decimal : ℕ → Bytes → Option ℕ
decimal n [] = some n
decimal n (c ∷ cs) =
    let rest = decimal (n * 10 + digit_value c) cs in if is_digit c then rest else none

-- One octet: at most three digits, without a zero in front, and at most 255.
abbrev pub octet : Bytes → Option ℕ
octet [] = none
octet (c ∷ cs) =
    if ltb 3 (length (c ∷ cs)) || (c == b'0' && ltb 1 (length (c ∷ cs)))
    then none
    else (decimal 0 (c ∷ cs) >>= λ n. if ltb 255 n then none else some n)

abbrev pub octets_of : List Bytes → Option Octets
octets_of (a ∷ b ∷ c ∷ d ∷ []) = octet a >>= λ (m : ℕ). octet b >>= λ (n : ℕ).
    octet c >>= λ (p : ℕ). octet d >>= λ (q : ℕ). some (record { a = m; b = n; c = p; d = q })
octets_of _ = none

-- `ipaddress.ip_address(s)`, if it is an IPv4 address.
abbrev pub ip_address : Bytes → Option Octets
ip_address s = octets_of (split_dots [] s)

abbrev pub is_bracket : ℕ → Bool
is_bracket c = c == b'[' || (c == b']' || c == b' ')

-- `s.rpartition(":")`, if there is a colon.
unfoldable pub rpartition : Bytes → Option (Bytes × Bytes)
rpartition [] = none
rpartition (c ∷ cs) = elim (rpartition cs) [
  | some (front, end) ↦ some (c ∷ front, end)
  | none ↦ if c == b':' then some ([], cs) else none
]

abbrev pub split_port : Bytes → Option (Bytes × Bytes) → Bytes × Bytes
split_port whole none = (whole, ascii "0")
split_port whole (some halves) = halves

-- The address and the port, where both are accepted.
abbrev pub accept : Option Octets → Option ℤ → Option (Bytes × ℕ)
accept (some o) (some (pos port)) = if ltb port 65536 then some (dotted o, port) else none
accept _ _ = none

abbrev pub parts_of : Bytes × Bytes → Option (Bytes × ℕ)
parts_of (ip_s, port_s) = accept (ip_address (strip is_bracket ip_s)) (int_text port_s)

unfoldable pub parse_endpoint : Bytes → Option (Bytes × ℕ)
unfolding dotted lstrip rstrip int_text split_dots rpartition
parse_endpoint ep =
    let text_ep = strip is_blank ep in parts_of (split_port text_ep (rpartition text_ep))

-- The endpoints, or the `ValueError` with the key of the entry that is refused.
pub data Parsed : Type 0 where
  endpoints : List (Bytes × (Bytes × ℕ)) → Parsed
  refused : Bytes → Parsed

abbrev pub add : Bytes → Bytes × ℕ → Parsed → Parsed
add uid endpoint (endpoints out) = endpoints ((uid, endpoint) ∷ out)
add uid endpoint (refused other) = refused other

-- The first entry, in front of what the others give.
abbrev pub keep : Bytes → Option (Bytes × ℕ) → Parsed → Parsed
keep uid none rest = refused uid
keep uid (some endpoint) rest = add uid endpoint rest

-- The entries are those of a dict, so no key comes twice.
unfoldable pub parse_static_endpoints : List (Bytes × Bytes) → Parsed
unfolding parse_endpoint
parse_static_endpoints [] = endpoints []
parse_static_endpoints ((uid, ep) ∷ raw) = keep uid (parse_endpoint ep) (parse_static_endpoints raw)
