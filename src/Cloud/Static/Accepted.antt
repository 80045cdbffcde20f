-- ===== src/Cloud/Static/Accepted.antt =====
-- What `parse_static_endpoints` accepts, whatever the config says.
use ziot_rtp_bridge.Base.{
  ℕ, ◌<◌, ◌≡◌, ◌⊎◌, refl, inl, inr, Option, none, some, List, [], ◌∷◌, ltb, arith, Bytes,
  Option-cases, if-cases, ltb→lt, ◌>>=◌,
}
use ziot_rtp_bridge.Base.Int.{ℤ, pos, negsuc}
use ziot_rtp_bridge.Broker.Token.{split_dots}
use ziot_rtp_bridge.Cloud.Number.{is_blank, strip, int_text}
use ziot_rtp_bridge.Cloud.Static.{
  Octets, dotted, octet, decimal, octets_of, ip_address, is_bracket, rpartition, split_port, accept,
  parse_endpoint, Parsed, endpoints, refused, keep, parse_static_endpoints,
}
use ziot_rtp_bridge.Cloud.Static.Printed.{AreOctets}

-- An IPv4 address in its dotted form, and a port of 16 bits.
abbrev pub IsEndpoint : Bytes × ℕ → Type 0
IsEndpoint (host, port) = (o : Octets) × AreOctets o × (host ≡ dotted o) × (port < 65536)

-- One endpoint for each entry, in order.
abbrev pub AreAccepted : List (Bytes × Bytes) → List (Bytes × (Bytes × ℕ)) → Type 0
AreAccepted [] [] = Unit
AreAccepted ((uid, ep) ∷ raw) ((key, endpoint) ∷ out) =
    (key ≡ uid) × IsEndpoint endpoint × AreAccepted raw out
AreAccepted _ _ = 1 < 0

-- The key of the first entry that cannot be read.
abbrev pub IsRefused : Bytes → List (Bytes × Bytes) → Type 0
IsRefused key [] = 1 < 0
IsRefused key ((uid, ep) ∷ raw) =
    ((parse_endpoint ep ≡ none) × (key ≡ uid))
    ⊎ (((e : Bytes × ℕ) × (parse_endpoint ep ≡ some e)) × IsRefused key raw)

abbrev pub IsParsed : List (Bytes × Bytes) → Parsed → Type 0
IsParsed raw (endpoints out) = AreAccepted raw out
IsParsed raw (refused key) = IsRefused key raw

octet_small : (s : Bytes) (n : ℕ) → octet s ≡ some n → n < 256
octet_small [] n h = absurd (ground arith)
octet_small (c ∷ cs) n h = elim (Option-cases (decimal 0 (c ∷ cs))) [
  | inl bad ↦ absurd (ground arith)
  | inr (m, e) ↦ ground arith
]

abbrev IfOctets : Option Octets → Type 0
IfOctets none = Unit
IfOctets (some o) = AreOctets o

bind-IfOctets :
    (x : Option ℕ) (f : ℕ → Option Octets)
    → ((n : ℕ) → x ≡ some n → IfOctets (f n))
    → IfOctets (x >>= f)
bind-IfOctets none f h = tt
bind-IfOctets (some n) f h = h n refl

octets_small : (parts : List Bytes) → IfOctets (octets_of parts)
octets_small [] = tt
octets_small (a ∷ []) = tt
octets_small (a ∷ b ∷ []) = tt
octets_small (a ∷ b ∷ c ∷ []) = tt
octets_small (a ∷ b ∷ c ∷ d ∷ []) = bind-IfOctets (octet a) _ (λ m ha.
    bind-IfOctets (octet b) _ (λ n hb. bind-IfOctets (octet c) _ (λ p hc.
      bind-IfOctets (octet d) _ (λ q hd.
        (octet_small a m ha, octet_small b n hb, octet_small c p hc, octet_small d q hd)))))
octets_small (a ∷ b ∷ c ∷ d ∷ e ∷ es) = tt

abbrev IfEndpoint : Option (Bytes × ℕ) → Type 0
IfEndpoint none = Unit
IfEndpoint (some e) = IsEndpoint e

accept-IfEndpoint : (o : Option Octets) (port : Option ℤ) → IfOctets o → IfEndpoint (accept o port)
accept-IfEndpoint none port small = tt
accept-IfEndpoint (some o) none small = tt
accept-IfEndpoint (some o) (some (negsuc n)) small = tt
accept-IfEndpoint (some o) (some (pos port)) small =
    if-cases IfEndpoint (ltb port 65536) (λ fits. (o, small, refl, ltb→lt port 65536 fits))
      (λ _. tt)

parse_endpoint-IfEndpoint : (ep : Bytes) → IfEndpoint (parse_endpoint ep)
unfolding parse_endpoint
parse_endpoint-IfEndpoint ep =
    let text_ep = strip is_blank ep in
    let halves = split_port text_ep (rpartition text_ep) in
    accept-IfEndpoint (ip_address (strip is_bracket halves.0)) (int_text halves.1)
      (octets_small (split_dots [] (strip is_bracket halves.0)))

keep-IsParsed :
    (uid ep : Bytes) (raw : List (Bytes × Bytes)) (e : Option (Bytes × ℕ)) (rest : Parsed)
    → parse_endpoint ep ≡ e
    → IfEndpoint e
    → IsParsed raw rest
    → IsParsed ((uid, ep) ∷ raw) (keep uid e rest)
keep-IsParsed uid ep raw none rest same h g = inl (same, refl)
keep-IsParsed uid ep raw (some e) (endpoints out) same h g = (refl, h, g)
keep-IsParsed uid ep raw (some e) (refused key) same h g = inr ((e, same), g)

-- Whatever the config says: if no entry is refused, there is one endpoint for each entry in order, an IPv4
-- address in dotted form with a port below 65536, and otherwise the refusal names the first entry that
-- cannot be read.
pub parse_static_endpoints-IsParsed :
    (raw : List (Bytes × Bytes)) → IsParsed raw (parse_static_endpoints raw)
unfolding parse_static_endpoints
parse_static_endpoints-IsParsed [] = tt
parse_static_endpoints-IsParsed ((uid, ep) ∷ raw) =
    keep-IsParsed uid ep raw (parse_endpoint ep) (parse_static_endpoints raw) refl
      (parse_endpoint-IfEndpoint ep) (parse_static_endpoints-IsParsed raw)
