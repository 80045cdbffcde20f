-- ===== src/Cloud/Static/Printed.antt =====
-- Endpoints as they are written, which `parse_static_endpoints` reads back.
use ziot_rtp_bridge.Base.{
  ℕ, zero, suc, ◌+◌, ◌<◌, ◌≡◌, ◌∙◌, refl, ap, ap₂, inl, inr, Bool, true, false, ◌&&◌, Option, none,
  some, List, [], ◌∷◌, ◌++◌, ◌==◌, ltb, leb, Bytes, ascii, arith, Bool-cases,
}
use ziot_rtp_bridge.Base.Int.{pos}
use ziot_rtp_bridge.Broker.Api.{str}
use ziot_rtp_bridge.Broker.Token.{split_dots}
use ziot_rtp_bridge.Broker.Token.Signed.{IsDotless, split_dots-joined, split_dots-dotless}
use ziot_rtp_bridge.Cloud.Number.{
  is_blank, Stays, strip-Stays, AreDigits, digits_from-AreDigits, int_text-str,
}
use ziot_rtp_bridge.Cloud.Static.{
  Octets, dotted, octet, octets_of, ip_address, is_bracket, rpartition, split_port, accept,
  parts_of, parse_endpoint, endpoints, keep, parse_static_endpoints,
}

str-AreDigits : (n : ℕ) → AreDigits (str (pos n))
unfolding str
str-AreDigits n = digits_from-AreDigits (n + 1) n [] tt

digits-IsDotless : (s : Bytes) → AreDigits s → IsDotless s
digits-IsDotless [] h = tt
digits-IsDotless (c ∷ cs) (h, hs) = (ground arith, digits-IsDotless cs hs)

-- An octet is read back. There are 256 of them.
abbrev reads : Option ℕ → ℕ → Bool
reads none n = false
reads (some m) n = m == n

reads_sound : (o : Option ℕ) (n : ℕ) → reads o n ≡ true → o ≡ some n
reads_sound none n h = cc
reads_sound (some m) n h = ap some (ground arith)

abbrev all_read : ℕ → Bool
all_read zero = true
all_read (suc n) = reads (octet (str (pos n))) n && all_read n

all_read_below : (k n : ℕ) → all_read k ≡ true → n < k → octet (str (pos n)) ≡ some n
all_read_below zero n h small = absurd (omega arith)
all_read_below (suc k) n h small = elim (Bool-cases (n == k)) [
  | inl same ↦
      let e : n ≡ k = ground arith in rw e (reads_sound (octet (str (pos k))) k (ground arith))
  | inr other ↦ all_read_below k n (ground arith) (ground arith)
]

all_octets : all_read 256 ≡ true
unfolding str
all_octets = refl

octet-str : (n : ℕ) → n < 256 → octet (str (pos n)) ≡ some n
octet-str n h = all_read_below 256 n all_octets h

abbrev pub AreOctets : Octets → Type 0
AreOctets o = (o.a < 256) × (o.b < 256) × (o.c < 256) × (o.d < 256)

split_dots-dotted :
    (o : Octets)
    → split_dots [] (dotted o) ≡ str (pos o.a) ∷ str (pos o.b) ∷ str (pos o.c) ∷ str (pos o.d) ∷ []
unfolding dotted
split_dots-dotted o =
    let a = str (pos o.a) in
    let b = str (pos o.b) in
    let c = str (pos o.c) in
    let d = str (pos o.d) in
    let dotless = λ (n : ℕ). digits-IsDotless (str (pos n)) (str-AreDigits n) in
    split_dots-joined [] a (b ++ (b'.' ∷ (c ++ (b'.' ∷ d)))) (dotless o.a)
    ∙ ap (a ∷◌) (
        split_dots-joined [] b (c ++ (b'.' ∷ d)) (dotless o.b)
        ∙ ap (b ∷◌) (
            split_dots-joined [] c d (dotless o.c)
            ∙ ap (c ∷◌) (split_dots-dotless [] d (dotless o.d))))

ip_address-dotted : (o : Octets) → AreOctets o → ip_address (dotted o) ≡ some o
ip_address-dotted o (ha, hb, hc, hd) =
    ap octets_of (split_dots-dotted o)
    ∙ rw (octet-str o.a ha, octet-str o.b hb, octet-str o.c hc, octet-str o.d hd) refl

-- The characters of an endpoint: dots, digits and the colon.
abbrev AreWritten : Bytes → Type 0
AreWritten [] = Unit
AreWritten (c ∷ cs) = ((leb b'.' c && leb c b':') ≡ true) × AreWritten cs

AreWritten-append : (s t : Bytes) → AreWritten s → AreWritten t → AreWritten (s ++ t)
AreWritten-append [] t h g = g
AreWritten-append (c ∷ cs) t (h, hs) g = (h, AreWritten-append cs t hs g)

digits-AreWritten : (s : Bytes) → AreDigits s → AreWritten s
digits-AreWritten [] h = tt
digits-AreWritten (c ∷ cs) (h, hs) = (ground arith, digits-AreWritten cs hs)

written_no_space : (s : Bytes) → AreWritten s → Stays is_blank s
written_no_space [] h = tt
written_no_space (c ∷ cs) (h, hs) = (ground arith, written_no_space cs hs)

written_no_bracket : (s : Bytes) → AreWritten s → Stays is_bracket s
written_no_bracket [] h = tt
written_no_bracket (c ∷ cs) (h, hs) = (ground arith, written_no_bracket cs hs)

dotted-AreWritten : (o : Octets) → AreWritten (dotted o)
unfolding dotted
dotted-AreWritten o =
    let digits = λ (n : ℕ). digits-AreWritten (str (pos n)) (str-AreDigits n) in
    AreWritten-append (str (pos o.a)) _ (digits o.a) (
      refl,
      AreWritten-append (str (pos o.b)) _ (digits o.b) (
        refl,
        AreWritten-append (str (pos o.c)) (b'.' ∷ str (pos o.d)) (digits o.c) (refl, digits o.d),
      ),
    )

-- No colon stands in a text.
abbrev IsColonless : Bytes → Type 0
IsColonless [] = Unit
IsColonless (c ∷ cs) = ((c == b':') ≡ false) × IsColonless cs

IsColonless-append : (s t : Bytes) → IsColonless s → IsColonless t → IsColonless (s ++ t)
IsColonless-append [] t h g = g
IsColonless-append (c ∷ cs) t (h, hs) g = (h, IsColonless-append cs t hs g)

digits-IsColonless : (s : Bytes) → AreDigits s → IsColonless s
digits-IsColonless [] h = tt
digits-IsColonless (c ∷ cs) (h, hs) = (ground arith, digits-IsColonless cs hs)

dotted-IsColonless : (o : Octets) → IsColonless (dotted o)
unfolding dotted
dotted-IsColonless o =
    let digits = λ (n : ℕ). digits-IsColonless (str (pos n)) (str-AreDigits n) in
    IsColonless-append (str (pos o.a)) _ (digits o.a) (
      refl,
      IsColonless-append (str (pos o.b)) _ (digits o.b) (
        refl,
        IsColonless-append (str (pos o.c)) (b'.' ∷ str (pos o.d)) (digits o.c) (refl, digits o.d),
      ),
    )

rpartition-none : (s : Bytes) → IsColonless s → rpartition s ≡ none
unfolding rpartition
rpartition-none [] h = refl
rpartition-none (c ∷ cs) (h, hs) = rw (rpartition-none cs hs, h) refl

rpartition-some : (s t : Bytes) → IsColonless t → rpartition (s ++ (b':' ∷ t)) ≡ some (s, t)
unfolding rpartition
rpartition-some [] t h = rw (rpartition-none t h) refl
rpartition-some (c ∷ cs) t h = rw (rpartition-some cs t h) refl

-- An endpoint as it is written, with its port or without.
abbrev pub printed : Octets → Option ℕ → Bytes
printed o none = dotted o
printed o (some port) = dotted o ++ (b':' ∷ str (pos port))

abbrev pub port_or_zero : Option ℕ → ℕ
port_or_zero none = 0
port_or_zero (some port) = port

abbrev pub IsPort : Option ℕ → Type 0
IsPort none = Unit
IsPort (some port) = port < 65536

printed-AreWritten : (o : Octets) (p : Option ℕ) → AreWritten (printed o p)
printed-AreWritten o none = dotted-AreWritten o
printed-AreWritten o (some port) =
    AreWritten-append (dotted o) (b':' ∷ str (pos port)) (dotted-AreWritten o)
      (refl, digits-AreWritten (str (pos port)) (str-AreDigits port))

zero_text : ascii "0" ≡ str (pos 0)
unfolding str
zero_text = refl

split_port-printed :
    (o : Octets) (p : Option ℕ)
    → split_port (printed o p) (rpartition (printed o p)) ≡ (dotted o, str (pos (port_or_zero p)))
split_port-printed o none =
    rw (rpartition-none (dotted o) (dotted-IsColonless o))
      (ap (λ (s : Bytes). (dotted o, s)) zero_text)
split_port-printed o (some port) =
    rw
      (rpartition-some (dotted o) (str (pos port))
        (digits-IsColonless (str (pos port)) (str-AreDigits port)))
      refl

port_in_range : (p : Option ℕ) → IsPort p → ltb (port_or_zero p) 65536 ≡ true
port_in_range none h = refl
port_in_range (some port) h = ground arith

parts_of-dotted :
    (o : Octets) (port : ℕ)
    → AreOctets o
    → ltb port 65536 ≡ true
    → parts_of (dotted o, str (pos port)) ≡ some (dotted o, port)
parts_of-dotted o port h small =
    ap₂ accept
      (ap ip_address
          (strip-Stays is_bracket (dotted o) (written_no_bracket _ (dotted-AreWritten o)))
        ∙ ip_address-dotted o h)
      (int_text-str port)
    ∙ rw small refl

parse_endpoint-printed :
    (o : Octets) (p : Option ℕ)
    → AreOctets o
    → IsPort p
    → parse_endpoint (printed o p) ≡ some (dotted o, port_or_zero p)
unfolding parse_endpoint
parse_endpoint-printed o p h small =
    ap (λ (s : Bytes). parts_of (split_port s (rpartition s)))
      (strip-Stays is_blank (printed o p) (written_no_space _ (printed-AreWritten o p)))
    ∙ ap parts_of (split_port-printed o p)
    ∙ parts_of-dotted o (port_or_zero p) h (port_in_range p small)

-- An entry of the config, by its address and port.
abbrev pub Entry : Type 0
Entry = Bytes × (Octets × Option ℕ)

abbrev pub AreEntries : List Entry → Type 0
AreEntries [] = Unit
AreEntries ((uid, (o, p)) ∷ es) = (AreOctets o × IsPort p) × AreEntries es

abbrev pub config_of : List Entry → List (Bytes × Bytes)
config_of [] = []
config_of ((uid, (o, p)) ∷ es) = (uid, printed o p) ∷ config_of es

abbrev pub endpoints_of : List Entry → List (Bytes × (Bytes × ℕ))
endpoints_of [] = []
endpoints_of ((uid, (o, p)) ∷ es) = (uid, (dotted o, port_or_zero p)) ∷ endpoints_of es

-- A config of IPv4 addresses, each with a port below 65536 or without one, is read as written: the address
-- in its dotted form, and the port, 0 where there is none, in the order of the config.
pub parse_static_endpoints-config_of :
    (es : List Entry)
    → AreEntries es
    → parse_static_endpoints (config_of es) ≡ endpoints (endpoints_of es)
unfolding parse_static_endpoints
parse_static_endpoints-config_of [] h = refl
parse_static_endpoints-config_of ((uid, (o, p)) ∷ es) ((ho, hp), hs) =
    ap₂ (keep uid) (parse_endpoint-printed o p ho hp) (parse_static_endpoints-config_of es hs)
