-- ===== src/Rtp/Payload.antt =====
-- The layout of a packet by RFC 3550, independent of `rtp_payload`.
use ziot_rtp_bridge.Base.{
  inl, inr, ℕ, ◌+◌, ◌-◌, ◌*◌, ◌≤◌, ◌<◌, ◌≡◌, refl, sym, ap, ◌∙◌, Bool, true, false, some, [], ◌++◌,
  if◌then◌else◌, Bytes, byte_at, be16_at, length, take, drop, arith, length-append, length-take,
  length-drop, get_or-drop, take-append, drop-append, take-append-drop, append-nil, Bool-cases,
}
use ziot_rtp_bridge.Rtp.{
  csrc_count, has_extension, has_padding, skip_extension, strip_padding, rtp_payload,
}

-- The size of the fixed header, the CSRC list and the extension.
abbrev pub header_size : Bytes → ℕ
header_size pkt =
    let fixed = 12 + 4 * csrc_count pkt in
    if has_extension pkt then fixed + (4 + 4 * be16_at pkt (fixed + 2)) else fixed

-- The padding that the header's flag announces: its last byte counts it.
abbrev pub IsPadding : Bool → Bytes → ℕ → Type 0
IsPadding true padding last = (0 < length padding) × (last ≡ length padding)
IsPadding false padding last = padding ≡ []

-- The packet is a header, the payload and the padding.
pub record Carries (pkt payload : Bytes) : Type 0 where
  pub header : Bytes
  pub padding : Bytes
  pub splits : pkt ≡ header ++ (payload ++ padding)
  pub header_len : length header ≡ header_size pkt
  pub padding_ok : IsPadding (has_padding pkt) padding (byte_at pkt (length pkt - 1))

-- The offset that the code reaches, where the packet holds the header.
offset :
    (pkt : Bytes)
    → header_size pkt ≤ length pkt
    → skip_extension pkt (12 + 4 * csrc_count pkt) ≡ some (header_size pkt)
offset pkt h = ground arith

offset_some :
    (pkt : Bytes) {off : ℕ}
    → skip_extension pkt (12 + 4 * csrc_count pkt) ≡ some off
    → off ≡ header_size pkt
offset_some pkt h = ground arith

rtp_payload-steps :
    (pkt : Bytes) {p : Bytes}
    → rtp_payload pkt ≡ some p
    → (header_size pkt ≤ length pkt) × (strip_padding pkt (drop (header_size pkt) pkt) ≡ some p)
unfolding rtp_payload
rtp_payload-steps pkt e = ground arith

last_of_rest :
    (n : ℕ) (pkt : Bytes)
    → 0 < length (drop n pkt)
    → byte_at (drop n pkt) (length (drop n pkt) - 1) ≡ byte_at pkt (length pkt - 1)
last_of_rest n pkt h =
    let e : n + (length (drop n pkt) - 1) ≡ length pkt - 1 = omega (arith, length-drop n pkt) in
    get_or-drop n (length (drop n pkt) - 1) pkt 0 ∙ ap (byte_at pkt) e

strip_padding_facts :
    (pkt rest : Bytes) {p : Bytes}
    → has_padding pkt ≡ true
    → strip_padding pkt rest ≡ some p
    → let pad = byte_at rest (length rest - 1) in
      (0 < pad) × (pad ≤ length rest) × (p ≡ take (length rest - pad) rest)
strip_padding_facts pkt rest h e = ground arith

-- What the last step leaves is the rest without its padding.
strip_padding-some :
    (pkt rest : Bytes) {p : Bytes}
    → (0 < length rest → byte_at rest (length rest - 1) ≡ byte_at pkt (length pkt - 1))
    → strip_padding pkt rest ≡ some p
    → (padding : Bytes) × (rest ≡ p ++ padding)
      × IsPadding (has_padding pkt) padding (byte_at pkt (length pkt - 1))
strip_padding-some pkt rest {p} last e = elim (Bool-cases (has_padding pkt)) [
  | inr plain ↦ rw plain ([], ground (arith, append-nil p), refl)
  | inl padded ↦
      let (pos, fits, taken) = strip_padding_facts pkt rest padded e in
      let pad = byte_at rest (length rest - 1) in
      let sized = length-drop (length rest - pad) rest in
      rw padded (
        drop (length rest - pad) rest,
        rw taken (sym (take-append-drop (length rest - pad) rest)),
        (omega arith, sym (last (omega arith)) ∙ omega arith),
      )
]

-- What is returned is the payload of the packet.
pub rtp_payload-Carries : (pkt : Bytes) {p : Bytes} → rtp_payload pkt ≡ some p → Carries pkt p
rtp_payload-Carries pkt {p} e =
    let (fits, strip) = rtp_payload-steps pkt e in
    let n = header_size pkt in
    let (padding, splits, ok) = strip_padding-some pkt (drop n pkt) (last_of_rest n pkt) strip in
    record {
      header = take n pkt;
      padding = padding;
      splits = sym (take-append-drop n pkt) ∙ ap (◌++◌ (take n pkt)) splits;
      header_len = omega (arith, length-take n pkt);
      padding_ok = ok;
    }

strip_padding-append :
    (pkt p padding : Bytes)
    → IsPadding (has_padding pkt) padding (byte_at pkt (length pkt - 1))
    → (0 < length (p ++ padding)
        → byte_at (p ++ padding) (length (p ++ padding) - 1) ≡ byte_at pkt (length pkt - 1))
    → strip_padding pkt (p ++ padding) ≡ some p
strip_padding-append pkt p padding ok last = elim (Bool-cases (has_padding pkt)) [
  | inr plain ↦
      let none_left : padding ≡ [] = rw plain at ok in
      rw (plain, none_left) (ap some (append-nil p))
  | inl padded ↦
      let (pos, count) : (0 < length padding) × (byte_at pkt (length pkt - 1) ≡ length padding) =
        rw padded at ok in
      let sized = length-append p padding in
      let pad = last (omega arith) in
      let taken = take-append (length (p ++ padding) - length padding) p padding (omega arith) in
      ground arith
]

-- And of every packet laid out as RFC 3550 says, the payload is returned.
pub Carries-rtp_payload : (pkt : Bytes) {p : Bytes} → Carries pkt p → rtp_payload pkt ≡ some p
unfolding rtp_payload
Carries-rtp_payload pkt {p} c =
    let n = header_size pkt in
    let sized = length-append c.header (p ++ c.padding) in
    let fits : n ≤ length pkt = omega (arith, ap length c.splits, c.header_len) in
    let rest : drop n pkt ≡ p ++ c.padding =
      ap (drop n) c.splits ∙ drop-append n c.header (p ++ c.padding) (sym c.header_len) in
    let stripped : strip_padding pkt (drop n pkt) ≡ some p =
      rw rest
        (strip_padding-append pkt p c.padding c.padding_ok (rw rest at (last_of_rest n pkt))) in
    ground (arith, offset pkt fits)
