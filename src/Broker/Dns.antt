-- ===== src/Broker/Dns.antt =====
-- `_dns_name`, `_dns_answer` and the choice of `DnsHandler.handle` of ziot_fake_cloud.py. Labels are their bytes.
pub mod Reply
mod Tests
use ziot_rtp_bridge.Base.{
  ℕ, zero, suc, ◌+◌, ◌-◌, Bool, true, false, not, ◌&&◌, ◌||◌, Option, none, some, List, [], ◌∷◌,
  ◌++◌, if◌then◌else◌, ◌==◌, ltb, leb, Bytes, bytes_eq, be16_at, length, take, drop, ascii, ◌>>=◌,
}

-- The labels from an offset on, with how many have been read; `none` is a malformed name. Each round takes
-- a byte at least, so the length is fuel enough.
unfoldable pub read_labels : ℕ → ℕ → Bytes → Option (List Bytes)
read_labels zero seen s = none
read_labels (suc fuel) seen [] = none
read_labels (suc fuel) seen (n ∷ rest) =
    let later = read_labels fuel (seen + 1) (drop n rest) in
    if n == 0
    then some []
    else if leb 64 n
    then none
    else if leb 8 seen
    then none
    else (later >>= λ labels. some (take n rest ∷ labels))

-- `".".join(labels) or None`
abbrev pub join_labels : List Bytes → Option Bytes
join_labels [] = none
join_labels (l ∷ []) = some l
join_labels (l ∷ m ∷ ls) = join_labels (m ∷ ls) >>= λ name. some (l ++ (b'.' ∷ name))

unfoldable pub dns_name : Bytes → Option Bytes
unfolding read_labels
dns_name query =
    if ltb (length query) 12
    then none
    else (read_labels (length query) 0 (drop 12 query) >>= λ labels. join_labels labels)

-- The bytes of the name, with its root label; `none` is an `IndexError`.
unfoldable pub name_size : ℕ → Bytes → Option ℕ
name_size zero s = none
name_size (suc fuel) [] = none
name_size (suc fuel) (n ∷ rest) =
    let later = name_size fuel (drop n rest) in
    if n == 0 then some 1 else (later >>= λ size. some (1 + (n + size)))

abbrev pub header : Bytes → ℕ → Bytes
header query answers = take 2 query ++ (0x81 ∷ 0x80 ∷ 0 ∷ 1 ∷ 0 ∷ answers ∷ 0 ∷ 0 ∷ 0 ∷ 0 ∷ [])

-- The A record; the argument is the address, packed.
abbrev pub record_a : Bytes → Bytes
record_a addr = 0xc0 ∷ 0x0c ∷ 0 ∷ 1 ∷ 0 ∷ 1 ∷ 0 ∷ 0 ∷ 0 ∷ 0x3c ∷ 0 ∷ 4 ∷ addr

-- `none` is an exception.
unfoldable pub dns_answer : Bytes → Bytes → Option Bytes
unfolding name_size
dns_answer query addr = do
  size ← name_size (length query) (drop 12 query)
  let question = take (size + 4) (drop 12 query)
  if ltb (length query) (12 + (size + 4))
      then none
      else some (
          if be16_at query (12 + size) == 1
          then header query 1 ++ (question ++ record_a addr)
          else header query 0 ++ question)

abbrev pub vendor_domain : Bytes
vendor_domain = ascii "gps555.net"

-- `name == "gps555.net" or name.endswith(".gps555.net")`
abbrev pub is_vendor : Bytes → Bool
is_vendor name =
    bytes_eq name vendor_domain || bytes_eq (drop (length name - 11) name) (b'.' ∷ vendor_domain)

-- What the handler does: nothing, an answer of its own, or the query goes to the upstream server.
pub data Handled : Type 0 where
  ignored forwarded raises : Handled
  answered : Bytes → Handled

unfoldable pub handle : Bytes → Bytes → Handled
unfolding dns_name dns_answer
handle query addr = elim (dns_name query) [
  | none ↦ ignored
  | some name ↦
      if is_vendor name
      then elim (dns_answer query addr) [ none ↦ raises | some reply ↦ answered reply ]
      else forwarded
]
