-- ===== src/Broker/Dns/Tests.antt =====
-- A query for a name of the vendor, and others.
use ziot_rtp_bridge.Base.{
  ◌≡◌, refl, some, [], ◌∷◌, ◌++◌, arith, Bytes, ascii, replicate, true, false, if◌then◌else◌,
}
use ziot_rtp_bridge.Broker.Dns.{
  read_labels, dns_name, name_size, dns_answer, is_vendor, handle, ignored, forwarded, raises,
  answered,
}
use ziot_rtp_bridge.Broker.Dns.Reply.{Query, query_bytes, name_of, IsQuery, reply_to, handle_query}

abbrev head : Bytes
head = 7 ∷ 9 ∷ 1 ∷ 0 ∷ 0 ∷ 1 ∷ replicate 6 0

abbrev name : Bytes
name = 6 ∷ (ascii "gps555" ++ (3 ∷ (ascii "net" ++ (0 ∷ []))))

abbrev query : Bytes
query = head ++ (name ++ (0 ∷ 1 ∷ 0 ∷ 1 ∷ []))

named : dns_name query ≡ some (ascii "gps555.net")
unfolding dns_name read_labels
named = refl

-- A query for the root is ignored; a vendor's name without its question raises.
root_ignored : handle (head ++ (0 ∷ 0 ∷ 1 ∷ 0 ∷ 1 ∷ [])) [] ≡ ignored
unfolding handle dns_name read_labels
root_ignored = refl

short_raises : handle (head ++ name) [] ≡ raises
unfolding handle dns_name read_labels dns_answer name_size
short_raises = refl

suffix_is_vendor : is_vendor (ascii "api.gps555.net") ≡ true
suffix_is_vendor = refl

other_is_not : is_vendor (ascii "xgps555.net") ≡ false
other_is_not = refl

-- A resolver's query for an address of api.gps555.net.
abbrev asked : Query
asked = record {
  id = 7 ∷ 9 ∷ [];
  flags = 1 ∷ 0 ∷ 0 ∷ 1 ∷ replicate 6 0;
  first = ascii "api";
  labels = ascii "gps555" ∷ ascii "net" ∷ [];
  kind_high = 0;
  kind_low = 1;
  class = 0 ∷ 1 ∷ [];
  more = [];
}

asked-IsQuery : IsQuery asked
asked-IsQuery = record {
  id_size = refl;
  flags_size = refl;
  are_labels =
      (omega arith, omega arith, (omega arith, omega arith, (omega arith, omega arith, tt)));
  few = omega arith;
  class_size = refl;
}

handle_query_example : handle (query_bytes asked) (10 ∷ 0 ∷ 0 ∷ 2 ∷ []) ≡ (
    if is_vendor (name_of asked)
    then answered (reply_to asked (10 ∷ 0 ∷ 0 ∷ 2 ∷ []))
    else forwarded)
handle_query_example = handle_query asked (10 ∷ 0 ∷ 0 ∷ 2 ∷ []) asked-IsQuery
