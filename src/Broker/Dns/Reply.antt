-- ===== src/Broker/Dns/Reply.antt =====
-- What is done with a query, by the names that it asks for as a resolver writes them.
use ziot_rtp_bridge.Base.{
  ℕ, zero, suc, ◌+◌, ◌*◌, ◌≤◌, ◌<◌, ◌≡◌, refl, sym, ap, ap₂, ◌∙◌, Bool, false, some, List, [], ◌∷◌,
  ◌++◌, if◌then◌else◌, ◌==◌, ltb, leb, arith, Bytes, byte_at, be16_at, length, take, drop,
  append_assoc, get_or, get_or-drop, take-append, drop-append, length-append,
}
use ziot_rtp_bridge.Broker.Dns.{
  read_labels, join_labels, dns_name, name_size, record_a, dns_answer, is_vendor, answered,
  forwarded, handle,
}

-- A name on the wire: each label behind its length, and the root label.
abbrev pub wire_name : List Bytes → Bytes
wire_name [] = 0 ∷ []
wire_name (l ∷ ls) = length l ∷ (l ++ wire_name ls)

-- Labels have between 1 and 63 bytes.
abbrev pub AreLabels : List Bytes → Type 0
AreLabels [] = Unit
AreLabels (l ∷ ls) = (0 < length l) × (length l < 64) × AreLabels ls

-- A name as text.
abbrev pub dotted : Bytes → List Bytes → Bytes
dotted l [] = l
dotted l (m ∷ ls) = l ++ (b'.' ∷ dotted m ls)

length-wire_name : (ls : List Bytes) → length ls < length (wire_name ls)
length-wire_name [] = omega arith
length-wire_name (l ∷ ls) = omega (arith, length-append l (wire_name ls), length-wire_name ls)

-- The rest of a name behind its first label.
take_label :
    (l : Bytes) (ls : List Bytes) (rest : Bytes) → take (length l) ((l ++ wire_name ls) ++ rest) ≡ l
take_label l ls rest =
    ap (take (length l)) (append_assoc l (wire_name ls) rest)
    ∙ take-append (length l) l (wire_name ls ++ rest) refl

drop_label :
    (l : Bytes) (ls : List Bytes) (rest : Bytes)
    → drop (length l) ((l ++ wire_name ls) ++ rest) ≡ wire_name ls ++ rest
drop_label l ls rest =
    ap (drop (length l)) (append_assoc l (wire_name ls) rest)
    ∙ drop-append (length l) l (wire_name ls ++ rest) refl

read_labels-wire_name :
    (fuel seen : ℕ) (ls : List Bytes) (rest : Bytes)
    → length ls < fuel
    → seen + length ls ≤ 8
    → AreLabels ls
    → read_labels fuel seen (wire_name ls ++ rest) ≡ some ls
unfolding read_labels
read_labels-wire_name zero seen ls rest enough few h = absurd (omega arith)
read_labels-wire_name (suc fuel) seen [] rest enough few h = refl
read_labels-wire_name (suc fuel) seen (l ∷ ls) rest enough few (full, short, h) =
    let later =
      read_labels-wire_name fuel (seen + 1) ls rest (omega (arith, enough)) (omega (arith, few))
        h in
    let label : (length l == 0) ≡ false = ground arith in
    let plain : leb 64 (length l) ≡ false = ground arith in
    let room : leb 8 seen ≡ false = ground arith in
    rw (label, plain, room, drop_label l ls rest, later, take_label l ls rest) refl

name_size-wire_name :
    (fuel : ℕ) (ls : List Bytes) (rest : Bytes)
    → length ls < fuel
    → AreLabels ls
    → name_size fuel (wire_name ls ++ rest) ≡ some (length (wire_name ls))
unfolding name_size
name_size-wire_name zero ls rest enough h = absurd (omega arith)
name_size-wire_name (suc fuel) [] rest enough h = refl
name_size-wire_name (suc fuel) (l ∷ ls) rest enough (full, short, h) =
    let later = name_size-wire_name fuel ls rest (omega (arith, enough)) h in
    let label : (length l == 0) ≡ false = ground arith in
    rw (label, drop_label l ls rest, later)
      (ap some (omega (arith, length-append l (wire_name ls))))

join_labels-dotted : (l : Bytes) (ls : List Bytes) → join_labels (l ∷ ls) ≡ some (dotted l ls)
join_labels-dotted l [] = refl
join_labels-dotted l (m ∷ ls) = rw (join_labels-dotted m ls) refl

byte_at_behind :
    (n k : ℕ) (xs ys : Bytes) → n ≡ length xs → byte_at (xs ++ ys) (n + k) ≡ byte_at ys k
byte_at_behind n k xs ys e =
    sym (get_or-drop n k (xs ++ ys) 0) ∙ ap (λ (zs : Bytes). get_or zs k 0) (drop-append n xs ys e)

be16_at_behind :
    (n : ℕ) (s xs ys : Bytes) → s ≡ xs ++ ys → n ≡ length xs → be16_at s n ≡ be16_at ys 0
be16_at_behind n s xs ys e size =
    ap (λ (zs : Bytes). be16_at zs n) e
    ∙ ap₂ (λ a b. a * 256 + b)
        (ap (byte_at (xs ++ ys)) (omega arith) ∙ byte_at_behind n 0 xs ys size)
        (byte_at_behind n 1 xs ys size)

dns_name_of :
    (query l : Bytes) (ls : List Bytes)
    → ltb (length query) 12 ≡ false
    → read_labels (length query) 0 (drop 12 query) ≡ some (l ∷ ls)
    → dns_name query ≡ some (dotted l ls)
unfolding dns_name
dns_name_of query l ls long read = rw (long, read) (join_labels-dotted l ls)

handle_of :
    (query addr name reply : Bytes)
    → dns_name query ≡ some name
    → dns_answer query addr ≡ some reply
    → handle query addr ≡ (if is_vendor name then answered reply else forwarded)
unfolding handle
handle_of query addr name reply named replied = rw (handle, named, replied) refl

-- The answer with an identifier and a question, with one record or none.
abbrev answer_with : Bool → Bytes → Bytes → Bytes → Bytes
answer_with is_address id question addr =
    if is_address
    then id
      ++ ((0x81 ∷ 0x80 ∷ 0 ∷ 1 ∷ 0 ∷ 1 ∷ 0 ∷ 0 ∷ 0 ∷ 0 ∷ [])
          ++ (question ++ (0xc0 ∷ 0x0c ∷ 0 ∷ 1 ∷ 0 ∷ 1 ∷ 0 ∷ 0 ∷ 0 ∷ 60 ∷ 0 ∷ 4 ∷ addr)))
    else id ++ ((0x81 ∷ 0x80 ∷ 0 ∷ 1 ∷ 0 ∷ 0 ∷ 0 ∷ 0 ∷ 0 ∷ 0 ∷ []) ++ question)

dns_answer_of :
    (query addr id question : Bytes) (size kind : ℕ)
    → name_size (length query) (drop 12 query) ≡ some size
    → ltb (length query) (12 + (size + 4)) ≡ false
    → be16_at query (12 + size) ≡ kind
    → take (size + 4) (drop 12 query) ≡ question
    → take 2 query ≡ id
    → dns_answer query addr ≡ some (answer_with (kind == 1) id question addr)
unfolding dns_answer
dns_answer_of query addr id question size kind sized whole at asked same =
    let flags : ℕ → Bytes = λ n. 0x81 ∷ 0x80 ∷ 0 ∷ 1 ∷ 0 ∷ n ∷ 0 ∷ 0 ∷ 0 ∷ 0 ∷ [] in
    rw sized (
      rw (whole, at, asked, same)
        (ap₂ (λ (a b : Bytes). some (if kind == 1 then a else b))
          (append_assoc id (flags 1) (question ++ record_a addr))
          (append_assoc id (flags 0) question)))

-- A query for one name: its identifier and the rest of its header, the name, its type and its class, and what
-- stands behind it.
pub record Query : Type 0 where
  pub id : Bytes
  pub flags : Bytes
  pub first : Bytes
  pub labels : List Bytes
  pub kind_high : ℕ
  pub kind_low : ℕ
  pub class : Bytes
  pub more : Bytes

abbrev pub name_of : Query → Bytes
name_of q = dotted q.first q.labels

abbrev pub question_of : Query → Bytes
question_of q = wire_name (q.first ∷ q.labels) ++ (q.kind_high ∷ q.kind_low ∷ q.class)

abbrev pub query_bytes : Query → Bytes
query_bytes q = (q.id ++ q.flags) ++ (question_of q ++ q.more)

pub record IsQuery (q : Query) : Type 0 where
  pub id_size : length q.id ≡ 2
  pub flags_size : length q.flags ≡ 10
  pub are_labels : AreLabels (q.first ∷ q.labels)
  pub few : length q.labels < 8
  pub class_size : length q.class ≡ 2

-- The type is that of an A record.
abbrev pub asks_address : Query → Bool
asks_address q = q.kind_high * 256 + q.kind_low == 1

-- The answer repeats the identifier and the question. It has one record, for the question's name in class IN
-- for a minute, if the query asks for an address, and else none.
abbrev pub reply_to : Query → Bytes → Bytes
reply_to q addr = answer_with (asks_address q) q.id (question_of q) addr

module _ (q : Query) (h : IsQuery q) where
  behind_header : drop 12 (query_bytes q) ≡ question_of q ++ q.more
  behind_header =
      drop-append 12 (q.id ++ q.flags) (question_of q ++ q.more)
        (omega (arith, length-append q.id q.flags, h.id_size, h.flags_size))

  behind_name :
      question_of q ++ q.more
      ≡ wire_name (q.first ∷ q.labels) ++ (q.kind_high ∷ q.kind_low ∷ (q.class ++ q.more))
  behind_name =
      append_assoc (wire_name (q.first ∷ q.labels)) (q.kind_high ∷ q.kind_low ∷ q.class) q.more

  query_size : length (query_bytes q) ≡ 12 + (length (question_of q) + length q.more)
  query_size = omega (
    arith,
    length-append (q.id ++ q.flags) (question_of q ++ q.more),
    length-append q.id q.flags,
    length-append (question_of q) q.more,
    h.id_size,
    h.flags_size,
  )

  question_size : length (question_of q) ≡ length (wire_name (q.first ∷ q.labels)) + 4
  question_size = omega (
    arith,
    length-append (wire_name (q.first ∷ q.labels)) (q.kind_high ∷ q.kind_low ∷ q.class),
    h.class_size,
  )

  enough : length (q.first ∷ q.labels) < length (query_bytes q)
  enough = omega (arith, query_size, question_size, length-wire_name (q.first ∷ q.labels))

  named : dns_name (query_bytes q) ≡ some (name_of q)
  named = dns_name_of (query_bytes q) q.first q.labels (ground (arith, query_size)) (
      ap (read_labels (length (query_bytes q)) 0) (behind_header ∙ behind_name)
      ∙ read_labels-wire_name (length (query_bytes q)) 0 (q.first ∷ q.labels)
          (q.kind_high ∷ q.kind_low ∷ (q.class ++ q.more)) enough (omega (arith, h.few))
          h.are_labels)

  sized :
      name_size (length (query_bytes q)) (drop 12 (query_bytes q))
      ≡ some (length (wire_name (q.first ∷ q.labels)))
  sized =
      ap (name_size (length (query_bytes q))) (behind_header ∙ behind_name)
      ∙ name_size-wire_name (length (query_bytes q)) (q.first ∷ q.labels)
          (q.kind_high ∷ q.kind_low ∷ (q.class ++ q.more)) enough h.are_labels

  kind_at :
      be16_at (query_bytes q) (12 + length (wire_name (q.first ∷ q.labels)))
      ≡ q.kind_high * 256 + q.kind_low
  kind_at =
      let name = wire_name (q.first ∷ q.labels) in
      let rest = q.kind_high ∷ q.kind_low ∷ (q.class ++ q.more) in
      let whole : query_bytes q ≡ ((q.id ++ q.flags) ++ name) ++ rest =
        ap ((q.id ++ q.flags) ++◌) behind_name ∙ sym (append_assoc (q.id ++ q.flags) name rest) in
      let front : 12 + length name ≡ length ((q.id ++ q.flags) ++ name) = omega (
        arith,
        length-append (q.id ++ q.flags) name,
        length-append q.id q.flags,
        h.id_size,
        h.flags_size,
      ) in
      be16_at_behind (12 + length name) (query_bytes q) ((q.id ++ q.flags) ++ name) rest whole front

  answered_with : (addr : Bytes) → dns_answer (query_bytes q) addr ≡ some (reply_to q addr)
  answered_with addr =
      dns_answer_of (query_bytes q) addr q.id (question_of q)
        (length (wire_name (q.first ∷ q.labels))) (q.kind_high * 256 + q.kind_low) sized
        (ground (arith, query_size, question_size)) kind_at
        (ap (take (length (wire_name (q.first ∷ q.labels)) + 4)) behind_header
          ∙ take-append (length (wire_name (q.first ∷ q.labels)) + 4) (question_of q) q.more
              (sym question_size))
        (ap (take 2) (append_assoc q.id q.flags (question_of q ++ q.more))
          ∙ take-append 2 q.id (q.flags ++ (question_of q ++ q.more)) (sym h.id_size))

-- Every query for a name of at most eight labels, each of 1 to 63 bytes: one for a name of the vendor is
-- answered, with the broker's address if it asks for an address and without a record else, and every other
-- goes to the upstream server.
pub handle_query :
    (q : Query) (addr : Bytes)
    → IsQuery q
    → handle (query_bytes q) addr
      ≡ (if is_vendor (name_of q) then answered (reply_to q addr) else forwarded)
handle_query q addr h =
    handle_of (query_bytes q) addr (name_of q) (reply_to q addr) (named q h)
      (answered_with q h addr)
