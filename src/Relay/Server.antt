-- ===== src/Relay/Server.antt =====
-- The RTSP conversations of `Relay` of ziot_relay.py: `parse_head`, `_uid_from_uri`, the table of sessions, `_route`,
-- `_publisher_loop`, `_handle_reader_first` and `_reader_continue`. A session is a number that names it; its media are
-- those of `Session`. Texts are bytes.
-- Of an answer the session identifier and the transport are left out, and of a session the identifier that SETUP
-- gives it; a connection that breaks off has no further requests.
pub mod Conversation
use ziot_rtp_bridge.Base.{
  ℕ, ◌+◌, ◌-◌, Bool, true, false, not, ◌&&◌, ◌||◌, Option, none, some, List, [], ◌∷◌, ◌++◌,
  if◌then◌else◌, ◌==◌, ltb, leb, Bytes, bytes_eq, length, drop, ascii, is_space, starts_with,
  words_from, before,
}
use ziot_rtp_bridge.Cloud.Row.{lstrip, rstrip}

-- The methods that the relay tells apart.
pub data Verb : Type 0 where
  announce record_verb describe setup play teardown options other_verb : Verb

abbrev pub verb_of : Bytes → Verb
verb_of s =
    if bytes_eq s (ascii "ANNOUNCE")
    then announce
    else if bytes_eq s (ascii "RECORD")
    then record_verb
    else if bytes_eq s (ascii "DESCRIBE")
    then describe
    else if bytes_eq s (ascii "SETUP")
    then setup
    else if bytes_eq s (ascii "PLAY")
    then play
    else if bytes_eq s (ascii "TEARDOWN")
    then teardown
    else if bytes_eq s (ascii "OPTIONS")
    then options
    else other_verb

-- The method, the URI and the header `cseq`.
pub record Head : Type 0 where
  pub verb : Verb
  pub uri : Bytes
  pub cseq : Bytes

-- `head.split("\r\n")`, with the line read so far.
unfoldable pub head_lines : Bytes → Bytes → List Bytes
head_lines line [] = line ∷ []
head_lines line (c ∷ []) = (line ++ c ∷ []) ∷ []
head_lines line (c ∷ d ∷ cs) =
    let next = head_lines [] cs in
    let longer = head_lines (line ++ c ∷ []) (d ∷ cs) in
    if c == 13 && d == 10 then line ∷ next else longer

abbrev pub nth_word : List Bytes → ℕ → Bytes
nth_word [] n = []
nth_word (w ∷ ws) n = if n == 0 then w else nth_word ws (n - 1)

abbrev pub lower : Bytes → Bytes
lower [] = []
lower (c ∷ cs) = (if leb b'A' c && leb c b'Z' then c + 32 else c) ∷ lower cs

-- `headers.get("cseq", "0")`: the last line of that name.
abbrev pub cseq_in : Bytes → List Bytes → Bytes
cseq_in found [] = found
cseq_in found (l ∷ ls) =
    let name = lower (rstrip (lstrip (before (b':' ∷ []) l))) in
    let value = rstrip (lstrip (drop (length (before (b':' ∷ []) l) + 1) l)) in
    cseq_in (if bytes_eq name (ascii "cseq") then value else found) ls

abbrev pub head_of : List Bytes → Head
head_of [] = record { verb = other_verb; uri = []; cseq = ascii "0" }
head_of (l ∷ ls) = record {
  verb = verb_of (nth_word (words_from [] l) 0);
  uri = nth_word (words_from [] l) 1;
  cseq = cseq_in (ascii "0") ls;
}

-- `parse_head`
unfoldable pub parse_head : Bytes → Head
unfolding head_lines words_from
parse_head s = head_of (head_lines [] s)

-- `sessions`
abbrev pub Table : Type 0
Table = Bytes → Option ℕ

unfoldable pub publish_session : Bytes → ℕ → Table → Table
publish_session uid s table = λ other. if bytes_eq other uid then some s else table other

abbrev pub is_session : Option ℕ → ℕ → Bool
is_session none s = false
is_session (some t) s = t == s

-- `_unpublish`: only a session that is still the published one is removed.
unfoldable pub unpublish : Bytes → ℕ → Table → Table
unpublish uid s table =
    λ other. if bytes_eq other uid && is_session (table uid) s then none else table other

-- The path of a URL with a well-formed scheme: what follows the host, up to a query or a fragment.
abbrev pub from_slash : Bytes → Bytes
from_slash [] = []
from_slash (c ∷ cs) = if c == b'/' then c ∷ cs else from_slash cs

abbrev pub behind_scheme : Bytes → Option Bytes
behind_scheme [] = none
behind_scheme (c ∷ cs) =
    let later = behind_scheme cs in
    if starts_with (ascii "://") (c ∷ cs) then some (drop 2 cs) else later

abbrev pub path_of : Bytes → Bytes
path_of uri = elim (behind_scheme uri) [
  | none ↦ uri
  | some rest ↦ from_slash (before (b'?' ∷ []) (before (b'#' ∷ []) rest))
]

-- `[p for p in path.split("/") if p]`, with the part read so far.
abbrev pub parts_of : Bytes → Bytes → List Bytes
parts_of [] [] = []
parts_of (d ∷ ds) [] = (d ∷ ds) ∷ []
parts_of part (c ∷ cs) =
    let next = parts_of [] cs in
    let longer = parts_of (part ++ c ∷ []) cs in
    if c == b'/' then (if bytes_eq part [] then next else part ∷ next) else longer

abbrev pub are_digits : Bytes → Bool
are_digits [] = true
are_digits (c ∷ cs) = leb b'0' c && (leb c b'9' && are_digits cs)

-- The last part that is a number of six digits or more.
abbrev pub last_number : List Bytes → Option Bytes
last_number [] = none
last_number (p ∷ ps) = elim (last_number ps) [
  | some found ↦ some found
  | none ↦ if are_digits p && leb 6 (length p) then some p else none
]

abbrev pub last_part : List Bytes → Bytes
last_part [] = []
last_part (p ∷ []) = p
last_part (p ∷ q ∷ ps) = last_part (q ∷ ps)

-- `_uid_from_uri`
unfoldable pub uid_from_uri : Bytes → Bytes
uid_from_uri uri =
    let parts = parts_of [] (path_of uri) in
    elim (last_number parts) [ some uid ↦ uid | none ↦ last_part parts ]

-- A response: its status, the `CSeq`, and whose description it carries.
pub record Answer : Type 0 where
  pub status : ℕ
  pub cseq : Bytes
  pub described : Option ℕ

pub data Phase : Type 0 where
  talking serving closed : Phase

-- A reader's connection: the session it has, what it was sent, and the session that it is a reader of.
pub record Conn : Type 0 where
  pub session : Option ℕ
  pub sent : List Answer
  pub phase : Phase
  pub reads : Option ℕ

abbrev pub reply : ℕ → Option ℕ → Head → Conn → Conn
reply status described head c = record c {
  sent = c.sent ++ record { status = status; cseq = head.cseq; described = described } ∷ [];
}

abbrev pub close : Conn → Conn
close c = record c { phase = closed }

-- DESCRIBE, with the session that the connection has.
abbrev pub on_describe : Head → Conn → Conn
on_describe head c = elim c.session [
  | none ↦ close (reply 404 none head c)
  | some s ↦ reply 200 (some s) head c
]

-- The session that the connection has, or the one that is published.
abbrev pub look_up : Option ℕ → Conn → Conn
look_up published c = elim c.session [ none ↦ record c { session = published } | some _ ↦ c ]

-- PLAY: the reader is registered, answered, sent the buffer, and served until it goes away.
abbrev pub on_play : Head → Conn → Conn
on_play head c = elim c.session [
  | none ↦ close (reply 454 none head c)
  | some s ↦ record (reply 200 none head c) { phase = serving; reads = some s }
]

abbrev pub new_conn : Option ℕ → Conn
new_conn published = record { session = published; sent = []; phase = talking; reads = none }

-- The first request of a connection; an ANNOUNCE makes it a publisher and does not come here.
abbrev pub on_first : Verb → Head → Conn → Conn
on_first describe head c = on_describe head c
on_first options head c = reply 200 none head c
on_first _ head c = close (reply 501 none head c)

-- `_handle_reader_first`, with what is published under the uid of its URI.
unfoldable pub reader_first : Option ℕ → Head → Conn
reader_first published head = on_first head.verb head (new_conn published)

-- What a request does, with what is published under the uid then.
abbrev pub on_verb : Verb → Option ℕ → Head → Conn → Conn
on_verb describe published head c = on_describe head (look_up published c)
on_verb setup published head c = reply 200 none head c
on_verb play published head c = on_play head c
on_verb teardown published head c = close (reply 200 none head c)
on_verb options published head c = reply 200 none head c
on_verb _ published head c = reply 501 none head c

-- A round of `_reader_continue`.
unfoldable pub reader_next : Option ℕ → Head → Conn → Conn
reader_next published head c = on_verb head.verb published head c

abbrev pub is_talking : Phase → Bool
is_talking talking = true
is_talking _ = false

-- The rounds, each with what is published then, as long as the relay reads requests.
unfoldable pub reader_continue : List (Option ℕ × Head) → Conn → Conn
unfolding reader_next
reader_continue [] c = c
reader_continue ((published, head) ∷ rounds) c =
    let later = reader_continue rounds (reader_next published head c) in
    if is_talking c.phase then later else c

-- A reader's conversation, from its first request on.
unfoldable pub reader_run : Option ℕ → Head → List (Option ℕ × Head) → Conn
unfolding reader_first reader_continue
reader_run published head rounds = reader_continue rounds (reader_first published head)

-- A publisher behind its ANNOUNCE: it talks, streams, or has ended.
unfoldable pub publisher_next : Head → Conn → Conn
publisher_next head c = elim head.verb [
  | record_verb ↦ record (reply 200 none head c) { phase = serving }
  | teardown ↦ close (reply 200 none head c)
  | _ ↦ reply 501 none head c
]
