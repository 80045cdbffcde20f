-- ===== src/RelayClient/Sdp.antt =====
-- `RelayStream._parse_sdp`, `_choose_pt` and `_track_url` of ziot_rtp_bridge.py. Texts are ASCII bytes, and a number is
-- plain decimal digits.
pub mod Choice
use ziot_rtp_bridge.Base.{
  ℕ, ◌+◌, ◌-◌, ◌*◌, Bool, true, false, not, ◌&&◌, ◌||◌, Option, none, some, List, [], ◌∷◌, ◌++◌,
  map, if◌then◌else◌, ◌==◌, ltb, leb, Bytes, bytes_eq, length, drop, ascii, is_space, starts_with,
  words_from, before,
}
use ziot_rtp_bridge.Base.Dict.{Dict, lookup, insert}
use ziot_rtp_bridge.Cloud.Row.{lstrip, rstrip}

pub data Kind : Type 0 where
  video audio : Kind

-- The keys of `_DECODABLE`.
abbrev pub kind_of : Bytes → Option Kind
kind_of s =
    if bytes_eq s (ascii "video")
    then some video
    else if bytes_eq s (ascii "audio")
    then some audio
    else none

abbrev pub static_pt : Kind → ℕ
static_pt video = 26
static_pt audio = 0

abbrev pub encoding : Kind → Bytes
encoding video = ascii "JPEG"
encoding audio = ascii "PCMU"

pub record Section : Type 0 where
  pub kind : Bytes
  pub fmts : List ℕ
  pub rtpmap : Dict Bytes
  pub control : Option Bytes

-- The sections so far, and `cur`.
pub record Scan : Type 0 where
  pub sections : List Section
  pub cur : Option Section

abbrev pub strip : Bytes → Bytes
strip s = rstrip (lstrip s)

-- `s.upper()`
abbrev pub upper_char : ℕ → ℕ
upper_char c = if leb b'a' c && leb c b'z' then c - 32 else c

abbrev pub upper : Bytes → Bytes
upper [] = []
upper (c ∷ cs) = upper_char c ∷ upper cs

-- `int(s)`, where `none` is a `ValueError`.
abbrev pub digits : ℕ → Bytes → Option ℕ
digits n [] = some n
digits n (c ∷ cs) =
    let more = digits (n * 10 + (c - b'0')) cs in if leb b'0' c && leb c b'9' then more else none

abbrev pub to_int : Bytes → Option ℕ
to_int [] = none
to_int (c ∷ cs) = digits 0 (c ∷ cs)

-- The formats that are numbers.
abbrev pub ints : List Bytes → List ℕ
ints [] = []
ints (w ∷ ws) = elim (to_int w) [ none ↦ ints ws | some n ↦ n ∷ ints ws ]

-- Where `str.splitlines` ends a line.
abbrev pub is_line_end : ℕ → Bool
is_line_end c = (leb 10 c && leb c 13) || (leb 28 c && leb c 30)

-- The lines, with the line read so far; an empty line has no effect.
unfoldable pub split_lines : Bytes → Bytes → List Bytes
split_lines line [] = line ∷ []
split_lines line (c ∷ cs) =
    let next = split_lines [] cs in
    let longer = split_lines (line ++ c ∷ []) cs in if is_line_end c then line ∷ next else longer

-- `s.split(None, 1)[0]`, and what follows it, of a text that does not begin with white space.
abbrev pub word : Bytes → Bytes
word [] = []
word (c ∷ cs) = if is_space c then [] else c ∷ word cs

abbrev pub after_word : Bytes → Bytes
after_word s = lstrip (drop (length (word s)) s)

-- A line `m=`.
abbrev pub media_section : List Bytes → Option Section
media_section (kind ∷ port ∷ proto ∷ f ∷ fs) =
    some (record { kind = kind; fmts = ints (f ∷ fs); rtpmap = []; control = none })
media_section _ = none

-- A line `a=rtpmap:`, behind its prefix.
abbrev pub add_rtpmap : Bytes → Section → Section
add_rtpmap rest sec =
    let name = upper (strip (before (b'/' ∷ []) (after_word (lstrip rest)))) in
    if bytes_eq (after_word (lstrip rest)) [] then sec else elim (to_int (word (lstrip rest))) [
      | none ↦ sec
      | some pt ↦ record sec { rtpmap = insert pt name sec.rtpmap }
    ]

abbrev pub close_section : Scan → List Section
close_section s = elim s.cur [ none ↦ s.sections | some sec ↦ s.sections ++ sec ∷ [] ]

-- A stripped line of a section.
abbrev pub add_attribute : Bytes → Section → Section
add_attribute line sec =
    if starts_with (ascii "a=control:") line
    then record sec { control = some (strip (drop 10 line)) }
    else if starts_with (ascii "a=rtpmap:") line
    then add_rtpmap (drop 9 line) sec
    else sec

unfoldable pub read_line : Bytes → Scan → Scan
unfolding words_from
read_line line s =
    if starts_with (ascii "m=") line
    then record { sections = close_section s; cur = media_section (words_from [] (drop 2 line)) }
    else elim s.cur [ none ↦ s | some sec ↦ record s { cur = some (add_attribute line sec) } ]

unfoldable pub read_lines : List Bytes → Scan → Scan
unfolding read_line
read_lines [] s = s
read_lines (l ∷ ls) s = read_lines ls (read_line (strip l) s)

-- `pt in fmts`
abbrev pub has_pt : ℕ → List ℕ → Bool
has_pt pt [] = false
has_pt pt (p ∷ ps) = p == pt || has_pt pt ps

abbrev pub is_named : Option Bytes → Bytes → Bool
is_named none name = false
is_named (some n) name = bytes_eq n name

abbrev pub first_named : Kind → Dict Bytes → List ℕ → Option ℕ
first_named k rtpmap [] = none
first_named k rtpmap (pt ∷ pts) =
    let later = first_named k rtpmap pts in
    if is_named (lookup pt rtpmap) (encoding k) then some pt else later

unfoldable pub choose_pt : Kind → Section → Option ℕ
choose_pt k sec =
    if has_pt (static_pt k) sec.fmts then some (static_pt k) else first_named k sec.rtpmap sec.fmts

pub record Track : Type 0 where
  pub kind : Kind
  pub pt : Option ℕ
  pub control : Option Bytes

unfoldable pub tracks_of : List Section → List Track
unfolding choose_pt
tracks_of [] = []
tracks_of (sec ∷ secs) = elim (kind_of sec.kind) [
  | none ↦ tracks_of secs
  | some k ↦ record { kind = k; pt = choose_pt k sec; control = sec.control } ∷ tracks_of secs
]

unfoldable pub parse_sdp : Bytes → List Track
unfolding split_lines read_lines tracks_of
parse_sdp body =
    tracks_of
      (close_section (read_lines (split_lines [] body) (record { sections = []; cur = none })))

-- `s.lower()`
abbrev pub lower : Bytes → Bytes
lower [] = []
lower (c ∷ cs) = (if leb b'A' c && leb c b'Z' then c + 32 else c) ∷ lower cs

-- `s.lstrip("/")` and `s.rstrip("/")`
abbrev pub lstrip_slash : Bytes → Bytes
lstrip_slash [] = []
lstrip_slash (c ∷ cs) = if c == b'/' then lstrip_slash cs else c ∷ cs

abbrev pub rstrip_slash : Bytes → Bytes
rstrip_slash [] = []
rstrip_slash (c ∷ cs) = elim (rstrip_slash cs) [
  | [] ↦ if c == b'/' then [] else c ∷ []
  | d ∷ ds ↦ c ∷ d ∷ ds
]

unfoldable pub track_url : Bytes → Option Bytes → Bytes
track_url url none = url
track_url url (some control) =
    if bytes_eq control [] || bytes_eq control (ascii "*")
    then url
    else if starts_with (ascii "rtsp://") (lower control)
    then control
    else rstrip_slash url ++ (b'/' ∷ lstrip_slash control)
