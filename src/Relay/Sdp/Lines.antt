-- ===== src/Relay/Sdp/Lines.antt =====
-- The lines of a description that the relay makes.
use ziot_rtp_bridge.Base.{
  ℕ, ◌+◌, ◌≡◌, refl, sym, ap, ◌∙◌, Bool, true, false, not, ◌&&◌, List, [], ◌∷◌, ◌++◌, arith, Bytes,
  ascii, append_assoc, append-nil, is_space,
}
use ziot_rtp_bridge.Base.Int.{pos}
use ziot_rtp_bridge.Broker.Api.{str}
use ziot_rtp_bridge.Cloud.Number.{AreDigits, digits_from-AreDigits}
use ziot_rtp_bridge.Cloud.Row.{lstrip, rstrip}
use ziot_rtp_bridge.Relay.Sdp
use ziot_rtp_bridge.RelayClient.Sdp.{is_line_end, split_lines}

-- No line end, and no white space at all.
abbrev is_line : Bytes → Bool
is_line [] = true
is_line (c ∷ cs) = not (is_line_end c) && is_line cs

abbrev is_word : Bytes → Bool
is_word [] = true
is_word (c ∷ cs) = not (is_space c) && is_word cs

abbrev are_lines : List Bytes → Bool
are_lines [] = true
are_lines (l ∷ ls) = is_line l && are_lines ls

and_split : (a b : Bool) → (a && b) ≡ true → (a ≡ true) × (b ≡ true)
and_split true b h = (refl, h)
and_split false b h = cc

and_join : (a b : Bool) → a ≡ true → b ≡ true → (a && b) ≡ true
and_join a b h g = rw (h, g) refl

opposite : (a : Bool) → not a ≡ true → a ≡ false
opposite true h = cc
opposite false h = refl

split_lines-line :
    (acc l rest : Bytes)
    → is_line l ≡ true
    → split_lines acc (l ++ rest) ≡ split_lines (acc ++ l) rest
unfolding split_lines
split_lines-line acc [] rest h = ap (λ (s : Bytes). split_lines s rest) (sym (append-nil acc))
split_lines-line acc (c ∷ cs) rest h' =
    let (n, hs) = and_split (not (is_line_end c)) (is_line cs) h' in
    rw (opposite (is_line_end c) n) (
      split_lines-line (acc ++ c ∷ []) cs rest hs
      ∙ ap (λ (s : Bytes). split_lines s rest) (append_assoc acc (c ∷ []) cs))

-- The lines, each with the empty one that stands between the two characters of its end.
abbrev split_of : List Bytes → List Bytes
split_of [] = [] ∷ []
split_of (l ∷ ls) = l ∷ [] ∷ split_of ls

split_lines-lines_text :
    (ls : List Bytes) → are_lines ls ≡ true → split_lines [] (Sdp.lines_text ls) ≡ split_of ls
unfolding split_lines
split_lines-lines_text [] h = refl
split_lines-lines_text (l ∷ ls) h' =
    let (h, hs) = and_split (is_line l) (are_lines ls) h' in
    split_lines-line [] l _ h
    ∙ ap (λ (rest : List Bytes). l ∷ [] ∷ rest) (split_lines-lines_text ls hs)

digits_line : (s : Bytes) → AreDigits s → is_line s ≡ true
digits_line [] h = refl
digits_line (c ∷ cs) (h, hs) = let rest = digits_line cs hs in ground arith

digits_word : (s : Bytes) → AreDigits s → is_word s ≡ true
digits_word [] h = refl
digits_word (c ∷ cs) (h, hs) = let rest = digits_word cs hs in ground arith

rstrip-word : (s : Bytes) → is_word s ≡ true → rstrip s ≡ s
unfolding rstrip
rstrip-word [] h = refl
rstrip-word (c ∷ []) h =
    let no = opposite (is_space c) (and_split (not (is_space c)) true h).0 in rw no refl
rstrip-word (c ∷ d ∷ s) h =
    let rest = rstrip-word (d ∷ s) (and_split (not (is_space c)) (is_word (d ∷ s)) h).1 in
    rw rest refl

str-AreDigits : (n : ℕ) → AreDigits (str (pos n))
unfolding str
str-AreDigits n = digits_from-AreDigits (n + 1) n [] tt

control_line_lines : (n : ℕ) → is_line (Sdp.control_line n) ≡ true
control_line_lines n = digits_line (str (pos n)) (str-AreDigits n)

track_word : (n : ℕ) → is_word (ascii "track" ++ str (pos n)) ≡ true
track_word n = digits_word (str (pos n)) (str-AreDigits n)

control_line_word : (n : ℕ) → is_word (Sdp.control_line n) ≡ true
control_line_word n = digits_word (str (pos n)) (str-AreDigits n)

sdp_lines_lines : (v a : ℕ) → are_lines (Sdp.sdp_lines v a) ≡ true
sdp_lines_lines v a = rw (control_line_lines v, control_line_lines a) refl

-- The lines in front of the first control line, and between the two.
abbrev halves : List Bytes → List Bytes
halves [] = []
halves (l ∷ ls) = l ∷ [] ∷ halves ls

abbrev pub first_lines : List Bytes
first_lines = halves (
    ascii "v=0"
    ∷ ascii "o=- 1 1 IN IP4 127.0.0.1"
    ∷ ascii "s=Test"
    ∷ ascii "a=type:broadcast"
    ∷ ascii "t=0 0"
    ∷ ascii "c=IN IP4 0.0.0.0"
    ∷ ascii "m=video 0 RTP/AVP 26"
    ∷ [])

abbrev pub audio_lines : List Bytes
audio_lines = halves (ascii "m=audio 0 RTP/AVP 0" ∷ ascii "a=rtpmap:0 PCMU/8000/1" ∷ [])

abbrev pub control_lines : ℕ → List Bytes
control_lines n = Sdp.control_line n ∷ [] ∷ []

split_of_sdp :
    (v a : ℕ)
    → split_of (Sdp.sdp_lines v a)
      ≡ first_lines ++ (control_lines v ++ (audio_lines ++ (control_lines a ++ [] ∷ [])))
split_of_sdp v a = refl

pub split_lines-sdp_for :
    (v a : ℕ)
    → split_lines [] (Sdp.sdp_for v a)
      ≡ first_lines ++ (control_lines v ++ (audio_lines ++ (control_lines a ++ [] ∷ [])))
unfolding Sdp.sdp_for
split_lines-sdp_for v a = split_lines-lines_text (Sdp.sdp_lines v a) (sdp_lines_lines v a)

pub strip_control : (n : ℕ) → rstrip (lstrip (Sdp.control_line n)) ≡ Sdp.control_line n
unfolding lstrip
strip_control n = rstrip-word (Sdp.control_line n) (control_line_word n)

pub strip_track :
    (n : ℕ) → rstrip (lstrip (ascii "track" ++ str (pos n))) ≡ ascii "track" ++ str (pos n)
unfolding lstrip
strip_track n = rstrip-word (ascii "track" ++ str (pos n)) (track_word n)
