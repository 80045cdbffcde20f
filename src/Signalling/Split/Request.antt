-- ===== src/Signalling/Split/Request.antt =====
-- The end of the loop of `StreamHandler.handle` of ziot_fake_cloud.py on a signalling port, where
-- `server.api` is None: `buf` holds all that was ever read, and once a blank line is in it and the body
-- that its head declares has arrived, the handler returns. A length is read as plain decimal digits.
use ziot_rtp_bridge.Base.{
  ℕ, ◌+◌, ◌*◌, ◌≡◌, refl, Bool, false, not, ◌&&◌, ◌||◌, Option, none, some, List, [], ◌∷◌, ◌++◌,
  if◌then◌else◌, ◌==◌, leb, arith, Bytes, length, drop, ascii, starts_with, is_space, before,
}
use ziot_rtp_bridge.Cloud.Version.{is_digit, digit_value}

-- `buf.partition(b"\r\n\r\n")`: what stands behind the blank line.
unfoldable pub blank_line : Bytes → Option Bytes
blank_line [] = none
blank_line (c ∷ cs) =
    let later = blank_line cs in
    if starts_with (ascii "\r\n\r\n") (c ∷ cs) then some (drop 4 (c ∷ cs)) else later

-- White space of a `str` that was decoded from latin-1.
abbrev pub is_text_space : ℕ → Bool
is_text_space c = is_space c || (leb 0x1c c && leb c 0x1f) || c == 0x85 || c == 0xa0

-- `len(request_line.split()) >= 2`, in front of the first word, in it, and behind it.
unfoldable pub has_two_words : ℕ → Bytes → Bool
has_two_words state [] = false
has_two_words state (c ∷ cs) =
    let before_word = has_two_words 0 cs in
    let in_word = has_two_words 1 cs in
    let behind_word = has_two_words 2 cs in
    if is_text_space c
    then if state == 0 then before_word else behind_word
    else state == 2 || in_word

-- `head.split(b"\r\n")`, with the line read so far.
unfoldable pub lines_from : Bytes → Bytes → List Bytes
lines_from line [] = line ∷ []
lines_from line (c ∷ []) = (line ++ c ∷ []) ∷ []
lines_from line (c ∷ d ∷ s) =
    let next = lines_from [] s in
    let longer = lines_from (line ++ c ∷ []) (d ∷ s) in
    if c == 0x0d && d == 0x0a then line ∷ next else longer

abbrev pub lower : Bytes → Bytes
lower [] = []
lower (c ∷ cs) = (if leb b'A' c && leb c b'Z' then c + 32 else c) ∷ lower cs

-- `int(value.strip())`, and 0 for a `ValueError`.
abbrev pub digits_end : ℕ → Bytes → ℕ
digits_end n [] = n
digits_end n (c ∷ cs) = let later = digits_end n cs in if is_space c then later else 0

abbrev pub digits : ℕ → Bytes → ℕ
digits n [] = n
digits n (c ∷ cs) =
    let later = digits (n * 10 + digit_value c) cs in
    let end = digits_end n (c ∷ cs) in if is_digit c then later else end

abbrev pub number : Bytes → ℕ
number [] = 0
number (c ∷ cs) =
    let later = number cs in let here = digits 0 (c ∷ cs) in if is_space c then later else here

abbrev pub length_of_line : ℕ → Bytes → ℕ
length_of_line n line =
    if starts_with (ascii "content-length:") (lower line) then number (drop 15 line) else n

-- The length that the last such line declares.
abbrev pub declared : ℕ → List Bytes → ℕ
declared n [] = n
declared n (line ∷ lines) = declared (length_of_line n line) lines

-- The handler returns.
unfoldable pub closes : Bytes → Bool
closes buf = elim (blank_line buf) [
  | none ↦ false
  | some rest ↦
      (let head = before (ascii "\r\n\r\n") buf in
        not (has_two_words 0 (before (ascii "\r\n") head))
        || leb (declared 0 (lines_from [] head)) (length rest))
]

starts_with-append : (p s t : Bytes) → starts_with p (s ++ t) ≡ false → starts_with p s ≡ false
starts_with-append [] s t e = e
starts_with-append (c ∷ p) [] t e = refl
starts_with-append (c ∷ p) (d ∷ s) t e = let rest = starts_with-append p s t in ground arith

-- A part of a text without a blank line has none.
pub blank_line-append : (s t : Bytes) → blank_line (s ++ t) ≡ none → blank_line s ≡ none
unfolding blank_line
blank_line-append [] t e = refl
blank_line-append (c ∷ s) t e =
    let here = starts_with-append (ascii "\r\n\r\n") (c ∷ s) t in
    let later = blank_line-append s t in ground arith

pub closes-blank_line : (s : Bytes) → blank_line s ≡ none → closes s ≡ false
unfolding closes
closes-blank_line s e = ground arith
