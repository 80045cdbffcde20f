-- ===== src/Http/Stream.antt =====
-- What a viewer reads from an MJPEG stream.
use ziot_rtp_bridge.Base.{
  ℕ, zero, suc, ◌+◌, ◌-◌, ◌*◌, ◌/◌, ◌%◌, ◌≤◌, ◌<◌, ◌≡◌, ◌∙◌, refl, ap, inl, inr, Bool, true, false,
  ◌&&◌, Option, none, some, List, [], ◌∷◌, ◌++◌, if◌then◌else◌, ◌==◌, ltb, leb, Bytes, ascii, arith,
  Bool-cases, drop, take, length, length-append, append_assoc, take-append, drop-append, ◌>>=◌,
}
use ziot_rtp_bridge.Broker.Api.{digits_from}
use ziot_rtp_bridge.Http.{Got, empty, item, pump, jpeg_part}

-- A literal that has to stand in front.
abbrev skip : Bytes → Bytes → Option Bytes
skip [] s = some s
skip (p ∷ ps) [] = none
skip (p ∷ ps) (c ∷ cs) = if p == c then skip ps cs else none

abbrev is_digit : ℕ → Bool
is_digit c = leb b'0' c && leb c b'9'

-- The number in front, of which some digits are read, and what follows it.
read_number : ℕ → Bytes → ℕ × Bytes
read_number n [] = (n, [])
read_number n (c ∷ cs) = if is_digit c then read_number (n * 10 + (c - b'0')) cs else (n, c ∷ cs)

abbrev read_body : ℕ × Bytes → Option (Bytes × Bytes)
read_body (n, s) = skip (ascii "\r\n\r\n") s >>= λ t.
    if ltb (length t) n
    then none
    else (skip (ascii "\r\n") (drop n t) >>= λ rest. some (take n t, rest))

-- A part, read by its length, and what follows it.
read_part : Bytes → Option (Bytes × Bytes)
unfolding read_number
read_part s = skip (ascii "--frame\r\nContent-Type: image/jpeg\r\nContent-Length: ") s >>= λ t.
    read_body (read_number 0 t)

-- All parts of a stream; each takes a byte at least, so the length is fuel enough.
pub read_parts : ℕ → Bytes → Option (List Bytes)
unfolding read_part
read_parts fuel [] = some []
read_parts zero (c ∷ cs) = none
read_parts (suc fuel) (c ∷ cs) = read_part (c ∷ cs) >>= λ (part : Bytes × Bytes).
    read_parts fuel part.1 >>= λ (parts : List Bytes). some (part.0 ∷ parts)

abbrev pub read_stream : Bytes → Option (List Bytes)
read_stream s = read_parts (length s) s

skip-append : (p s : Bytes) → skip p (p ++ s) ≡ some s
skip-append [] s = refl
skip-append (c ∷ p) s = let rest = skip-append p s in ground arith

digits_from-append :
    (fuel n : ℕ) (out rest : Bytes)
    → digits_from fuel n out ++ rest ≡ digits_from fuel n (out ++ rest)
digits_from-append zero n out rest = refl
digits_from-append (suc fuel) n out rest =
    let longer = digits_from-append fuel (n / 10) ((n % 10 + b'0') ∷ out) rest in ground arith

read_number-digit :
    (m d : ℕ) (rest : Bytes)
    → d < 10
    → read_number m ((d + b'0') ∷ rest) ≡ read_number (m * 10 + d) rest
unfolding read_number
read_number-digit m d rest h = let same : d + b'0' - b'0' ≡ d = omega arith in ground arith

read_number-digits_from :
    (fuel n : ℕ) (rest : Bytes)
    → n < fuel
    → read_number 0 (digits_from fuel n rest) ≡ read_number n rest
read_number-digits_from zero n rest h = absurd (omega arith)
read_number-digits_from (suc fuel) n rest h = elim (Bool-cases (ltb n 10)) [
  | inl one ↦
      let same : 0 * 10 + n % 10 ≡ n = ground arith in
      rw one (read_number-digit 0 (n % 10) rest (omega arith) ∙ ap (λ m. read_number m rest) same)
  | inr more ↦
      let same : n / 10 * 10 + n % 10 ≡ n = omega arith in
      rw more (
        read_number-digits_from fuel (n / 10) ((n % 10 + b'0') ∷ rest) (ground arith)
        ∙ (read_number-digit (n / 10) (n % 10) rest (omega arith)
            ∙ ap (λ m. read_number m rest) same))
]

read_number_end : (n : ℕ) (s : Bytes) → read_number n (ascii "\r\n" ++ s) ≡ (n, ascii "\r\n" ++ s)
unfolding read_number
read_number_end n s = refl

read_body_whole :
    (frame rest : Bytes)
    → read_body (length frame, ascii "\r\n\r\n" ++ (frame ++ (ascii "\r\n" ++ rest)))
      ≡ some (frame, rest)
read_body_whole frame rest =
    let tail = ascii "\r\n" ++ rest in
    let long = length-append frame tail in
    let gone = drop-append (length frame) frame tail refl in
    let taken = take-append (length frame) frame tail refl in
    let fits : ltb (length (frame ++ tail)) (length frame) ≡ false = ground arith in
    rw (fits, gone, taken) refl

-- A part is read back, whatever follows it.
read_part-jpeg_part :
    (frame rest : Bytes) → read_part (jpeg_part frame ++ rest) ≡ some (frame, rest)
unfolding read_part jpeg_part
read_part-jpeg_part frame rest =
    let n = length frame in
    let head = ascii "--frame\r\nContent-Type: image/jpeg\r\nContent-Length: " in
    let body = ascii "\r\n\r\n" ++ (frame ++ (ascii "\r\n" ++ rest)) in
    let tail =
      append_assoc (digits_from (n + 1) n []) (ascii "\r\n\r\n" ++ (frame ++ ascii "\r\n")) rest
      ∙ (digits_from-append (n + 1) n [] (ascii "\r\n\r\n" ++ ((frame ++ ascii "\r\n") ++ rest))
          ∙ ap (λ (t : Bytes). digits_from (n + 1) n (ascii "\r\n\r\n" ++ t))
              (append_assoc frame (ascii "\r\n") rest)) in
    let split : jpeg_part frame ++ rest ≡ head ++ digits_from (n + 1) n body =
      append_assoc head (digits_from (n + 1) n [] ++ (ascii "\r\n\r\n" ++ (frame ++ ascii "\r\n")))
        rest
      ∙ ap (head ++◌) tail in
    ap read_part split
    ∙ (ap (λ (o : Option Bytes). o >>= λ t. read_body (read_number 0 t))
          (skip-append head (digits_from (n + 1) n body))
        ∙ (ap read_body (read_number-digits_from (n + 1) n body (omega arith))
            ∙ (ap read_body (read_number_end n (drop 2 body)) ∙ read_body_whole frame rest)))

-- The frames that a viewer has been sent: all up to the first write that fails, or the first three gaps of ten
-- seconds in a row.
abbrev pub delivered : List Got → List Bytes
delivered [] = []
delivered (item frame true ∷ gots) = frame ∷ delivered gots
delivered (item frame false ∷ gots) = []
delivered (empty ∷ empty ∷ empty ∷ gots) = []
delivered (empty ∷ gots) = delivered gots

abbrev parts : List Bytes → Bytes
parts [] = []
parts (frame ∷ frames) = jpeg_part frame ++ parts frames

abbrev gaps : ℕ → List Got → List Got
gaps zero gots = gots
gaps (suc k) gots = empty ∷ gaps k gots

pump-delivered :
    (idle : ℕ) (gots : List Got)
    → idle < 3
    → (pump jpeg_part idle gots).0 ≡ parts (delivered (gaps idle gots))
unfolding pump
pump-delivered zero [] h = refl
pump-delivered (suc zero) [] h = refl
pump-delivered (suc (suc zero)) [] h = refl
pump-delivered zero (item frame true ∷ gots) h =
    ap (jpeg_part frame ++◌) (pump-delivered 0 gots (omega arith))
pump-delivered (suc zero) (item frame true ∷ gots) h =
    ap (jpeg_part frame ++◌) (pump-delivered 0 gots (omega arith))
pump-delivered (suc (suc zero)) (item frame true ∷ gots) h =
    ap (jpeg_part frame ++◌) (pump-delivered 0 gots (omega arith))
pump-delivered zero (item frame false ∷ gots) h = refl
pump-delivered (suc zero) (item frame false ∷ gots) h = refl
pump-delivered (suc (suc zero)) (item frame false ∷ gots) h = refl
pump-delivered zero (empty ∷ gots) h = pump-delivered 1 gots (omega arith)
pump-delivered (suc zero) (empty ∷ gots) h = pump-delivered 2 gots (omega arith)
pump-delivered (suc (suc zero)) (empty ∷ gots) h = refl
pump-delivered (suc (suc (suc k))) gots h = absurd (omega arith)

length-jpeg_part : (frame : Bytes) → 1 ≤ length (jpeg_part frame)
unfolding jpeg_part
length-jpeg_part frame = omega arith

length-parts : (frames : List Bytes) → length frames ≤ length (parts frames)
length-parts [] = omega arith
length-parts (frame ∷ frames) =
    let one = length-jpeg_part frame in
    let rest = length-parts frames in
    omega (arith, length-append (jpeg_part frame) (parts frames), one, rest)

read_parts_one :
    (fuel : ℕ) (s : Bytes) (part : Bytes × Bytes)
    → read_part s ≡ some part
    → read_parts (suc fuel) s
      ≡ (read_parts fuel part.1 >>= λ (later : List Bytes). some (part.0 ∷ later))
unfolding read_parts
read_parts_one fuel [] part e = absurd (ground arith)
read_parts_one fuel (c ∷ cs) part e = rw e refl

read_parts-parts :
    (fuel : ℕ) (frames : List Bytes)
    → length frames ≤ fuel
    → read_parts fuel (parts frames) ≡ some frames
unfolding read_parts
read_parts-parts zero [] h = refl
read_parts-parts (suc fuel) [] h = refl
read_parts-parts zero (frame ∷ frames) h = absurd (omega arith)
read_parts-parts (suc fuel) (frame ∷ frames) h =
    read_parts_one fuel (jpeg_part frame ++ parts frames) (frame, parts frames)
      (read_part-jpeg_part frame (parts frames))
    ∙ rw (read_parts-parts fuel frames (omega arith)) refl

-- A viewer that reads parts by their length reads from what a stream has written exactly the frames of its queue, in
-- order, up to the first that could not be written or the first three gaps of ten seconds in a row.
pub read_stream-pump :
    (gots : List Got) → read_stream (pump jpeg_part 0 gots).0 ≡ some (delivered gots)
read_stream-pump gots =
    ap read_stream (pump-delivered 0 gots (omega arith))
    ∙ read_parts-parts (length (parts (delivered gots))) (delivered gots)
        (length-parts (delivered gots))
