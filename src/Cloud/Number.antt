-- ===== src/Cloud/Number.antt =====
-- `int()` of Python, as ziot_rtp_bridge.py calls it on ASCII texts and on what JSON gives.
use ziot_rtp_bridge.Base.{
  ℕ, zero, suc, ◌+◌, ◌-◌, ◌*◌, ◌/◌, ◌%◌, ◌<◌, ◌≡◌, ◌∙◌, refl, ap, inl, inr, Bool, true, false, ◌&&◌,
  ◌||◌, Option, none, some, [], ◌∷◌, if◌then◌else◌, ◌==◌, ltb, leb, Bytes, is_space, arith,
  Bool-cases, if-cases,
}
use ziot_rtp_bridge.Base.Int.{ℤ, pos, negsuc}
use ziot_rtp_bridge.Broker.Api.{digits_from, str}
use ziot_rtp_bridge.Cloud.Version.{is_digit, digit_value}

-- A JSON value, as far as `int()` tells them apart; a float is its whole part.
pub data Json : Type 0 where
  null composite : Json
  boolean : Bool → Json
  number : ℤ → Json
  text : Bytes → Json

-- ASCII white space, as `str.strip()` reads it; `int()` skips `is_space` alone.
abbrev pub is_blank : ℕ → Bool
is_blank c = is_space c || (leb 28 c && leb c 31)

-- `s.lstrip(…)` and `s.rstrip(…)`, with a test on characters.
unfoldable pub lstrip : (ℕ → Bool) → Bytes → Bytes
lstrip strips [] = []
lstrip strips (c ∷ cs) = let rest = lstrip strips cs in if strips c then rest else c ∷ cs

unfoldable pub rstrip : (ℕ → Bool) → Bytes → Bytes
rstrip strips [] = []
rstrip strips (c ∷ cs) = elim (rstrip strips cs) [
  | [] ↦ if strips c then [] else c ∷ []
  | d ∷ ds ↦ c ∷ d ∷ ds
]

abbrev pub strip : (ℕ → Bool) → Bytes → Bytes
strip strips s = rstrip strips (lstrip strips s)

-- The digits of a number, of which some are read; one underscore may stand between two digits.
unfoldable pub digits_of : ℕ → Bool → Bytes → Option ℕ
digits_of n true [] = some n
digits_of n false [] = none
digits_of n behind_digit (c ∷ cs) =
    let longer = digits_of (n * 10 + digit_value c) true cs in
    let next = digits_of n false cs in
    if is_digit c then longer else if c == b'_' && behind_digit then next else none

abbrev pub negated : ℕ → ℤ
negated zero = pos 0
negated (suc n) = negsuc n

abbrev pub signed : Bytes → Option ℤ
signed [] = none
signed (c ∷ cs) =
    if c == b'-'
    then elim (digits_of 0 false cs) [ none ↦ none | some n ↦ some (negated n) ]
    else elim (digits_of 0 false (if c == b'+' then cs else c ∷ cs)) [
      | none ↦ none
      | some n ↦ some (pos n)
    ]

-- `int(s)`; `none` is its `ValueError`.
unfoldable pub int_text : Bytes → Option ℤ
unfolding lstrip rstrip digits_of
int_text s = signed (strip is_space s)

-- `int(v)`; `none` is its `TypeError` or `ValueError`.
abbrev pub int_of : Json → Option ℤ
int_of null = none
int_of composite = none
int_of (boolean false) = some (pos 0)
int_of (boolean true) = some (pos 1)
int_of (number z) = some z
int_of (text s) = int_text s

-- No character is stripped.
abbrev pub Stays : (ℕ → Bool) → Bytes → Type 0
Stays strips [] = Unit
Stays strips (c ∷ cs) = (strips c ≡ false) × Stays strips cs

lstrip-Stays : (strips : ℕ → Bool) (s : Bytes) → Stays strips s → lstrip strips s ≡ s
unfolding lstrip
lstrip-Stays strips [] h = refl
lstrip-Stays strips (c ∷ cs) (h, hs) = ground arith

rstrip-Stays : (strips : ℕ → Bool) (s : Bytes) → Stays strips s → rstrip strips s ≡ s
unfolding rstrip
rstrip-Stays strips [] h = refl
rstrip-Stays strips (c ∷ []) (h, hs) = ground arith
rstrip-Stays strips (c ∷ d ∷ s) (h, hs) = let rest = rstrip-Stays strips (d ∷ s) hs in rw rest refl

pub strip-Stays : (strips : ℕ → Bool) (s : Bytes) → Stays strips s → strip strips s ≡ s
strip-Stays strips s h = ap (rstrip strips) (lstrip-Stays strips s h) ∙ rstrip-Stays strips s h

-- Every character is a digit.
abbrev pub AreDigits : Bytes → Type 0
AreDigits [] = Unit
AreDigits (c ∷ cs) = (is_digit c ≡ true) × AreDigits cs

pub digits_from-AreDigits :
    (fuel n : ℕ) (out : Bytes) → AreDigits out → AreDigits (digits_from fuel n out)
digits_from-AreDigits zero n out h = h
digits_from-AreDigits (suc fuel) n out h =
    let digit : is_digit (n % 10 + b'0') ≡ true = ground arith in
    let longer = digits_from-AreDigits fuel (n / 10) ((n % 10 + b'0') ∷ out) (digit, h) in
    if-cases AreDigits (ltb n 10) (λ _. (digit, h)) (λ _. longer)

digits_of-digit :
    (m d : ℕ) (last : Bool) (rest : Bytes)
    → d < 10
    → digits_of m last ((d + b'0') ∷ rest) ≡ digits_of (m * 10 + d) true rest
unfolding digits_of
digits_of-digit m d last rest h = let same : d + b'0' - b'0' ≡ d = omega arith in ground arith

digits_of-digits_from :
    (fuel n : ℕ) (last : Bool) (rest : Bytes)
    → n < fuel
    → digits_of 0 last (digits_from fuel n rest) ≡ digits_of n true rest
digits_of-digits_from zero n last rest h = absurd (omega arith)
digits_of-digits_from (suc fuel) n last rest h = elim (Bool-cases (ltb n 10)) [
  | inl one ↦
      let same : 0 * 10 + n % 10 ≡ n = ground arith in
      rw one
        (digits_of-digit 0 (n % 10) last rest (omega arith) ∙ ap (λ m. digits_of m true rest) same)
  | inr more ↦
      let same : n / 10 * 10 + n % 10 ≡ n = omega arith in
      rw more (
        digits_of-digits_from fuel (n / 10) last ((n % 10 + b'0') ∷ rest) (ground arith)
        ∙ (digits_of-digit (n / 10) (n % 10) true rest (omega arith)
            ∙ ap (λ m. digits_of m true rest) same))
]

-- Digits are no white space.
pub AreDigits-Stays : (s : Bytes) → AreDigits s → Stays is_space s
AreDigits-Stays [] h = tt
AreDigits-Stays (c ∷ cs) (h, hs) = (ground arith, AreDigits-Stays cs hs)

signed_digits :
    (s : Bytes) (n : ℕ) → AreDigits s → digits_of 0 false s ≡ some n → signed s ≡ some (pos n)
unfolding digits_of
signed_digits [] n h e = absurd (ground arith)
signed_digits (c ∷ cs) n (h, hs) e =
    let minus : (c == b'-') ≡ false = ground arith in
    let plus : (c == b'+') ≡ false = ground arith in rw (minus, plus, e) refl

-- A number is read back from its digits.
pub int_text-str : (n : ℕ) → int_text (str (pos n)) ≡ some (pos n)
unfolding int_text str
int_text-str n =
    let s = digits_from (n + 1) n [] in
    let digits = digits_from-AreDigits (n + 1) n [] tt in
    ap signed (strip-Stays is_space s (AreDigits-Stays s digits))
    ∙ signed_digits s n digits (digits_of-digits_from (n + 1) n false [] (omega arith))
