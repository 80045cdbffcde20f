-- ===== src/Cloud/Version.antt =====
-- `_VERSION_RE` and `version_lt` of ziot_rtp_bridge.py, on ASCII texts. In `V?(\d+(?:\.\d+)+)` no step
-- backtracks: digits are followed by a dot and a digit, or the match at this place fails.
pub mod Order
use ziot_rtp_bridge.Base.{
  ℕ, ◌+◌, ◌-◌, ◌*◌, Bool, true, false, not, ◌&&◌, ◌||◌, List, [], ◌∷◌, ◌++◌, if◌then◌else◌, ◌==◌,
  ltb, leb, Bytes, length, replicate, max,
}

abbrev pub is_digit : ℕ → Bool
is_digit c = leb b'0' c && leb c b'9'

abbrev pub digit_value : ℕ → ℕ
digit_value c = c - b'0'

-- The numbers of a dotted group, behind the first digits, which make `n`.
unfoldable pub numbers : ℕ → Bytes → List ℕ
numbers n [] = n ∷ []
numbers n (c ∷ []) = if is_digit c then (n * 10 + digit_value c) ∷ [] else n ∷ []
numbers n (c ∷ d ∷ s) = elim (is_digit c) [
  | true ↦ numbers (n * 10 + digit_value c) (d ∷ s)
  | false ↦ elim (c == b'.' && is_digit d) [ true ↦ n ∷ numbers (digit_value d) s | false ↦ n ∷ [] ]
]

-- The numbers that stand at this place, behind the optional V.
unfoldable pub numbers_here : Bytes → List ℕ
unfolding numbers
numbers_here [] = []
numbers_here (c ∷ []) = if is_digit c then digit_value c ∷ [] else []
numbers_here (c ∷ d ∷ s) =
    let bare = numbers (digit_value c) (d ∷ s) in
    let behind_v = numbers (digit_value d) s in
    if is_digit c then bare else if c == b'V' && is_digit d then behind_v else []

-- `parts`: the first group of two or more numbers, or none.
unfoldable pub parts : Bytes → List ℕ
unfolding numbers_here
parts [] = []
parts (c ∷ s) =
    let later = parts s in
    let here = numbers_here (c ∷ s) in if leb 2 (length here) then here else later

-- `pc += [0] * (width - len(pc))`
abbrev pub pad_to : ℕ → List ℕ → List ℕ
pad_to width xs = xs ++ replicate (width - length xs) 0

-- `pc < pt` on lists.
abbrev pub list_lt : List ℕ → List ℕ → Bool
list_lt [] [] = false
list_lt [] (y ∷ ys) = true
list_lt (x ∷ xs) [] = false
list_lt (x ∷ xs) (y ∷ ys) = ltb x y || (x == y && list_lt xs ys)

abbrev pub is_empty : List ℕ → Bool
is_empty [] = true
is_empty (_ ∷ _) = false

unfoldable pub version_lt : Bytes → Bytes → Bool
unfolding parts
version_lt current target =
    let pc = parts current in
    let pt = parts target in
    let width = max (length pc) (length pt) in
    if is_empty pc || is_empty pt then false else list_lt (pad_to width pc) (pad_to width pt)
