-- ===== src/Base/Words.antt =====
-- Byte strings as lists of numbers below 256, and the `struct` formats that the program uses.
use Prim.Native.Char.{code}
use Prim.Native.String.{String}
use Prim.Native.Nat.{ℕ, ◌+◌, ◌-◌, ◌*◌, ◌/◌, ◌%◌, ◌<◌, ◌^◌}
use mathlib.Core.Path.{◌≡◌, refl}
use mathlib.Core.Bool.{Bool, true, false, ◌&&◌, ◌||◌}
use mathlib.Core.Option.{Option, none, some}
use mathlib.Core.List.{List, [], ◌∷◌, ◌++◌}
use native.Mathlib.Omega.{arith}
use ziot_rtp_bridge.Base.Lists.{length, get_or, replicate, length-append, length-replicate}
use ziot_rtp_bridge.Base.Tests.{ltb, leb, ◌==◌, if◌then◌else◌}

abbrev pub Bytes : Type 0
Bytes = List ℕ

-- `data[i]`, where a length test has shown that the index is in range.
abbrev pub byte_at : Bytes → ℕ → ℕ
byte_at xs i = get_or xs i 0

-- `struct.unpack("!H", data[i:i + 2])`
abbrev pub be16_at : Bytes → ℕ → ℕ
be16_at xs i = byte_at xs i * 256 + byte_at xs (i + 1)

-- `struct.unpack("!I", data[i:i + 4])`
abbrev pub be32_at : Bytes → ℕ → ℕ
be32_at xs i = be16_at xs i * 2 ^ 16 + be16_at xs (i + 2)

-- The two bytes of a u16, most significant first.
abbrev pub be16 : ℕ → Bytes
be16 n = n / 256 % 256 ∷ n % 256 ∷ []

-- `struct.pack("!H", n)`; `none` is its `struct.error` for a number that needs more bits.
abbrev pub pack16 : ℕ → Option Bytes
pack16 n = if ltb n (2 ^ 16) then some (be16 n) else none

-- Every element is a byte.
abbrev pub AreBytes : Bytes → Type 0
AreBytes [] = Unit
AreBytes (b ∷ bs) = (b < 256) × AreBytes bs

-- `s.ljust(n, b"\x00")`
abbrev pub ljust : ℕ → Bytes → Bytes
ljust n s = s ++ replicate (n - length s) 0

-- `a == b` on byte strings.
abbrev pub bytes_eq : Bytes → Bytes → Bool
bytes_eq [] [] = true
bytes_eq (x ∷ xs) (y ∷ ys) = x == y && bytes_eq xs ys
bytes_eq _ _ = false

pub bytes_eq_refl : (s : Bytes) → bytes_eq s s ≡ true
bytes_eq_refl [] = refl
bytes_eq_refl (c ∷ cs) = let rest = bytes_eq_refl cs in ground arith

pub bytes_eq_sound : (a b : Bytes) → bytes_eq a b ≡ true → a ≡ b
bytes_eq_sound [] [] e = refl
bytes_eq_sound [] (y ∷ ys) e = cc
bytes_eq_sound (x ∷ xs) [] e = cc
bytes_eq_sound (x ∷ xs) (y ∷ ys) e = let rest = bytes_eq_sound xs ys in ground (arith, rest)

-- A chain of steps that may raise.
infixl 5 ◌>>=◌
abbrev pub ◌>>=◌ {ℓ κ} : {A : Type ℓ} {B : Type κ} → Option A → (A → Option B) → Option B
none >>= f = none
some a >>= f = f a

pub length-ljust : (n : ℕ) (s : Bytes) → length (ljust n s) ≡ length s + (n - length s)
length-ljust n s =
    omega (
      arith,
      length-append s (replicate (n - length s) 0),
      length-replicate {A = ℕ} (n - length s) 0,
    )

-- The bytes of an ASCII literal.
abbrev pub ascii : String → Bytes
ascii String.[] = []
ascii (String.◌∷◌ c s) = code c ∷ ascii s

-- `s.startswith(prefix)`
abbrev pub starts_with : Bytes → Bytes → Bool
starts_with [] s = true
starts_with (p ∷ ps) [] = false
starts_with (p ∷ ps) (c ∷ cs) = p == c && starts_with ps cs

-- ASCII white space, as `bytes.split()` reads it.
abbrev pub is_space : ℕ → Bool
is_space c = c == b' ' || (leb 9 c && leb c 13)

abbrev pub flush : Bytes → List Bytes → List Bytes
flush [] words = words
flush (c ∷ cs) words = (c ∷ cs) ∷ words

-- `s.split()`, with the word read so far.
unfoldable pub words_from : Bytes → Bytes → List Bytes
words_from word [] = flush word []
words_from word (c ∷ cs) =
    let next = words_from [] cs in
    let longer = words_from (word ++ c ∷ []) cs in if is_space c then flush word next else longer

-- The text in front of the first `sep`, or all of it: `s.partition(sep)[0]`.
unfoldable pub before : Bytes → Bytes → Bytes
before sep [] = []
before sep (c ∷ cs) = if starts_with sep (c ∷ cs) then [] else c ∷ before sep cs
