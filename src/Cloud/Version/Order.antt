-- ===== src/Cloud/Version/Order.antt =====
-- `version_lt` as an order on versions, whose missing parts count as zero.
use ziot_rtp_bridge.Base.{
  ℕ, zero, suc, ◌+◌, ◌-◌, ◌≡◌, refl, Bool, true, false, ◌&&◌, ◌||◌, List, [], ◌∷◌, ◌++◌,
  if◌then◌else◌, ◌==◌, ltb, Bytes, length, replicate, max, arith,
}
use ziot_rtp_bridge.Cloud.Version.{parts, list_lt, is_empty, version_lt}

-- The order on number lists that go on with zeros for ever.
abbrev pub zero_lt : List ℕ → List ℕ → Bool
zero_lt [] [] = false
zero_lt [] (y ∷ ys) = ltb 0 y || zero_lt [] ys
zero_lt (x ∷ xs) [] = false
zero_lt (x ∷ xs) (y ∷ ys) = ltb x y || (x == y && zero_lt xs ys)

zero_lt_nil : (xs : List ℕ) → zero_lt xs [] ≡ false
zero_lt_nil [] = refl
zero_lt_nil (x ∷ xs) = refl

pad_lemma :
    (xs ys : List ℕ) (m n : ℕ)
    → length xs + m ≡ length ys + n
    → list_lt (xs ++ replicate m 0) (ys ++ replicate n 0) ≡ zero_lt xs ys
pad_lemma [] [] zero zero e = refl
pad_lemma [] [] zero (suc n) e = absurd (omega arith)
pad_lemma [] [] (suc m) zero e = absurd (omega arith)
pad_lemma [] [] (suc m) (suc n) e = ground (arith, pad_lemma [] [] m n (omega arith))
pad_lemma [] (y ∷ ys) zero n e = absurd (omega arith)
pad_lemma [] (y ∷ ys) (suc m) n e = ground (arith, pad_lemma [] ys m n (omega arith))
pad_lemma (x ∷ xs) [] m zero e = absurd (omega arith)
pad_lemma (x ∷ xs) [] m (suc n) e =
    ground (arith, pad_lemma xs [] m n (omega arith), zero_lt_nil xs)
pad_lemma (x ∷ xs) (y ∷ ys) m n e = ground (arith, pad_lemma xs ys m n (omega arith))

zero_lt_irrefl : (xs : List ℕ) → zero_lt xs xs ≡ false
zero_lt_irrefl [] = refl
zero_lt_irrefl (x ∷ xs) = ground (arith, zero_lt_irrefl xs)

zero_lt_trans :
    (xs ys zs : List ℕ) → zero_lt xs ys ≡ true → zero_lt ys zs ≡ true → zero_lt xs zs ≡ true
zero_lt_trans [] [] zs h k = cc
zero_lt_trans [] (y ∷ ys) [] h k = cc
zero_lt_trans [] (y ∷ ys) (z ∷ zs) h k = ground (arith, zero_lt_trans [] ys zs)
zero_lt_trans (x ∷ xs) [] zs h k = cc
zero_lt_trans (x ∷ xs) (y ∷ ys) [] h k = cc
zero_lt_trans (x ∷ xs) (y ∷ ys) (z ∷ zs) h k = ground (arith, zero_lt_trans xs ys zs)

-- The comparison is that of the two lists of numbers, whichever is the longer.
pub version_lt-parts :
    (a b : Bytes)
    → version_lt a b
      ≡ (if is_empty (parts a) || is_empty (parts b) then false else zero_lt (parts a) (parts b))
unfolding version_lt
version_lt-parts a b =
    let w = max (length (parts a)) (length (parts b)) in
    rw (pad_lemma (parts a) (parts b) (w - length (parts a)) (w - length (parts b)) (omega arith))

-- No version is older than itself.
pub version_lt_irrefl : (a : Bytes) → version_lt a a ≡ false
version_lt_irrefl a = ground (arith, version_lt-parts a a, zero_lt_irrefl (parts a))

-- Older than older is older.
pub version_lt_trans :
    (a b c : Bytes) → version_lt a b ≡ true → version_lt b c ≡ true → version_lt a c ≡ true
version_lt_trans a b c h k = ground (
  arith,
  version_lt-parts a b,
  version_lt-parts b c,
  version_lt-parts a c,
  zero_lt_trans (parts a) (parts b) (parts c),
)

-- The same numbers but for zeros at the end.
abbrev pub AreZero : List ℕ → Type 0
AreZero [] = Unit
AreZero (x ∷ xs) = (x ≡ 0) × AreZero xs

abbrev pub SameVersion : List ℕ → List ℕ → Type 0
SameVersion [] ys = AreZero ys
SameVersion (x ∷ xs) [] = AreZero (x ∷ xs)
SameVersion (x ∷ xs) (y ∷ ys) = (x ≡ y) × SameVersion xs ys

AreZero-zero_lt : (ys : List ℕ) → zero_lt [] ys ≡ false → AreZero ys
AreZero-zero_lt [] h = tt
AreZero-zero_lt (y ∷ ys) h = ground (arith, AreZero-zero_lt ys)

zero_lt_total : (xs ys : List ℕ) → zero_lt xs ys ≡ false → zero_lt ys xs ≡ false → SameVersion xs ys
zero_lt_total [] [] h k = tt
zero_lt_total [] (y ∷ ys) h k = AreZero-zero_lt (y ∷ ys) h
zero_lt_total (x ∷ xs) [] h k = AreZero-zero_lt (x ∷ xs) k
zero_lt_total (x ∷ xs) (y ∷ ys) h k = ground (arith, zero_lt_total xs ys)

-- Of two readable versions, neither is older only if they are the same version.
pub version_lt_total :
    (a b : Bytes)
    → is_empty (parts a) ≡ false
    → is_empty (parts b) ≡ false
    → version_lt a b ≡ false
    → version_lt b a ≡ false
    → SameVersion (parts a) (parts b)
version_lt_total a b p q h k =
    zero_lt_total (parts a) (parts b) (ground (arith, version_lt-parts a b))
      (ground (arith, version_lt-parts b a))
