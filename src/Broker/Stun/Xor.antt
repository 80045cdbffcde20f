-- ===== src/Broker/Stun/Xor.antt =====
-- The exclusive or of two numbers of some bits has no more bits.
use Prim.Native.Nat.{digits, differ, bit_xor-bitwise}
use ziot_rtp_bridge.Base.{ℕ, zero, suc, ◌*◌, ◌/◌, ◌%◌, ◌<◌, bit_xor, arith}

-- The power of two.
abbrev power : ℕ → ℕ
power zero = 1
power (suc k) = power k * 2

differ_small : (x y : ℕ) → x < 2 → y < 2 → differ x y < 2
differ_small zero y p q = q
differ_small (suc x) zero p q = p
differ_small (suc zero) (suc zero) p q = omega arith
differ_small (suc zero) (suc (suc y)) p q = absurd (omega arith)
differ_small (suc (suc x)) (suc y) p q = absurd (omega arith)

digits_small : (k n a b : ℕ) → a < power k → b < power k → digits (λ d. d) differ n a b < power k
digits_small k zero a b p q = q
digits_small k (suc n) zero b p q = q
digits_small zero (suc n) (suc a) b p q = absurd (omega arith)
digits_small (suc k) (suc n) (suc a) b p q =
    let rest = digits_small k n (suc a / 2) (b / 2) (omega arith) (omega arith) in
    let digit = differ_small (suc a % 2) (b % 2) (omega arith) (omega arith) in
    omega (arith, rest, digit)

pub bit_xor_small : (a b : ℕ) → a < 65536 → b < 65536 → bit_xor a b < 65536
bit_xor_small a b p q = rw (bit_xor-bitwise a b) (digits_small 16 a a b p q)
