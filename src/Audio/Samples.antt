-- ===== src/Audio/Samples.antt =====
-- The samples that `ulaw_to_pcm16` decodes.
use ziot_rtp_bridge.Audio.{ulaw_sample, ulaw_to_pcm16}
use ziot_rtp_bridge.Base.{
  ℕ, zero, suc, ◌+◌, ◌*◌, ◌%◌, ◌<◌, ◌≡◌, ◌⊎◌, inl, inr, refl, ap, ◌∙◌, Bool, true, ◌&&◌, [], ◌∷◌,
  ◌==◌, Bytes, byte_at, length, arith,
}

-- A test of each number below a bound.
abbrev all_below : ℕ → (ℕ → Bool) → Bool
all_below zero f = true
all_below (suc n) f = f n && all_below n f

all_below_at : (n : ℕ) (f : ℕ → Bool) → all_below n f ≡ true → (i : ℕ) → i < n → f i ≡ true
all_below_at zero f all i below = ground arith
all_below_at (suc n) f all i below =
    let split : (i < n) ⊎ (i ≡ n) = omega arith in
    let both : (f n ≡ true) × (all_below n f ≡ true) = ground arith in
    elim split [ inl h ↦ all_below_at n f both.1 i h | inr e ↦ ap f e ∙ both.0 ]

mirrors : ℕ → Bool
mirrors b = (ulaw_sample b + ulaw_sample (b + 128)) % 65536 == 0

mirrors_all : all_below 128 mirrors ≡ true
unfolding mirrors ulaw_sample
mirrors_all = refl

-- The second half of the table is the first with its sign changed, as 16-bit numbers.
pub ulaw_sample_mirror : (b : ℕ) → b < 128 → (ulaw_sample b + ulaw_sample (b + 128)) % 65536 ≡ 0
unfolding mirrors
ulaw_sample_mirror b below = let at = all_below_at 128 mirrors mirrors_all b below in ground arith

length-ulaw_to_pcm16 : (p : Bytes) → length (ulaw_to_pcm16 p) ≡ 2 * length p
unfolding ulaw_to_pcm16
length-ulaw_to_pcm16 [] = refl
length-ulaw_to_pcm16 (b ∷ bs) = let rest = length-ulaw_to_pcm16 bs in omega arith

ulaw_to_pcm16_at :
    (p : Bytes) (i : ℕ)
    → i < length p
    → byte_at (ulaw_to_pcm16 p) (2 * i) + 256 * byte_at (ulaw_to_pcm16 p) (2 * i + 1)
      ≡ ulaw_sample (byte_at p i)
unfolding ulaw_to_pcm16
ulaw_to_pcm16_at [] i below = omega arith
ulaw_to_pcm16_at (b ∷ bs) zero below = omega arith
ulaw_to_pcm16_at (b ∷ bs) (suc i) below =
    let even : 2 * suc i ≡ suc (suc (2 * i)) = omega arith in
    let odd : suc (suc (2 * i)) + 1 ≡ suc (suc (2 * i + 1)) = omega arith in
    rw even (rw odd (ulaw_to_pcm16_at bs i (omega arith)))

-- The decoded audio has two bytes for each byte of the payload, and read as little-endian pairs they are
-- the table's entries for these bytes, in their order.
pub ulaw_to_pcm16_samples :
    (p : Bytes)
    → (length (ulaw_to_pcm16 p) ≡ 2 * length p)
      × ((i : ℕ)
          → i < length p
          → byte_at (ulaw_to_pcm16 p) (2 * i) + 256 * byte_at (ulaw_to_pcm16 p) (2 * i + 1)
            ≡ ulaw_sample (byte_at p i))
ulaw_to_pcm16_samples p = (length-ulaw_to_pcm16 p, ulaw_to_pcm16_at p)
