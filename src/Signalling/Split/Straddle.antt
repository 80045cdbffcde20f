-- ===== src/Signalling/Split/Straddle.antt =====
-- A frame that straddles the boundary of a read.
use ziot_rtp_bridge.Base.{
  ℕ, suc, ◌≤◌, ◌<◌, ◌≡◌, ◌⊎◌, inl, inr, refl, ap, ◌∙◌, false, [], ◌∷◌, ◌++◌, arith, Bytes, length,
  length-append, none, Bool-cases, Option-cases,
}
use ziot_rtp_bridge.Signalling.Frame.{IsFrame}
use ziot_rtp_bridge.Signalling.Split.{
  Scan, cut, short, missing, is_magic, is_overlong, scan_from, leftover, split_signalling,
  last_magic,
}
use ziot_rtp_bridge.Signalling.Split.Complete.{be16_at-append}
use ziot_rtp_bridge.Signalling.Split.Sound.{
  Finds, scan_from-Finds, last_magic-suffix, Cuts-length, split_signalling-Cuts,
}
use ziot_rtp_bridge.Signalling.Split.Rounds.{after, split_signalling_rounds}

-- No 86 86 stands anywhere in the bytes.
abbrev pub IsMagicFree : Bytes → Type 0
IsMagicFree [] = Unit
IsMagicFree (b ∷ bs) = (is_magic (b ∷ bs) ≡ false) × IsMagicFree bs

-- What follows the first byte.
abbrev pub tail : Bytes → Bytes
tail [] = []
tail (b ∷ bs) = bs

scan_from-IsMagicFree : (s : Bytes) → IsMagicFree s → scan_from s ≡ missing
unfolding scan_from
scan_from-IsMagicFree [] h = refl
scan_from-IsMagicFree (b ∷ bs) h = ground (arith, scan_from-IsMagicFree bs h.1)

last_magic-IsMagicFree : (s : Bytes) → IsMagicFree s → last_magic s ≡ none
unfolding last_magic
last_magic-IsMagicFree [] h = refl
last_magic-IsMagicFree (b ∷ bs) h = ground (arith, last_magic-IsMagicFree bs h.1)

-- The scan of a frame's first part finds nothing to cut.
scan_from-part :
    (a b : ℕ) (p q : Bytes)
    → IsFrame (a ∷ b ∷ (p ++ q))
    → 0 < length q
    → IsMagicFree (b ∷ p)
    → (scan_from (a ∷ b ∷ p) ≡ short (a ∷ b ∷ p)) ⊎ (scan_from (a ∷ b ∷ p) ≡ missing)
unfolding scan_from
scan_from-part a b p q v pos h = elim (Bool-cases (is_overlong (a ∷ b ∷ p))) [
  | inl over ↦ ground (arith, scan_from-IsMagicFree (b ∷ p) h, v.magic_first, v.magic_second)
  | inr fits ↦ ground (
    arith,
    v.magic_first,
    v.magic_second,
    v.size,
    length-append p q,
    be16_at-append 4 (a ∷ b ∷ p) q,
  )
]

-- The header is there and claims more than has arrived: the scan goes on behind the first byte.
scan_from-over :
    (a : ℕ) (bs q : Bytes)
    → IsFrame (a ∷ bs ++ q)
    → 0 < length q
    → 10 ≤ suc (length bs)
    → scan_from (a ∷ bs) ≡ scan_from bs
unfolding scan_from
scan_from-over a [] q v pos n = absurd (omega arith)
scan_from-over a (b ∷ p) q v pos n = ground (
  arith,
  v.magic_first,
  v.magic_second,
  v.size,
  length-append p q,
  be16_at-append 4 (a ∷ b ∷ p) q,
)

leftover-part :
    (a b : ℕ) (p : Bytes)
    → a ≡ 0x86
    → b ≡ 0x86
    → IsMagicFree (b ∷ p)
    → leftover (a ∷ b ∷ p) ≡ a ∷ b ∷ p
unfolding leftover
leftover-part a b p ea eb h = ground (arith, last_magic-IsMagicFree (b ∷ p) h)

-- An incomplete frame waits in the tail, as long as no second magic has arrived with it.
pub split_signalling-part :
    (p q : Bytes)
    → IsFrame (p ++ q)
    → 0 < length q
    → IsMagicFree (tail p)
    → split_signalling p ≡ ([], p)
split_signalling-part [] q v pos h =
    split_signalling_rounds [] ∙ (unfold scan_from leftover in refl)
split_signalling-part (a ∷ []) q v pos h =
    split_signalling_rounds (a ∷ []) ∙ (unfold scan_from leftover in ground (arith, v.magic_first))
split_signalling-part (a ∷ b ∷ p) q v pos h = elim (scan_from-part a b p q v pos h) [
  | inl e ↦ split_signalling_rounds (a ∷ b ∷ p) ∙ rw e
  | inr e ↦
      split_signalling_rounds (a ∷ b ∷ p)
      ∙ rw e (rw (leftover-part a b p v.magic_first v.magic_second h))
]

last_magic-none : (s : Bytes) → last_magic s ≡ none → IsMagicFree s
unfolding last_magic
last_magic-none [] e = tt
last_magic-none (b ∷ bs) e = ground (arith, last_magic-none bs)

-- A scan that has passed the first magic ends behind it.
after-later :
    (a : ℕ) (bs : Bytes) (r : Scan)
    → Finds bs r
    → ¬ IsMagicFree bs
    → length (after split_signalling (a ∷ bs) r).1 < suc (length bs)
unfolding leftover
after-later a bs (cut f rest) (g, e, v) h = omega (
  arith,
  ap length e,
  length-append g (f ++ rest),
  length-append f rest,
  Cuts-length (split_signalling-Cuts rest),
)
after-later a bs (short t) (g, e) h = omega (arith, ap length e, length-append g t)
after-later a bs missing found h = elim (Option-cases (last_magic bs)) [
  | inl e ↦ absurd (h (last_magic-none bs e))
  | inr (t, e) ↦
      let (g, splits) = last_magic-suffix bs e in
      ground (arith, ap length splits, length-append g t)
]

-- An incomplete frame of which the header has arrived, with a second 86 86 behind its own, is not
-- kept whole: what waits for the next read is shorter, so the frame is lost.
pub split_signalling_loses :
    (p q : Bytes)
    → IsFrame (p ++ q)
    → 0 < length q
    → 10 ≤ length p
    → ¬ IsMagicFree (tail p)
    → length (split_signalling p).1 < length p
split_signalling_loses [] q v pos n h = absurd (omega arith)
split_signalling_loses (a ∷ bs) q v pos n h =
    rw (split_signalling_rounds (a ∷ bs), scan_from-over a bs q v pos n)
      (after-later a bs (scan_from bs) (scan_from-Finds bs) h)
