-- ===== src/Signalling/Split/Sound.antt =====
-- How the frames and the tail that `split_signalling` returns stand in its input.
use ziot_rtp_bridge.Base.{
  ℕ, zero, suc, ◌≤◌, ◌≡◌, inl, inr, refl, sym, ap, true, false, List, [], ◌∷◌, ◌++◌, arith, ltb,
  Bytes, bytes_eq, length, take, length-append, some, length-take, get_or-take, Bool-cases,
  Option-cases, take-append-drop, append-nil,
}
use ziot_rtp_bridge.Signalling.Frame.{IsFrame}
use ziot_rtp_bridge.Signalling.Split.{
  Scan, cut, short, missing, is_magic, is_overlong, is_corrupt, claimed_size, scan_from, leftover,
  split_loop, split_signalling, last_magic, last_byte,
}
use ziot_rtp_bridge.Signalling.Split.Rounds.{after, split_loop-after, scan_from_shrinks}

-- `s` is garbage, a frame, garbage, a frame, …, garbage and the tail.
pub data Cuts : Bytes → List Bytes → Bytes → Type 0 where
  stop : {s t : Bytes} (garbage : Bytes) → s ≡ garbage ++ t → Cuts s [] t
  frame :
      {s f rest t : Bytes} {fs : List Bytes} (garbage : Bytes)
      → s ≡ garbage ++ (f ++ rest)
      → IsFrame f
      → Cuts rest fs t
      → Cuts s (f ∷ fs) t

-- What a scan says of its input.
abbrev pub Finds : Bytes → Scan → Type 0
Finds s (cut f rest) = (g : Bytes) × (s ≡ g ++ (f ++ rest)) × IsFrame f
Finds s (short t) = (g : Bytes) × (s ≡ g ++ t)
Finds s missing = Unit

Finds-cons : (b : ℕ) (bs : Bytes) (r : Scan) → Finds bs r → Finds (b ∷ bs) r
Finds-cons b bs (cut f rest) (g, e, v) = (b ∷ g, ap (◌∷◌ b) e, v)
Finds-cons b bs (short t) (g, e) = (b ∷ g, ap (◌∷◌ b) e)
Finds-cons b bs missing h = tt

taken-IsFrame :
    (s : Bytes)
    → is_magic s ≡ true
    → is_overlong s ≡ false
    → is_corrupt (take (claimed_size s) s) ≡ false
    → IsFrame (take (claimed_size s) s)
taken-IsFrame [] m o c = cc
taken-IsFrame (a ∷ []) m o c = cc
taken-IsFrame (a ∷ b ∷ bs) m o c =
    let s = a ∷ b ∷ bs in
    let n = claimed_size s in
    let sized = length-take n s in
    record {
      magic_first = ground (arith, get_or-take n 0 s 0);
      magic_second = ground (arith, get_or-take n 1 s 0);
      size = ground (arith, sized, get_or-take n 4 s 0, get_or-take n 5 s 0);
      bounded = ground (arith, sized);
      ended = ground arith;
      checked = ground arith;
    }

pub scan_from-Finds : (s : Bytes) → Finds s (scan_from s)
unfolding scan_from
scan_from-Finds [] = tt
scan_from-Finds (b ∷ bs) =
    let s = b ∷ bs in
    let later = Finds-cons b bs (scan_from bs) (scan_from-Finds bs) in
    elim (Bool-cases (is_magic s)) [
      | inr m ↦ rw m later
      | inl m ↦ rw m (elim (Bool-cases (ltb (length s) 10)) [
        | inl t ↦ rw t ([], refl)
        | inr t ↦ rw t (elim (Bool-cases (is_overlong s)) [
          | inl o ↦ rw o later
          | inr o ↦ rw o (elim (Bool-cases (is_corrupt (take (claimed_size s) s))) [
            | inl c ↦ rw c later
            | inr c ↦ rw c ([], sym (take-append-drop (claimed_size s) s), taken-IsFrame s m o c)
          ])
        ])
      ])
    ]

pub last_magic-suffix : (s : Bytes) {t : Bytes} → last_magic s ≡ some t → (g : Bytes) × (s ≡ g ++ t)
unfolding last_magic
last_magic-suffix [] e = cc
last_magic-suffix (b ∷ bs) {t} e = elim (Option-cases (last_magic bs)) [
  | inr (u, later) ↦
      let (g, splits) = last_magic-suffix bs later in (b ∷ g, cc (ap (◌∷◌ b) splits, later))
  | inl none_later ↦ ([], ground arith)
]

last_byte-suffix : (s : Bytes) → (g : Bytes) × (s ≡ g ++ last_byte s)
unfolding last_byte
last_byte-suffix [] = ([], refl)
last_byte-suffix (b ∷ []) = ([], refl)
last_byte-suffix (b ∷ c ∷ bs) = let (g, e) = last_byte-suffix (c ∷ bs) in (b ∷ g, ap (◌∷◌ b) e)

leftover-suffix : (s : Bytes) → (g : Bytes) × (s ≡ g ++ leftover s)
unfolding leftover
leftover-suffix s = elim (Option-cases (last_magic s)) [
  | inr (t, e) ↦ rw (e, leftover) (last_magic-suffix s e)
  | inl e ↦
      rw (e, leftover)
        (elim (Bool-cases (bytes_eq (last_byte s) (0x86 ∷ []))) [
          | inl lone ↦ rw lone (last_byte-suffix s)
          | inr other ↦ rw other (s, sym (append-nil s))
        ])
]

after-Cuts :
    (rec : Bytes → List Bytes × Bytes) (s : Bytes) (r : Scan)
    → Finds s r
    → ((f rest : Bytes) → r ≡ cut f rest → Cuts rest (rec rest).0 (rec rest).1)
    → Cuts s (after rec s r).0 (after rec s r).1
after-Cuts rec s (cut f rest) (g, e, v) h = frame g e v (h f rest refl)
after-Cuts rec s (short t) (g, e) h = stop g e
after-Cuts rec s missing found h = let (g, e) = leftover-suffix s in stop g e

split_loop-Cuts : (n : ℕ) (s : Bytes) → length s ≤ n → Cuts s (split_loop n s).0 (split_loop n s).1
split_loop-Cuts zero [] h = unfold split_loop in stop [] refl
split_loop-Cuts zero (b ∷ bs) h = absurd (omega arith)
split_loop-Cuts (suc n) s h = rw (split_loop-after n s) (
    after-Cuts (split_loop n) s (scan_from s) (scan_from-Finds s) (λ f rest e.
      let shrinks = scan_from_shrinks s f rest e in split_loop-Cuts n rest (omega arith)))

-- The frames that `split_signalling` returns are valid, and stand in the input in this order and
-- apart, the tail behind them.
pub split_signalling-Cuts : (s : Bytes) → Cuts s (split_signalling s).0 (split_signalling s).1
unfolding split_signalling
split_signalling-Cuts s = split_loop-Cuts (length s) s (omega arith)

pub Cuts-length : {s t : Bytes} {fs : List Bytes} → Cuts s fs t → length t ≤ length s
Cuts-length {t = t} (stop g e) = omega (arith, ap length e, length-append g t)
Cuts-length (frame {f = f} {rest = rest} g e v c) =
    omega (arith, ap length e, length-append g (f ++ rest), length-append f rest, Cuts-length c)
