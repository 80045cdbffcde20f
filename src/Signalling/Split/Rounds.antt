-- ===== src/Signalling/Split/Rounds.antt =====
-- The outer loop of `split_signalling` without fuel.
use ziot_rtp_bridge.Base.{
  ℕ, zero, suc, ◌≤◌, ◌<◌, ◌≡◌, refl, sym, ◌∙◌, List, [], ◌∷◌, arith, Bytes, length, length-drop,
}
use ziot_rtp_bridge.Signalling.Split.{
  Scan, cut, short, missing, claimed_size, scan_from, leftover, split_loop, split_signalling,
}

-- What is cut leaves a shorter input.
pub scan_from_shrinks : (s f rest : Bytes) → scan_from s ≡ cut f rest → length rest < length s
unfolding scan_from
scan_from_shrinks [] f rest e = cc
scan_from_shrinks (b ∷ bs) f rest e =
    ground (arith, scan_from_shrinks bs f rest, length-drop (claimed_size (b ∷ bs)) (b ∷ bs))

-- What the loop does with the end of a scan, given what it makes of the rest.
abbrev pub after : (Bytes → List Bytes × Bytes) → Bytes → Scan → List Bytes × Bytes
after rec s (cut f rest) = (f ∷ (rec rest).0, (rec rest).1)
after rec s (short t) = ([], t)
after rec s missing = ([], leftover s)

pub split_loop-after :
    (n : ℕ) (s : Bytes) → split_loop (suc n) s ≡ after (split_loop n) s (scan_from s)
unfolding split_loop
split_loop-after n s = ground arith

after-agree :
    (g h : Bytes → List Bytes × Bytes) (s : Bytes) (r : Scan)
    → ((f rest : Bytes) → r ≡ cut f rest → g rest ≡ h rest)
    → after g s r ≡ after h s r
after-agree g h s (cut f rest) e = rw (e f rest refl)
after-agree g h s (short t) e = refl
after-agree g h s missing e = refl

split_loop_nil : (n : ℕ) → split_loop n [] ≡ ([], [])
unfolding split_loop scan_from leftover
split_loop_nil zero = refl
split_loop_nil (suc n) = refl

-- More fuel than the length changes nothing.
split_loop_fuel :
    (n m : ℕ) (s : Bytes) → length s ≤ n → length s ≤ m → split_loop n s ≡ split_loop m s
split_loop_fuel n m [] h k = split_loop_nil n ∙ sym (split_loop_nil m)
split_loop_fuel zero m (b ∷ bs) h k = absurd (omega arith)
split_loop_fuel (suc n) zero (b ∷ bs) h k = absurd (omega arith)
split_loop_fuel (suc n) (suc m) (b ∷ bs) h k =
    split_loop-after n (b ∷ bs)
    ∙ after-agree (split_loop n) (split_loop m) (b ∷ bs) (scan_from (b ∷ bs)) (λ f rest e.
      let shrinks = scan_from_shrinks (b ∷ bs) f rest e in
      split_loop_fuel n m rest (omega arith) (omega arith))
    ∙ sym (split_loop-after m (b ∷ bs))

-- The outer loop without fuel: a round, and then the same on what is left of the input.
pub split_signalling_rounds :
    (s : Bytes) → split_signalling s ≡ after split_signalling s (scan_from s)
unfolding split_signalling
split_signalling_rounds [] = unfold scan_from leftover in split_loop_nil 0
split_signalling_rounds (b ∷ bs) =
    split_loop-after (length bs) (b ∷ bs)
    ∙ after-agree (split_loop (length bs)) split_signalling (b ∷ bs) (scan_from (b ∷ bs))
        (λ f rest e.
          let shrinks = scan_from_shrinks (b ∷ bs) f rest e in
          split_loop_fuel (length bs) (length rest) rest (omega arith) (omega arith))

pub split_signalling_nil : split_signalling [] ≡ ([], [])
unfolding split_signalling
split_signalling_nil = refl
