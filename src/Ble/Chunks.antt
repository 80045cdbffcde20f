-- ===== src/Ble/Chunks.antt =====
-- `chunk20`, which cuts a frame into writes.
use ziot_rtp_bridge.Base.{
  ℕ, zero, suc, ◌≤◌, ◌<◌, ◌≡◌, refl, ap, ◌∙◌, List, [], ◌∷◌, ◌++◌, arith, Bytes, length, take, drop,
  length-take, length-drop, take-append-drop,
}
use ziot_rtp_bridge.Ble.{chunks, chunk20}

abbrev pub written : List Bytes → Bytes
written [] = []
written (c ∷ cs) = c ++ written cs

-- No write is empty or longer than twenty bytes.
abbrev pub AreWrites : List Bytes → Type 0
AreWrites [] = Unit
AreWrites (c ∷ cs) = (0 < length c) × (length c ≤ 20) × AreWrites cs

written-chunks : (fuel : ℕ) (s : Bytes) → length s ≤ fuel → written (chunks fuel s) ≡ s
unfolding chunks
written-chunks zero [] h = refl
written-chunks zero (b ∷ bs) h = absurd (omega arith)
written-chunks (suc fuel) [] h = refl
written-chunks (suc fuel) (b ∷ bs) h =
    let shorter = length-drop 20 (b ∷ bs) in
    ap (λ (t : Bytes). take 20 (b ∷ bs) ++ t) (written-chunks fuel (drop 20 (b ∷ bs)) (omega arith))
    ∙ take-append-drop 20 (b ∷ bs)

chunks-AreWrites : (fuel : ℕ) (s : Bytes) → AreWrites (chunks fuel s)
unfolding chunks
chunks-AreWrites zero s = tt
chunks-AreWrites (suc fuel) [] = tt
chunks-AreWrites (suc fuel) (b ∷ bs) =
    let size = length-take 20 (b ∷ bs) in
    (omega arith, omega arith, chunks-AreWrites fuel (drop 20 (b ∷ bs)))

-- The writes of a frame are its bytes in order, and each has between one and twenty of them.
pub chunk20_lem : (frame : Bytes) → (written (chunk20 frame) ≡ frame) × AreWrites (chunk20 frame)
unfolding chunk20
chunk20_lem frame =
    (written-chunks (length frame) frame (omega arith), chunks-AreWrites (length frame) frame)
