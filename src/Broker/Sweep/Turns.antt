-- ===== src/Broker/Sweep/Turns.antt =====
-- Which candidate a camera is answered with, as the sweep goes on.
use ziot_rtp_bridge.Base.{
  ℕ, suc, ◌+◌, ◌%◌, ◌≤◌, ◌<◌, ◌≡◌, refl, sym, ap, ap₂, ◌∙◌, true, false, List, [], ◌∷◌, ◌++◌, ltb,
  Bytes, arith, length, get_or,
}
use native.Mathlib.Nat.{mod-mod, mod-add-mod}
use ziot_rtp_bridge.Broker.Sweep.{Candidate, Sweep, new_sweep, sweep}

-- A frame of the camera: when it comes, and the candidates that are built for it.
pub record Frame : Type 0 where
  pub now : ℕ
  pub built : List Candidate

-- The answers to the frames of a camera.
abbrev pub replies : List Frame → Sweep → List Bytes
replies [] s = []
replies (f ∷ fs) s = (sweep f.now f.built s).1 ∷ replies fs (sweep f.now f.built s).0

-- A frame that comes when a candidate was held for more than six seconds, and those that follow within six
-- seconds.
pub record Round : Type 0 where
  pub start : Frame
  pub again : List Frame

abbrev pub AreWithin : ℕ → List Frame → Type 0
AreWithin last [] = Unit
AreWithin last (f ∷ fs) = (f.now ≤ last) × AreWithin last fs

abbrev pub AreRounds : ℕ → List Round → Type 0
AreRounds since [] = Unit
AreRounds since (r ∷ rs) =
    (since + 6000 < r.start.now) × AreWithin (r.start.now + 6000) r.again × AreRounds r.start.now rs

-- For each frame there are `n` candidates.
abbrev pub AreOf : ℕ → List Frame → Type 0
AreOf n [] = Unit
AreOf n (f ∷ fs) = (length f.built ≡ n) × AreOf n fs

abbrev pub HaveSize : ℕ → List Round → Type 0
HaveSize n [] = Unit
HaveSize n (r ∷ rs) = (length r.start.built ≡ n) × AreOf n r.again × HaveSize n rs

abbrev pub frames_of : List Round → List Frame
frames_of [] = []
frames_of (r ∷ rs) = r.start ∷ (r.again ++ frames_of rs)

-- The candidate of a number among those of the frame, which counts on behind the last one with the first.
abbrev pub frame_at : List Candidate → ℕ → Bytes
frame_at cs k = (get_or cs (k % length cs) ([], [])).1

abbrev pub each_at : ℕ → List Frame → List Bytes
each_at k [] = []
each_at k (f ∷ fs) = frame_at f.built k ∷ each_at k fs

-- Every round has one number, the next one.
abbrev pub in_turn : ℕ → List Round → List Bytes
in_turn i [] = []
in_turn i (r ∷ rs) =
    (frame_at r.start.built (suc i) ∷ each_at (suc i) r.again) ++ in_turn (suc i) rs

-- A state that stands at a number, of `n` candidates, since a time.
abbrev Stands : ℕ → ℕ → ℕ → Sweep → Type 0
Stands n i since s = (s.index % n ≡ i % n) × (s.since ≡ since)

sweep_holds :
    (now n i since : ℕ) (cs : List Candidate) (s : Sweep)
    → length cs ≡ n
    → Stands n i since s
    → now ≤ since + 6000
    → Stands n i since (sweep now cs s).0 × ((sweep now cs s).1 ≡ frame_at cs i)
unfolding sweep
sweep_holds now n i since cs s size (at, from) early =
    let held : ltb (s.since + 6000) now ≡ false = ground arith in
    let at' : s.index % length cs ≡ i % length cs = rw size at in
    rw held ((at, from), ap (λ k. (get_or cs k ([], [])).1) at')

next_index : (a i n : ℕ) → a % n ≡ i % n → (a + 1) % n % n ≡ suc i % n
next_index a i n e =
    mod-mod (a + 1) n
    ∙ sym (mod-add-mod a n 1)
    ∙ ap (λ k. (k + 1) % n) e
    ∙ mod-add-mod i n 1
    ∙ ap (λ k. k % n) (omega arith)

sweep_turns :
    (now n i since : ℕ) (cs : List Candidate) (s : Sweep)
    → length cs ≡ n
    → Stands n i since s
    → since + 6000 < now
    → Stands n (suc i) now (sweep now cs s).0 × ((sweep now cs s).1 ≡ frame_at cs (suc i))
unfolding sweep
sweep_turns now n i since cs s size (at, from) late =
    let over : ltb (s.since + 6000) now ≡ true = ground arith in
    let next = next_index s.index i n at in
    let next' : (s.index + 1) % length cs % length cs ≡ suc i % length cs = rw size next in
    rw over ((rw size next, refl), ap (λ k. (get_or cs k ([], [])).1) next')

again_held :
    (again : List Frame) (n i since : ℕ) (s : Sweep) (rest : List Frame) (tail : List Bytes)
    → AreOf n again
    → Stands n i since s
    → AreWithin (since + 6000) again
    → ((s' : Sweep) → Stands n i since s' → replies rest s' ≡ tail)
    → replies (again ++ rest) s ≡ each_at i again ++ tail
again_held [] n i since s rest tail sizes at within later = later s at
again_held (f ∷ again) n i since s rest tail (size, sizes) at (early, within) later =
    let (at', reply) = sweep_holds f.now n i since f.built s size at early in
    ap₂ (λ (r : Bytes) (rs : List Bytes). r ∷ rs) reply
      (again_held again n i since (sweep f.now f.built s).0 rest tail sizes at' within later)

rounds_in_turn :
    (rounds : List Round) (n i since : ℕ) (s : Sweep)
    → HaveSize n rounds
    → Stands n i since s
    → AreRounds since rounds
    → replies (frames_of rounds) s ≡ in_turn i rounds
rounds_in_turn [] n i since s sizes at h = refl
rounds_in_turn (r ∷ rs) n i since s (size, again, sizes) at (late, within, h) =
    let start = r.start in
    let (at', reply) = sweep_turns start.now n i since start.built s size at late in
    ap₂ (λ (b : Bytes) (bs : List Bytes). b ∷ bs) reply
      (again_held r.again n (suc i) start.now (sweep start.now start.built s).0 (frames_of rs)
        (in_turn (suc i) rs) again at' within
        (λ s' at''. rounds_in_turn rs n (suc i) start.now s' sizes at'' h))

-- As long as as many candidates are built for each frame of a camera, whatever is in them: one candidate number
-- answers a frame and those within six seconds of it, each from its own list, and the next frame gets the
-- next number, the first behind the last. A first frame more than six seconds after the clock's zero gets the
-- second candidate.
pub sweep_in_turn :
    (rounds : List Round) (n : ℕ)
    → HaveSize n rounds
    → AreRounds 0 rounds
    → replies (frames_of rounds) new_sweep ≡ in_turn 0 rounds
sweep_in_turn rounds n sizes h = rounds_in_turn rounds n 0 0 new_sweep sizes (refl, refl) h
