-- ===== src/Jpeg/Reassembler/Prune.antt =====
-- The housekeeping of `feed`: which timestamps it forgets.
use ziot_rtp_bridge.Base.{
  ℕ, zero, suc, ◌+◌, ◌-◌, ◌≤◌, ◌<◌, ◌≡◌, ◌≢◌, ◌⊎◌, refl, sym, ap, subst, ◌∙◌, none, List, [], ◌∷◌,
  inl, inr, Bool-cases, if◌then◌else◌, ◌==◌, ltb, length, take, arith, length-take,
}
use ziot_rtp_bridge.Base.Dict.{
  Dict, lookup, erase, IsAbsent, IsDict, IsDict-erase, IsAbsent-lookup, lookup-IsAbsent,
  lookup-erase_ne, IsAbsent-erase_self, IsAbsent-erase,
}
use ziot_rtp_bridge.Jpeg.Reassembler.{Reassembler, insert_key, sorted_keys, pop_all, prune}
use ziot_rtp_bridge.Jpeg.Scan.{Parts}

abbrev pub In : ℕ → List ℕ → Type 0
In k [] = ⊥
In k (j ∷ js) = (j ≡ k) ⊎ In k js

-- Rising keys, the first at least `low`.
abbrev pub KeysRise : ℕ → List ℕ → Type 0
KeysRise low [] = Unit
KeysRise low (k ∷ ks) = (low ≤ k) × KeysRise (suc k) ks

KeysRise-lower : (m n : ℕ) (ks : List ℕ) → m ≤ n → KeysRise n ks → KeysRise m ks
KeysRise-lower m n [] h r = tt
KeysRise-lower m n (k ∷ ks) h r = (omega arith, r.1)

KeysRise-In : (low k : ℕ) (ks : List ℕ) → KeysRise low ks → In k ks → low ≤ k
KeysRise-In low k [] r h = absurd h
KeysRise-In low k (j ∷ js) r h = ground (arith, KeysRise-In (suc j) k js r.1)

insert_key-KeysRise :
    (low k : ℕ) (ks : List ℕ)
    → low ≤ k
    → ¬ In k ks
    → KeysRise low ks
    → KeysRise low (insert_key k ks)
unfolding insert_key
insert_key-KeysRise low k [] l n r = (l, tt)
insert_key-KeysRise low k (j ∷ js) l n r = elim (Bool-cases (ltb j k)) [
  | inl later ↦ rw later (r.0, insert_key-KeysRise (suc j) k js (ground arith) (λ i. n (inr i)) r.1)
  | inr first ↦ rw first (l, (ground (arith, λ (e : j ≡ k). n (inl e)), r.1))
]

insert_key-In : (i k : ℕ) (ks : List ℕ) → In i (insert_key k ks) → (k ≡ i) ⊎ In i ks
unfolding insert_key
insert_key-In i k [] h = h
insert_key-In i k (j ∷ js) h = ground (arith, insert_key-In i k js)

In-insert_key : (i k : ℕ) (ks : List ℕ) → (k ≡ i) ⊎ In i ks → In i (insert_key k ks)
unfolding insert_key
In-insert_key i k [] h = h
In-insert_key i k (j ∷ js) h = ground (arith, In-insert_key i k js)

-- The sorted keys are the keys.
sorted_keys-In : (k : ℕ) (d : Dict Parts) → In k (sorted_keys d) → lookup k d ≢ none
unfolding sorted_keys
sorted_keys-In k [] h = absurd h
sorted_keys-In k (e ∷ d) h =
    ground (arith, insert_key-In k e.0 (sorted_keys d) h, sorted_keys-In k d)

In-sorted_keys : (k : ℕ) (d : Dict Parts) → lookup k d ≢ none → In k (sorted_keys d)
unfolding sorted_keys
In-sorted_keys k [] h = absurd (h refl)
In-sorted_keys k (e ∷ d) h = elim (Bool-cases (e.0 == k)) [
  | inl same ↦ In-insert_key k e.0 (sorted_keys d) (inl (ground arith))
  | inr other ↦ In-insert_key k e.0 (sorted_keys d) (inr (In-sorted_keys k d (ground arith)))
]

sorted_keys-KeysRise : (d : Dict Parts) → IsDict d → KeysRise 0 (sorted_keys d)
unfolding sorted_keys
sorted_keys-KeysRise [] h = tt
sorted_keys-KeysRise (e ∷ d) h =
    insert_key-KeysRise 0 e.0 (sorted_keys d) (omega arith)
      (λ i. sorted_keys-In e.0 d i (lookup-IsAbsent e.0 d h.0)) (sorted_keys-KeysRise d h.1)

length-insert_key : (k : ℕ) (ks : List ℕ) → length (insert_key k ks) ≡ suc (length ks)
unfolding insert_key
length-insert_key k [] = refl
length-insert_key k (j ∷ js) = ground (arith, length-insert_key k js)

length-sorted_keys : (d : Dict Parts) → length (sorted_keys d) ≡ length d
unfolding sorted_keys
length-sorted_keys [] = refl
length-sorted_keys (e ∷ d) = length-insert_key e.0 (sorted_keys d) ∙ ap suc (length-sorted_keys d)

-- All of these keys are in the dict.
abbrev ArePresent : List ℕ → Dict Parts → Type 0
ArePresent [] d = Unit
ArePresent (k ∷ ks) d = (lookup k d ≢ none) × ArePresent ks d

length-erase : (k : ℕ) (d : Dict Parts) → lookup k d ≢ none → suc (length (erase k d)) ≡ length d
length-erase k [] h = absurd (h refl)
length-erase k (e ∷ d) h = ground (arith, length-erase k d)

ArePresent-erase :
    (low k : ℕ) (ks : List ℕ) (d : Dict Parts)
    → k < low
    → KeysRise low ks
    → ArePresent ks d
    → ArePresent ks (erase k d)
ArePresent-erase low k [] d l r h = tt
ArePresent-erase low k (j ∷ js) d l r h = (
  λ e. h.0 (sym (lookup-erase_ne j k d (λ q. omega arith)) ∙ e),
  ArePresent-erase (suc j) k js d (omega arith) r.1 h.1,
)

-- Each key that is popped makes the dict shorter by one.
length-pop_all :
    (low : ℕ) (ks : List ℕ) (r : Reassembler)
    → KeysRise low ks
    → ArePresent ks r.frags
    → length (pop_all ks r).frags + length ks ≡ length r.frags
unfolding pop_all
length-pop_all low [] r rise h = omega arith
length-pop_all low (k ∷ ks) r rise h =
    let r' = record r { frags = erase k r.frags; meta = erase k r.meta } in
    omega (
      arith,
      length-erase k r.frags h.0,
      length-pop_all (suc k) ks r' rise.1
          (ArePresent-erase (suc k) k ks r.frags (omega arith) rise.1 h.1),
    )

KeysRise-take : (low n : ℕ) (ks : List ℕ) → KeysRise low ks → KeysRise low (take n ks)
KeysRise-take low zero ks r = tt
KeysRise-take low (suc n) [] r = tt
KeysRise-take low (suc n) (k ∷ ks) r = (r.0, KeysRise-take (suc k) n ks r.1)

ArePresent-take :
    (n : ℕ) (ks : List ℕ) (d : Dict Parts)
    → ((k : ℕ) → In k ks → lookup k d ≢ none)
    → ArePresent (take n ks) d
ArePresent-take zero ks d h = tt
ArePresent-take (suc n) [] d h = tt
ArePresent-take (suc n) (k ∷ ks) d h = (h k (inl refl), ArePresent-take n ks d (λ j i. h j (inr i)))

-- More than eight pending timestamps become four.
pub length-prune :
    (r : Reassembler)
    → IsDict r.frags
    → length (prune r).frags ≡ (if ltb 8 (length r.frags) then 4 else length r.frags)
unfolding prune
length-prune r h = elim (Bool-cases (ltb 8 (length r.frags))) [
  | inr few ↦ rw few refl
  | inl many ↦
      let ks = sorted_keys r.frags in
      let n = length r.frags - 4 in
      let popped =
        length-pop_all 0 (take n ks) r (KeysRise-take 0 n ks (sorted_keys-KeysRise r.frags h))
          (ArePresent-take n ks r.frags (λ k i. sorted_keys-In k r.frags i)) in
      rw many (ground (arith, popped, length-take n ks, length-sorted_keys r.frags))
]

-- A key that is not popped stays as it was.
lookup-pop_all_other :
    (k : ℕ) (ks : List ℕ) (r : Reassembler)
    → ¬ In k ks
    → (lookup k (pop_all ks r).frags ≡ lookup k r.frags)
      × (lookup k (pop_all ks r).meta ≡ lookup k r.meta)
unfolding pop_all
lookup-pop_all_other k [] r h = (refl, refl)
lookup-pop_all_other k (j ∷ js) r h =
    let r' = record r { frags = erase j r.frags; meta = erase j r.meta } in
    let (f, m) = lookup-pop_all_other k js r' (λ i. h (inr i)) in
    (
      f ∙ lookup-erase_ne k j r.frags (λ e. h (inl (sym e))),
      m ∙ lookup-erase_ne k j r.meta (λ e. h (inl (sym e))),
    )

dec_In : (k : ℕ) (ks : List ℕ) → In k ks ⊎ (¬ In k ks)
dec_In k [] = inr (λ h. h)
dec_In k (j ∷ js) = ground (arith, dec_In k js)

pop_all_absent :
    (k : ℕ) (ks : List ℕ) (r : Reassembler)
    → lookup k r.frags ≡ none
    → IsDict r.frags
    → lookup k (pop_all ks r).frags ≡ none
unfolding pop_all
pop_all_absent k [] r h d = h
pop_all_absent k (j ∷ js) r h d =
    pop_all_absent k js (record r { frags = erase j r.frags; meta = erase j r.meta })
      (lookup-IsAbsent k (erase j r.frags)
        (IsAbsent-erase k j r.frags (IsAbsent-lookup k r.frags h)))
      (IsDict-erase j r.frags d)

pop_all_popped :
    (k : ℕ) (ks : List ℕ) (r : Reassembler)
    → In k ks
    → IsDict r.frags
    → lookup k (pop_all ks r).frags ≡ none
unfolding pop_all
pop_all_popped k [] r i d = absurd i
pop_all_popped k (j ∷ js) r (inr i) d =
    pop_all_popped k js (record r { frags = erase j r.frags; meta = erase j r.meta }) i
      (IsDict-erase j r.frags d)
pop_all_popped k (j ∷ js) r (inl e) d =
    pop_all_absent k js (record r { frags = erase j r.frags; meta = erase j r.meta })
      (lookup-IsAbsent k (erase j r.frags)
        (subst (λ (i : ℕ). IsAbsent i (erase j r.frags)) e (IsAbsent-erase_self j r.frags d)))
      (IsDict-erase j r.frags d)

-- In rising keys, the first ones are below the others.
take_below :
    (low n j k : ℕ) (ks : List ℕ)
    → KeysRise low ks
    → In j (take n ks)
    → In k ks
    → ¬ In k (take n ks)
    → j < k
take_below low zero j k ks r hj hk nk = absurd hj
take_below low (suc n) j k [] r hj hk nk = absurd hj
take_below low (suc n) j k (i ∷ is) r hj (inl e) nk = absurd (nk (inl e))
take_below low (suc n) j k (i ∷ is) r (inl e) (inr hk) nk =
    omega (arith, KeysRise-In (suc i) k is r.1 hk)
take_below low (suc n) j k (i ∷ is) r (inr hj) (inr hk) nk =
    take_below (suc i) n j k is r.1 hj hk (λ q. nk (inr q))

-- Whatever `prune` forgets is older than all that it keeps, and what it keeps is unchanged.
pub prune_oldest :
    (r : Reassembler) (j k : ℕ)
    → IsDict r.frags
    → lookup j r.frags ≢ none
    → lookup j (prune r).frags ≡ none
    → lookup k (prune r).frags ≢ none
    → (j < k)
      × (lookup k (prune r).frags ≡ lookup k r.frags)
      × (lookup k (prune r).meta ≡ lookup k r.meta)
unfolding prune
prune_oldest r j k d pj gone kept = elim (Bool-cases (ltb 8 (length r.frags))) [
  | inr few ↦ absurd (pj (rw few at gone))
  | inl many ↦
      let ks = sorted_keys r.frags in
      let n = length r.frags - 4 in
      let gone' : lookup j (pop_all (take n ks) r).frags ≡ none = rw many at gone in
      let kept' : lookup k (pop_all (take n ks) r).frags ≢ none = rw many at kept in
      let stays : ¬ In k (take n ks) = λ i. kept' (pop_all_popped k (take n ks) r i d) in
      let popped : In j (take n ks) = elim (dec_In j (take n ks)) [
        | inl i ↦ i
        | inr other ↦ absurd (pj (sym (lookup-pop_all_other j (take n ks) r other).0 ∙ gone'))
      ] in
      let (f, m) = lookup-pop_all_other k (take n ks) r stays in
      let there : In k ks = In-sorted_keys k r.frags (λ e. kept' (f ∙ e)) in
      rw many (take_below 0 n j k ks (sorted_keys-KeysRise r.frags d) popped there stays, f, m)
]
