-- ===== src/Jpeg/Scan/Whole.antt =====
-- `_scan_data` on the pieces of a frame as a sender places them.
use mathlib.Core.List.{Permᴰ}
use mathlib.Core.List.Permᴰ
use ziot_rtp_bridge.Base.{
  ℕ, suc, ◌+◌, ◌≤◌, ◌<◌, ◌≡◌, ◌≢◌, refl, sym, ap, ap₂, subst, ◌∙◌, true, false, none, some, List,
  [], ◌∷◌, ◌++◌, inl, inr, Bool-cases, if◌then◌else◌, ltb, Bytes, length, arith, length-append,
}
use ziot_rtp_bridge.Base.Dict.{IsAbsent, IsDict}
use ziot_rtp_bridge.Jpeg.Scan.{Parts, insert_sorted, sorted, is_unbroken, join_parts, scan_data}
use ziot_rtp_bridge.Jpeg.Scan.Order.{Rises, sorted-Rises, sorted-perm}

-- The fragments that a sender makes of these pieces of a frame, from an offset on.
abbrev pub place : ℕ → List Bytes → Parts
place off [] = []
place off (c ∷ cs) = (off, c) ∷ place (off + length c) cs

abbrev pub joined : List Bytes → Bytes
joined [] = []
joined (c ∷ cs) = c ++ joined cs

abbrev pub AreNonempty : List Bytes → Type 0
AreNonempty [] = Unit
AreNonempty (c ∷ cs) = (0 < length c) × AreNonempty cs

Rises-mono : (m n : ℕ) (xs : Parts) → m ≤ n → Rises n xs → Rises m xs
Rises-mono m n [] h r = tt
Rises-mono m n (x ∷ xs) h (l, r) = (omega arith, r)

pub place-Rises : (off : ℕ) (cs : List Bytes) → AreNonempty cs → Rises off (place off cs)
place-Rises off [] h = tt
place-Rises off (c ∷ cs) (p, h) = (
  omega arith,
  Rises-mono (suc off) (off + length c) (place (off + length c) cs) (omega arith)
      (place-Rises (off + length c) cs h),
)

Rises-IsAbsent : (k low : ℕ) (xs : Parts) → k < low → Rises low xs → IsAbsent k xs
Rises-IsAbsent k low [] h r = tt
Rises-IsAbsent k low (x ∷ xs) h (l, r) =
    (λ e. omega arith, Rises-IsAbsent k (suc x.0) xs (omega arith) r)

pub Rises-IsDict : (low : ℕ) (xs : Parts) → Rises low xs → IsDict xs
Rises-IsDict low [] r = tt
Rises-IsDict low (x ∷ xs) (l, r) =
    (Rises-IsAbsent x.0 (suc x.0) xs (omega arith) r, Rises-IsDict (suc x.0) xs r)

is_unbroken-place : (off : ℕ) (cs : List Bytes) → is_unbroken off (place off cs) ≡ true
is_unbroken-place off [] = refl
is_unbroken-place off (c ∷ cs) = ground (arith, is_unbroken-place (off + length c) cs)

join_parts-place : (off : ℕ) (cs : List Bytes) → join_parts (place off cs) ≡ joined cs
join_parts-place off [] = refl
join_parts-place off (c ∷ cs) = ap (◌++◌ c) (join_parts-place (off + length c) cs)

-- What a sorted dictionary gives.
scan_data-sorted :
    (parts items : Parts)
    → sorted parts ≡ items
    → scan_data parts ≡ (if is_unbroken 0 items then some (join_parts items) else none)
unfolding scan_data
scan_data-sorted parts items e = rw e

-- Permuted fragments in rising order are what `sorted` returns.
sorted_of_perm :
    (low : ℕ) {parts items : Parts} → Permᴰ items parts → Rises low items → sorted parts ≡ items
sorted_of_perm low {parts} {items} p r =
    sym (sorted-perm p (Rises-IsDict low items r)) ∙ sorted-Rises low items r

-- All fragments of a frame, in whatever order they came, give back its scan data.
pub scan_data_whole :
    (cs : List Bytes) {parts : Parts}
    → AreNonempty cs
    → Permᴰ (place 0 cs) parts
    → scan_data parts ≡ some (joined cs)
scan_data_whole cs {parts} h p =
    scan_data-sorted parts (place 0 cs) (sorted_of_perm 0 p (place-Rises 0 cs h))
    ∙ rw is_unbroken-place (ap some (join_parts-place 0 cs))

is_unbroken_gap :
    (off k : ℕ) (cs : List Bytes) (d : Bytes) (rest : Parts)
    → k ≢ off + length (joined cs)
    → is_unbroken off (place off cs ++ (k, d) ∷ rest) ≡ false
is_unbroken_gap off k [] d rest h = let h' : k ≢ off = λ e. h (omega (arith, e)) in ground arith
is_unbroken_gap off k (c ∷ cs) d rest h =
    let e : off + length (c ++ joined cs) ≡ off + length c + length (joined cs) =
      omega (arith, length-append c (joined cs)) in
    ground (arith, is_unbroken_gap (off + length c) k cs d rest (λ q. h (q ∙ sym e)))

-- Where some fragment does not begin where those in front of it end, no frame is made, in whatever
-- order they came.
pub scan_data_gap :
    (k : ℕ) (cs : List Bytes) (d : Bytes) (rest : Parts) {parts : Parts}
    → k ≢ length (joined cs)
    → Rises 0 (place 0 cs ++ (k, d) ∷ rest)
    → Permᴰ (place 0 cs ++ (k, d) ∷ rest) parts
    → scan_data parts ≡ none
scan_data_gap k cs d rest {parts} apart r p =
    scan_data-sorted parts _ (sorted_of_perm 0 p r)
    ∙ rw (is_unbroken_gap 0 k cs d rest (λ e. apart (omega (arith, e))))

-- The pieces of an unbroken list of items.
pieces :
    (off : ℕ) (items : Parts)
    → is_unbroken off items ≡ true
    → (cs : List Bytes) × (items ≡ place off cs)
pieces off [] e = ([], refl)
pieces off ((k, c) ∷ rest) e =
    let (here, later) : (k ≡ off) × (is_unbroken (off + length c) rest ≡ true) = ground arith in
    let (cs, q) = pieces (off + length c) rest later in
    (c ∷ cs, ap₂ (λ (a : ℕ) (r : Parts). (a, c) ∷ r) here q)

insert_sorted-perm : (x : ℕ × Bytes) (xs : Parts) → Permᴰ (insert_sorted x xs) (x ∷ xs)
unfolding insert_sorted
insert_sorted-perm x [] = Permᴰ.refl (x ∷ [])
insert_sorted-perm x (y ∷ ys) = elim (Bool-cases (ltb y.0 x.0)) [
  | inl later ↦
      rw later (Permᴰ.trans (Permᴰ.cons refl (insert_sorted-perm x ys)) (Permᴰ.swap refl refl))
  | inr first ↦ rw first (Permᴰ.refl (x ∷ y ∷ ys))
]

sorted-perm_self : (xs : Parts) → Permᴰ (sorted xs) xs
unfolding sorted
sorted-perm_self [] = Permᴰ.nil
sorted-perm_self (x ∷ xs) =
    Permᴰ.trans (insert_sorted-perm x (sorted xs)) (Permᴰ.cons refl (sorted-perm_self xs))

-- A frame that is returned is all of its fragments, laid end to end from offset 0.
pub scan_data-some :
    (parts : Parts) {body : Bytes}
    → scan_data parts ≡ some body
    → (cs : List Bytes) × Permᴰ (place 0 cs) parts × (joined cs ≡ body)
unfolding scan_data
scan_data-some parts {body} e =
    let (unbroken, joins) : (is_unbroken 0 (sorted parts) ≡ true)
        × (join_parts (sorted parts) ≡ body) =
      ground arith in
    let (cs, placed) = pieces 0 (sorted parts) unbroken in
    (
      cs,
      subst (λ (s : Parts). Permᴰ s parts) placed (sorted-perm_self parts),
      sym (join_parts-place 0 cs) ∙ ap join_parts (sym placed) ∙ joins,
    )
