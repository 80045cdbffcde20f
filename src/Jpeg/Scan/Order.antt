-- ===== src/Jpeg/Scan/Order.antt =====
-- `sorted` on the fragments of a frame, and the order in which they arrived.
use ziot_rtp_bridge.Base.{
  ℕ, suc, ◌≤◌, ◌≡◌, ◌≢◌, refl, sym, ap, ap₂, subst, ◌∙◌, [], ◌∷◌, Bytes, arith,
}
use mathlib.Core.List.{Permᴰ}
use ziot_rtp_bridge.Base.Dict.{IsAbsent, IsDict}
use ziot_rtp_bridge.Jpeg.Scan.{Parts, insert_sorted, sorted}

-- The offsets rise, the first being at least `low`.
abbrev pub Rises : ℕ → Parts → Type 0
Rises low [] = Unit
Rises low (x ∷ xs) = (low ≤ x.0) × Rises (suc x.0) xs

IsAbsent-perm : {xs ys : Parts} (k : ℕ) → Permᴰ xs ys → IsAbsent k xs → IsAbsent k ys
IsAbsent-perm k Permᴰ.nil h = tt
IsAbsent-perm k (Permᴰ.cons e p) (n, h) = (rw e at n, IsAbsent-perm k p h)
IsAbsent-perm k (Permᴰ.swap e f) (n, (m, h)) = (rw f at m, (rw e at n, h))
IsAbsent-perm k (Permᴰ.trans p q) h = IsAbsent-perm k q (IsAbsent-perm k p h)

pub IsDict-perm : {xs ys : Parts} → Permᴰ xs ys → IsDict xs → IsDict ys
IsDict-perm Permᴰ.nil h = tt
IsDict-perm (Permᴰ.cons {b = b} {l₁ = xs} {l₂ = ys} e p) (f, h) =
    (IsAbsent-perm b.0 p (subst (λ (x : ℕ × Bytes). IsAbsent x.0 xs) e f), IsDict-perm p h)
IsDict-perm (Permᴰ.swap {l = l} e g) ((n, f), (h, d)) = (
  (
    λ q. n (ap (λ (x : ℕ × Bytes). x.0) g ∙ sym q ∙ ap (λ (x : ℕ × Bytes). x.0) (sym e)),
    subst (λ (x : ℕ × Bytes). IsAbsent x.0 l) g h,
  ),
  (subst (λ (x : ℕ × Bytes). IsAbsent x.0 l) e f, d),
)
IsDict-perm (Permᴰ.trans p q) h = IsDict-perm q (IsDict-perm p h)

insert_sorted_comm :
    (a b : ℕ × Bytes) (xs : Parts)
    → a.0 ≢ b.0
    → insert_sorted a (insert_sorted b xs) ≡ insert_sorted b (insert_sorted a xs)
unfolding insert_sorted
insert_sorted_comm a b [] n = ground arith
insert_sorted_comm a b (x ∷ xs) n = ground (arith, insert_sorted_comm a b xs n)

-- Two orders of arrival are sorted alike.
pub sorted-perm : {xs ys : Parts} → Permᴰ xs ys → IsDict xs → sorted xs ≡ sorted ys
unfolding sorted
sorted-perm Permᴰ.nil h = refl
sorted-perm (Permᴰ.cons e p) (f, h) = ap₂ insert_sorted e (sorted-perm p h)
sorted-perm (Permᴰ.swap {a = a} {b = b} {l = l} e g) ((n, f), h) =
    insert_sorted_comm a b (sorted l) (λ q. n (sym q))
    ∙ ap₂ (λ x y. insert_sorted x (insert_sorted y (sorted l))) g e
sorted-perm (Permᴰ.trans p q) h = sorted-perm p h ∙ sorted-perm q (IsDict-perm p h)

insert_sorted-Rises :
    (x : ℕ × Bytes) (xs : Parts) → Rises (suc x.0) xs → insert_sorted x xs ≡ x ∷ xs
unfolding insert_sorted
insert_sorted-Rises x [] h = refl
insert_sorted-Rises x (y ∷ ys) h = ground arith

pub sorted-Rises : (low : ℕ) (xs : Parts) → Rises low xs → sorted xs ≡ xs
unfolding sorted
sorted-Rises low [] h = refl
sorted-Rises low (x ∷ xs) (l, h) = rw (sorted-Rises (suc x.0) xs h) (insert_sorted-Rises x xs h)
