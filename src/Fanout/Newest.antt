-- ===== src/Fanout/Newest.antt =====
-- What `publish` leaves in a subscriber's queue.
use ziot_rtp_bridge.Base.{
  ℕ, zero, suc, ◌+◌, ◌-◌, ◌≤◌, ◌<◌, ◌≡◌, refl, sym, ap, ◌∙◌, some, List, [], ◌∷◌, ◌++◌, inl, inr,
  Bool-cases, arith, length, drop, length-append, length-drop, drop_add, append_assoc, append-nil,
}
use ziot_rtp_bridge.Base.Dict.{lookup}
use ziot_rtp_bridge.Fanout.{is_full, put_newest, Fanout, put_each, publish, enter}

module _ {ℓ} {A : Type ℓ} where
  -- The last `n` items.
  abbrev pub newest : ℕ → List A → List A
  newest n xs = drop (length xs - n) xs

  drop-append_le : (n : ℕ) (xs ys : List A) → n ≤ length xs → drop n (xs ++ ys) ≡ drop n xs ++ ys
  drop-append_le zero xs ys h = refl
  drop-append_le (suc n) [] ys h = elim h [ ]
  drop-append_le (suc n) (x ∷ xs) ys h = drop-append_le n xs ys (omega arith)

  drop-drop : (m n : ℕ) (xs : List A) → drop m (drop n xs) ≡ drop (n + m) xs
  drop-drop m n xs = sym (drop_add n m xs)

  -- One item more: the queue of the newest stays the queue of the newest.
  put_newest-newest :
      (n : ℕ) (x : A) (xs : List A) → 0 < n → put_newest n x (newest n xs) ≡ newest n (xs ++ x ∷ [])
  unfolding put_newest
  put_newest-newest n x xs pos = elim (Bool-cases (is_full n (newest n xs))) [
    | inl full ↦
        let sized = length-drop (length xs - n) xs in
        let longer = length-append xs (x ∷ []) in
        let k : length xs - n + 1 ≡ length (xs ++ x ∷ []) - n = ground arith in
        let here : drop 1 (newest n xs) ≡ drop (length (xs ++ x ∷ []) - n) xs =
          drop-drop 1 (length xs - n) xs ∙ ap (λ (i : ℕ). drop i xs) k in
        rw full
          (rw here (sym (drop-append_le (length (xs ++ x ∷ []) - n) xs (x ∷ []) (ground arith))))
    | inr room ↦
        let sized = length-drop (length xs - n) xs in
        let longer = length-append xs (x ∷ []) in
        let all : length xs - n ≡ 0 = ground arith in
        let none_over : length (xs ++ x ∷ []) - n ≡ 0 = ground arith in
        rw room (cc (all, none_over))
  ]

  -- `publish` as one subscriber sees it.
  abbrev pub put_all : ℕ → List A → List A → List A
  put_all n [] q = q
  put_all n (x ∷ xs) q = put_all n xs (put_newest n x q)

  put_all-newest :
      (n : ℕ) (xs seen : List A) → 0 < n → put_all n xs (newest n seen) ≡ newest n (seen ++ xs)
  put_all-newest n [] seen pos = rw append-nil
  put_all-newest n (x ∷ xs) seen pos =
      rw (put_newest-newest n x seen pos)
        (put_all-newest n xs (seen ++ x ∷ []) pos ∙ ap (newest n) (append_assoc seen (x ∷ []) xs))

  abbrev pub publish_all : List A → Fanout A → Fanout A
  publish_all [] f = f
  publish_all (x ∷ xs) f = publish_all xs (publish x f)

  lookup-put_each :
      (i n : ℕ) (x : A) (subs : List (ℕ × List A)) {q : List A}
      → lookup i subs ≡ some q
      → lookup i (put_each n x subs) ≡ some (put_newest n x q)
  lookup-put_each i n x [] e = cc
  lookup-put_each i n x ((j, p) ∷ subs) {q} e = ground (arith, lookup-put_each i n x subs {q = q})

  -- A subscriber whose queue is the newest of what it has been sent stays so.
  publish_all-newest :
      (i : ℕ) (xs seen : List A) (f : Fanout A)
      → 0 < f.maxsize
      → lookup i f.subs ≡ some (newest f.maxsize seen)
      → lookup i (publish_all xs f).subs ≡ some (newest f.maxsize (seen ++ xs))
  unfolding publish
  publish_all-newest i [] seen f pos e = rw append-nil e
  publish_all-newest i (x ∷ xs) seen f pos e =
      publish_all-newest i xs (seen ++ x ∷ []) (publish x f) pos
        (lookup-put_each i f.maxsize x f.subs e ∙ ap some (put_newest-newest f.maxsize x seen pos))
      ∙ ap (λ (l : List A). some (newest f.maxsize l)) (append_assoc seen (x ∷ []) xs)

  -- From the moment a subscriber enters, its unread queue is the newest of the items published since,
  -- at most `maxsize` of them, in order: a slow reader loses the oldest items, never the newest.
  pub enter-publish_all :
      (i : ℕ) (xs : List A) (f : Fanout A)
      → 0 < f.maxsize
      → lookup i (publish_all xs (enter i f)).subs ≡ some (newest f.maxsize xs)
  unfolding enter
  enter-publish_all i xs f pos = publish_all-newest i xs [] (enter i f) pos (ground arith)

  -- Every queue is within the bound.
  abbrev pub AreBounded : ℕ → List (ℕ × List A) → Type 0
  AreBounded n [] = Unit
  AreBounded n (s ∷ subs) = (length (s.1) ≤ n) × AreBounded n subs

  length-put_newest :
      (n : ℕ) (x : A) (q : List A) → 0 < n → length q ≤ n → length (put_newest n x q) ≤ n
  unfolding put_newest
  length-put_newest n x q pos h =
      ground (arith, length-append q (x ∷ []), length-append (drop 1 q) (x ∷ []), length-drop 1 q)

  put_each-AreBounded :
      (n : ℕ) (x : A) (subs : List (ℕ × List A))
      → 0 < n
      → AreBounded n subs
      → AreBounded n (put_each n x subs)
  put_each-AreBounded n x [] pos h = tt
  put_each-AreBounded n x (s ∷ subs) pos h =
      (length-put_newest n x s.1 pos h.0, put_each-AreBounded n x subs pos h.1)

  -- No publication makes a queue longer than the bound.
  pub publish-AreBounded :
      (x : A) (f : Fanout A)
      → 0 < f.maxsize
      → AreBounded f.maxsize f.subs
      → AreBounded f.maxsize (publish x f).subs
  unfolding publish
  publish-AreBounded x f pos h = put_each-AreBounded f.maxsize x f.subs pos h
