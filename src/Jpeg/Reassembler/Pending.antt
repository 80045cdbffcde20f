-- ===== src/Jpeg/Reassembler/Pending.antt =====
-- The invariant of the pending fragments of `feed`.
use ziot_rtp_bridge.Base.{
  ℕ, ◌-◌, ◌≤◌, ◌≡◌, ◌≢◌, ◌⊎◌, sym, subst, false, Option, none, some, List, [], ◌∷◌, inl, inr,
  Bool-cases, Option-cases, ltb, Bytes, length, take, arith,
}
use ziot_rtp_bridge.Base.Dict.{
  Dict, insert, erase, IsAbsent, IsDict, IsDict-insert, IsDict-erase, IsAbsent-erase_self,
  IsAbsent-insert, IsAbsent-erase,
}
use ziot_rtp_bridge.Jpeg.Reassembler.{
  store_meta, Meta, Reassembler, Fragment, parse_fragment, store, finish, sorted_keys, pop_all,
  prune, accept, feed,
}
use ziot_rtp_bridge.Jpeg.Reassembler.Prune.{length-prune}

-- At most eight timestamps are pending, each once, and tables are kept only for these.
pub record IsBounded (r : Reassembler) : Type 0 where
  pub frags_dict : IsDict r.frags
  pub meta_dict : IsDict r.meta
  pub pending : length r.frags ≤ 8
  pub meta_pending : (k : ℕ) → IsAbsent k r.frags → IsAbsent k r.meta

-- The same without the bound, as it is inside a call.
record IsTidy (r : Reassembler) : Type 0 where
  frags_dict : IsDict r.frags
  meta_dict : IsDict r.meta
  meta_pending : (k : ℕ) → IsAbsent k r.frags → IsAbsent k r.meta

IsAbsent-insert_inv :
    {V : Type 0} (j k : ℕ) (v : V) (d : Dict V) → IsAbsent j (insert k v d) → (j ≢ k) × IsAbsent j d
IsAbsent-insert_inv j k v [] h = ground arith
IsAbsent-insert_inv j k v (e ∷ d) h = ground (arith, IsAbsent-insert_inv j k v d)

IsAbsent-erase_inv :
    {V : Type 0} (j k : ℕ) (d : Dict V) → IsAbsent j (erase k d) → (j ≡ k) ⊎ IsAbsent j d
IsAbsent-erase_inv j k [] h = inr tt
IsAbsent-erase_inv j k (e ∷ d) h = ground (arith, IsAbsent-erase_inv j k d)

store_meta-IsDict :
    (ts : ℕ) (m : Option Meta) (d : Dict Meta) → IsDict d → IsDict (store_meta ts m d)
store_meta-IsDict ts none d h = h
store_meta-IsDict ts (some m) d h = IsDict-insert ts m d h

store_meta-IsAbsent :
    (k ts : ℕ) (m : Option Meta) (d : Dict Meta)
    → k ≢ ts
    → IsAbsent k d
    → IsAbsent k (store_meta ts m d)
store_meta-IsAbsent k ts none d n h = h
store_meta-IsAbsent k ts (some m) d n h = IsAbsent-insert k ts m d n h

store-IsTidy : (r : Reassembler) (f : Fragment) → IsTidy r → IsTidy (store r f)
unfolding store
store-IsTidy r f t = record {
  frags_dict = IsDict-insert f.ts _ r.frags t.frags_dict;
  meta_dict = store_meta-IsDict f.ts f.tables r.meta t.meta_dict;
  meta_pending = λ k h.
      let (n, g) = IsAbsent-insert_inv k f.ts _ r.frags h in
      store_meta-IsAbsent k f.ts f.tables r.meta n (t.meta_pending k g);
}

pop-IsTidy :
    (r : Reassembler) (k : ℕ)
    → IsTidy r
    → IsTidy (record r { frags = erase k r.frags; meta = erase k r.meta })
pop-IsTidy r k t = record {
  frags_dict = IsDict-erase k r.frags t.frags_dict;
  meta_dict = IsDict-erase k r.meta t.meta_dict;
  meta_pending = λ j h. elim (IsAbsent-erase_inv j k r.frags h) [
    | inl e ↦
        subst (λ (i : ℕ). IsAbsent i (erase k r.meta)) (sym e)
          (IsAbsent-erase_self k r.meta t.meta_dict)
    | inr g ↦ IsAbsent-erase j k r.meta (t.meta_pending j g)
  ];
}

pop_all-IsTidy : (ks : List ℕ) (r : Reassembler) → IsTidy r → IsTidy (pop_all ks r)
unfolding pop_all
pop_all-IsTidy [] r t = t
pop_all-IsTidy (k ∷ ks) r t =
    pop_all-IsTidy ks (record r { frags = erase k r.frags; meta = erase k r.meta })
      (pop-IsTidy r k t)

finish-IsTidy : (r : Reassembler) (f : Fragment) → IsTidy r → IsTidy (finish r f).0
unfolding finish
finish-IsTidy r f t = elim (Bool-cases f.marker) [
  | inl ends ↦ rw ends (pop-IsTidy r f.ts t)
  | inr more ↦ rw more t
]

prune-IsTidy : (r : Reassembler) → IsTidy r → IsTidy (prune r)
unfolding prune
prune-IsTidy r t = elim (Bool-cases (ltb 8 (length r.frags))) [
  | inl many ↦ rw many (pop_all-IsTidy (take (length r.frags - 4) (sorted_keys r.frags)) r t)
  | inr few ↦ rw few t
]

accept-IsBounded : (r : Reassembler) (f : Fragment) → IsBounded r → IsBounded (accept r f).0
unfolding accept
accept-IsBounded r f b =
    let before : IsTidy r = record {
      frags_dict = b.frags_dict;
      meta_dict = b.meta_dict;
      meta_pending = b.meta_pending;
    } in
    let ended = finish-IsTidy (store r f) f (store-IsTidy r f before) in
    let t = prune-IsTidy (finish (store r f) f).0 ended in
    record {
      frags_dict = t.frags_dict;
      meta_dict = t.meta_dict;
      pending = ground (arith, length-prune (finish (store r f) f).0 ended.frags_dict);
      meta_pending = t.meta_pending;
    }

-- Every packet keeps the invariant, malformed ones too.
pub feed-IsBounded : (r : Reassembler) (pkt : Bytes) → IsBounded r → IsBounded (feed r pkt).0
unfolding feed
feed-IsBounded r pkt b = elim (Option-cases (parse_fragment pkt)) [
  | inl refused ↦ rw (refused, feed) b
  | inr (f, read) ↦ rw (read, feed) (accept-IsBounded r f b)
]

-- A packet that is refused leaves no trace: no state changes and nothing is called back.
pub feed_refused :
    (r : Reassembler) (pkt : Bytes) → (feed r pkt).1 ≡ false → feed r pkt ≡ (r, false, [])
unfolding feed
feed_refused r pkt e = ground arith
