-- ===== src/Jpeg/Reassembler/Frames.antt =====
-- `feed` over the packets of one frame, from its first to its last.
use mathlib.Core.List.{Permᴰ}
use ziot_rtp_bridge.Base.{
  ℕ, ◌+◌, ◌≤◌, ◌<◌, ◌≡◌, ◌≢◌, ◌⊎◌, refl, sym, ap, ◌∙◌, Bool, true, false, Option, none, some, List,
  [], ◌∷◌, ◌++◌, inl, inr, if◌then◌else◌, Bytes, length, arith, length-append, append_assoc,
  append-nil,
}
use ziot_rtp_bridge.Base.Dict.{
  Dict, IsAbsent, IsDict, lookup-IsAbsent, insert_new, insert_last, lookup_last, erase_last,
  erase_absent,
}
use ziot_rtp_bridge.Jpeg.Reassembler.{
  Meta, Reassembler, Event, emit, on_drop, Fragment, store_meta, jpeg, frame_events, store, finish,
  prune, accept,
}
use ziot_rtp_bridge.Jpeg.Scan.{Parts, scan_data}
use ziot_rtp_bridge.Jpeg.Scan.Order.{IsDict-perm, Rises}
use ziot_rtp_bridge.Jpeg.Scan.Whole.{
  Rises-IsDict, place-Rises, place, joined, AreNonempty, scan_data_whole, scan_data_gap,
}

-- `feed` after `feed`, behind their checks.
unfoldable pub accept_all : Reassembler → List Fragment → Reassembler × List Event
accept_all r [] = (r, [])
accept_all r (f ∷ fs) =
    let (r', events) = accept r f in let (r'', later) = accept_all r' fs in (r'', events ++ later)

-- The offset and the data of each fragment.
abbrev pub parts_of : List Fragment → Parts
parts_of [] = []
parts_of (f ∷ fs) = (f.frag_off, f.body) ∷ parts_of fs

abbrev pub update : Option Meta → Option Meta → Option Meta
update m none = m
update m (some n) = some n

pub update-none : (m : Option Meta) → update none m ≡ m
update-none none = refl
update-none (some m) = refl

-- The tables that are known after these fragments.
abbrev pub tables_of : Option Meta → List Fragment → Option Meta
tables_of m [] = m
tables_of m (f ∷ fs) = tables_of (update m f.tables) fs

IsAbsent-middle :
    (k : ℕ) (parts : Parts) (e : ℕ × Bytes) (rest : Parts)
    → IsAbsent k (parts ++ e ∷ rest)
    → e.0 ≢ k
IsAbsent-middle k [] e rest h = h.0
IsAbsent-middle k (x ∷ parts) e rest h = IsAbsent-middle k parts e rest h.1

IsDict-fresh :
    (parts : Parts) (e : ℕ × Bytes) (rest : Parts) → IsDict (parts ++ e ∷ rest) → IsAbsent e.0 parts
IsDict-fresh [] e rest d = tt
IsDict-fresh (x ∷ parts) e rest (a, d) =
    (λ q. IsAbsent-middle x.0 parts e rest a (sym q), IsDict-fresh parts e rest d)

events_broken :
    (has : Bool) (m : Option Meta) (parts : Parts)
    → scan_data parts ≡ none
    → frame_events has m parts ≡ (if has then on_drop ∷ [] else [])
unfolding frame_events
events_broken has none parts e = refl
events_broken has (some m) parts e = rw (e, frame_events)

module _ (r : Reassembler) (t : ℕ) where
  -- The fragments of one frame: only the last has the marker.
  abbrev pub IsFrame : List Fragment → Type 0
  IsFrame [] = ⊥
  IsFrame (f ∷ []) = (f.ts ≡ t) × (f.marker ≡ true)
  IsFrame (f ∷ g ∷ fs) = (f.ts ≡ t) × (f.marker ≡ false) × IsFrame (g ∷ fs)

  -- Nothing of timestamp `t` is pending, and there is room for it.
  pub record HasRoom : Type 0 where
    pub frags_absent : IsAbsent t r.frags
    pub meta_absent : IsAbsent t r.meta
    pub room : length r.frags < 8

  abbrev meta_with : Option Meta → Dict Meta
  meta_with none = r.meta
  meta_with (some m) = r.meta ++ (t, m) ∷ []

  -- The state while the frame is pending.
  abbrev hold : Parts → Option Meta → Reassembler
  hold parts m = record r { frags = r.frags ++ (t, parts) ∷ []; meta = meta_with m }

  store_meta-first : (m : Option Meta) → HasRoom → store_meta t m r.meta ≡ meta_with m
  store_meta-first none h = refl
  store_meta-first (some m) h = insert_new t m r.meta h.meta_absent

  store_meta-next :
      (n m : Option Meta) → HasRoom → store_meta t n (meta_with m) ≡ meta_with (update m n)
  store_meta-next none m h = refl
  store_meta-next (some n) none h = insert_new t n r.meta h.meta_absent
  store_meta-next (some n) (some m) h = insert_last t m n r.meta h.meta_absent

  store-first :
      (f : Fragment) → HasRoom → f.ts ≡ t → store r f ≡ hold ((f.frag_off, f.body) ∷ []) f.tables
  unfolding store
  store-first f h e = cc (
    e,
    lookup-IsAbsent t r.frags h.frags_absent,
    insert_new t ((f.frag_off, f.body) ∷ []) r.frags h.frags_absent,
    store_meta-first f.tables h,
  )

  store-next :
      (parts : Parts) (m : Option Meta) (f : Fragment)
      → HasRoom
      → f.ts ≡ t
      → IsAbsent f.frag_off parts
      → store (hold parts m) f ≡ hold (parts ++ (f.frag_off, f.body) ∷ []) (update m f.tables)
  unfolding store
  store-next parts m f h e fresh = cc (
    e,
    lookup_last t parts r.frags h.frags_absent,
    insert_new f.frag_off f.body parts fresh,
    insert_last t parts (parts ++ (f.frag_off, f.body) ∷ []) r.frags h.frags_absent,
    store_meta-next f.tables m h,
  )

  finish-hold :
      (parts : Parts) (m : Option Meta) (f : Fragment)
      → HasRoom
      → f.ts ≡ t
      → f.marker ≡ true
      → finish (hold parts m) f ≡ (r, frame_events r.has_on_drop m parts)
  unfolding finish
  finish-hold parts none f h e last = ground (
    arith,
    lookup_last t parts r.frags h.frags_absent,
    erase_last t parts r.frags h.frags_absent,
    erase_absent t r.meta h.meta_absent,
    lookup-IsAbsent t r.meta h.meta_absent,
  )
  finish-hold parts (some m) f h e last = ground (
    arith,
    lookup_last t parts r.frags h.frags_absent,
    erase_last t parts r.frags h.frags_absent,
    erase_last t m r.meta h.meta_absent,
    lookup_last t m r.meta h.meta_absent,
  )

  prune_few : (s : Reassembler) → length s.frags ≤ 8 → prune s ≡ s
  unfolding prune
  prune_few s h = ground arith

  accept-store :
      (s s' : Reassembler) (f : Fragment)
      → store s f ≡ s'
      → f.marker ≡ false
      → length s'.frags ≤ 8
      → accept s f ≡ (s', [])
  unfolding accept finish
  accept-store s s' f e more few = rw (e, more, prune_few s' few)

  accept-finish :
      (s s' : Reassembler) (f : Fragment) (events : List Event)
      → store s f ≡ s'
      → finish s' f ≡ (r, events)
      → HasRoom
      → accept s f ≡ (r, events)
  unfolding accept
  accept-finish s s' f events e ends h = rw (e, ends, prune_few r (omega (arith, h.room)))

  length-hold : (parts : Parts) → length (r.frags ++ (t, parts) ∷ []) ≡ length r.frags + 1
  length-hold parts = omega (arith, length-append r.frags ((t, parts) ∷ []))

  accept_all-hold :
      (fs : List Fragment) (parts : Parts) (m : Option Meta)
      → HasRoom
      → IsFrame fs
      → IsDict (parts ++ parts_of fs)
      → accept_all (hold parts m) fs
        ≡ (r, frame_events r.has_on_drop (tables_of m fs) (parts ++ parts_of fs))
  unfolding accept_all
  accept_all-hold [] parts m h c d = absurd c
  accept_all-hold (f ∷ []) parts m h (e, last) d =
      let parts' = parts ++ (f.frag_off, f.body) ∷ [] in
      let fresh = IsDict-fresh parts (f.frag_off, f.body) [] d in
      rw
        (accept-finish (hold parts m) (hold parts' (update m f.tables)) f _
          (store-next parts m f h e fresh) (finish-hold parts' (update m f.tables) f h e last) h)
        (cc (append-nil (frame_events r.has_on_drop (update m f.tables) parts')))
  accept_all-hold (f ∷ g ∷ fs) parts m h (e, more, c) d =
      let parts' = parts ++ (f.frag_off, f.body) ∷ [] in
      let fresh = IsDict-fresh parts (f.frag_off, f.body) (parts_of (g ∷ fs)) d in
      let regroup = append_assoc parts ((f.frag_off, f.body) ∷ []) (parts_of (g ∷ fs)) in
      let first =
        accept-store (hold parts m) (hold parts' (update m f.tables)) f
          (store-next parts m f h e fresh) more (omega (arith, length-hold parts', h.room)) in
      let later = accept_all-hold (g ∷ fs) parts' (update m f.tables) h c (rw regroup d) in
      rw (first, later) (cc regroup)

  -- From the first packet of a frame to its last.
  pub accept_all-frame :
      (fs : List Fragment)
      → HasRoom
      → IsFrame fs
      → IsDict (parts_of fs)
      → accept_all r fs ≡ (r, frame_events r.has_on_drop (tables_of none fs) (parts_of fs))
  unfolding accept_all
  accept_all-frame [] h c d = absurd c
  accept_all-frame (f ∷ []) h (e, last) d =
      let parts' : Parts = (f.frag_off, f.body) ∷ [] in
      let known = update-none f.tables in
      rw
        (accept-finish r (hold parts' f.tables) f _ (store-first f h e)
          (finish-hold parts' f.tables f h e last) h)
        (cc (known, append-nil (frame_events r.has_on_drop f.tables parts')))
  accept_all-frame (f ∷ g ∷ fs) h (e, more, c) d =
      let parts' : Parts = (f.frag_off, f.body) ∷ [] in
      let known = update-none f.tables in
      let first =
        accept-store r (hold parts' f.tables) f (store-first f h e) more
          (omega (arith, length-hold parts', h.room)) in
      let later = accept_all-hold (g ∷ fs) parts' f.tables h c d in rw (first, later) (cc known)

  -- All packets of a frame, in any order with the marker last, give exactly its JPEG, and nothing of
  -- the frame stays behind.
  pub accept_all_whole :
      (fs : List Fragment) (cs : List Bytes) (m : Meta)
      → HasRoom
      → IsFrame fs
      → AreNonempty cs
      → Permᴰ (place 0 cs) (parts_of fs)
      → tables_of none fs ≡ some m
      → accept_all r fs ≡ (r, emit (jpeg m (joined cs)) ∷ [])
  unfolding frame_events
  accept_all_whole fs cs m h c n p tables =
      accept_all-frame fs h c (IsDict-perm p (Rises-IsDict 0 (place 0 cs) (place-Rises 0 cs n)))
      ∙ rw tables (rw (scan_data_whole cs n p, frame_events))

  -- A frame of packets with distinct offsets, of which one does not begin where those in front of it end
  -- (bytes are missing there, once or at several places, or overlap), or without its tables, is never
  -- emitted: it is dropped, which is reported if there is a callback, and the reassembler is as before,
  -- when nothing of the timestamp was pending and fewer than eight others are.
  pub accept_all_broken :
      (fs : List Fragment)
      → HasRoom
      → IsFrame fs
      → IsDict (parts_of fs)
      → (tables_of none fs ≡ none)
        ⊎ ((k : ℕ) × (cs : List Bytes) × (d : Bytes) × (rest : Parts) × (k ≢ length (joined cs))
            × Rises 0 (place 0 cs ++ (k, d) ∷ rest)
            × Permᴰ (place 0 cs ++ (k, d) ∷ rest) (parts_of fs))
      → accept_all r fs ≡ (r, if r.has_on_drop then on_drop ∷ [] else [])
  unfolding frame_events
  accept_all_broken fs h c d (inl lost) = accept_all-frame fs h c d ∙ rw lost
  accept_all_broken fs h c d (inr (k, cs, e, rest, apart, rises, p)) =
      accept_all-frame fs h c d
      ∙ ap (λ (x : List Event). (r, x))
          (events_broken r.has_on_drop (tables_of none fs) (parts_of fs)
            (scan_data_gap k cs e rest apart rises p))
