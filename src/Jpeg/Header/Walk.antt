-- ===== src/Jpeg/Header/Walk.antt =====
-- A decoder's walk over the marker segments, independent of `build_jpeg_header`.
use ziot_rtp_bridge.Base.{
  ℕ, zero, suc, ◌+◌, ◌*◌, ◌≤◌, ◌≡◌, refl, ◌∙◌, false, not, ◌||◌, Option, none, some, List, [], ◌∷◌,
  ◌++◌, if◌then◌else◌, ◌==◌, ltb, Bytes, byte_at, be16_at, be16, length, take, drop, arith,
  length-append, length-take, length-drop, drop-append, append_assoc, Option-cases, Bool-cases, inl,
  inr,
}
use ziot_rtp_bridge.Jpeg.Header.{dht, dqt, dri_segment, sof_body, sof, sos, build_jpeg_header}
use ziot_rtp_bridge.Jpeg.Tables.{
  dc_sy, lum_dc_cl, chm_dc_cl, lum_ac_cl, lum_ac_sy, chm_ac_cl, chm_ac_sy,
}

-- The markers of the segments up to the start of scan, and what follows that segment. Each segment is
-- ff, its marker, and a length that counts itself and the data. `none` is a byte that is no marker,
-- or a segment that is cut off.
unfoldable pub walk : ℕ → Bytes → Option (List ℕ × Bytes)
walk zero s = none
walk (suc fuel) s =
    let size = 2 + be16_at s 2 in
    let later = walk fuel (drop size s) in
    if not (byte_at s 0 == 0xff) || ltb (length s) size
    then none
    else if byte_at s 1 == 0xda
    then some (0xda ∷ [], drop size s)
    else elim later [ none ↦ none | some (ms, rest) ↦ some (byte_at s 1 ∷ ms, rest) ]

-- One segment: `body` is its data behind the length.
abbrev segment : ℕ → ℕ → ℕ → Bytes → Bytes
segment m hi lo body = 0xff ∷ m ∷ hi ∷ lo ∷ body

walk-segment :
    (fuel m hi lo : ℕ) (body rest : Bytes) {ms : List ℕ} {end : Bytes}
    → hi * 256 + lo ≡ 2 + length body
    → (m == 0xda) ≡ false
    → walk fuel rest ≡ some (ms, end)
    → walk (suc fuel) (segment m hi lo body ++ rest) ≡ some (m ∷ ms, end)
unfolding walk
walk-segment fuel m hi lo body rest {ms} {end} n h e =
    let s = segment m hi lo body ++ rest in
    let gone : drop (2 + (hi * 256 + lo)) s ≡ rest =
      drop-append (2 + (hi * 256 + lo)) (segment m hi lo body) rest (omega arith) in
    ground (arith, length-append body rest)

walk-sos : (scan : Bytes) → walk 1 (sos ++ scan) ≡ some (0xda ∷ [], scan)
unfolding walk
walk-sos scan = ground arith

-- The Huffman tables and the start of scan, from their last segment on.
walk_tables :
    (scan : Bytes)
    → walk 5 (
        dht 0x00 lum_dc_cl dc_sy
        ++ (dht 0x10 lum_ac_cl lum_ac_sy
            ++ (dht 0x01 chm_dc_cl dc_sy ++ (dht 0x11 chm_ac_cl chm_ac_sy ++ (sos ++ scan)))))
      ≡ some (0xc4 ∷ 0xc4 ∷ 0xc4 ∷ 0xc4 ∷ 0xda ∷ [], scan)
unfolding dht
walk_tables scan = walk-segment 4 0xc4 0 31 (0x00 ∷ (lum_dc_cl ++ dc_sy)) _ refl refl (
    walk-segment 3 0xc4 0 181 (0x10 ∷ (lum_ac_cl ++ lum_ac_sy)) _ refl refl (
      walk-segment 2 0xc4 0 31 (0x01 ∷ (chm_dc_cl ++ dc_sy)) _ refl refl
        (walk-segment 1 0xc4 0 181 (0x11 ∷ (chm_ac_cl ++ chm_ac_sy)) _ refl refl (walk-sos scan))))

-- The markers that the header should have.
abbrev pub expected : ℕ → List ℕ
expected dri =
    0xdb ∷ 0xdb ∷ (if dri == 0 then [] else 0xdd ∷ [])
    ++ 0xc0 ∷ 0xc4 ∷ 0xc4 ∷ 0xc4 ∷ 0xc4 ∷ 0xda ∷ []

-- More fuel changes nothing.
walk_more :
    (fuel : ℕ) (s : Bytes) {r : List ℕ × Bytes} → walk fuel s ≡ some r → walk (suc fuel) s ≡ some r
unfolding walk
walk_more zero s e = cc
walk_more (suc fuel) s e = elim (Option-cases (walk fuel (drop (2 + be16_at s 2) s))) [
  | inl stuck ↦ ground arith
  | inr (r, more) ↦ ground (arith, walk_more fuel (drop (2 + be16_at s 2) s) more)
]

module _ (width height jtype dri : ℕ) (scan : Bytes) where
  abbrev tables : Bytes
  tables =
      dht 0x00 lum_dc_cl dc_sy
      ++ (dht 0x10 lum_ac_cl lum_ac_sy
          ++ (dht 0x01 chm_dc_cl dc_sy ++ (dht 0x11 chm_ac_cl chm_ac_sy ++ (sos ++ scan))))

  abbrev end_markers : List ℕ
  end_markers = 0xc0 ∷ 0xc4 ∷ 0xc4 ∷ 0xc4 ∷ 0xc4 ∷ 0xda ∷ []

  walk-sof : walk 6 (sof width height jtype ++ tables) ≡ some (end_markers, scan)
  unfolding sof
  walk-sof =
      walk-segment 5 0xc0 0 0x11 (sof_body width height jtype) tables refl refl (walk_tables scan)

  walk-dri_segment :
      walk 7 (dri_segment dri ++ (sof width height jtype ++ tables))
      ≡ some ((if dri == 0 then [] else 0xdd ∷ []) ++ end_markers, scan)
  unfolding dri_segment
  walk-dri_segment = elim (Bool-cases (dri == 0)) [
    | inl z ↦ rw z (walk_more 6 (sof width height jtype ++ tables) walk-sof)
    | inr nz ↦ rw nz (walk-segment 6 0xdd 0 4 (be16 dri) _ refl refl walk-sof)
  ]

  walk-dqt :
      (fuel id : ℕ) (table rest : Bytes) {ms : List ℕ} {end : Bytes}
      → length table ≡ 64
      → walk fuel rest ≡ some (ms, end)
      → walk (suc fuel) (dqt id table ++ rest) ≡ some (0xdb ∷ ms, end)
  unfolding dqt
  walk-dqt fuel id table rest n e =
      walk-segment fuel 0xdb 0 0x43 (id ∷ table) rest (omega arith) refl e

  header_split :
      (qtables : Bytes)
      → walk 9 (drop 2 (build_jpeg_header width height qtables jtype dri ++ scan))
        ≡ walk 9 (
            dqt 0 (take 64 qtables)
            ++ (dqt 1 (take 64 (drop 64 qtables))
                ++ (dri_segment dri ++ (sof width height jtype ++ tables))))
  unfolding build_jpeg_header
  header_split qtables = simp append_assoc

  -- With both quantisation tables given, a decoder's walk over the header meets the segments that a
  -- baseline JPEG needs, in order, and ends exactly where the scan data begins.
  pub walk-build_jpeg_header :
      (qtables : Bytes)
      → 128 ≤ length qtables
      → walk 9 (drop 2 (build_jpeg_header width height qtables jtype dri ++ scan))
        ≡ some (expected dri, scan)
  walk-build_jpeg_header qtables n =
      let q0 = take 64 qtables in
      let q1 = take 64 (drop 64 qtables) in
      let first = length-take 64 qtables in
      let rest = length-drop 64 qtables in
      let second = length-take 64 (drop 64 qtables) in
      let later = dri_segment dri ++ (sof width height jtype ++ tables) in
      header_split qtables
      ∙ walk-dqt 8 0 q0 (dqt 1 q1 ++ later) (omega arith)
          (walk-dqt 7 1 q1 later (omega arith) walk-dri_segment)
