-- ===== src/Jpeg/Reassembler/Emits.antt =====
-- What stands behind a JPEG that `feed` emits.
use mathlib.Core.List.{Permᴰ}
use ziot_rtp_bridge.Base.{
  ◌≡◌, refl, sym, ap, ◌∙◌, Bool, true, false, Option, none, some, List, [], ◌∷◌, inl, inr,
  Bool-cases, Option-cases, if◌then◌else◌, Bytes, arith,
}
use ziot_rtp_bridge.Base.Dict.{lookup}
use ziot_rtp_bridge.Jpeg.Reassembler.{
  Meta, Reassembler, emit, on_drop, Fragment, or_empty, jpeg, frame_events, store, finish, accept,
}
use ziot_rtp_bridge.Jpeg.Scan.{Parts, scan_data}
use ziot_rtp_bridge.Jpeg.Scan.Whole.{place, joined, scan_data-some}

frame_events-emit :
    (has : Bool) (m : Option Meta) (parts : Parts) {j : Bytes}
    → frame_events has m parts ≡ emit j ∷ []
    → (n : Meta) × (body : Bytes) × (m ≡ some n) × (scan_data parts ≡ some body) × (j ≡ jpeg n body)
unfolding frame_events
frame_events-emit true none parts e = cc
frame_events-emit false none parts e = cc
frame_events-emit has (some n) parts {j} e = elim (Option-cases (scan_data parts)) [
  | inl broken ↦ absurd (no_emit has (rw (broken, frame_events) at e))
  | inr (body, whole) ↦ (n, body, refl, whole, emitted body (rw (whole, frame_events) at e))
]
  where
    no_emit : (h : Bool) → (if h then on_drop ∷ [] else []) ≡ emit j ∷ [] → ⊥
    no_emit true q = cc
    no_emit false q = cc

    emitted : (b : Bytes) → emit (jpeg n b) ∷ [] ≡ emit j ∷ [] → j ≡ jpeg n b
    emitted b q = cc

finish_cases :
    (s : Reassembler) (f : Fragment) {j : Bytes}
    → (finish s f).1 ≡ emit j ∷ []
    → frame_events s.has_on_drop (lookup f.ts s.meta) (or_empty (lookup f.ts s.frags)) ≡ emit j ∷ []
unfolding finish
finish_cases s f e = elim (Bool-cases f.marker) [
  | inl last ↦ ground arith
  | inr more ↦ ground arith
]

-- A JPEG that is emitted has the tables of its timestamp and is all of the fragments that are stored
-- for it, laid end to end from offset 0: never a partial frame.
pub accept_emits :
    (r : Reassembler) (f : Fragment) {j : Bytes}
    → (accept r f).1 ≡ emit j ∷ []
    → let s = store r f in
      (m : Meta) × (cs : List Bytes) × (lookup f.ts s.meta ≡ some m)
      × Permᴰ (place 0 cs) (or_empty (lookup f.ts s.frags))
      × (j ≡ jpeg m (joined cs))
unfolding accept
accept_emits r f {j} e =
    let s = store r f in
    let parts = or_empty (lookup f.ts s.frags) in
    let (m, body, tables, whole, is_jpeg) =
      frame_events-emit s.has_on_drop (lookup f.ts s.meta) parts (finish_cases s f e) in
    let (cs, perm, joins) = scan_data-some parts whole in
    (m, cs, tables, perm, is_jpeg ∙ ap (jpeg m) (sym joins))
