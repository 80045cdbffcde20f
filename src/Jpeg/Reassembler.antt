-- ===== src/Jpeg/Reassembler.antt =====
-- `class RtpJpegReassembler` of ziot_rtp_bridge.py. The callbacks are the events that a call returns, in
-- the order in which they are made.
pub mod Prune
pub mod Pending
pub mod Frames
pub mod Emits
use ziot_rtp_bridge.Base.{
  ℕ, ◌+◌, ◌-◌, ◌*◌, ◌/◌, ◌%◌, ◌^◌, Bool, true, false, not, ◌&&◌, ◌||◌, Option, none, some, List, [],
  ◌∷◌, ◌++◌, if◌then◌else◌, ◌==◌, ltb, leb, Bytes, byte_at, be16_at, be32_at, length, take, drop,
  ◌>>=◌,
}
use ziot_rtp_bridge.Base.Dict.{Dict, lookup, insert, erase, keys}
use ziot_rtp_bridge.Jpeg.Header.{build_jpeg_header}
use ziot_rtp_bridge.Jpeg.Scan.{Parts, scan_data}
use ziot_rtp_bridge.Rtp.{rtp_payload}

-- `(width, height, qtables, jtype, dri)`
pub record Meta : Type 0 where
  pub width : ℕ
  pub height : ℕ
  pub qtables : Bytes
  pub jtype : ℕ
  pub dri : ℕ

-- `_frags` and `_meta` by timestamp, and whether `_on_drop` is set.
pub record Reassembler : Type 0 where
  pub frags : Dict Parts
  pub meta : Dict Meta
  pub has_on_drop : Bool

-- `_emit(jpeg)` and `_on_drop()`
pub data Event : Type 0 where
  emit : Bytes → Event
  on_drop : Event

-- What `feed` reads of a valid packet.
pub record Fragment : Type 0 where
  pub marker : Bool
  pub ts : ℕ
  pub frag_off : ℕ
  pub tables : Option Meta
  pub body : Bytes

abbrev pub max_pending_ts : ℕ
max_pending_ts = 8

abbrev pub keep_newest_ts : ℕ
keep_newest_ts = 4

unfoldable pub reset : Reassembler → Reassembler
reset r = record r { frags = []; meta = [] }

-- The restart header: the offset behind it and the interval.
abbrev restart_header : Bytes → Option (ℕ × ℕ)
restart_header p =
    if ltb (byte_at p 4) 64
    then some (8, 0)
    else if ltb (length p) 12
    then none
    else some (12, be16_at p 8)

-- The quantisation tables, which stand in the first fragment: the offset behind them, and the tables.
abbrev quantisation : Bytes → ℕ → ℕ → ℕ → Option (ℕ × Option Meta)
quantisation p frag_off off dri =
    let qlen = be16_at p (off + 2) in
    if not (leb 128 (byte_at p 5) && frag_off == 0)
    then some (off, none)
    else if ltb (length p) (off + 4)
    then none
    else if ltb (length p) (off + 4 + qlen)
    then none
    else some (
      off + (4 + qlen),
      some (record {
        width = byte_at p 6 * 8;
        height = byte_at p 7 * 8;
        qtables = take qlen (drop (off + 4) p);
        jtype = byte_at p 4;
        dri = dri;
      }),
    )

-- The checks of `feed`, which come before it stores anything.
unfoldable pub parse_fragment : Bytes → Option Fragment
parse_fragment pkt =
    (rtp_payload pkt >>= λ p.
    if ltb (length p) 8
    then none
    else (let frag_off = byte_at p 1 * 2 ^ 16 + be16_at p 2 in
        restart_header p >>= λ (off, dri). quantisation p frag_off off dri >>= λ (off', tables).
        some (record {
          marker = not (byte_at pkt 1 / 128 == 0);
          ts = be32_at pkt 4;
          frag_off = frag_off;
          tables = tables;
          body = drop off' p;
        })))

abbrev pub or_empty : Option Parts → Parts
or_empty none = []
or_empty (some parts) = parts

abbrev store_meta : ℕ → Option Meta → Dict Meta → Dict Meta
store_meta ts none meta = meta
store_meta ts (some m) meta = insert ts m meta

-- `_meta[ts] = …` and `_frags[ts][frag_off] = p[off:]`
unfoldable pub store : Reassembler → Fragment → Reassembler
store r f = record r {
  frags = insert f.ts (insert f.frag_off f.body (or_empty (lookup f.ts r.frags))) r.frags;
  meta = store_meta f.ts f.tables r.meta;
}

-- The whole JPEG of one frame.
abbrev pub jpeg : Meta → Bytes → Bytes
jpeg m body =
    build_jpeg_header m.width m.height m.qtables m.jtype m.dri ++ (body ++ 0xff ∷ 0xd9 ∷ [])

-- What is called back for the frame that has ended.
unfoldable pub frame_events : Bool → Option Meta → Parts → List Event
frame_events has_on_drop none parts = if has_on_drop then on_drop ∷ [] else []
frame_events has_on_drop (some m) parts = elim (scan_data parts) [
  | some body ↦ emit (jpeg m body) ∷ []
  | none ↦ if has_on_drop then on_drop ∷ [] else []
]

-- `if marker: …`
unfoldable pub finish : Reassembler → Fragment → Reassembler × List Event
finish r f =
    if f.marker
    then (
      record r { frags = erase f.ts r.frags; meta = erase f.ts r.meta },
      frame_events r.has_on_drop (lookup f.ts r.meta) (or_empty (lookup f.ts r.frags)),
    )
    else (r, [])

unfoldable pub insert_key : ℕ → List ℕ → List ℕ
insert_key k [] = k ∷ []
insert_key k (j ∷ js) = if ltb j k then j ∷ insert_key k js else k ∷ j ∷ js

-- `sorted(self._frags)`
unfoldable pub sorted_keys : Dict Parts → List ℕ
unfolding insert_key
sorted_keys [] = []
sorted_keys (e ∷ d) = insert_key e.0 (sorted_keys d)

unfoldable pub pop_all : List ℕ → Reassembler → Reassembler
pop_all [] r = r
pop_all (old ∷ olds) r =
    pop_all olds (record r { frags = erase old r.frags; meta = erase old r.meta })

-- The housekeeping at the end of `feed`; `[:-4]` is all but the last four.
unfoldable pub prune : Reassembler → Reassembler
unfolding sorted_keys pop_all
prune r =
    if ltb max_pending_ts (length r.frags)
    then pop_all (take (length r.frags - keep_newest_ts) (sorted_keys r.frags)) r
    else r

-- `feed` behind its checks.
unfoldable pub accept : Reassembler → Fragment → Reassembler × List Event
accept r f = let (r', events) = finish (store r f) f in (prune r', events)

-- `feed`: the new state, the result, and the callbacks.
unfoldable pub feed : Reassembler → Bytes → Reassembler × Bool × List Event
feed r pkt = elim (parse_fragment pkt) [
  | none ↦ (r, false, [])
  | some f ↦ let (r', events) = accept r f in (r', true, events)
]
