-- ===== src/Signalling/Report/Entries.antt =====
-- A status report as the camera lays it out, and what is read of it.
use native.Mathlib.Nat.{zero-add, suc-add}
use ziot_rtp_bridge.Base.{
  ℕ, zero, suc, ◌+◌, ◌<◌, ◌≡◌, refl, List, [], ◌∷◌, ◌++◌, arith, Bytes, length,
}
use ziot_rtp_bridge.Base.Dict.{Dict, insert}
use ziot_rtp_bridge.Signalling.Report.{read_entries, parse_status_report}

-- `00 id 00 value` for each.
abbrev pub entries : List (ℕ × ℕ) → Bytes
entries [] = []
entries ((ident, value) ∷ es) = 0x00 ∷ ident ∷ 0x00 ∷ value ∷ entries es

-- Each value is set under its id, in order.
abbrev pub set_all : List (ℕ × ℕ) → Dict ℕ → Dict ℕ
set_all [] out = out
set_all ((ident, value) ∷ es) out = set_all es (insert ident value out)

read_entries-entries :
    (es : List (ℕ × ℕ)) (more : ℕ) (cut_off : Bytes) (out : Dict ℕ)
    → length cut_off < 4
    → read_entries (length es + more) (entries es ++ cut_off) out ≡ set_all es out
unfolding read_entries
read_entries-entries [] zero cut_off out short = refl
read_entries-entries [] (suc more) cut_off out short = rw zero-add (ground arith)
read_entries-entries ((ident, value) ∷ es) more cut_off out short =
    let rest = read_entries-entries es more cut_off (insert ident value out) short in
    rw suc-add (ground arith)

-- Of a report whose end is missing, exactly the entries that have arrived whole are read, in order, a
-- later value of an id in place of an earlier one.
pub parse_status_report-entries :
    (es : List (ℕ × ℕ)) (more : ℕ) (cut_off : Bytes)
    → length cut_off < 4
    → parse_status_report ((length es + more) ∷ (entries es ++ cut_off)) ≡ set_all es []
unfolding parse_status_report
parse_status_report-entries es more cut_off short = read_entries-entries es more cut_off [] short
