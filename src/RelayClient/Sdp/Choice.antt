-- ===== src/RelayClient/Sdp/Choice.antt =====
-- Which payload type `choose_pt` takes.
use ziot_rtp_bridge.Base.{
  ℕ, ◌≡◌, inl, inr, subst, Bool, true, false, ◌||◌, Option, none, some, List, [], ◌∷◌, ◌==◌, arith,
  Bytes, Bool-cases,
}
use ziot_rtp_bridge.Base.Dict.{Dict, lookup}
use ziot_rtp_bridge.RelayClient.Sdp.{
  Kind, static_pt, encoding, Section, has_pt, is_named, first_named, choose_pt,
}

-- A payload type that can be decoded: the static one, or one that the section maps to the encoding.
abbrev pub is_decodable : Kind → Section → ℕ → Bool
is_decodable k sec pt = pt == static_pt k || is_named (lookup pt sec.rtpmap) (encoding k)

-- What is true of a choice.
abbrev pub IsChoice : Kind → Section → Option ℕ → Type 0
IsChoice k sec none = (pt : ℕ) → has_pt pt sec.fmts ≡ true → is_decodable k sec pt ≡ false
IsChoice k sec (some pt) = (has_pt pt sec.fmts ≡ true) × (is_decodable k sec pt ≡ true)

abbrev IsFirst : Kind → Dict Bytes → List ℕ → Option ℕ → Type 0
IsFirst k rtpmap pts none =
    (pt : ℕ) → has_pt pt pts ≡ true → is_named (lookup pt rtpmap) (encoding k) ≡ false
IsFirst k rtpmap pts (some pt) =
    (has_pt pt pts ≡ true) × (is_named (lookup pt rtpmap) (encoding k) ≡ true)

-- A format in front that is not taken.
IsFirst-skip :
    (k : Kind) (rtpmap : Dict Bytes) (p : ℕ) (ps : List ℕ) (o : Option ℕ)
    → is_named (lookup p rtpmap) (encoding k) ≡ false
    → IsFirst k rtpmap ps o
    → IsFirst k rtpmap (p ∷ ps) o
IsFirst-skip k rtpmap p ps none other rest = λ pt h. elim (Bool-cases (p == pt)) [
  | inl same ↦
      let e : p ≡ pt = ground arith in
      subst (λ x. is_named (lookup x rtpmap) (encoding k) ≡ false) e other
  | inr differs ↦ rest pt (ground arith)
]
IsFirst-skip k rtpmap p ps (some pt) other rest = (ground arith, rest.1)

first_named-IsFirst :
    (k : Kind) (rtpmap : Dict Bytes) (pts : List ℕ)
    → IsFirst k rtpmap pts (first_named k rtpmap pts)
first_named-IsFirst k rtpmap [] = λ pt h. cc
first_named-IsFirst k rtpmap (p ∷ ps) =
    let rest = first_named-IsFirst k rtpmap ps in
    elim (Bool-cases (is_named (lookup p rtpmap) (encoding k))) [
      | inl named ↦ rw named (ground arith, named)
      | inr other ↦ rw other (IsFirst-skip k rtpmap p ps (first_named k rtpmap ps) other rest)
    ]

IsFirst-IsChoice :
    (k : Kind) (sec : Section) (o : Option ℕ)
    → has_pt (static_pt k) sec.fmts ≡ false
    → IsFirst k sec.rtpmap sec.fmts o
    → IsChoice k sec o
IsFirst-IsChoice k sec none missing first = λ pt h. elim (Bool-cases (pt == static_pt k)) [
  | inl same ↦ let e : pt ≡ static_pt k = ground arith in absurd (ground arith)
  | inr differs ↦ let named = first pt h in ground arith
]
IsFirst-IsChoice k sec (some pt) missing first = (first.0, let named = first.1 in ground arith)

-- choose_pt takes a format of the section that can be decoded, and nothing exactly if none of them can.
pub choose_pt-IsChoice : (k : Kind) (sec : Section) → IsChoice k sec (choose_pt k sec)
unfolding choose_pt
choose_pt-IsChoice k sec = elim (Bool-cases (has_pt (static_pt k) sec.fmts)) [
  | inl offered ↦ rw (choose_pt, offered) (offered, ground arith)
  | inr missing ↦
      rw (choose_pt, missing)
        (IsFirst-IsChoice k sec (first_named k sec.rtpmap sec.fmts) missing
          (first_named-IsFirst k sec.rtpmap sec.fmts))
]
