-- ===== src/Signalling/Decode/RoundTrip.antt =====
-- Decoding what `signalling_frame` builds.
use ziot_rtp_bridge.Base.{
  ℕ, ◌+◌, ◌-◌, ◌≤◌, ◌<◌, ◌^◌, ◌≡◌, ◌≢◌, refl, sym, ap, ◌∙◌, Bool, true, none, some, [], ◌∷◌, ◌++◌,
  arith, Bytes, byte_at, be16_at, length, take, drop, length-append, take-append, drop-append,
  drop_add, get_or-append, append_assoc, ==_refl,
}
use ziot_rtp_bridge.Signalling.Decode.{
  Fields, fields, rstrip_nul, strip_end, checksum_of, decode_fields, decode_signalling,
}
use ziot_rtp_bridge.Signalling.Frame.{xor, covered, sealed, padded, signalling_frame}
use ziot_rtp_bridge.Signalling.Frame.Valid.{
  signalling_frame_layout, length-sealed, length-covered, sealed_checked,
}

strip_end-append : (s : Bytes) → strip_end (s ++ 0x0d ∷ []) ≡ s
unfolding strip_end
strip_end-append [] = refl
strip_end-append (b ∷ bs) =
    let n = length-append (b ∷ bs) (0x0d ∷ []) in
    let at_end =
      get_or-append (length (b ∷ bs ++ 0x0d ∷ []) - 1) (b ∷ bs) [] 0x0d 0 (omega arith) in
    ground (
      arith,
      at_end,
      take-append (length (b ∷ bs ++ 0x0d ∷ []) - 1) (b ∷ bs) (0x0d ∷ []) (omega arith),
    )

checksum_of-sealed : (head s : Bytes) → s ≢ [] → checksum_of (sealed head) s ≡ some true
unfolding checksum_of
checksum_of-sealed head [] h = absurd (h refl)
checksum_of-sealed head (b ∷ bs) h = rw (sealed_checked head) (rw ==_refl)

append_ne_nil : (s : Bytes) (b : ℕ) → s ++ b ∷ [] ≢ []
append_ne_nil [] b = λ e. cc
append_ne_nil (x ∷ s) b = λ e. cc

module _ (cmd len seq : ℕ) (uid body : Bytes) where
  abbrev pub parts : Fields
  parts = record {
    cmd = cmd;
    len = len;
    seq = seq;
    uid_len = length uid;
    uid = uid;
    xor_ok = some true;
    body = rstrip_nul (body ++ xor (covered cmd len seq uid body) ∷ []);
  }

  abbrev frame : Bytes
  frame = sealed (covered cmd len seq uid body)

  abbrev check : ℕ
  check = xor (covered cmd len seq uid body)

  uid_read : length uid < 2 ^ 16 → take (be16_at frame 8) (drop 10 frame) ≡ uid
  uid_read hu =
      let n : be16_at frame 8 ≡ length uid = omega arith in
      rw append_assoc (take-append (be16_at frame 8) uid (body ++ check ∷ 0x0d ∷ []) n)

  body_read :
      length uid < 2 ^ 16 → drop (10 + be16_at frame 8) frame ≡ (body ++ check ∷ []) ++ 0x0d ∷ []
  body_read hu =
      let n : be16_at frame 8 ≡ length uid = omega arith in
      drop_add 10 (be16_at frame 8) frame
      ∙ rw append_assoc (drop-append (be16_at frame 8) uid (body ++ check ∷ 0x0d ∷ []) n)
      ∙ sym (append_assoc body (check ∷ []) (0x0d ∷ []))

  decode_fields-sealed :
      cmd < 2 ^ 16 → len < 2 ^ 16 → seq < 2 ^ 16 → length uid < 2 ^ 16 → decode_fields frame ≡ parts
  unfolding decode_fields
  decode_fields-sealed hc hl hs hu =
      let c : be16_at frame 2 ≡ cmd = omega arith in
      let l : be16_at frame 4 ≡ len = omega arith in
      let s : be16_at frame 6 ≡ seq = omega arith in
      let n : be16_at frame 8 ≡ length uid = omega arith in
      let b : strip_end (drop (10 + be16_at frame 8) frame) ≡ body ++ check ∷ [] =
        rw (body_read hu) (strip_end-append (body ++ check ∷ [])) in
      let ok : checksum_of frame (body ++ check ∷ []) ≡ some true =
        checksum_of-sealed (covered cmd len seq uid body) (body ++ check ∷ [])
          (append_ne_nil body check) in
      cc (c, l, s, n, uid_read hu, b, ok)

decode_signalling-frame :
    (s : Bytes)
    → byte_at s 0 ≡ 0x86
    → byte_at s 1 ≡ 0x86
    → 10 ≤ length s
    → decode_signalling s ≡ record { bytes = length s; content = fields (decode_fields s) }
unfolding decode_signalling
decode_signalling-frame s a b n = ground arith

-- A frame built with its own length decodes to the fields it was built from, and its check passes.
-- The decoded body keeps the check byte behind it, and then loses NULs at its end.
pub decode_signalling-signalling_frame :
    (cmd seq : ℕ) (uid body : Bytes) (pad : Bool) {f : Bytes}
    → signalling_frame cmd seq uid body none pad ≡ some f
    → decode_signalling f ≡ record {
      bytes = length f;
      content =
          fields (parts cmd (length uid + length (padded pad body)) seq uid (padded pad body));
    }
decode_signalling-signalling_frame cmd seq uid body pad {f} e =
    let (layout, c, s, l) = signalling_frame_layout cmd seq uid body pad e in
    let body' = padded pad body in
    let n = length uid + length body' in
    let fits : 10 ≤ length (frame cmd n seq uid body') =
      omega
        (arith, length-covered cmd n seq uid body', length-sealed (covered cmd n seq uid body')) in
    rw layout (
      decode_signalling-frame (frame cmd n seq uid body') refl refl fits
      ∙ ap
          (λ (x : Fields). record {
            bytes = length (frame cmd n seq uid body');
            content = fields x;
          })
          (decode_fields-sealed cmd n seq uid body' c l s (omega arith)))
