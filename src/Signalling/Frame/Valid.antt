-- ===== src/Signalling/Frame/Valid.antt =====
-- The layout of a frame that `signalling_frame` builds, and a receiver's checks of it.
use ziot_rtp_bridge.Base.{
  ℕ, ◌+◌, ◌-◌, ◌≤◌, ◌<◌, ◌^◌, ◌≡◌, refl, sym, ap, ◌∙◌, Bool, none, some, [], ◌∷◌, ◌++◌, arith,
  Bytes, byte_at, length, take, length-append, take-append, get_or-append, append_assoc,
}
use ziot_rtp_bridge.Signalling.Frame.{xor, covered, sealed, padded, signalling_frame, IsFrame}

pub length-covered :
    (cmd len seq : ℕ) (uid body : Bytes)
    → length (covered cmd len seq uid body) ≡ 10 + (length uid + length body)
length-covered cmd len seq uid body = omega (arith, length-append uid body)

pub length-sealed : (head : Bytes) → length (sealed head) ≡ length head + 2
length-sealed head = omega (arith, length-append head (xor head ∷ 0x0d ∷ []))

sealed_ended : (head : Bytes) → byte_at (sealed head) (length (sealed head) - 1) ≡ 0x0d
sealed_ended head =
    let e = length-sealed head in
    rw (append_assoc head (xor head ∷ []) (0x0d ∷ [])) at (
      get_or-append (length (sealed head) - 1) (head ++ xor head ∷ []) [] 0x0d 0
        (omega (arith, length-append head (xor head ∷ []))))

pub sealed_checked :
    (head : Bytes)
    → byte_at (sealed head) (length (sealed head) - 2)
      ≡ xor (take (length (sealed head) - 2) (sealed head))
sealed_checked head =
    let e = length-sealed head in
    get_or-append (length (sealed head) - 2) head (0x0d ∷ []) (xor head) 0 (omega arith)
    ∙ ap xor
        (sym (take-append (length (sealed head) - 2) head (xor head ∷ 0x0d ∷ []) (omega arith)))

-- Where the four numbers fit two bytes, the frame is laid out as documented; else it raises.
pub signalling_frame_layout :
    (cmd seq : ℕ) (uid body : Bytes) (pad : Bool) {f : Bytes}
    → signalling_frame cmd seq uid body none pad ≡ some f
    → (f ≡ sealed (covered cmd (length uid + length (padded pad body)) seq uid (padded pad body)))
      × (cmd < 2 ^ 16)
      × (seq < 2 ^ 16)
      × (length uid + length (padded pad body) < 2 ^ 16)
unfolding signalling_frame
signalling_frame_layout cmd seq uid body pad {f} e = ground arith

pub sealed-IsFrame :
    (cmd seq : ℕ) (uid body : Bytes)
    → 12 + (length uid + length body) ≤ 4096
    → IsFrame (sealed (covered cmd (length uid + length body) seq uid body))
sealed-IsFrame cmd seq uid body small =
    let head = covered cmd (length uid + length body) seq uid body in
    record {
      magic_first = refl;
      magic_second = refl;
      size =
          omega
            (arith, length-covered cmd (length uid + length body) seq uid body, length-sealed head);
      bounded =
          omega
            (arith, length-covered cmd (length uid + length body) seq uid body, length-sealed head);
      ended = sealed_ended head;
      checked = sealed_checked head;
    }

-- A frame that is built with its own length, at most 4096 bytes in all, passes every check of a
-- receiver.
pub signalling_frame-IsFrame :
    (cmd seq : ℕ) (uid body : Bytes) (pad : Bool) {f : Bytes}
    → signalling_frame cmd seq uid body none pad ≡ some f
    → 12 + (length uid + length (padded pad body)) ≤ 4096
    → IsFrame f
signalling_frame-IsFrame cmd seq uid body pad e small =
    let (layout, _, _, _) = signalling_frame_layout cmd seq uid body pad e in
    rw layout (sealed-IsFrame cmd seq uid (padded pad body) small)
