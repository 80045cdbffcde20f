-- ===== src/Ble/Response.antt =====
-- The camera's answer frame, as `parse_provision_response` reads it.
use ziot_rtp_bridge.Base.{
  ℕ, ◌+◌, ◌*◌, ◌/◌, ◌%◌, ◌<◌, ◌≡◌, some, [], ◌∷◌, ◌++◌, ◌==◌, arith, Bytes, length, length-append,
  take-append, take_all, get_or-append, append_assoc,
}
use ziot_rtp_bridge.Ble.{packet_head, packet, parse_provision_response}
use ziot_rtp_bridge.Signalling.Frame.{xor}

-- The answer of a camera: its status and its uid.
abbrev pub answer : ℕ → Bytes → Bytes
answer status uid = 0x80 ∷ 0x01 ∷ status ∷ length uid ∷ uid

-- An answer in the frame that `wifi_connect_frame` uses is read back: its status, and its uid.
pub parse_provision_response-packet :
    (seq status : ℕ) (uid : Bytes)
    → length uid < 256
    → parse_provision_response (packet seq (answer status uid)) ≡ some ((status == 0), uid)
unfolding parse_provision_response packet
parse_provision_response-packet seq status uid small =
    let payload = answer status uid in
    let head = packet_head seq payload in
    let n = length payload / 256 % 256 * 256 + length payload % 256 in
    let size : n ≡ length payload = omega arith in
    let whole = length-append head (xor head ∷ 0x0d ∷ []) in
    let covered = take-append (8 + n) head (xor head ∷ 0x0d ∷ []) (omega arith) in
    let check = get_or-append (8 + n) head (0x0d ∷ []) (xor head) 0 (omega arith) in
    let assoc = append_assoc head (xor head ∷ []) (0x0d ∷ []) in
    let longer = length-append head (xor head ∷ []) in
    let end = get_or-append (9 + n) (head ++ xor head ∷ []) [] 0x0d 0 (omega arith) in
    let sub = take-append n payload (xor head ∷ 0x0d ∷ []) size in
    let named = take_all (length uid) uid (omega arith) in ground arith
