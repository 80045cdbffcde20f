-- ===== src/Broker/Answers.antt =====
-- The frames that the broker sends: `arm_target` and the `vendor_*` functions of ziot_fake_cloud.py, which
-- build the answers to a camera's commands and the commands that are pushed to it. Texts are bytes. `none` is the
-- `struct.error` of a number that does not fit its field.
pub mod Layout
use ziot_rtp_bridge.Base.{
  ℕ, ◌+◌, ◌-◌, ◌*◌, ◌/◌, ◌%◌, ◌^◌, Bool, true, false, not, ◌&&◌, ◌||◌, Option, none, some, List, [],
  ◌∷◌, ◌++◌, if◌then◌else◌, ◌==◌, ltb, Bytes, bytes_eq, be16, pack16, ljust, replicate, take, ascii,
  ◌>>=◌,
}
use ziot_rtp_bridge.Base.Int.{ℤ, pos, negsuc, pos_part}
use ziot_rtp_bridge.Cloud.Row.{lstrip, rstrip}
use ziot_rtp_bridge.Signalling.Frame.{signalling_frame}

-- A viewer's registration, as `_register_viewer` keeps it.
pub record Viewer : Type 0 where
  pub public_ip : Bytes
  pub public_port : ℤ
  pub private_ip : Bytes
  pub private_port : ℤ

-- `(pub_ip, pub_port, priv_ip, priv_port)`
pub record Pair : Type 0 where
  pub pub_ip : Bytes
  pub pub_port : ℤ
  pub priv_ip : Bytes
  pub priv_port : ℤ

-- `s.strip()`
abbrev pub strip : Bytes → Bytes
strip s = rstrip (lstrip s)

-- `not n`
abbrev pub is_zero : ℤ → Bool
is_zero (pos n) = n == 0
is_zero (negsuc _) = false

-- `ip or other`
abbrev pub text_or : Bytes → Bytes → Bytes
text_or ip other = if bytes_eq ip [] then other else ip

-- The pairs of a viewer; both fields of each are missing where no viewer is registered.
abbrev pub private_pair : Option Viewer → Bytes × ℤ
private_pair none = ([], pos 0)
private_pair (some v) = (strip v.private_ip, v.private_port)

abbrev pub public_pair : Option Viewer → Bytes × ℤ
public_pair none = ([], pos 0)
public_pair (some v) = (strip v.public_ip, v.public_port)

unfoldable pub arm_target : Option Viewer → Bytes → ℤ → Bytes → Bytes × ℕ
arm_target viewer relay_ip relay_port own_ip =
    let private = private_pair viewer in
    let public = public_pair viewer in
    let falls_back = bytes_eq private.0 [] || is_zero private.1 in
    let ip = if falls_back then text_or private.0 public.0 else private.0 in
    let port = if falls_back then public.1 else private.1 in
    if is_zero port
    then (text_or (text_or ip relay_ip) own_ip, pos_part relay_port)
    else (text_or ip own_ip, pos_part port)

-- `struct.pack("!H", n)` on an integer.
abbrev pub pack16_int : ℤ → Option Bytes
pack16_int (pos n) = pack16 n
pack16_int (negsuc _) = none

-- `struct.pack("!I", n)`
abbrev pub pack32 : ℕ → Option Bytes
pack32 n = if ltb n (2 ^ 32) then some (be16 (n / 2 ^ 16) ++ be16 n) else none

-- `value.encode().ljust(width, b"\x00")[:width]`
abbrev pub slot : Bytes → ℕ → Bytes
slot value width = take width (ljust width value)

unfoldable pub vendor_registration_answer :
    Bytes → ℕ → Bytes → ℕ → ℕ → Bytes → ℕ → Bytes → ℕ → Option Bytes
vendor_registration_answer uid seq relay_ip relay_port relay_port2 stun_host stun_port sig_ip
      sig_tail =
    do
      lead ← pack16 seq
      port ← pack16 relay_port
      port2 ← pack16 relay_port2
      stun ← pack16 stun_port
      sig ← pack16 sig_tail
      let body =
          lead
          ++ (slot relay_ip 20
              ++ (port ++ (port2 ++ (slot stun_host 32 ++ (stun ++ (slot sig_ip 32 ++ sig))))))
      signalling_frame 0x8000 seq uid body none false

unfoldable pub vendor_time_answer : Bytes → ℕ → ℕ → Option Bytes
vendor_time_answer uid seq now = do
  body ← pack32 now
  signalling_frame 0x8021 seq uid body none false

unfoldable pub vendor_pullvideo_answer : Bytes → ℕ → Option Bytes
vendor_pullvideo_answer uid seq = do
  cseq ← pack16 seq
  signalling_frame 0x8001 seq uid (cseq ++ (be16 0x0002 ++ 0 ∷ [])) none false

unfoldable pub vendor_pushvideo_answer : Bytes → ℕ → Bytes → Option Bytes
vendor_pushvideo_answer uid seq url =
    let body = if bytes_eq url [] then 0 ∷ (be16 0x20 ++ 3 ∷ []) else 0 ∷ (be16 0x20 ++ 1 ∷ url) in
    signalling_frame 0x8001 seq uid body none false

unfoldable pub vendor_status_answer : Bytes → ℕ → ℕ → Option Bytes
vendor_status_answer uid seq value = do
  cseq ← pack16 seq
  v ← pack16 value
  signalling_frame 0x8001 seq uid (cseq ++ (v ++ 0 ∷ [])) none false

unfoldable pub vendor_relay_trigger : Bytes → ℕ → Option Bytes
vendor_relay_trigger uid seq = signalling_frame 0x8005 seq uid [] none false

unfoldable pub vendor_p2p_conn_req : Bytes → ℕ → Pair → ℕ → Option Bytes
vendor_p2p_conn_req uid seq pair seq_no = do
  n ← pack16 seq_no
  public ← pack16_int pair.pub_port
  private ← pack16_int pair.priv_port
  let body =
      n
      ++ (replicate 18 0
          ++ (ljust 20 pair.pub_ip ++ (public ++ (ljust 20 pair.priv_ip ++ private))))
  signalling_frame 0x8101 seq uid body none false

unfoldable pub vendor_play_ctrl : Bytes → ℕ → ℕ → Option Bytes
vendor_play_ctrl uid seq value = do
  v ← pack16 value
  signalling_frame 0x8004 seq uid (replicate 20 0 ++ v) none false

unfoldable pub vendor_heartbeat : Bytes → ℕ → Option Bytes
vendor_heartbeat uid seq = signalling_frame 0x8002 seq uid [] none false

unfoldable pub vendor_config_answer : Bytes → ℕ → Option Bytes
vendor_config_answer uid seq =
    let body = replicate 37 0 ++ (be16 10000 ++ (be16 15 ++ be16 15)) in
    signalling_frame 0x8601 seq uid body none false

-- The acknowledgement of a command that has no answer of its own.
unfoldable pub vendor_ack : Bytes → ℕ → ℕ → Option Bytes
vendor_ack uid seq cmd = do
  s ← pack16 seq
  c ← pack16 cmd
  signalling_frame 0x8001 seq uid (0 ∷ (s ++ (c ++ 0 ∷ []))) none false

-- The frames that are sent to a camera, by what they say: the target that is armed and this host, the
-- clock, the command that is acknowledged.
pub data Message : Type 0 where
  registration : Bytes → ℕ → Bytes → Message
  clock : ℕ → Message
  pullvideo config relay_trigger heartbeat : Message
  pushvideo : Bytes → Message
  status : ℕ → Message
  conn_req : Pair → ℕ → Message
  play_ctrl : ℕ → Message
  ack : ℕ → Message

-- The frame of a message; the registration answer names the STUN server and the signalling port as
-- `_vendor_answer` does.
unfoldable pub frame_of : Bytes → ℕ → Message → Option Bytes
frame_of uid seq (registration ip port own) =
    vendor_registration_answer uid seq ip port port (ascii "stun.gps555.net") 13478 own 8882
frame_of uid seq (clock now) = vendor_time_answer uid seq now
frame_of uid seq pullvideo = vendor_pullvideo_answer uid seq
frame_of uid seq config = vendor_config_answer uid seq
frame_of uid seq relay_trigger = vendor_relay_trigger uid seq
frame_of uid seq heartbeat = vendor_heartbeat uid seq
frame_of uid seq (pushvideo url) = vendor_pushvideo_answer uid seq url
frame_of uid seq (status value) = vendor_status_answer uid seq value
frame_of uid seq (conn_req pair seq_no) = vendor_p2p_conn_req uid seq pair seq_no
frame_of uid seq (play_ctrl value) = vendor_play_ctrl uid seq value
frame_of uid seq (ack cmd) = vendor_ack uid seq cmd
