-- ===== src/Broker/Answers/Layout.antt =====
-- The sizes of the frames of `frame_of`, and a receiver's checks of them.
use ziot_rtp_bridge.Base.{
  ℕ, ◌+◌, ◌≤◌, ◌≡◌, refl, ap, ◌∙◌, false, Option, none, some, [], ◌∷◌, ◌++◌, max, arith, Bytes,
  be16, pack16, ljust, length, replicate, length-append, length-ljust, length-take, ◌>>=◌,
}
use ziot_rtp_bridge.Base.Int.{ℤ, pos, negsuc}
use ziot_rtp_bridge.Broker.Answers.{
  Pair, Message, registration, clock, pullvideo, config, relay_trigger, heartbeat, pushvideo,
  status, conn_req, play_ctrl, ack, slot, pack16_int, pack32, vendor_registration_answer,
  vendor_time_answer, vendor_pullvideo_answer, vendor_pushvideo_answer, vendor_status_answer,
  vendor_relay_trigger, vendor_p2p_conn_req, vendor_play_ctrl, vendor_heartbeat,
  vendor_config_answer, vendor_ack, frame_of,
}
use ziot_rtp_bridge.Signalling.Frame.{covered, signalling_frame, IsFrame}
use ziot_rtp_bridge.Signalling.Frame.Valid.{
  signalling_frame_layout, signalling_frame-IsFrame, length-covered, length-sealed,
}

-- The documented sizes of the bodies.
abbrev pub body_size : Message → ℕ
body_size (registration _ _ _) = 94
body_size (clock _) = 4
body_size pullvideo = 5
body_size config = 43
body_size relay_trigger = 0
body_size heartbeat = 0
body_size (pushvideo url) = 4 + length url
body_size (status _) = 5
body_size (conn_req pair _) = 24 + (max 20 (length pair.pub_ip) + max 20 (length pair.priv_ip))
body_size (play_ctrl _) = 22
body_size (ack _) = 6

-- A frame is built with a body of this length.
abbrev IsBuilt : Bytes → Bytes → ℕ → Type 0
IsBuilt uid f size =
    (cmd : ℕ) × (seq : ℕ) × (body : Bytes) × (signalling_frame cmd seq uid body none false ≡ some f)
    × (length body ≡ size)

-- What a chain of packs ends with.
bind_some :
    {A B : Type 0} (o : Option A) (f : A → Option B) {b : B}
    → (o >>= f) ≡ some b
    → (a : A) × (o ≡ some a) × (f a ≡ some b)
bind_some none f e = cc
bind_some (some a) f e = (a, refl, e)

length-pack16 : (n : ℕ) {b : Bytes} → pack16 n ≡ some b → length b ≡ 2
length-pack16 n e = ground arith

length-slot : (s : Bytes) (n : ℕ) → length (slot s n) ≡ n
length-slot s n = omega (arith, length-take n (ljust n s), length-ljust n s)

length-pack16_int : (n : ℤ) {b : Bytes} → pack16_int n ≡ some b → length b ≡ 2
length-pack16_int (pos n) e = length-pack16 n e
length-pack16_int (negsuc n) e = cc

length-pack32 : (n : ℕ) {b : Bytes} → pack32 n ≡ some b → length b ≡ 4
length-pack32 n e = ground arith

-- A body behind a packed number.
packed-IsBuilt :
    (cmd seq : ℕ) (uid : Bytes) (n : ℕ) (k : Bytes → Bytes) (size : ℕ) {f : Bytes}
    → ((v : Bytes) → length v ≡ 2 → length (k v) ≡ size)
    → (pack16 n >>= λ v. signalling_frame cmd seq uid (k v) none false) ≡ some f
    → IsBuilt uid f size
packed-IsBuilt cmd seq uid n k size sized e =
    let (v, packed, built) =
      bind_some (pack16 n) (λ v. signalling_frame cmd seq uid (k v) none false) e in
    (cmd, seq, k v, built, sized v (length-pack16 n packed))

registration-IsBuilt :
    (uid : Bytes) (seq : ℕ) (ip : Bytes) (port port2 : ℕ) (stun : Bytes) (stun_port : ℕ)
    (sig : Bytes) (tail : ℕ) {f : Bytes}
    → vendor_registration_answer uid seq ip port port2 stun stun_port sig tail ≡ some f
    → IsBuilt uid f 94
unfolding vendor_registration_answer
registration-IsBuilt uid seq ip port port2 stun stun_port sig tail {f} e =
    let (a, ea, e1) = bind_some (pack16 seq) _ e in
    let (b, eb, e2) = bind_some (pack16 port) _ e1 in
    let (c, ec, e3) = bind_some (pack16 port2) _ e2 in
    let (d, ed, e4) = bind_some (pack16 stun_port) _ e3 in
    let (g, eg, e5) = bind_some (pack16 tail) _ e4 in
    (
      0x8000,
      seq,
      _,
      e5,
      omega (
        arith,
        length-pack16 seq ea,
        length-pack16 port eb,
        length-pack16 port2 ec,
        length-pack16 stun_port ed,
        length-pack16 tail eg,
        length-slot ip 20,
        length-slot stun 32,
        length-slot sig 32,
        length-append {A = ℕ},
      ),
    )

conn_req-IsBuilt :
    (uid : Bytes) (seq : ℕ) (pair : Pair) (n : ℕ) {f : Bytes}
    → vendor_p2p_conn_req uid seq pair n ≡ some f
    → IsBuilt uid f (body_size (conn_req pair n))
unfolding vendor_p2p_conn_req
conn_req-IsBuilt uid seq pair n {f} e =
    let (a, ea, e1) = bind_some (pack16 n) _ e in
    let (b, eb, e2) = bind_some (pack16_int pair.pub_port) _ e1 in
    let (c, ec, e3) = bind_some (pack16_int pair.priv_port) _ e2 in
    (
      0x8101,
      seq,
      _,
      e3,
      omega (
        arith,
        length-pack16 n ea,
        length-pack16_int pair.pub_port eb,
        length-pack16_int pair.priv_port ec,
        length-ljust 20 pair.pub_ip,
        length-ljust 20 pair.priv_ip,
        length-append {A = ℕ},
      ),
    )

frame_of-IsBuilt :
    (uid : Bytes) (seq : ℕ) (m : Message) {f : Bytes}
    → frame_of uid seq m ≡ some f
    → IsBuilt uid f (body_size m)
unfolding frame_of vendor_time_answer vendor_pullvideo_answer vendor_pushvideo_answer
    vendor_status_answer vendor_relay_trigger vendor_play_ctrl vendor_heartbeat vendor_config_answer
    vendor_ack
frame_of-IsBuilt uid seq (registration ip port own) e =
    registration-IsBuilt uid seq ip port port _ 13478 own 8882 e
frame_of-IsBuilt uid seq (clock now) e =
    let (b, packed, built) = bind_some (pack32 now) _ e in
    (0x8021, seq, b, built, length-pack32 now packed)
frame_of-IsBuilt uid seq pullvideo e =
    packed-IsBuilt 0x8001 seq uid seq (λ v. v ++ (be16 0x0002 ++ 0 ∷ [])) 5
      (λ v h. omega (arith, length-append v (be16 0x0002 ++ 0 ∷ []))) e
frame_of-IsBuilt uid seq config e = (0x8601, seq, _, e, refl)
frame_of-IsBuilt uid seq relay_trigger e = (0x8005, seq, [], e, refl)
frame_of-IsBuilt uid seq heartbeat e = (0x8002, seq, [], e, refl)
frame_of-IsBuilt uid seq (pushvideo []) e = (0x8001, seq, 0 ∷ (be16 0x20 ++ 3 ∷ []), e, refl)
frame_of-IsBuilt uid seq (pushvideo (c ∷ cs)) e =
    (0x8001, seq, 0 ∷ (be16 0x20 ++ 1 ∷ c ∷ cs), e, omega arith)
frame_of-IsBuilt uid seq (status value) e =
    let (a, ea, e1) = bind_some (pack16 seq) _ e in
    let (b, eb, e2) = bind_some (pack16 value) _ e1 in
    (
      0x8001,
      seq,
      _,
      e2,
      omega (arith, length-pack16 seq ea, length-pack16 value eb, length-append {A = ℕ}),
    )
frame_of-IsBuilt uid seq (conn_req pair n) e = conn_req-IsBuilt uid seq pair n e
frame_of-IsBuilt uid seq (play_ctrl value) e =
    packed-IsBuilt 0x8004 seq uid value (λ v. replicate 20 0 ++ v) 22
      (λ v h. omega (arith, length-append (replicate 20 0) v)) e
frame_of-IsBuilt uid seq (ack cmd) e =
    let (a, ea, e1) = bind_some (pack16 seq) _ e in
    let (b, eb, e2) = bind_some (pack16 cmd) _ e1 in
    (
      0x8001,
      seq,
      _,
      e2,
      omega (arith, length-pack16 seq ea, length-pack16 cmd eb, length-append {A = ℕ}),
    )

-- A frame for the camera is its twelve bytes, the uid and a body of the documented size.
pub length-frame_of :
    (uid : Bytes) (seq : ℕ) (m : Message) {f : Bytes}
    → frame_of uid seq m ≡ some f
    → length f ≡ 12 + (length uid + body_size m)
length-frame_of uid seq m {f} e =
    let (cmd, s, body, built, size) = frame_of-IsBuilt uid seq m e in
    let (layout, _, _, _) = signalling_frame_layout cmd s uid body false built in
    let head = covered cmd (length uid + length body) s uid body in
    ap length layout
    ∙ omega
        (arith, length-covered cmd (length uid + length body) s uid body, length-sealed head, size)

-- A frame for the camera that is at most 4096 bytes passes every check of a receiver.
pub frame_of-IsFrame :
    (uid : Bytes) (seq : ℕ) (m : Message) {f : Bytes}
    → frame_of uid seq m ≡ some f
    → 12 + (length uid + body_size m) ≤ 4096
    → IsFrame f
frame_of-IsFrame uid seq m {f} e small =
    let (cmd, s, body, built, size) = frame_of-IsBuilt uid seq m e in
    signalling_frame-IsFrame cmd s uid body false built (omega (arith, size))
