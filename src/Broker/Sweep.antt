-- ===== src/Broker/Sweep.antt =====
-- The sweep of candidate answers of ziot_fake_cloud.py, which runs with `ack_sweep`: `_ack_candidates`, and the
-- end of `StreamHandler._answer_camera`. Times are milliseconds of the monotonic clock.
pub mod Turns
mod Tests
use ziot_rtp_bridge.Base.{
  ℕ, ◌+◌, ◌%◌, Bool, true, false, not, ◌&&◌, ◌||◌, Option, none, some, List, [], ◌∷◌, ◌++◌,
  if◌then◌else◌, ◌==◌, ltb, Bytes, bytes_eq, ascii, be16, pack16, length, get_or, ◌>>=◌,
}
use ziot_rtp_bridge.Base.Int.{ℤ, pos}
use ziot_rtp_bridge.Broker.Answers.{Viewer, is_zero, text_or, pack16_int}
use ziot_rtp_bridge.Broker.Api.{str}
use ziot_rtp_bridge.Broker.Token.{split_dots}
use ziot_rtp_bridge.Cloud.Static.{decimal}
use ziot_rtp_bridge.Signalling.Frame.{signalling_frame}

-- A name and a frame.
abbrev pub Candidate : Type 0
Candidate = Bytes × Bytes

-- What a candidate is built from.
pub record Wanted : Type 0 where
  pub name : Bytes
  pub cmd : ℕ
  pub who : Bytes
  pub body : Bytes
  pub pad : Bool

-- The frames in order; `none` is a `struct.error`.
unfoldable pub build : ℕ → List Wanted → Option (List Candidate)
unfolding signalling_frame
build seq [] = some []
build seq (w ∷ ws) = signalling_frame w.cmd seq w.who w.body none w.pad >>= λ (f : Bytes).
    build seq ws >>= λ (rest : List Candidate). some ((w.name, f) ∷ rest)

-- A command and its four hexadecimal digits.
abbrev pub Command : Type 0
Command = ℕ × Bytes

abbrev pub answer_cmd : Command
answer_cmd = (0x8001, ascii "8001")

abbrev pub echo_cmd : Command
echo_cmd = (0x0001, ascii "0001")

-- `ack_bodies`, with the counter packed.
abbrev pub ack_bodies : Bytes → List (Bytes × Bytes)
ack_bodies seq =
    (ascii "empty", [])
    ∷ (ascii "stat0", 0 ∷ [])
    ∷ (ascii "cmd_ack0", be16 1 ++ be16 0)
    ∷ (ascii "cseq_cmd_ack0", seq ++ (be16 1 ++ be16 0))
    ∷ (ascii "stat1", 1 ∷ [])
    ∷ (ascii "cmd", be16 1)
    ∷ (ascii "cmd_ack1", be16 1 ++ be16 1)
    ∷ (ascii "cseq_cmd_ack1", seq ++ (be16 1 ++ be16 1))
    ∷ []

abbrev pub ack_name : Command → Bytes → Bytes → Bytes
ack_name rcmd tag bname = ascii "ack-" ++ (rcmd.1 ++ (ascii "-" ++ (tag ++ (ascii "-" ++ bname))))

abbrev pub ack : Command → Bytes → Bytes → Bytes × Bytes → Wanted
ack rcmd who tag (bname, body) = record {
  name = ack_name rcmd tag bname;
  cmd = rcmd.0;
  who = who;
  body = body;
  pad = false;
}

-- Each body with the uid and without.
abbrev pub acks : Command → Bytes → List (Bytes × Bytes) → List Wanted
acks rcmd uid [] = []
acks rcmd uid (b ∷ bs) =
    ack rcmd uid (ascii "uid") b ∷ ack rcmd [] (ascii "nouid") b ∷ acks rcmd uid bs

abbrev pub padded_ack : Command → Bytes → Bytes → Wanted
padded_ack rcmd uid seq = record {
  name = ascii "ack-" ++ (rcmd.1 ++ ascii "-uid-padded");
  cmd = rcmd.0;
  who = uid;
  body = seq ++ (be16 1 ++ be16 0);
  pad = true;
}

-- `bytes(int(o) for o in octets)` for four octets, or `b""`.
abbrev pub octet_byte : Bytes → Option ℕ
octet_byte [] = none
octet_byte (c ∷ cs) = decimal 0 (c ∷ cs) >>= λ n. if ltb n 256 then some n else none

abbrev pub octet_bytes : List Bytes → Option Bytes
octet_bytes [] = some []
octet_bytes (o ∷ os) = octet_byte o >>= λ (n : ℕ). octet_bytes os >>= λ (ns : Bytes). some (n ∷ ns)

abbrev pub bytes_or_empty : Option Bytes → Bytes
bytes_or_empty none = []
bytes_or_empty (some bs) = bs

abbrev pub ip_bytes : Bytes → Bytes
ip_bytes ip =
    let octets = split_dots [] ip in
    if length octets == 4 then bytes_or_empty (octet_bytes octets) else []

abbrev pub punch : Command → Bytes → Bytes → Bytes → Bytes → List Wanted
punch rcmd uid seq port ipb =
    record {
      name = ascii "punch-" ++ (rcmd.1 ++ ascii "-seq_port_ip");
      cmd = rcmd.0;
      who = uid;
      body = seq ++ (port ++ ipb);
      pad = false;
    }
    ∷ record {
      name = ascii "punch-" ++ (rcmd.1 ++ ascii "-port_ip");
      cmd = rcmd.0;
      who = uid;
      body = port ++ ipb;
      pad = false;
    }
    ∷ []

-- The punches, if the address is one and there is a port; `none` is the `struct.error` of a port.
abbrev pub punches : Bytes → Bytes → Bytes → ℤ → Option (List Wanted)
punches uid seq ipb port =
    if bytes_eq ipb [] || is_zero port
    then some []
    else (pack16_int port >>= λ (p : Bytes).
        some (
          punch (0x0002, ascii "0002") uid seq p ipb ++ punch (0x8002, ascii "8002") uid seq p ipb))

abbrev pub string_answer : Bytes → ℕ → Bytes → Bytes → Bool → Wanted
string_answer name cmd uid addr pad = record {
  name = name;
  cmd = cmd;
  who = uid;
  body = addr;
  pad = pad;
}

-- The address as a string.
abbrev pub strings : Bytes → Bytes → ℤ → List Wanted
strings uid ip port =
    let addr = ip ++ (b':' ∷ str port) in
    if bytes_eq ip [] || is_zero port
    then []
    else string_answer (ascii "addr-string-padded") 1 uid addr true
      ∷ string_answer (ascii "addr-string") 1 uid addr false
      ∷ string_answer (ascii "addr-string-8001-padded") 0x8001 uid addr true
      ∷ []

-- `int(privatePort or publicPort or 0)`
abbrev pub port_of : Viewer → ℤ
port_of v = if is_zero v.private_port then v.public_port else v.private_port

abbrev pub addresses : Bytes → Bytes → Option Viewer → Option (List Wanted)
addresses uid seq none = some []
addresses uid seq (some v) =
    let ip = text_or v.private_ip v.public_ip in
    (punches uid seq (ip_bytes ip) (port_of v) >>= λ (ws : List Wanted).
    some (ws ++ strings uid ip (port_of v)))

abbrev pub all_acks : Bytes → Bytes → List Wanted
all_acks uid seq =
    acks answer_cmd uid (ack_bodies seq)
    ++ (acks echo_cmd uid (ack_bodies seq)
        ++ (padded_ack answer_cmd uid seq ∷ padded_ack echo_cmd uid seq ∷ []))

unfoldable pub ack_candidates : Bytes → ℕ → Option Viewer → Option (List Candidate)
unfolding build split_dots str
ack_candidates uid seq viewer = pack16 seq >>= λ (s : Bytes).
    addresses uid s viewer >>= λ (ws : List Wanted). build seq (all_acks uid s ++ ws)

-- A frame of the camera is sent back first.
abbrev pub with_echo : Bytes → List Candidate → List Candidate
with_echo raw cs = if bytes_eq raw [] then cs else (ascii "echo", raw) ∷ cs

-- `ack_index[uid]`
pub record Sweep : Type 0 where
  pub index : ℕ
  pub count : ℕ
  pub name : Bytes
  pub since : ℕ

abbrev pub new_sweep : Sweep
new_sweep = record { index = 0; count = 0; name = []; since = 0 }

abbrev pub ack_hold : ℕ
ack_hold = 6000

-- The next candidate, if this one was held for long enough.
abbrev pub turn : ℕ → ℕ → Sweep → Sweep
turn now size s =
    if ltb (s.since + ack_hold) now
    then record s { index = (s.index + 1) % size; since = now; count = 0 }
    else s

abbrev pub chosen : List Candidate → Sweep → Candidate
chosen cs s = get_or cs (s.index % length cs) ([], [])

-- The state behind one frame of the camera, and the answer to it.
unfoldable pub sweep : ℕ → List Candidate → Sweep → Sweep × Bytes
sweep now cs s =
    let s' = turn now (length cs) s in
    let c = chosen cs s' in (record s' { count = s'.count + 1; name = c.0 }, c.1)
