-- ===== src/Broker/Api.antt =====
-- What the HTTP requests of the app and the bridge do: `_register_viewer`, `_stun`, `push_url`, `relay_address`
-- and the routes of `respond` that change the state, of `HttpApi` of ziot_fake_cloud.py. A value of the query is
-- the result of `int`.
use ziot_rtp_bridge.Base.{
  ℕ, zero, suc, ◌+◌, ◌/◌, ◌%◌, false, not, ◌||◌, Option, none, some, [], ◌∷◌, ◌++◌, if◌then◌else◌,
  ◌==◌, ltb, Bytes, bytes_eq, length, ascii,
}
use ziot_rtp_bridge.Base.Int.{ℤ, pos, negsuc}
use ziot_rtp_bridge.Broker.Answers.{play_ctrl, is_zero, text_or}
use ziot_rtp_bridge.Broker.Beat.{send_heartbeat, push_relay_trigger}
use ziot_rtp_bridge.Broker.Chain.{schedule_p2p_live}
use ziot_rtp_bridge.Broker.State.{Device, Answer, Entry, Host, Sent, refused, set_pending_seq, push}
use ziot_rtp_bridge.Cloud.Row.{rtp_url, live_url}

-- The query of `send-stun-addr`: a missing port is 0, and `none` is a `ValueError`.
pub record Query : Type 0 where
  pub public_ip : Bytes
  pub public_port : Option ℤ
  pub private_ip : Bytes
  pub private_port : Option ℤ

abbrev pub ports_of : Query → ℤ × ℤ
ports_of q = elim q.public_port [
  | none ↦ (pos 0, pos 0)
  | some p ↦ elim q.private_port [ none ↦ (pos 0, pos 0) | some r ↦ (p, r) ]
]

-- The number is the new `seq_no`.
unfoldable pub register_viewer : Query → Entry → Entry
register_viewer q e =
    let ports = ports_of q in
    record e {
      viewer = some (record {
        public_ip = q.public_ip;
        public_port = ports.0;
        private_ip = q.private_ip;
        private_port = ports.1;
      });
      seq_no = e.seq_no + 1;
    }

-- The answer of `stun-addr` and `send-stun-addr`, without its times.
pub record Stun : Type 0 where
  pub endpoint : Answer
  pub number : ℕ

-- `a or b` on ports.
abbrev pub port_or : ℕ → ℕ → ℕ
port_or a b = if a == 0 then b else a

abbrev pub own_pairs : Option Device → Answer
own_pairs none = record { pub_ip = []; pub_port = 0; loc_ip = []; loc_port = 0 }
own_pairs (some d) = record {
  pub_ip = elim d.public [ none ↦ d.ip | some p ↦ text_or p.0 d.ip ];
  pub_port = elim d.public [ none ↦ d.port | some p ↦ port_or p.1 d.port ];
  loc_ip = d.ip;
  loc_port = d.port;
}

-- `_stun`
unfoldable pub stun : Option ℕ → Entry → Stun
stun seq_no e = record {
  endpoint = elim e.p2p_answer [ none ↦ own_pairs e.camera | some a ↦ a ];
  number = elim seq_no [ none ↦ e.reported_seq | some n ↦ n ];
}

-- `send-stun-addr`
unfoldable pub send_stun_addr : Host → Query → Entry → Entry × Sent
unfolding register_viewer set_pending_seq schedule_p2p_live
send_stun_addr h q e =
    let e' = register_viewer q e in schedule_p2p_live h false (set_pending_seq e'.seq_no e')

-- `notify-live-event`
unfoldable pub notify_live_event : Host → Bytes → Entry → Entry × Sent
unfolding schedule_p2p_live send_heartbeat push push_relay_trigger
notify_live_event h event e =
    if bytes_eq event (ascii "1") || bytes_eq event (ascii "4")
    then schedule_p2p_live h false e
    else if bytes_eq event (ascii "0")
    then send_heartbeat h e
    else if bytes_eq event (ascii "2")
    then push h e.last_seq (play_ctrl 2) e
    else if bytes_eq event (ascii "3")
    then push h e.last_seq (play_ctrl 3) e
    else if bytes_eq event (ascii "5")
    then push_relay_trigger h e
    else (e, refused)

-- The decimal digits of a number, on fuel; a number is fuel enough for itself.
abbrev pub digits_from : ℕ → ℕ → Bytes → Bytes
digits_from zero n out = out
digits_from (suc fuel) n out =
    let out' = (n % 10 + b'0') ∷ out in
    let longer = digits_from fuel (n / 10) out' in if ltb n 10 then out' else longer

-- `str(n)`
unfoldable pub str : ℤ → Bytes
str (pos n) = digits_from (n + 1) n []
str (negsuc n) = b'-' ∷ digits_from (n + 2) (n + 1) []

abbrev pub url_of : Bytes → Bytes → Bytes
url_of host uid = if ltb 8 (length uid) then rtp_url host uid else live_url host uid

abbrev pub with_port : Bytes → ℤ → Bytes
with_port host port = if is_zero port then host else host ++ (b':' ∷ str port)

unfoldable pub push_url : Host → Entry → Bytes
unfolding str
push_url h e =
    if not (h.api_relay_port == 0)
    then url_of (h.api_relay_host ++ (b':' ∷ str (pos h.api_relay_port))) e.uid
    else elim e.viewer [
      | none ↦ []
      | some v ↦
          let host = text_or v.private_ip v.public_ip in
          let port = if is_zero v.private_port then v.public_port else v.private_port in
          if bytes_eq host [] then [] else url_of (with_port host port) e.uid
    ]
