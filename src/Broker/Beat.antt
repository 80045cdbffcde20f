-- ===== src/Broker/Beat.antt =====
-- What `HttpApi` of ziot_fake_cloud.py sends on a clock: the keepalive, the heartbeat of a view, and the relay
-- trigger.
use ziot_rtp_bridge.Base.{ℕ, ◌+◌, ◌-◌, Bool, true, false, not, ◌||◌, none, some, if◌then◌else◌, ltb}
use ziot_rtp_bridge.Broker.Answers.{pullvideo, heartbeat, relay_trigger}
use ziot_rtp_bridge.Broker.Chain.{serve_due_p2p_fire}
use ziot_rtp_bridge.Broker.State.{Entry, Host, Sent, went, refused, raised, and_then, is_some, push}

abbrev pub keepalive_interval : ℕ
keepalive_interval = 2000

abbrev pub relay_start_delay : ℕ
relay_start_delay = 5000

unfoldable pub keepalive_due : ℕ → Entry → Entry × Bool
keepalive_due now e = elim e.last_keepalive [
  | none ↦ (record e { last_keepalive = some now }, false)
  | some last ↦
      if ltb (now - last) keepalive_interval
      then (e, false)
      else (record e { last_keepalive = some now }, true)
]

unfoldable pub keepalive : Host → Entry → Entry × Sent
unfolding push
keepalive h e = if not (is_some e.link) then (e, refused) else push h e.last_seq pullvideo e

unfoldable pub send_heartbeat : Host → Entry → Entry × Sent
unfolding push
send_heartbeat h e =
    if not (is_some e.link)
    then (record e { heartbeat_dropped = true }, refused)
    else push h e.last_seq heartbeat (record e { heartbeat_dropped = false })

unfoldable pub push_relay_trigger : Host → Entry → Entry × Sent
unfolding push
push_relay_trigger h e =
    if not h.relay_start
    then (e, refused)
    else if not (is_some e.link)
    then (e, refused)
    else push h e.last_seq relay_trigger e

unfoldable pub schedule_relay_trigger : Host → Entry → Entry
schedule_relay_trigger h e =
    if not h.relay_start || is_some e.relay_trigger_at
    then e
    else record e { relay_trigger_at = some (h.now + relay_start_delay) }

-- The body of the loop of `serve_due_relay_triggers`, for this camera.
unfoldable pub serve_due_relay_trigger : Host → Entry → Entry × Sent
unfolding push_relay_trigger
serve_due_relay_trigger h e = elim e.relay_trigger_at [
  | none ↦ (e, refused)
  | some due ↦
      let e' = record e { relay_trigger_at = none } in
      if ltb h.now due
      then (e, refused)
      else if not (is_some e'.link)
      then (e', refused)
      else push_relay_trigger h e'
]

-- The worker's loop over the links, for this camera: only a frame that went out counts as fed.
unfoldable pub feed : Host → Entry → Entry × Sent
unfolding keepalive
feed h e = if not (is_some e.link) then (e, refused) else elim e.last_keepalive [
  | none ↦ (record e { last_keepalive = some h.now }, refused)
  | some last ↦
      let (e', result) = keepalive h e in
      if ltb (h.now - last) keepalive_interval then (e, refused) else elim result [
        | went ↦ (record e' { last_keepalive = some h.now }, went)
        | refused ↦ (e', refused)
        | raised ↦ (e', raised)
      ]
]

-- One round of the keepalive worker.
unfoldable pub beat : Host → Entry → Entry × Sent
unfolding feed serve_due_relay_trigger serve_due_p2p_fire
beat h e = and_then (and_then (feed h e) (serve_due_relay_trigger h)) (serve_due_p2p_fire h)
