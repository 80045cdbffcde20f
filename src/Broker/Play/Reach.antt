-- ===== src/Broker/Play/Reach.antt =====
-- The broker's calls as steps, and what holds in every state that they reach.
use ziot_rtp_bridge.Base.{ℕ, Option, arith, Bytes}
use ziot_rtp_bridge.Broker.Answers.{Viewer}
use ziot_rtp_bridge.Broker.Api.{Query, send_stun_addr, notify_live_event}
use ziot_rtp_bridge.Broker.Beat.{beat}
use ziot_rtp_bridge.Broker.Handler.{answer_camera, finish}
use ziot_rtp_bridge.Broker.Play.{Orderly, IsChained}
use ziot_rtp_bridge.Broker.State.{Device, new_entry, Entry, Host, add_camera, set_camera_address}
use ziot_rtp_bridge.Broker.Play.Calls.{
  beat-IsChained, finish-IsChained, send_stun_addr-IsChained, notify_live_event-IsChained,
}
use ziot_rtp_bridge.Broker.Play.Frame.{answer_camera-IsChained}

-- The calls that other parts of the broker make: a frame arrives, a connection ends, the worker ticks,
-- a viewer registers, an app notifies, a camera is registered over HTTP, and a STUN request comes from it.
pub data Step (e : Entry) : Entry → Type 0 where
  frame : (h : Host) (conn : ℕ) (peer raw : Bytes) → Step e (answer_camera h conn peer raw e).0
  ends : (conn : ℕ) → Step e (finish conn e)
  ticks : (h : Host) → Step e (beat h e).0
  registers : (h : Host) (q : Query) → Step e (send_stun_addr h q e).0
  notifies : (h : Host) (event : Bytes) → Step e (notify_live_event h event e).0
  adds : (ip : Bytes) (port : ℕ) → Step e (add_camera ip port e)
  calls_stun : (ip : Bytes) (port : ℕ) → Step e (set_camera_address ip port e)

step-IsChained : (e e' : Entry) → Step e e' → IsChained e → IsChained e'
unfolding add_camera set_camera_address
step-IsChained e _ (frame h conn peer raw) c = answer_camera-IsChained h conn peer raw e c
step-IsChained e _ (ends conn) c = finish-IsChained conn e c
step-IsChained e _ (ticks h) c = beat-IsChained h e c
step-IsChained e _ (registers h q) c = send_stun_addr-IsChained h q e c
step-IsChained e _ (notifies h event) c = notify_live_event-IsChained h event e c
step-IsChained e _ (adds ip port) c = ground arith
step-IsChained e _ (calls_stun ip port) c = ground arith

-- The states of a broker that has started, with the camera and the viewer that its files held.
pub data Reachable : Entry → Type 0 where
  starts :
      (uid : Bytes) (camera : Option Device) (viewer : Option Viewer)
      → Reachable (new_entry uid camera viewer)
  next : {e e' : Entry} → Reachable e → Step e e' → Reachable e'

-- In every state that is reached, a readiness belongs to a camera that has been asked and has reported.
pub Reachable-IsChained : {e : Entry} → Reachable e → IsChained e
Reachable-IsChained (starts uid camera viewer) = record {
  asked = λ x. cc;
  waits = λ x. cc;
  bound = λ x. cc;
  orderly = tt;
}
Reachable-IsChained (next {e} {e'} r s) = step-IsChained e e' s (Reachable-IsChained r)

-- Whatever the camera, the viewer and the app do, in whatever order, each PlayLiveview goes out only after
-- the camera was asked with the viewer's address and then reported its socket bound, and only once for
-- each time that it was asked.
pub Reachable-Orderly : {e : Entry} → Reachable e → Orderly e.trace
Reachable-Orderly r = (Reachable-IsChained r).orderly
