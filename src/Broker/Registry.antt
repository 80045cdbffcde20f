-- ===== src/Broker/Registry.antt =====
-- The registry of cameras of `HttpApi` of ziot_fake_cloud.py: `save_cameras`, `load_cameras`, `relay_address` and `_camera_row`,
-- and the address that `StunHandler` notes. Of a camera's items those that change are modelled.
pub mod Restart
mod Tests
use ziot_rtp_bridge.Base.{
  ℕ, Bool, true, false, not, ◌||◌, Option, none, some, List, [], ◌∷◌, ◌++◌, if◌then◌else◌, ◌==◌,
  Bytes, bytes_eq,
}
use ziot_rtp_bridge.Broker.State.{Device}

-- `cameras`
abbrev pub Cameras : Type 0
Cameras = List (Bytes × Device)

-- JSON, as a library: a text of the cameras, and what is read back (`none` is an exception, or no object).
pub record Json : Type 0 where
  pub dump : Cameras → Bytes
  pub parse : Bytes → Option Cameras

-- The camera file, if there is one, and whether it can be written.
pub record Disk : Type 0 where
  pub has_file : Bool
  pub writable : Bool
  pub content : Option Bytes

unfoldable pub save_cameras : Json → Cameras → Disk → Disk
save_cameras j cameras d =
    if not d.has_file
    then d
    else if d.writable
    then record d { content = some (j.dump cameras) }
    else d

abbrev pub has_camera : Bytes → Cameras → Bool
has_camera uid [] = false
has_camera uid ((u, d) ∷ rest) = bytes_eq u uid || has_camera uid rest

-- `camera["mediaState"] = "0"`
abbrev pub at_rest : Device → Device
at_rest d = record d { media_state = 0 }

-- Cameras that are not known yet are taken over.
abbrev pub restore : Cameras → Cameras → Cameras
restore [] known = known
restore ((uid, d) ∷ saved) known =
    restore saved (if has_camera uid known then known else known ++ (uid, at_rest d) ∷ [])

unfoldable pub load_cameras : Json → Disk → Cameras → Cameras
load_cameras j d known = if not d.has_file then known else elim d.content [
  | none ↦ known
  | some text ↦ elim (j.parse text) [ none ↦ known | some saved ↦ restore saved known ]
]

-- `relay_address`, from the relay's host and port.
abbrev pub relay_address : Bytes → ℕ → Option (Bytes × ℕ)
relay_address host port = if port == 0 then none else some (host, port)

-- The row of a camera in the device list: its media state, the public address that a report has left, and the relay.
pub record DeviceRow : Type 0 where
  pub media_state : Option ℕ
  pub public : Option (Bytes × ℕ)
  pub relay : Option (Bytes × ℕ)

abbrev pub camera_of : Bytes → Cameras → Option Device
camera_of uid [] = none
camera_of uid ((u, d) ∷ rest) = if bytes_eq u uid then some d else camera_of uid rest

-- `_camera_row`; `_ip` and `_port` are taken out.
unfoldable pub camera_row : Bytes → ℕ → Bytes → Cameras → DeviceRow
camera_row host port uid cameras = elim (camera_of uid cameras) [
  | none ↦ record { media_state = none; public = none; relay = relay_address host port }
  | some d ↦ record {
    media_state = some d.media_state;
    public = d.public;
    relay = relay_address host port;
  }
]

-- `camera.get("_ip") in ("", ip)`
abbrev pub may_be : Bytes → Device → Bool
may_be ip d = bytes_eq d.ip [] || bytes_eq d.ip ip

-- `StunHandler.handle`, behind its reply: the first camera that may stand at the peer's address gets it.
unfoldable pub note_peer : Bytes → ℕ → Cameras → Cameras
note_peer ip port [] = []
note_peer ip port ((uid, d) ∷ rest) =
    let later = note_peer ip port rest in
    if may_be ip d then (uid, record d { ip = ip; port = port }) ∷ rest else (uid, d) ∷ later
