-- ===== src/Broker/Registry/Tests.antt =====
-- Two cameras, a restart, and a STUN request of a stranger.
use ziot_rtp_bridge.Base.{ℕ, ◌≡◌, refl, true, none, some, [], ◌∷◌, Bytes, ascii}
use ziot_rtp_bridge.Broker.Registry.{Cameras, Json, Disk, save_cameras, load_cameras, note_peer}
use ziot_rtp_bridge.Broker.Registry.Restart.{all_at_rest, load_cameras-save_cameras}
use ziot_rtp_bridge.Broker.State.{Device}

abbrev device : Bytes → ℕ → ℕ → Device
device ip port state = record { ip = ip; port = port; public = none; media_state = state }

abbrev cameras : Cameras
cameras = (ascii "A", device (ascii "10.0.0.5") 5000 1) ∷ (ascii "B", device [] 0 0) ∷ []

-- A JSON that knows one text.
abbrev json : Json
json = record { dump = λ cams. ascii "{}"; parse = λ text. some cameras }

abbrev disk : Disk
disk = record { has_file = true; writable = true; content = none }

-- A peer at an address that no camera has is taken for the camera that has none.
stranger :
    note_peer (ascii "10.0.0.9") 7000 cameras
    ≡ (ascii "A", device (ascii "10.0.0.5") 5000 1)
      ∷ (ascii "B", device (ascii "10.0.0.9") 7000 0)
      ∷ []
unfolding note_peer
stranger = refl

load_cameras-save_cameras_example :
    load_cameras json (save_cameras json cameras disk) [] ≡ all_at_rest cameras
load_cameras-save_cameras_example =
    load_cameras-save_cameras json cameras disk refl (refl, (refl, tt)) refl refl
