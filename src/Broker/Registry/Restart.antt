-- ===== src/Broker/Registry/Restart.antt =====
-- What a restart keeps, and whose address a STUN request changes.
use ziot_rtp_bridge.Base.{
  ◌≡◌, ◌∙◌, refl, sym, true, false, some, [], ◌∷◌, ◌++◌, Bytes, bytes_eq, append_assoc, append-nil,
  arith,
}
use ziot_rtp_bridge.Broker.State.{Device}
use ziot_rtp_bridge.Broker.Registry.{
  Cameras, Json, Disk, save_cameras, has_camera, at_rest, restore, load_cameras,
}

-- The keys of a dict are different.
abbrev pub AreKeys : Cameras → Type 0
AreKeys [] = Unit
AreKeys ((uid, d) ∷ rest) = (has_camera uid rest ≡ false) × AreKeys rest

abbrev pub all_at_rest : Cameras → Cameras
all_at_rest [] = []
all_at_rest ((uid, d) ∷ rest) = (uid, at_rest d) ∷ all_at_rest rest

-- No saved camera is known.
abbrev Apart : Cameras → Cameras → Type 0
Apart [] known = Unit
Apart ((uid, d) ∷ saved) known = (has_camera uid known ≡ false) × Apart saved known

bytes_eq_sym : (a b : Bytes) → bytes_eq a b ≡ bytes_eq b a
bytes_eq_sym [] [] = refl
bytes_eq_sym [] (y ∷ ys) = refl
bytes_eq_sym (x ∷ xs) [] = refl
bytes_eq_sym (x ∷ xs) (y ∷ ys) = let rest = bytes_eq_sym xs ys in ground arith

has_camera-append :
    (uid u : Bytes) (d : Device) (known : Cameras)
    → has_camera uid known ≡ false
    → bytes_eq u uid ≡ false
    → has_camera uid (known ++ (u, d) ∷ []) ≡ false
has_camera-append uid u d [] h e = ground arith
has_camera-append uid u d ((v, f) ∷ known) h e =
    let rest = has_camera-append uid u d known (ground arith) e in ground arith

Apart-append :
    (uid : Bytes) (d : Device) (saved known : Cameras)
    → has_camera uid saved ≡ false
    → Apart saved known
    → Apart saved (known ++ (uid, d) ∷ [])
Apart-append uid d [] known h a = tt
Apart-append uid d ((u, f) ∷ saved) known h (a, as_) = (
  has_camera-append u uid d known a (bytes_eq_sym uid u ∙ ground arith),
  Apart-append uid d saved known (ground arith) as_,
)

restore-all_at_rest :
    (saved known : Cameras)
    → AreKeys saved
    → Apart saved known
    → restore saved known ≡ known ++ all_at_rest saved
restore-all_at_rest [] known k a = sym (append-nil known)
restore-all_at_rest ((uid, d) ∷ saved) known (k, ks) (a, as_) = rw a (
    restore-all_at_rest saved (known ++ (uid, at_rest d) ∷ []) ks
      (Apart-append uid (at_rest d) saved known k as_)
    ∙ append_assoc known ((uid, at_rest d) ∷ []) (all_at_rest saved))

Apart-nil : (saved : Cameras) → Apart saved []
Apart-nil [] = tt
Apart-nil ((uid, d) ∷ saved) = (refl, Apart-nil saved)

-- A broker that starts again with the file that the last one could write knows the same cameras in the same order, with their
-- addresses, and none of them live, where JSON reads back what it has written.
pub load_cameras-save_cameras :
    (j : Json) (cameras : Cameras) (d : Disk)
    → j.parse (j.dump cameras) ≡ some cameras
    → AreKeys cameras
    → d.has_file ≡ true
    → d.writable ≡ true
    → load_cameras j (save_cameras j cameras d) [] ≡ all_at_rest cameras
unfolding load_cameras save_cameras
load_cameras-save_cameras j cameras d r k f w =
    let same = restore-all_at_rest cameras [] k (Apart-nil cameras) in ground arith
