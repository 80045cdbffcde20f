-- ===== src/Boot/Roster.antt =====
-- `bring_up` of ziot_rtp_bridge.py. The threads of `boot_one` run in the order of `ended`, one after another: each
-- touches only its own camera, and the shared tables under a lock.
pub mod Registers
use ziot_rtp_bridge.Base.{
  ℕ, Bool, true, false, not, ◌&&◌, ◌||◌, Option, none, some, List, [], ◌∷◌, ◌++◌, if◌then◌else◌,
  Bytes, bytes_eq, ascii, ◌>>=◌,
}
use ziot_rtp_bridge.Camera.Attempt.{open_transport}
use ziot_rtp_bridge.Camera.State.{Addr, Camera, World}
use ziot_rtp_bridge.Camera.Stun.{same_subnet, subnet_mask}
use ziot_rtp_bridge.Cloud.Row.{Row, cloud_is_on}
use ziot_rtp_bridge.Poller.{BootState, ready, no_cameras, register}

-- The configuration and the options, as far as `bring_up` reads them; `bind_arg` is empty if `--bind-ip` is not given.
pub record Config : Type 0 where
  pub allowed : List Bytes
  pub only_online : Bool
  pub offline : Bool
  pub static : List (Bytes × Addr)
  pub bind_arg : Bytes

-- The outside: the broker's answer about a camera's private address (`none` is an exception), the address of this host towards
-- another (`none` is an `OSError`), the construction of a camera (`none` is an exception), what its first attempt
-- meets, and the order in which the threads end.
pub record Host : Type 0 where
  pub ask_private_ip : Bytes → Option Bytes
  pub local_ip_for : Bytes → Option Bytes
  pub inet_aton : Bytes → Option ℕ
  pub has_local_address : Bytes → Bool
  pub build : Bytes → Row → Option Addr → Option Camera
  pub world : Bytes → World
  pub ended : List Row → List Row

-- `live`, `cold`, the cameras of `CloudState` and whether there is one and it runs, and the boot state.
pub record Bridge : Type 0 where
  pub live : List (Bytes × Camera)
  pub cold : List Bytes
  pub has_cloud : Bool
  pub polled : List (Bytes × Camera)
  pub cloud_runs : Bool
  pub boot : BootState

abbrev pub contains : Bytes → List Bytes → Bool
contains uid [] = false
contains uid (u ∷ us) = bytes_eq u uid || contains uid us

abbrev pub is_wanted : List Bytes → Row → Bool
is_wanted [] row = true
is_wanted (u ∷ us) row = contains row.uid (u ∷ us)

abbrev pub keep : (Row → Bool) → List Row → List Row
keep p [] = []
keep p (r ∷ rs) = if p r then r ∷ keep p rs else keep p rs

-- The cameras of the device list that are ours.
unfoldable pub choose : Config → List Row → List Row
choose cfg cams =
    let listed = keep (is_wanted cfg.allowed) cams in
    if cfg.only_online && not cfg.offline then keep cloud_is_on listed else listed

-- `static.get(uid)`
abbrev pub static_of : Bytes → List (Bytes × Addr) → Option Addr
static_of uid [] = none
static_of uid ((u, a) ∷ rest) = if bytes_eq u uid then some a else static_of uid rest

-- The camera's address on its LAN, empty if it is not known.
abbrev pub probe : Config → Host → Row → Bytes
probe cfg w first =
    if cfg.offline
    then elim cfg.static [ [] ↦ [] | s ∷ ss ↦ s.1.0 ]
    else elim (w.ask_private_ip first.uid) [ none ↦ [] | some ip ↦ ip ]

abbrev pub stable_bind_ip : Bytes
stable_bind_ip = ascii "192.168.68.114"

abbrev pub is_empty : Bytes → Bool
is_empty [] = true
is_empty (c ∷ cs) = false

-- The address to bind; `none` is an exception that leaves `bring_up`.
unfoldable pub choose_bind : Config → Host → Bytes → Option Bytes
unfolding same_subnet
choose_bind cfg w lan =
    let found =
      if not (is_empty cfg.bind_arg)
      then some cfg.bind_arg
      else if not (is_empty lan)
      then w.local_ip_for lan
      else w.local_ip_for (ascii "8.8.8.8") in
    let takes_stable =
      is_empty cfg.bind_arg
      && (not (is_empty lan)
          && (same_subnet w.inet_aton stable_bind_ip lan subnet_mask
              && w.has_local_address stable_bind_ip)) in
    found >>= λ ip. some (if takes_stable then stable_bind_ip else ip)

-- A built camera makes its first attempt and is registered, whatever comes of that.
abbrev pub admit : Host → Row → Camera → Bridge → Bridge
admit w row c b =
    let (c', started) = open_transport (w.world row.uid) c in
    record b {
      live = register row.uid c' b.live;
      cold = if started then b.cold else b.cold ++ row.uid ∷ [];
      polled = if b.has_cloud then register row.uid c' b.polled else b.polled;
    }

-- `boot_one`
unfoldable pub boot_one : Config → Host → Bytes → Row → Bridge → Bridge
boot_one cfg w bind_ip row b = elim (w.build bind_ip row (static_of row.uid cfg.static)) [
  | none ↦ record b { cold = b.cold ++ row.uid ∷ [] }
  | some c ↦ admit w row c b
]

unfoldable pub boot_all : Config → Host → Bytes → List Row → Bridge → Bridge
unfolding boot_one
boot_all cfg w bind_ip [] b = b
boot_all cfg w bind_ip (row ∷ rows) b = boot_all cfg w bind_ip rows (boot_one cfg w bind_ip row b)

-- `True`, `False`, or an exception.
pub data Brought : Type 0 where
  up nothing_for_us escaped : Brought

abbrev pub bring_on : Config → Host → Option Bytes → List Row → Bridge → Bridge × Brought
bring_on cfg w none cams b = (b, escaped)
bring_on cfg w (some bind_ip) cams b =
    let b' = boot_all cfg w bind_ip (w.ended cams) b in
    (
      record b' {
        cloud_runs = b'.has_cloud || b'.cloud_runs;
        boot = record { phase = ready; has_detail = false; attempts = 0 };
      },
      up,
    )

abbrev pub bring_chosen : Config → Host → List Row → Bridge → Bridge × Brought
bring_chosen cfg w [] b = (
  record b { boot = record { phase = no_cameras; has_detail = true; attempts = 0 } },
  nothing_for_us,
)
bring_chosen cfg w (c ∷ cs) b = bring_on cfg w (choose_bind cfg w (probe cfg w c)) (c ∷ cs) b

-- `cold` is a new list of each call.
unfoldable pub bring_up : Config → Host → List Row → Bridge → Bridge × Brought
unfolding choose choose_bind boot_all
bring_up cfg w cams b = bring_chosen cfg w (choose cfg cams) (record b { cold = [] })
