-- ===== src/Camera/State.antt =====
-- The fields of `ZiotCamera` that its transport depends on, the properties that are computed from them,
-- and what one call of a method meets outside.
use ziot_rtp_bridge.Base.{
  ℕ, ◌-◌, Bool, true, false, not, ◌&&◌, Option, none, some, List, [], ◌∷◌, if◌then◌else◌, ltb,
  Bytes,
}
use ziot_rtp_bridge.Base.Int.{ℤ}
use ziot_rtp_bridge.Cloud.Row.{Row, cloud_is_on}

-- An address and a port.
abbrev pub Addr : Type 0
Addr = Bytes × ℕ

pub data Kind : Type 0 where
  private_kind public_kind static_kind static_lan : Kind

-- Times are milliseconds of the monotonic clock; a time 0 is one that never was. A socket is a number
-- that names it, a relay stream is its URL, and `last_resolve` is `none` for minus infinity.
pub record Camera : Type 0 where
  pub has_api : Bool
  pub force_relay : Bool
  pub bind_ip : Bytes
  pub static_addr : Option Addr
  pub cloud : Row
  pub sock : Option ℕ
  pub addr : Option Addr
  pub relay : Option Bytes
  pub last_rx : ℕ
  pub wake_now : Bool
  pub backoff : ℕ
  pub last_re_rendezvous : ℕ
  pub re_rendezvous_count : ℕ
  pub consec_failures : ℕ
  pub relay_last_direct_try : ℕ
  pub last_resolve : Option ℕ
  pub endpoint_moves : ℕ
  pub endpoint_kind : Option Kind
  pub stun_seq : Option ℤ
  pub media_source : Option Addr

-- `get_stun_addr`: the fields after `int()`, `none` where they are missing or no number.
pub record StunAnswer : Type 0 where
  pub seq_no : Option ℤ
  pub priv_ip : Option Bytes
  pub priv_port : Option ℕ
  pub pub_ip : Option Bytes
  pub pub_port : Option ℕ

-- How opening a relay stream ends.
pub data Opened : Type 0 where
  plays refused forbidden failed : Opened

-- What other threads do to the camera while a call blocks: a packet arrives, or the device list shows
-- the camera online again.
pub data Meanwhile : Type 0 where
  rx : ℕ → Meanwhile
  online : Row → Meanwhile

-- The outside of one call: the clock before and after it blocks, the C library's `inet_aton`, the
-- socket that can be bound, whether the registered socket is open, the cloud's answers (`none` is an exception), the relay, and the threads.
pub record World : Type 0 where
  pub now : ℕ
  pub later : ℕ
  pub inet_aton : Bytes → Option ℕ
  pub new_sock : Option ℕ
  pub sock_open : Bool
  pub stun : List (Option StunAnswer)
  pub opens : Bytes → Opened
  pub meanwhile : List Meanwhile

abbrev pub is_some {ℓ} : {A : Type ℓ} → Option A → Bool
is_some none = false
is_some (some _) = true

abbrev pub recovery_initial_backoff : ℕ
recovery_initial_backoff = 5000

abbrev pub recovery_max_backoff : ℕ
recovery_max_backoff = 60000

abbrev pub recovery_dead_threshold : ℕ
recovery_dead_threshold = 10000

abbrev pub relay_after_failures : ℕ
relay_after_failures = 3

abbrev pub relay_retry_direct : ℕ
relay_retry_direct = 120000

abbrev pub resolve_min_interval : ℕ
resolve_min_interval = 5000

abbrev pub is_relayed : Camera → Bool
is_relayed c = is_some c.relay

-- `is_streaming` at a time.
abbrev pub is_streaming : ℕ → Camera → Bool
is_streaming now c = ltb (now - c.last_rx) 3000

pub data Mode : Type 0 where
  relay_mode direct_mode down_mode : Mode

-- `mode`
unfoldable pub mode : Camera → Mode
mode c =
    if is_relayed c
    then relay_mode
    else if is_some c.sock && is_some c.addr
    then direct_mode
    else down_mode

-- `update_cloud`, at a time.
unfoldable pub update_cloud : ℕ → Row → Camera → Camera
update_cloud now row c =
    if not (cloud_is_on c.cloud) && cloud_is_on row && not (is_streaming now c)
    then record c { cloud = row; wake_now = true; backoff = 0; last_re_rendezvous = 0 }
    else record c { cloud = row }

unfoldable pub meanwhile_all : ℕ → List Meanwhile → Camera → Camera
unfolding update_cloud
meanwhile_all now [] c = c
meanwhile_all now (rx t ∷ es) c = meanwhile_all now es (record c { last_rx = t })
meanwhile_all now (online row ∷ es) c = meanwhile_all now es (update_cloud now row c)
