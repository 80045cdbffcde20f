-- ===== src/Poller.antt =====
-- `is_auth_failure`, `BootState` and `CloudState` of ziot_rtp_bridge.py. The cloud's answer to a poll is
-- its rows or the exception that the call raised; the log lines leave no trace.
pub mod Account
mod Tests
use ziot_rtp_bridge.Base.{
  ℕ, ◌+◌, Bool, true, false, not, ◌&&◌, ◌||◌, Option, none, some, List, [], ◌∷◌, if◌then◌else◌,
  ◌==◌, Bytes, bytes_eq, ascii,
}
use ziot_rtp_bridge.Base.Int.{ℤ, pos, negsuc}
use ziot_rtp_bridge.Camera.State.{Camera, update_cloud, is_streaming}
use ziot_rtp_bridge.Cloud.Row.{Row, cloud_is_on}

-- What `list_cameras` raises.
pub data Failure : Type 0 where
  cloud_error : ℤ → Failure
  http_error : ℕ → Failure
  other_error : Failure

unfoldable pub is_auth_failure : Failure → Bool
is_auth_failure (cloud_error (pos code)) = code == 401 || code == 403
is_auth_failure (cloud_error (negsuc _)) = false
is_auth_failure (http_error code) = code == 401 || code == 403
is_auth_failure other_error = false

pub data Phase : Type 0 where
  starting retrying ready failed_phase no_cameras : Phase

pub record BootState : Type 0 where
  pub phase : Phase
  pub has_detail : Bool
  pub attempts : ℕ

-- `CloudState`: `_cams`, `_fails`, `_auth_failed` and `boot`.
pub record CloudState : Type 0 where
  pub cams : List (Bytes × Camera)
  pub fails : ℕ
  pub auth_failed : Bool
  pub boot : Option BootState

pub data Answer : Type 0 where
  rows_of : List Row → Answer
  raises : Failure → Answer

-- `register`: a camera of the same uid is replaced where it stands.
unfoldable pub register : Bytes → Camera → List (Bytes × Camera) → List (Bytes × Camera)
register uid c [] = (uid, c) ∷ []
register uid c (e ∷ es) = if bytes_eq e.0 uid then (uid, c) ∷ es else e ∷ register uid c es

-- `by_uid.get(uid)`: the last row of that uid.
unfoldable pub row_of : Bytes → List Row → Option Row
row_of uid [] = none
row_of uid (r ∷ rs) = elim (row_of uid rs) [
  | some later ↦ some later
  | none ↦ if bytes_eq r.uid uid then some r else none
]

unfoldable pub hand_out : ℕ → List Row → List (Bytes × Camera) → List (Bytes × Camera)
unfolding row_of
hand_out now rows [] = []
hand_out now rows ((uid, c) ∷ es) =
    (uid, elim (row_of uid rows) [ some row ↦ update_cloud now row c | none ↦ c ])
    ∷ hand_out now rows es

-- `boot.set`, where there is a boot state.
abbrev pub set_boot : Phase → Bool → Option BootState → Option BootState
set_boot phase detail none = none
set_boot phase detail (some _) = some (record { phase = phase; has_detail = detail; attempts = 0 })

-- The poll failed.
abbrev pub count_failure : Failure → CloudState → CloudState
count_failure e s =
    if is_auth_failure e && not s.auth_failed
    then record s {
      fails = s.fails + 1;
      auth_failed = true;
      boot = set_boot failed_phase true s.boot;
    }
    else record s { fails = s.fails + 1 }

-- The poll succeeded.
abbrev pub count_success : CloudState → CloudState
count_success s =
    if s.auth_failed
    then record s { fails = 0; auth_failed = false; boot = set_boot ready false s.boot }
    else record s { fails = 0 }

-- `poll`, at a time.
unfoldable pub poll : ℕ → Answer → CloudState → CloudState
unfolding hand_out
poll now (raises e) s = count_failure e s
poll now (rows_of rows) s = count_success (record s { cams = hand_out now rows s.cams })

-- Some camera is offline and plays nothing.
abbrev pub any_asleep : ℕ → List (Bytes × Camera) → Bool
any_asleep now [] = false
any_asleep now ((uid, c) ∷ es) =
    (not (cloud_is_on c.cloud) && not (is_streaming now c)) || any_asleep now es

-- `STATUS_INTERVAL` and `STATUS_OFFLINE_INTERVAL`, in milliseconds.
abbrev pub wait_of : ℕ → List (Bytes × Camera) → ℕ
wait_of now cams = if any_asleep now cams then 5000 else 30000

-- A poll, with its answer, what other threads make of the cameras behind it, and the time of the wait.
pub record Tick : Type 0 where
  pub now : ℕ
  pub answer : Answer
  pub others : List (Bytes × Camera) → List (Bytes × Camera)
  pub after : ℕ

abbrev pub meanwhile : Tick → CloudState → CloudState
meanwhile t s = record s { cams = t.others s.cams }

-- `_run`, until the poller is stopped in a wait: the state, and the waits.
unfoldable pub run : List Tick → CloudState → CloudState × List ℕ
unfolding poll cloud_is_on
run [] s = (s, [])
run (t ∷ ts) s =
    let s' = meanwhile t (poll t.now t.answer s) in
    let rest = run ts s' in (rest.0, wait_of t.after s'.cams ∷ rest.1)
