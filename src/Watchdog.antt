-- ===== src/Watchdog.antt =====
-- `main` of ziot_watchdog.py with `go2rtc_stream_uid`, `go2rtc_has_video` and `go2rtc_stream_state`. The two services'
-- answers are inputs; what is printed leaves no trace. Texts are bytes, rates are thousandths of a frame
-- per second, and ages are milliseconds.
pub mod Streaks
pub mod Runs
mod Tests
use ziot_rtp_bridge.Base.{
  ℕ, ◌+◌, Bool, true, false, not, ◌&&◌, ◌||◌, Option, none, some, List, [], ◌∷◌, ◌++◌,
  if◌then◌else◌, ◌==◌, ltb, leb, Bytes, bytes_eq, length, drop, ascii, starts_with,
}

-- A row of the bridge's cameras that has a uid.
pub record CamRow : Type 0 where
  pub uid : Bytes
  pub streaming : Bool
  pub fps : ℕ
  pub last_rx : Option ℕ
  pub mode : Bytes

-- The answer of `/health`: whether its status is "error", the phase of the boot (empty if missing), and
-- the rows; `none` is one that is skipped.
pub record Bridge : Type 0 where
  pub failed : Bool
  pub phase : Bytes
  pub cameras : List (Option CamRow)

-- A producer: the texts of its values that are texts or numbers (of all of it, where it is no object), and
-- its `bytes_recv`, 0 if missing; `none` where it is no object.
pub record Producer : Type 0 where
  pub blobs : List Bytes
  pub bytes_recv : Option ℕ

pub record Stream : Type 0 where
  pub name : Bytes
  pub producers : List Producer

-- `none` is a go2rtc that cannot be reached; streams that are no objects are left out.
abbrev pub Go2Rtc : Type 0
Go2Rtc = Option (List Stream)

pub data Issue : Type 0 where
  bridge_down go2rtc_unreachable frigate_restarted : Issue
  not_serving : Bytes → Issue
  never_received offline low_fps via_relay : Bytes → Issue
  blip : Bytes → ℕ → Issue
  dead_stream : Bytes → Issue

abbrev pub min_fps : ℕ
min_fps = 1000

abbrev pub dead_grace_ticks : ℕ
dead_grace_ticks = 2

abbrev pub is_digit : ℕ → Bool
is_digit c = leb b'0' c && leb c b'9'

abbrev pub digits_of : Bytes → Bytes
digits_of [] = []
digits_of (c ∷ cs) = if is_digit c then c ∷ digits_of cs else []

-- Eight digits or more, or nothing.
abbrev pub long_digits : Bytes → Option Bytes
long_digits s = if ltb (length (digits_of s)) 8 then none else some (digits_of s)

-- A match of `_UID_IN_TEXT` at the front.
abbrev pub uid_here : Bytes → Option Bytes
uid_here s =
    if starts_with (ascii "/cam/") s
    then long_digits (drop 5 s)
    else if starts_with (ascii "/audio/") s
    then long_digits (drop 7 s)
    else none

-- `_UID_IN_TEXT.search(s)`
unfoldable pub uid_in_text : Bytes → Option Bytes
uid_in_text [] = none
uid_in_text (c ∷ cs) = elim (uid_here (c ∷ cs)) [ some uid ↦ some uid | none ↦ uid_in_text cs ]

-- `" ".join(blobs)`
abbrev pub join : List Bytes → Bytes
join [] = []
join (b ∷ []) = b
join (b ∷ c ∷ bs) = b ++ (b' ' ∷ join (c ∷ bs))

abbrev pub all_blobs : List Producer → List Bytes
all_blobs [] = []
all_blobs (p ∷ ps) = p.blobs ++ all_blobs ps

unfoldable pub go2rtc_stream_uid : Stream → Option Bytes
unfolding uid_in_text
go2rtc_stream_uid s =
    if leb 8 (length s.name) && bytes_eq (digits_of s.name) s.name
    then some s.name
    else uid_in_text (join (s.name ∷ all_blobs s.producers))

abbrev pub is_receiving : Option ℕ → Bool
is_receiving none = false
is_receiving (some n) = ltb 1000 n

unfoldable pub go2rtc_has_video : List Producer → Bool
go2rtc_has_video [] = false
go2rtc_has_video (p ∷ ps) = is_receiving p.bytes_recv || go2rtc_has_video ps

-- `cams_by_uid.get(uid)`: the last row of that uid.
unfoldable pub cam_of : Bytes → List (Option CamRow) → Option CamRow
cam_of uid [] = none
cam_of uid (none ∷ rows) = cam_of uid rows
cam_of uid (some row ∷ rows) = elim (cam_of uid rows) [
  | some later ↦ some later
  | none ↦ if bytes_eq row.uid uid then some row else none
]

pub data StreamState : Type 0 where
  ok idle dead : StreamState

abbrev pub is_dark : Option CamRow → Bool
is_dark none = false
is_dark (some row) = not row.streaming

unfoldable pub go2rtc_stream_state : Stream → List (Option CamRow) → StreamState
unfolding go2rtc_has_video go2rtc_stream_uid cam_of
go2rtc_stream_state s rows =
    let dark = elim (go2rtc_stream_uid s) as (λ _. Bool) [
      | none ↦ false
      | some uid ↦ is_dark (cam_of uid rows)
    ] in
    if go2rtc_has_video s.producers then ok else if dark then idle else dead

-- What a row is reported for.
abbrev pub media_issues : CamRow → List Issue
media_issues c =
    if not c.streaming
    then elim c.last_rx [
      | none ↦ never_received c.uid ∷ []
      | some age ↦ if ltb 30000 age then offline c.uid ∷ [] else []
    ]
    else if ltb c.fps min_fps
    then low_fps c.uid ∷ []
    else []

unfoldable pub camera_issues : List (Option CamRow) → List Issue
camera_issues [] = []
camera_issues (none ∷ rows) = camera_issues rows
camera_issues (some c ∷ rows) =
    media_issues c
    ++ ((if bytes_eq c.mode (ascii "relay") then via_relay c.uid ∷ [] else [])
        ++ camera_issues rows)

unfoldable pub bridge_issues : Bridge → List Issue
unfolding camera_issues
bridge_issues b =
    if b.failed
    then bridge_down ∷ []
    else (if bytes_eq b.phase [] || bytes_eq b.phase (ascii "ready")
        then []
        else not_serving b.phase ∷ [])
      ++ camera_issues b.cameras

-- `_DEAD_STREAK`, whose items are only read with the default 0.
abbrev pub Streaks : Type 0
Streaks = Bytes → ℕ

abbrev pub set_streak : Bytes → ℕ → Streaks → Streaks
set_streak name n streaks = λ other. if bytes_eq other name then n else streaks other

-- What the loop over the streams leaves.
pub record Watch : Type 0 where
  pub streaks : Streaks
  pub go2rtc_dead : Bool
  pub issues : List Issue

unfoldable pub watch_stream : List (Option CamRow) → Stream → Watch → Watch
unfolding go2rtc_stream_state
watch_stream rows s w =
    let streak = w.streaks s.name + 1 in
    elim (go2rtc_stream_state s rows) [
      | ok ↦ record w { streaks = set_streak s.name 0 w.streaks }
      | idle ↦ record w { streaks = set_streak s.name 0 w.streaks }
      | dead ↦
          if ltb streak dead_grace_ticks
          then record w {
            streaks = set_streak s.name streak w.streaks;
            issues = w.issues ++ blip s.name streak ∷ [];
          }
          else record w {
            streaks = set_streak s.name streak w.streaks;
            go2rtc_dead = true;
            issues = w.issues ++ dead_stream s.name ∷ [];
          }
    ]

unfoldable pub watch_streams : List (Option CamRow) → List Stream → Watch → Watch
unfolding watch_stream
watch_streams rows [] w = w
watch_streams rows (s ∷ ss) w = watch_streams rows ss (watch_stream rows s w)

-- How a run ends: the streaks, the issues, whether Frigate was restarted, and the exit code.
pub record Run : Type 0 where
  pub streaks : Streaks
  pub issues : List Issue
  pub restarts : Bool
  pub code : ℕ

abbrev pub is_empty : List Issue → Bool
is_empty [] = true
is_empty (_ ∷ _) = false

-- The summary, behind the checks.
unfoldable pub conclude : Bool → Bool → Bool → Watch → Run
conclude bridge_up go2rtc_down restarted w =
    if is_empty w.issues
    then record { streaks = w.streaks; issues = []; restarts = false; code = 0 }
    else if w.go2rtc_dead && (bridge_up && not go2rtc_down)
    then if restarted
      then record {
        streaks = w.streaks;
        issues = w.issues ++ frigate_restarted ∷ [];
        restarts = true;
        code = 1;
      }
      else record { streaks = w.streaks; issues = w.issues; restarts = true; code = 2 }
    else record { streaks = w.streaks; issues = w.issues; restarts = false; code = 1 }

-- The checks of the bridge, before those of go2rtc.
unfoldable pub checked_bridge : Bridge → Streaks → Watch
unfolding bridge_issues
checked_bridge b streaks = record {
  streaks = streaks;
  go2rtc_dead = false;
  issues = bridge_issues b;
}

abbrev pub add_issue : Issue → Watch → Watch
add_issue i w = record w { issues = w.issues ++ i ∷ [] }

-- `main`; the last argument is whether a restart succeeds.
unfoldable pub main : Bridge → Go2Rtc → Streaks → Bool → Run
unfolding checked_bridge watch_streams conclude
main b go2rtc streaks restarted = elim go2rtc [
  | none ↦
      conclude (not b.failed) true restarted
        (add_issue go2rtc_unreachable (checked_bridge b streaks))
  | some streams ↦
      conclude (not b.failed) false restarted
        (watch_streams b.cameras streams (checked_bridge b streaks))
]
