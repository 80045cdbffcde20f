-- ===== src/Watchdog/Streaks.antt =====
-- When a run restarts Frigate, and how it ends.
use ziot_rtp_bridge.Base.{
  ℕ, ◌+◌, ◌≡◌, ◌≢◌, ◌⊎◌, inl, inr, refl, ap, ◌∙◌, Bool, true, false, not, ◌&&◌, ◌||◌, Option, none,
  some, List, [], ◌∷◌, ◌++◌, if◌then◌else◌, leb, ltb, arith, Bytes, bytes_eq, bytes_eq_sound,
  Bool-cases,
}
use ziot_rtp_bridge.Watchdog.{
  CamRow, Bridge, Stream, Go2Rtc, StreamState, ok, idle, dead, go2rtc_stream_state, Streaks,
  set_streak, Watch, watch_stream, watch_streams, Run, conclude, Issue, blip, dead_stream,
  go2rtc_unreachable, frigate_restarted, add_issue, checked_bridge, main, is_empty,
}

abbrev pub is_dead : StreamState → Bool
is_dead dead = true
is_dead _ = false

-- Some stream is dead now and has a streak.
abbrev pub any_dead : List (Option CamRow) → Streaks → List Stream → Bool
any_dead rows streaks [] = false
any_dead rows streaks (s ∷ ss) =
    (is_dead (go2rtc_stream_state s rows) && leb 1 (streaks s.name)) || any_dead rows streaks ss

-- The names are the keys of an object.
abbrev pub IsOther : Bytes → List Stream → Type 0
IsOther name [] = Unit
IsOther name (s ∷ ss) = (s.name ≢ name) × IsOther name ss

abbrev pub AreNamed : List Stream → Type 0
AreNamed [] = Unit
AreNamed (s ∷ ss) = IsOther s.name ss × AreNamed ss

pub set_streak_other :
    (name other : Bytes) (n : ℕ) (streaks : Streaks)
    → other ≢ name
    → set_streak name n streaks other ≡ streaks other
set_streak_other name other n streaks differ = elim (Bool-cases (bytes_eq other name)) [
  | inl same ↦ absurd (differ (bytes_eq_sound other name same))
  | inr not_same ↦ rw not_same refl
]

any_dead-set_streak :
    (rows : List (Option CamRow)) (name : Bytes) (n : ℕ) (streaks : Streaks) (ss : List Stream)
    → IsOther name ss
    → any_dead rows (set_streak name n streaks) ss ≡ any_dead rows streaks ss
any_dead-set_streak rows name n streaks [] o = refl
any_dead-set_streak rows name n streaks (s ∷ ss) o =
    let here = set_streak_other name s.name n streaks o.0 in
    let rest = any_dead-set_streak rows name n streaks ss o.1 in rw here (rw rest refl)

-- The streak of a stream after a run.
abbrev pub next_streak : StreamState → ℕ → ℕ
next_streak dead n = n + 1
next_streak _ n = 0

StreamState-cases : (s : StreamState) → (s ≡ ok) ⊎ (s ≡ idle) ⊎ (s ≡ dead)
StreamState-cases ok = inl refl
StreamState-cases idle = inr (inl refl)
StreamState-cases dead = inr (inr refl)

-- One stream: the run counts it as dead if it is dead and has a streak; only its own streak changes.
pub watch_stream_streak :
    (rows : List (Option CamRow)) (s : Stream) (w : Watch)
    → ((watch_stream rows s w).go2rtc_dead
        ≡ (w.go2rtc_dead || (is_dead (go2rtc_stream_state s rows) && leb 1 (w.streaks s.name))))
      × ((watch_stream rows s w).streaks
          ≡ set_streak s.name
              (next_streak (go2rtc_stream_state s rows) (w.streaks s.name))
              w.streaks)
unfolding watch_stream
watch_stream_streak rows s w = elim (StreamState-cases (go2rtc_stream_state s rows)) [
  | inl e ↦ rw (watch_stream, e) (ground arith, refl)
  | inr (inl e) ↦ rw (watch_stream, e) (ground arith, refl)
  | inr (inr e) ↦ elim (Bool-cases (ltb (w.streaks s.name + 1) 2)) [
    | inl blips ↦ rw (watch_stream, e) (rw blips (ground arith, refl))
    | inr counts ↦ rw (watch_stream, e) (rw counts (ground arith, refl))
  ]
]

watch_streams_dead :
    (rows : List (Option CamRow)) (ss : List Stream) (w : Watch)
    → AreNamed ss
    → (watch_streams rows ss w).go2rtc_dead ≡ (w.go2rtc_dead || any_dead rows w.streaks ss)
unfolding watch_streams
watch_streams_dead rows [] w named = ground arith
watch_streams_dead rows (s ∷ ss) w named =
    let w' = watch_stream rows s w in
    let (here, streaks) = watch_stream_streak rows s w in
    let rest = watch_streams_dead rows ss w' named.1 in
    let n = next_streak (go2rtc_stream_state s rows) (w.streaks s.name) in
    let kept = any_dead-set_streak rows s.name n w.streaks ss named.0 in
    let moved : any_dead rows w'.streaks ss ≡ any_dead rows w.streaks ss =
      ap (λ (t : Streaks). any_dead rows t ss) streaks ∙ kept in
    ground arith

conclude_restarts :
    (bridge_up down restarted : Bool) (w : Watch)
    → (w.go2rtc_dead ≡ true → is_empty w.issues ≡ false)
    → ((conclude bridge_up down restarted w).restarts ≡ (w.go2rtc_dead && (bridge_up && not down)))
unfolding conclude
conclude_restarts bridge_up down restarted w noted = ground arith

append_one : (xs : List Issue) (x : Issue) → is_empty (xs ++ x ∷ []) ≡ false
append_one [] x = refl
append_one (y ∷ xs) x = refl

-- A dead stream is an issue.
watch_stream_noted :
    (rows : List (Option CamRow)) (s : Stream) (w : Watch)
    → (w.go2rtc_dead ≡ true → is_empty w.issues ≡ false)
    → (watch_stream rows s w).go2rtc_dead ≡ true
    → is_empty (watch_stream rows s w).issues ≡ false
unfolding watch_stream
watch_stream_noted rows s w h = elim (StreamState-cases (go2rtc_stream_state s rows)) [
  | inl e ↦ rw (watch_stream, e) h
  | inr (inl e) ↦ rw (watch_stream, e) h
  | inr (inr e) ↦ elim (Bool-cases (ltb (w.streaks s.name + 1) 2)) [
    | inl blips ↦
        rw (watch_stream, e)
          (rw blips (λ _. append_one w.issues (blip s.name (w.streaks s.name + 1))))
    | inr counts ↦ rw (watch_stream, e) (rw counts (λ _. append_one w.issues (dead_stream s.name)))
  ]
]

watch_streams_noted :
    (rows : List (Option CamRow)) (ss : List Stream) (w : Watch)
    → (w.go2rtc_dead ≡ true → is_empty w.issues ≡ false)
    → (watch_streams rows ss w).go2rtc_dead ≡ true
    → is_empty (watch_streams rows ss w).issues ≡ false
unfolding watch_streams
watch_streams_noted rows [] w h = h
watch_streams_noted rows (s ∷ ss) w h =
    watch_streams_noted rows ss (watch_stream rows s w) (watch_stream_noted rows s w h)

abbrev pub AreKeys : Go2Rtc → Type 0
AreKeys none = Unit
AreKeys (some ss) = AreNamed ss

-- A reason to restart: go2rtc answers, the bridge is up, and some stream is dead for the second run.
abbrev pub is_needed : Bridge → Go2Rtc → Streaks → Bool
is_needed b none streaks = false
is_needed b (some ss) streaks = any_dead b.cameras streaks ss && not b.failed

-- A run restarts Frigate exactly if go2rtc and the bridge are up and some stream is dead that has a streak.
pub main_restarts :
    (b : Bridge) (g : Go2Rtc) (streaks : Streaks) (restarted : Bool)
    → AreKeys g
    → (main b g streaks restarted).restarts ≡ is_needed b g streaks
unfolding main checked_bridge
main_restarts b none streaks restarted named =
    let w = add_issue go2rtc_unreachable (checked_bridge b streaks) in
    let ends = conclude_restarts (not b.failed) true restarted w (λ x. cc) in ground arith
main_restarts b (some ss) streaks restarted named =
    let w = checked_bridge b streaks in
    let is_dead' = watch_streams_dead b.cameras ss w named in
    let noted = watch_streams_noted b.cameras ss w (λ x. cc) in
    let ends =
      conclude_restarts (not b.failed) false restarted (watch_streams b.cameras ss w) noted in
    ground arith

any_dead_fresh :
    (rows : List (Option CamRow)) (ss : List Stream) → any_dead rows (λ _. 0) ss ≡ false
any_dead_fresh rows [] = refl
any_dead_fresh rows (s ∷ ss) = let rest = any_dead_fresh rows ss in ground arith

-- A run in a new process, which starts without streaks, never restarts Frigate.
pub main_fresh :
    (b : Bridge) (g : Go2Rtc) (restarted : Bool)
    → AreKeys g
    → (main b g (λ _. 0) restarted).restarts ≡ false
main_fresh b none restarted named = main_restarts b none (λ _. 0) restarted named
main_fresh b (some ss) restarted named =
    let none_dead = any_dead_fresh b.cameras ss in
    main_restarts b (some ss) (λ _. 0) restarted named ∙ rw none_dead refl

-- The exit code says how a run ended: 0 without issues, 2 if a restart has failed, and else 1.
abbrev pub code_of : Run → Bool → ℕ
code_of r restarted = if is_empty r.issues then 0 else if r.restarts && not restarted then 2 else 1

conclude_code :
    (bridge_up down restarted : Bool) (w : Watch)
    → (conclude bridge_up down restarted w).code
      ≡ code_of (conclude bridge_up down restarted w) restarted
unfolding conclude
conclude_code bridge_up down restarted w =
    let noted = append_one w.issues frigate_restarted in ground arith

-- The exit code is 0 exactly for a run without issues, and 2 exactly for one whose restart has failed.
pub main_code :
    (b : Bridge) (g : Go2Rtc) (streaks : Streaks) (restarted : Bool)
    → (main b g streaks restarted).code ≡ code_of (main b g streaks restarted) restarted
unfolding main
main_code b none streaks restarted =
    conclude_code (not b.failed) true restarted
      (add_issue go2rtc_unreachable (checked_bridge b streaks))
main_code b (some ss) streaks restarted =
    conclude_code (not b.failed) false restarted
      (watch_streams b.cameras ss (checked_bridge b streaks))
