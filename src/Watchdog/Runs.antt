-- ===== src/Watchdog/Runs.antt =====
-- The runs of one process, in which the streaks live.
use ziot_rtp_bridge.Base.{
  ℕ, ◌≡◌, refl, sym, ap, ◌∙◌, Bool, true, false, not, ◌&&◌, ◌||◌, Option, none, some, List, [], ◌∷◌,
  if◌then◌else◌, leb, arith, inl, inr, Bytes, bytes_eq, bytes_eq_sound, Bool-cases,
}
use ziot_rtp_bridge.Watchdog.{
  CamRow, Bridge, Stream, Go2Rtc, StreamState, ok, idle, dead, go2rtc_stream_state, Streaks, Watch,
  watch_stream, watch_streams, conclude, checked_bridge, main, add_issue, go2rtc_unreachable,
}
use ziot_rtp_bridge.Watchdog.Streaks.{
  is_dead, any_dead, IsOther, AreNamed, AreKeys, next_streak, watch_stream_streak, main_restarts,
}

-- A run: what the bridge and go2rtc answer, and whether a restart succeeds.
abbrev pub Tick : Type 0
Tick = Bridge × (Go2Rtc × Bool)

-- The streaks behind some runs, the latest first, of a process that begins without streaks.
abbrev pub streaks_after : List Tick → Streaks
streaks_after [] = λ _. 0
streaks_after ((b, (g, restarted)) ∷ older) = (main b g (streaks_after older) restarted).streaks

-- The state of a stream in an answer of go2rtc, if it is listed there.
abbrev pub seen_in : List (Option CamRow) → Bytes → List Stream → Option StreamState
seen_in rows name [] = none
seen_in rows name (s ∷ ss) =
    if bytes_eq name s.name then some (go2rtc_stream_state s rows) else seen_in rows name ss

abbrev pub dead_or : Bool → Option StreamState → Bool
dead_or older none = older
dead_or older (some state) = is_dead state

-- A stream was dead the last time that go2rtc listed it.
abbrev pub was_dead : Bytes → List Tick → Bool
was_dead name [] = false
was_dead name ((b, (none, restarted)) ∷ older) = was_dead name older
was_dead name ((b, (some ss, restarted)) ∷ older) =
    dead_or (was_dead name older) (seen_in b.cameras name ss)

abbrev pub any_dead_again : List (Option CamRow) → List Tick → List Stream → Bool
any_dead_again rows older [] = false
any_dead_again rows older (s ∷ ss) =
    (is_dead (go2rtc_stream_state s rows) && was_dead s.name older) || any_dead_again rows older ss

abbrev pub is_dead_again : Bridge → Go2Rtc → List Tick → Bool
is_dead_again b none older = false
is_dead_again b (some ss) older = any_dead_again b.cameras older ss && not b.failed

abbrev pub AreRuns : List Tick → Type 0
AreRuns [] = Unit
AreRuns ((b, (g, restarted)) ∷ older) = AreKeys g × AreRuns older

abbrev streak_or : ℕ → Option StreamState → ℕ
streak_or n none = n
streak_or n (some state) = next_streak state n

not_seen :
    (rows : List (Option CamRow)) (name : Bytes) (ss : List Stream)
    → IsOther name ss
    → seen_in rows name ss ≡ none
not_seen rows name [] o = refl
not_seen rows name (s ∷ ss) (differ, o) = elim (Bool-cases (bytes_eq name s.name)) [
  | inl same ↦ absurd (differ (sym (bytes_eq_sound name s.name same)))
  | inr other ↦ rw other (not_seen rows name ss o)
]

watch_streams_streak :
    (rows : List (Option CamRow)) (ss : List Stream) (name : Bytes) (w : Watch)
    → AreNamed ss
    → (watch_streams rows ss w).streaks name ≡ streak_or (w.streaks name) (seen_in rows name ss)
unfolding watch_streams
watch_streams_streak rows [] name w named = refl
watch_streams_streak rows (s ∷ ss) name w (others, named) =
    let w' = watch_stream rows s w in
    let n = next_streak (go2rtc_stream_state s rows) (w.streaks s.name) in
    let later = watch_streams_streak rows ss name w' named in
    let moved = ap (λ (t : Streaks). t name) (watch_stream_streak rows s w).1 in
    elim (Bool-cases (bytes_eq name s.name)) [
      | inl same ↦
          let e = bytes_eq_sound name s.name same in
          let gone : seen_in rows name ss ≡ none = rw e (not_seen rows s.name ss others) in
          rw same (
            later
            ∙ ap (streak_or (w'.streaks name)) gone
            ∙ moved
            ∙ rw same (ap (λ x. next_streak (go2rtc_stream_state s rows) (w.streaks x)) (sym e)))
      | inr other ↦
          rw other (later ∙ ap (λ m. streak_or m (seen_in rows name ss)) moved ∙ rw other refl)
    ]

conclude_streaks :
    (up down restarted : Bool) (w : Watch) → (conclude up down restarted w).streaks ≡ w.streaks
unfolding conclude
conclude_streaks up down restarted w = ground arith

streak_seen : (n : ℕ) (o : Option StreamState) → leb 1 (streak_or n o) ≡ dead_or (leb 1 n) o
streak_seen n none = refl
streak_seen n (some ok) = refl
streak_seen n (some idle) = refl
streak_seen n (some dead) = ground arith

-- A stream has a streak exactly if it was dead the last time that it was listed.
has_streak :
    (older : List Tick) (name : Bytes)
    → AreRuns older
    → leb 1 (streaks_after older name) ≡ was_dead name older
unfolding main checked_bridge
has_streak [] name h = refl
has_streak ((b, (none, restarted)) ∷ older) name (g, h) =
    let w = add_issue go2rtc_unreachable (checked_bridge b (streaks_after older)) in
    ap (λ (t : Streaks). leb 1 (t name)) (conclude_streaks (not b.failed) true restarted w)
    ∙ has_streak older name h
has_streak ((b, (some ss, restarted)) ∷ older) name (g, h) =
    let w = checked_bridge b (streaks_after older) in
    ap (λ (t : Streaks). leb 1 (t name))
      (conclude_streaks (not b.failed) false restarted (watch_streams b.cameras ss w))
    ∙ ap (leb 1) (watch_streams_streak b.cameras ss name w g)
    ∙ streak_seen (streaks_after older name) (seen_in b.cameras name ss)
    ∙ ap (λ x. dead_or x (seen_in b.cameras name ss)) (has_streak older name h)

any_dead-again :
    (rows : List (Option CamRow)) (older : List Tick) (ss : List Stream)
    → AreRuns older
    → any_dead rows (streaks_after older) ss ≡ any_dead_again rows older ss
any_dead-again rows older [] h = refl
any_dead-again rows older (s ∷ ss) h =
    rw (has_streak older s.name h, any_dead-again rows older ss h) refl

-- In a process that began without streaks, and whatever its runs have met, a run restarts Frigate exactly if go2rtc
-- and the bridge are up and some stream is dead that was dead too in the last run in which go2rtc listed it, when
-- in no answer two streams have the same name.
pub main_restarts_again :
    (older : List Tick) (b : Bridge) (g : Go2Rtc) (restarted : Bool)
    → AreRuns older
    → AreKeys g
    → (main b g (streaks_after older) restarted).restarts ≡ is_dead_again b g older
main_restarts_again older b none restarted h keys =
    main_restarts b none (streaks_after older) restarted keys
main_restarts_again older b (some ss) restarted h keys =
    main_restarts b (some ss) (streaks_after older) restarted keys
    ∙ ap (λ d. d && not b.failed) (any_dead-again b.cameras older ss h)
