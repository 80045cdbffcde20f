-- ===== src/Poller/Account.antt =====
-- What the poller says about the cloud.
use ziot_rtp_bridge.Base.{
  ℕ, ◌+◌, ◌≡◌, refl, ap, ◌∙◌, Bool, true, false, ◌||◌, ◌&&◌, not, Option, some, if◌then◌else◌, List,
  [], ◌∷◌, arith,
}
use ziot_rtp_bridge.Cloud.Row.{Row}
use ziot_rtp_bridge.Poller.{
  Failure, is_auth_failure, failed_phase, ready, set_boot, BootState, CloudState, Answer, rows_of,
  raises, poll, Tick, meanwhile, run,
}

abbrev pub poll_all : List (ℕ × Answer) → CloudState → CloudState
poll_all [] s = s
poll_all ((now, a) ∷ answers) s = poll_all answers (poll now a s)

-- The number of polls since the last one that succeeded, and whether one of these was refused for its
-- token, after `n` and `b` before.
abbrev pub failures_since : ℕ → List (ℕ × Answer) → ℕ
failures_since n [] = n
failures_since n ((now, raises e) ∷ answers) = failures_since (n + 1) answers
failures_since n ((now, rows_of rows) ∷ answers) = failures_since 0 answers

abbrev pub refused_since : Bool → List (ℕ × Answer) → Bool
refused_since b [] = b
refused_since b ((now, raises e) ∷ answers) = refused_since (b || is_auth_failure e) answers
refused_since b ((now, rows_of rows) ∷ answers) = refused_since false answers

-- A refused token is shown as a failed boot.
abbrev pub IsShown : CloudState → Type 0
IsShown s = (b : BootState) → s.auth_failed ≡ true → s.boot ≡ some b → b.phase ≡ failed_phase

poll-IsShown : (now : ℕ) (a : Answer) (s : CloudState) → IsShown s → IsShown (poll now a s)
unfolding poll
poll-IsShown now (raises e) s shown b = let before = shown b in ground arith
poll-IsShown now (rows_of rows) s shown b = ground arith

raises_fails :
    (now : ℕ) (e : Failure) (s : CloudState) → (poll now (raises e) s).fails ≡ s.fails + 1
unfolding poll
raises_fails now e s = ground arith

raises_refused :
    (now : ℕ) (e : Failure) (s : CloudState)
    → (poll now (raises e) s).auth_failed ≡ (s.auth_failed || is_auth_failure e)
unfolding poll
raises_refused now e s = ground arith

rows_account :
    (now : ℕ) (rows : List Row) (s : CloudState)
    → ((poll now (rows_of rows) s).fails ≡ 0) × ((poll now (rows_of rows) s).auth_failed ≡ false)
unfolding poll
rows_account now rows s = ground arith

-- The boot state after an answer, where the token was refused before or not: the first refusal shows as a
-- failure with a detail, a list behind a refusal as ready, and nothing else changes it.
abbrev pub boot_by : Bool → Answer → Option BootState → Option BootState
boot_by b (raises e) o = if is_auth_failure e && not b then set_boot failed_phase true o else o
boot_by b (rows_of rows) o = if b then set_boot ready false o else o

pub poll_boot :
    (now : ℕ) (a : Answer) (s : CloudState) → (poll now a s).boot ≡ boot_by s.auth_failed a s.boot
unfolding poll
poll_boot now (raises e) s = ground arith
poll_boot now (rows_of rows) s = ground arith

abbrev pub refused_by : Bool → Answer → Bool
refused_by b (raises e) = b || is_auth_failure e
refused_by b (rows_of rows) = false

pub poll_refused :
    (now : ℕ) (a : Answer) (s : CloudState)
    → (poll now a s).auth_failed ≡ refused_by s.auth_failed a
poll_refused now (raises e) s = raises_refused now e s
poll_refused now (rows_of rows) s = (rows_account now rows s).1

-- After any polls, the count of failures is the number of polls since the last success, the token counts
-- as refused if one of these was refused for it, and then a boot state shows the failure.
pub poll_all_account :
    (answers : List (ℕ × Answer)) (s : CloudState)
    → IsShown s
    → ((poll_all answers s).fails ≡ failures_since s.fails answers)
      × ((poll_all answers s).auth_failed ≡ refused_since s.auth_failed answers)
      × IsShown (poll_all answers s)
poll_all_account [] s shown = (refl, refl, shown)
poll_all_account ((now, raises e) ∷ answers) s shown =
    let rest =
      poll_all_account answers (poll now (raises e) s) (poll-IsShown now (raises e) s shown) in
    (
      rest.0 ∙ ap (λ n. failures_since n answers) (raises_fails now e s),
      rest.1 ∙ ap (λ b. refused_since b answers) (raises_refused now e s),
      rest.2,
    )
poll_all_account ((now, rows_of rows) ∷ answers) s shown =
    let rest =
      poll_all_account answers (poll now (rows_of rows) s)
        (poll-IsShown now (rows_of rows) s shown) in
    (
      rest.0 ∙ ap (λ n. failures_since n answers) (rows_account now rows s).0,
      rest.1 ∙ ap (λ b. refused_since b answers) (rows_account now rows s).1,
      rest.2,
    )

-- The polls of a run, by their times and answers.
abbrev pub polls : List Tick → List (ℕ × Answer)
polls [] = []
polls (t ∷ ts) = (t.now, t.answer) ∷ polls ts

failures_next :
    (n now : ℕ) (a : Answer) (answers : List (ℕ × Answer))
    → failures_since (failures_since n ((now, a) ∷ [])) answers
      ≡ failures_since n ((now, a) ∷ answers)
failures_next n now (raises e) answers = refl
failures_next n now (rows_of rows) answers = refl

refused_next :
    (b : Bool) (now : ℕ) (a : Answer) (answers : List (ℕ × Answer))
    → refused_since (refused_since b ((now, a) ∷ [])) answers ≡ refused_since b ((now, a) ∷ answers)
refused_next b now (raises e) answers = refl
refused_next b now (rows_of rows) answers = refl

-- The account of a run is that of its polls, whatever other threads do to the cameras.
pub run_account :
    (ticks : List Tick) (s : CloudState)
    → IsShown s
    → ((run ticks s).0.fails ≡ failures_since s.fails (polls ticks))
      × ((run ticks s).0.auth_failed ≡ refused_since s.auth_failed (polls ticks))
      × IsShown (run ticks s).0
unfolding run
run_account [] s shown = (refl, refl, shown)
run_account (t ∷ ts) s shown =
    let (fails', refused', shown') = poll_all_account ((t.now, t.answer) ∷ []) s shown in
    let rest = run_account ts (meanwhile t (poll t.now t.answer s)) shown' in
    (
      rest.0
          ∙ ap (λ n. failures_since n (polls ts)) fails'
          ∙ failures_next s.fails t.now t.answer (polls ts),
      rest.1
          ∙ ap (λ b. refused_since b (polls ts)) refused'
          ∙ refused_next s.auth_failed t.now t.answer (polls ts),
      rest.2,
    )
