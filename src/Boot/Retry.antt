-- ===== src/Boot/Retry.antt =====
-- `retry_boot` and the first device list of `main` of ziot_rtp_bridge.py. The list of answers ends where the
-- bridge is stopped.
pub mod Account
use ziot_rtp_bridge.Base.{ℕ, ◌+◌, ◌*◌, Bool, true, false, List, [], ◌∷◌, if◌then◌else◌, min}
use ziot_rtp_bridge.Boot.Roster.{
  Config, Host, Bridge, Brought, up, nothing_for_us, escaped, bring_up,
}
use ziot_rtp_bridge.Camera.State.{recovery_initial_backoff, recovery_max_backoff}
use ziot_rtp_bridge.Poller.{
  Failure, is_auth_failure, Answer, rows_of, raises, BootState, retrying, failed_phase,
}

-- How the start ends: stopped, parked on a refused token, exit 2 for one at once, or what `bring_up` did.
pub data Ended : Type 0 where
  stopped parked exits : Ended
  reached : Brought → Ended

-- The bridge, the waits between the calls, and the end.
pub record Start : Type 0 where
  pub bridge : Bridge
  pub waits : List ℕ
  pub ended : Ended

abbrev pub mark : BootState → Bridge → Bridge
mark boot b = record b { boot = boot }

abbrev pub retrying_after : ℕ → BootState
retrying_after attempt = record { phase = retrying; has_detail = true; attempts = attempt }

abbrev pub refused_boot : BootState
refused_boot = record { phase = failed_phase; has_detail = true; attempts = 0 }

-- The device list has come.
abbrev pub reach : List ℕ → Bridge × Brought → Start
reach waits (b, how) = record { bridge = b; waits = waits; ended = reached how }

-- A wait in front of what follows.
abbrev pub waited : ℕ → Start → Start
waited ms s = record s { waits = ms ∷ s.waits }

unfoldable pub retry_boot : Config → Host → List Answer → ℕ → ℕ → Bridge → Start
unfolding is_auth_failure bring_up
retry_boot cfg w [] backoff attempt b = record { bridge = b; waits = []; ended = stopped }
retry_boot cfg w (rows_of rows ∷ answers) backoff attempt b =
    reach (backoff ∷ []) (bring_up cfg w rows b)
retry_boot cfg w (raises e ∷ answers) backoff attempt b =
    let rest =
      retry_boot cfg w answers (min (backoff * 2) recovery_max_backoff) (attempt + 1)
        (mark (retrying_after (attempt + 1)) b) in
    if is_auth_failure e
    then record { bridge = mark refused_boot b; waits = backoff ∷ []; ended = parked }
    else waited backoff rest

-- The first device list, and the thread of `retry_boot` if there is none.
unfoldable pub first_list : Config → Host → List Answer → Bridge → Start
unfolding is_auth_failure bring_up retry_boot
first_list cfg w [] b = record { bridge = b; waits = []; ended = stopped }
first_list cfg w (rows_of rows ∷ answers) b = reach [] (bring_up cfg w rows b)
first_list cfg w (raises e ∷ answers) b =
    if is_auth_failure e
    then record { bridge = b; waits = []; ended = exits }
    else retry_boot cfg w answers recovery_initial_backoff 1 (mark (retrying_after 1) b)
