-- ===== src/Poller/Tests.antt =====
-- Concrete polls.
use ziot_rtp_bridge.Base.{ℕ, false, some, List, [], ◌∷◌}
use ziot_rtp_bridge.Base.Int.{pos}
use ziot_rtp_bridge.Poller.{cloud_error, other_error, starting, CloudState, Answer, rows_of, raises}
use ziot_rtp_bridge.Poller.Account.{IsShown}

abbrev new_poller : CloudState
new_poller = record {
  cams = [];
  fails = 0;
  auth_failed = false;
  boot = some (record { phase = starting; has_detail = false; attempts = 0 });
}

abbrev answers : List (ℕ × Answer)
answers =
    (0, raises other_error)
    ∷ (60, rows_of [])
    ∷ (120, raises (cloud_error (pos 401)))
    ∷ (180, raises other_error)
    ∷ []

new_poller-IsShown : IsShown new_poller
new_poller-IsShown b refused = cc refused
