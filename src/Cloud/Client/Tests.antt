-- ===== src/Cloud/Client/Tests.antt =====
-- Concrete answers of the cloud's server.
use ziot_rtp_bridge.Base.{◌≡◌, refl, false, none, some, List, [], ◌∷◌, ascii}
use ziot_rtp_bridge.Base.Int.{pos}
use ziot_rtp_bridge.Cloud.Client.{dict, gives, fails}
use ziot_rtp_bridge.Cloud.Client.Refusal.{
  Poll, ticks_of, wires_of, failures_on_wire, refused_on_wire, boot_on_wire, run_on_wire,
}
use ziot_rtp_bridge.Cloud.Number.{text, number, int_text}
use ziot_rtp_bridge.Poller.{is_auth_failure, http_error, starting, ready, CloudState, run}
use ziot_rtp_bridge.Poller.Account.{IsShown}

abbrev fresh : CloudState
fresh = record {
  cams = [];
  fails = 0;
  auth_failed = false;
  boot = some (record { phase = starting; has_detail = false; attempts = 1 });
}

-- A refused token under HTTP 200, its code a text, then an empty list, and an outage.
abbrev three : List Poll
three =
    record {
      now = 1000;
      reply = gives (dict none (some (text (ascii " 401"))));
      others = λ cams. cams;
      after = 1200;
    }
    ∷ record {
      now = 31000;
      reply = gives (dict (some (some [])) (some (number (pos 200))));
      others = λ cams. cams;
      after = 31100;
    }
    ∷ record { now = 61000; reply = fails (http_error 502); others = λ _. []; after = 61000 }
    ∷ []

fresh-IsShown : IsShown fresh
fresh-IsShown b refused = cc refused

run_on_wire_example :
    ((run (ticks_of three) fresh).0.fails ≡ failures_on_wire fresh.fails (wires_of three))
    × ((run (ticks_of three) fresh).0.auth_failed
        ≡ refused_on_wire fresh.auth_failed (wires_of three))
    × ((run (ticks_of three) fresh).0.boot
        ≡ boot_on_wire fresh.auth_failed fresh.boot (wires_of three))
    × IsShown (run (ticks_of three) fresh).0
run_on_wire_example = run_on_wire three fresh fresh-IsShown

-- The run above ends with one failure, and the boot state says that it is ready again.
replies_recover :
    boot_on_wire false fresh.boot (wires_of three)
    ≡ some (record { phase = ready; has_detail = false; attempts = 0 })
unfolding int_text is_auth_failure
replies_recover = refl
