-- ===== src/Broker/Sweep/Tests.antt =====
-- A sweep of the candidates for a camera with a viewer.
use ziot_rtp_bridge.Base.{
  ℕ, ◌≡◌, refl, Option, none, some, List, [], ◌∷◌, ascii, arith, length, get_or,
}
use ziot_rtp_bridge.Base.Int.{pos}
use ziot_rtp_bridge.Broker.Answers.{Viewer}
use ziot_rtp_bridge.Broker.Sweep.{Candidate, ack_candidates, with_echo, new_sweep}
use ziot_rtp_bridge.Broker.Sweep.Turns.{
  Frame, Round, HaveSize, replies, frames_of, in_turn, sweep_in_turn,
}

abbrev viewer : Viewer
viewer = record {
  public_ip = [];
  public_port = pos 0;
  private_ip = ascii "192.168.1.5";
  private_port = pos 40000;
}

abbrev built : Option (List Candidate) → List Candidate
built none = []
built (some cs) = with_echo (0x86 ∷ 0x86 ∷ []) cs

abbrev candidates : List Candidate
candidates = built (ack_candidates (ascii "1") 7 (some viewer))

-- Thirty-four acknowledgements, four punches, three strings and the echo.
candidates_all : length candidates ≡ 42
unfolding ack_candidates
candidates_all = refl

candidates_first : (get_or candidates 1 ([], [])).0 ≡ ascii "ack-8001-uid-empty"
unfolding ack_candidates
candidates_first = refl

-- A port that does not fit raises.
candidates_raise :
    ack_candidates (ascii "1") 7 (some (record viewer { private_port = pos 65536 })) ≡ none
unfolding ack_candidates
candidates_raise = refl

-- The candidates for a frame with a counter.
abbrev frame : ℕ → ℕ → Frame
frame now seq = record { now = now; built = built (ack_candidates (ascii "1") seq (some viewer)) }

abbrev rounds : List Round
rounds =
    record { start = frame 7000 1; again = frame 8000 2 ∷ frame 13000 3 ∷ [] }
    ∷ record { start = frame 13001 4; again = [] }
    ∷ record { start = frame 30000 5; again = frame 30000 6 ∷ [] }
    ∷ []

rounds_size : HaveSize 42 rounds
unfolding ack_candidates
rounds_size = (refl, (refl, (refl, tt)), (refl, tt, (refl, (refl, tt), tt)))

sweep_in_turn_example : replies (frames_of rounds) new_sweep ≡ in_turn 0 rounds
sweep_in_turn_example = sweep_in_turn rounds 42 rounds_size (
  omega arith,
  (omega arith, (omega arith, tt)),
  (omega arith, tt, (omega arith, (omega arith, tt), tt)),
)
