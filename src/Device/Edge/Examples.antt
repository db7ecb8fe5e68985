-- ===== src/Device/Edge/Examples.antt =====
-- Runs of the device: a fire that is confirmed, and two incidents that are only suspected.
use ignis_test.Prelude.{
  ℕ, ◌*◌, ◌≡◌, refl, none, List, [], ◌∷◌, All, map, count_by, length, drop, ◌==◌,
}
use ignis_test.Wire.Bytes.{be}
use ignis_test.Wire.Packet.{Packet, type_code}
use ignis_test.Verifier.Decimal.{incident_name, decimal}
use ignis_test.Verifier.Gate.{
  Detection, push, best_confidence, is_relevant, update, confirmed_fire, suspected,
}
use ignis_test.Verifier.Traces.{relevant_frames}
use ignis_test.Store.Examples.{floats}
use ignis_test.Device.Stream.{accepted, encode_packet, pass_on, connect, send}
use ignis_test.Device.Edge.{
  Writer, Socket, Round, DeviceLoop, Going, fresh_loop, primary_box, run_device,
}
use ignis_test.Device.Edge.Warranted.{IsWarranted, frame_of}
use ignis_test.Device.Edge.Alarms.{alarms_need_frames}

abbrev writer : Writer ℕ
writer = record {
  hello_json = [];
  metadata_json = λ n width height. n ∷ [];
  findings_json = λ n t d found. n ∷ length found ∷ [];
  incident_json = λ r. r.fire_confidence ∷ [];
  change_json = λ id hazard. [];
  health_json = λ d. [];
}

abbrev online : Socket
online = record { dial = accepted; broken = none }

abbrev look : ℕ → List (Detection ℕ) → Round ℕ
look tenths found = record {
  monotonic_ns = tenths * 100_000_000;
  late = tenths * 100_000_000;
  time_unix = 0;
  found = found;
  inference_ms = 0;
  width = 640;
  height = 480;
  jpeg = [];
  at_picture = online;
  at_findings = online;
  at_incident = online;
  at_change = online;
  at_health = online;
}

abbrev fire : List (Detection ℕ)
fire = record { class_name = "fire"; class_id = 0; confidence = 9; bbox = (1, 2, 5, 7) } ∷ []

abbrev start : DeviceLoop ℕ
start = fresh_loop floats writer "device" "boot" 5 6

abbrev burning : List (Round ℕ)
burning = look 1 fire ∷ look 4 fire ∷ look 7 fire ∷ look 10 fire ∷ look 13 fire ∷ look 16 fire ∷ []

program : Unit {0}
unfolding be update is_relevant best_confidence push drop incident_name decimal encode_packet
    pass_on connect send primary_box run_device type_code
program = tt

abbrev run_of : List (Round ℕ) → Going ℕ
run_of rounds = run_device floats writer accepted 0 rounds start

abbrev sent_as : ℕ → Going ℕ → ℕ
sent_as code g = count_by (λ (k : Packet). type_code k.packet_type == code) g.0.stream.sent

-- Six frames and updates, three changes of the state, and the health once a second.
six_rounds :
    ((run_of burning).0.verifier.state.hazard_state ≡ confirmed_fire)
    × (sent_as 10 (run_of burning) ≡ 6)
    × (sent_as 12 (run_of burning) ≡ 6)
    × (sent_as 13 (run_of burning) ≡ 3)
    × (sent_as 14 (run_of burning) ≡ 1)
unfolding program
six_rounds = (refl, refl, refl, refl, refl)

alarms_need_frames_example :
    All
      (IsWarranted floats writer 6
        (relevant_frames floats start.verifier (map (frame_of floats writer) burning)))
      (run_device floats writer accepted 0 burning start).0.stream.sent
alarms_need_frames_example = alarms_need_frames floats writer accepted 0 burning "device" "boot" 5 6

-- The second of two incidents that are only suspected is neither logged nor announced by an event.
two_suspicions :
    ((run_of (look 1 fire ∷ look 61 [] ∷ look 71 fire ∷ [])).0.verifier.counter ≡ 2)
    × ((run_of (look 1 fire ∷ look 61 [] ∷ look 71 fire ∷ [])).0.verifier.state.hazard_state
        ≡ suspected)
    × (sent_as 13 (run_of (look 1 fire ∷ look 61 [] ∷ look 71 fire ∷ [])) ≡ 1)
unfolding program
two_suspicions = (refl, refl, refl)
