-- ===== src/Verifier/Examples.antt =====
-- Runs of `FireVerifier` with its default settings, and each theorem at an input. A confidence is a
-- number of thousandths here.
use ignis_test.Prelude.{
  ℕ, String, ◌+◌, ◌-◌, ◌≤◌, ◌≡◌, ◌≢◌, refl, true, false, some, List, [], ◌∷◌, arith, leb, ltb, drop,
}
use ignis_test.Prelude.Floats.{Floats}
use ignis_test.Verifier.Decimal.{decimal, incident_name}
use ignis_test.Verifier.Gate.{
  Detection, clear, suspected, verifying, confirmed_fire, visual_signature_lost, FireVerifier, hits,
  push, best_confidence, is_relevant, update, new_verifier, run,
}
use ignis_test.Verifier.Invariant.{IsConsistent, update-IsConsistent}
use ignis_test.Verifier.Confirm.{one_frame_only_suspects, confirm_needs}
use ignis_test.Verifier.Traces.{Frame, relevant_frames, confirmed_needs_frames, IsConsistent-run}
use ignis_test.Verifier.Held.{confirmed_over_run}
use ignis_test.Verifier.Names.{incident_names_differ}
use ignis_test.Verifier.Sustained.{sustained_fire_confirms}

abbrev floats : Floats ℕ
floats = record {
  zero_float = 0;
  geb = λ a b. leb b a;
  gtb = λ a b. ltb b a;
  seconds_between = λ a b. a - b;
}

program : Unit {0}
unfolding update run is_relevant best_confidence push drop incident_name decimal
program = tt

-- The defaults of `FireVerifier`: 10 frames, 6 hits, 1.5 s, 5 s and 10 s.
abbrev start : FireVerifier ℕ
start = new_verifier floats "device" "boot" 10 6 550 650 1_500_000_000 5_000_000_000 10_000_000_000

abbrev fire : List (Detection ℕ)
fire =
    record { class_name = "fire"; class_id = 0; confidence = 900; bbox = (100, 200, 500, 700) } ∷ []

-- Frames of fire, 0.3 s apart.
abbrev five : List (Frame ℕ)
five =
    (0, fire)
    ∷ (300_000_000, fire)
    ∷ (600_000_000, fire)
    ∷ (900_000_000, fire)
    ∷ (1_200_000_000, fire)
    ∷ []

abbrev lit : FireVerifier ℕ
lit = run floats five start

abbrev alarm : FireVerifier ℕ
alarm = update floats 1_500_000_000 fire lit

IsConsistent-start : IsConsistent start
IsConsistent-start = ground arith

IsConsistent-alarm : IsConsistent alarm
IsConsistent-alarm =
    update-IsConsistent floats 1_500_000_000 fire lit
      (IsConsistent-run floats five start IsConsistent-start)

five_frames : (lit.state.hazard_state ≡ verifying) × (lit.state.confirmed ≡ false)
unfolding program
five_frames = (refl, refl)

sixth_frame :
    (alarm.state.hazard_state ≡ confirmed_fire)
    × (alarm.state.incident_id ≡ some "device-boot-1")
    × (alarm.state.confirmed ≡ true)
unfolding program
sixth_frame = (refl, refl, refl)

-- Five seconds after the last hit the incident is kept, as lost; ten seconds after it is given up.
five_clear_seconds :
    ((update floats 6_600_000_000 [] alarm).state.hazard_state ≡ visual_signature_lost)
    × ((update floats 11_500_000_000 [] alarm).state.hazard_state ≡ clear)
unfolding program
five_clear_seconds = (refl, refl)

update-IsConsistent_example : IsConsistent (update floats 7 fire start)
update-IsConsistent_example = update-IsConsistent floats 7 fire start IsConsistent-start

one_frame_only_suspects_example :
    ((update floats 7 fire start).state.hazard_state ≡ suspected)
    × ((update floats 7 fire start).state.confirmed ≡ false)
    × ((update floats 7 fire start).state.incident_id
        ≡ some (incident_name "device" "boot" (0 + 1)))
    × ((update floats 7 fire start).state.first_detection_ns ≡ 7)
unfolding program
one_frame_only_suspects_example =
    one_frame_only_suspects floats 7 fire start IsConsistent-start refl (omega arith) refl

confirm_needs_example :
    (is_relevant floats lit fire ≡ true)
    × (lit.required ≤ hits alarm.window)
    × (alarm.state.first_detection_ns + lit.confirm_ns ≤ 1_500_000_000)
    × (alarm.state.hazard_state ≡ confirmed_fire)
unfolding program
confirm_needs_example = confirm_needs floats 1_500_000_000 fire lit refl refl

-- A frame without fire, 4.9 s after the last hit, and one with fire later on
confirmed_over_run_example :
    ((run floats ((6_400_000_000, []) ∷ (9_000_000_000, fire) ∷ []) alarm).state.confirmed ≡ true)
    × ((run floats ((6_400_000_000, []) ∷ (9_000_000_000, fire) ∷ []) alarm).state.incident_id
        ≡ some "device-boot-1")
unfolding program
confirmed_over_run_example =
    confirmed_over_run floats ((6_400_000_000, []) ∷ (9_000_000_000, fire) ∷ []) alarm
      "device-boot-1" refl refl (omega arith) (λ m. omega arith, (λ m. absurd (cc), tt))

confirmed_needs_frames_example :
    6
    ≤ relevant_frames floats start
        ((0, fire) ∷ (1, fire) ∷ (2, fire) ∷ (3, fire) ∷ (4, fire) ∷ (1_500_000_000, fire) ∷ [])
unfolding program
confirmed_needs_frames_example =
    confirmed_needs_frames floats
      ((0, fire) ∷ (1, fire) ∷ (2, fire) ∷ (3, fire) ∷ (4, fire) ∷ (1_500_000_000, fire) ∷ []) start
      refl refl refl

sustained_fire_confirms_example : alarm.state.confirmed ≡ true
unfolding program
sustained_fire_confirms_example =
    sustained_fire_confirms floats five 1_500_000_000 fire start
      (refl, (refl, (refl, (refl, (refl, tt))))) refl (omega arith) (omega arith) (omega arith)

-- A second fire, after the first alarm was given up
incident_names_differ_example : ◌≢◌ {A = String} "device-boot-1" "device-boot-2"
unfolding program
incident_names_differ_example =
    incident_names_differ floats alarm ((12_000_000_000, []) ∷ []) ((13_000_000_000, fire) ∷ [])
      "device-boot-1" "device-boot-2" IsConsistent-alarm refl refl refl
