-- ===== src/Simulator/Scenarios.antt =====
-- simulator/ignis_simulator/scenarios.py. A time is counted in tenths of a second; a confidence or a
-- scale is the float that a literal of so many hundredths denotes.
use mathlib.Core.Path.{subst}
use ignis_test.Prelude.{
  ℕ, ◌≤◌, ◌<◌, ◌≡◌, true, false, sym, Option, none, some, List, [], ◌∷◌, String, leb, if◌then◌else◌,
  All, arith, Bool-cases, inl, inr, leb→le, leb_false→lt,
}
use ignis_test.Store.Schema.{
  HazardState, clear, suspected, verifying, confirmed, ResponseState, idle, awaiting_response,
}

pub record Stage (F : Type 0) : Type 0 where
  pub at : ℕ
  pub fire : F
  pub smoke : F
  pub hazard : HazardState
  pub response : ResponseState
  pub area_scale : F
  pub camera : String
  pub inference : String
  pub event : Option String

-- `stages` is never empty: `first` is `stages[0]`.
pub record Scenario (F : Type 0) : Type 0 where
  pub name : String
  pub duration : ℕ
  pub first : Stage F
  pub later : List (Stage F)

module _ {F : Type 0} (hundredths : ℕ → F) where
  -- `Stage(at)`, with the defaults
  abbrev pub stage : ℕ → Stage F
  stage at = record {
    at = at;
    fire = hundredths 0;
    smoke = hundredths 0;
    hazard = clear;
    response = idle;
    area_scale = hundredths 100;
    camera = "HEALTHY";
    inference = "HEALTHY";
    event = none;
  }

  abbrev pub normal : Scenario F
  normal = record { name = "normal"; duration = 120; first = stage 0; later = [] }

  abbrev pub hard_negative : Scenario F
  hard_negative = record {
    name = "hard_negative";
    duration = 120;
    first = stage 0;
    later =
        record (stage 20) {
          fire = hundredths 34;
          smoke = hundredths 11;
          event = some "HARD_NEGATIVE_PRESENTED";
        }
        ∷ stage 80
        ∷ [];
  }

  abbrev pub ambiguous_smoke : Scenario F
  ambiguous_smoke = record {
    name = "ambiguous_smoke";
    duration = 140;
    first = stage 0;
    later =
        record (stage 10) {
          smoke = hundredths 67;
          hazard = suspected;
          event = some "FIRST_SMOKE_SIGNATURE";
        }
        ∷ record (stage 30) {
          smoke = hundredths 70;
          hazard = verifying;
          event = some "PERSISTENCE_THRESHOLD_MET";
        }
        ∷ record (stage 70) { smoke = hundredths 48; hazard = verifying }
        ∷ record (stage 100) { hazard = clear; event = some "SIGNATURE_CLEARED_UNCONFIRMED" }
        ∷ [];
  }

  abbrev pub confirmed_fire : Scenario F
  confirmed_fire = record {
    name = "confirmed_fire";
    duration = 180;
    first = stage 0;
    later =
        record (stage 10) {
          smoke = hundredths 68;
          hazard = suspected;
          event = some "FIRST_SMOKE_SIGNATURE";
        }
        ∷ record (stage 25) {
          fire = hundredths 61;
          smoke = hundredths 73;
          hazard = verifying;
          area_scale = hundredths 75;
          event = some "PERSISTENCE_THRESHOLD_MET";
        }
        ∷ record (stage 52) {
          fire = hundredths 88;
          smoke = hundredths 76;
          hazard = confirmed;
          response = awaiting_response;
          event = some "VISUAL_HAZARD_CONFIRMED";
        }
        ∷ record (stage 90) {
          fire = hundredths 93;
          smoke = hundredths 78;
          hazard = confirmed;
          response = awaiting_response;
          area_scale = hundredths 138;
          event = some "VISIBLE_REGION_EXPANDED";
        }
        ∷ [];
  }

  abbrev pub camera_failure : Scenario F
  camera_failure = record {
    name = "camera_failure";
    duration = 150;
    first = stage 0;
    later =
        record (stage 30) { camera = "FAILED"; event = some "CAMERA_CAPTURE_STALLED" }
        ∷ record (stage 70) { camera = "RESTARTING"; event = some "CAMERA_RESTARTING" }
        ∷ record (stage 100) { camera = "HEALTHY"; event = some "CAMERA_RECOVERED" }
        ∷ [];
  }

  abbrev pub inference_failure : Scenario F
  inference_failure = record {
    name = "inference_failure";
    duration = 160;
    first = stage 0;
    later =
        record (stage 30) { inference = "UNAVAILABLE"; event = some "INFERENCE_PROCESS_EXITED" }
        ∷ record (stage 50) {
          inference = "RESTARTING";
          event = some "WATCHDOG_RESTARTING_INFERENCE";
        }
        ∷ record (stage 90) { inference = "HEALTHY"; event = some "INFERENCE_RECOVERED" }
        ∷ [];
  }

  -- `SCENARIOS`
  abbrev pub scenarios : List (Scenario F)
  scenarios =
      normal ∷ hard_negative ∷ ambiguous_smoke ∷ confirmed_fire ∷ camera_failure ∷ inference_failure
      ∷ []

module _ {F : Type 0} where
  -- The loop of `current_stage`, up to its `break`
  unfoldable pub stage_from : Stage F → List (Stage F) → ℕ → Stage F
  stage_from result [] elapsed = result
  stage_from result (s ∷ stages) elapsed =
      let rest = stage_from s stages elapsed in if leb s.at elapsed then rest else result

  unfoldable pub current_stage : Scenario F → ℕ → Stage F
  unfolding stage_from
  current_stage scenario elapsed =
      stage_from scenario.first (scenario.first ∷ scenario.later) elapsed

  -- The stages stand in the order of their times.
  abbrev pub InOrder : List (Stage F) → Type 0
  InOrder [] = Unit {0}
  InOrder (s ∷ stages) = All (λ (t : Stage F). s.at ≤ t.at) stages × InOrder stages

  -- `current` has begun, and no stage that has begun begins later.
  abbrev pub IsLatest : ℕ → Stage F → List (Stage F) → Type 0
  IsLatest elapsed current stages =
      (current.at ≤ elapsed) × All (λ (t : Stage F). t.at ≤ elapsed → t.at ≤ current.at) stages

  not_begun :
      (elapsed bound : ℕ) (current : Stage F) (stages : List (Stage F))
      → elapsed < bound
      → All (λ (t : Stage F). bound ≤ t.at) stages
      → All (λ (t : Stage F). t.at ≤ elapsed → t.at ≤ current.at) stages
  not_begun elapsed bound current [] l h = tt
  not_begun elapsed bound current (t ∷ stages) l h =
      (λ b. absurd (omega arith), not_begun elapsed bound current stages l h.1)

  stage_from-ge :
      (result : Stage F) (stages : List (Stage F)) (elapsed : ℕ)
      → All (λ (t : Stage F). result.at ≤ t.at) stages
      → InOrder stages
      → result.at ≤ (stage_from result stages elapsed).at
  unfolding stage_from
  stage_from-ge result [] elapsed h o = omega arith
  stage_from-ge result (s ∷ stages) elapsed h o =
      ground (arith, stage_from-ge s stages elapsed o.0 o.1)

  stage_from_begun :
      (result s : Stage F) (stages : List (Stage F)) (elapsed : ℕ)
      → leb s.at elapsed ≡ true
      → stage_from result (s ∷ stages) elapsed ≡ stage_from s stages elapsed
  unfolding stage_from
  stage_from_begun result s stages elapsed begun = rw begun

  stage_from_early :
      (result s : Stage F) (stages : List (Stage F)) (elapsed : ℕ)
      → leb s.at elapsed ≡ false
      → stage_from result (s ∷ stages) elapsed ≡ result
  unfolding stage_from
  stage_from_early result s stages elapsed early = rw early

  stage_from-IsLatest :
      (result : Stage F) (stages : List (Stage F)) (elapsed : ℕ)
      → result.at ≤ elapsed
      → All (λ (t : Stage F). result.at ≤ t.at) stages
      → InOrder stages
      → IsLatest elapsed (stage_from result stages elapsed) stages
  stage_from-IsLatest result [] elapsed b h o = (unfold stage_from in b, tt)
  stage_from-IsLatest result (s ∷ stages) elapsed b h o = elim (Bool-cases (leb s.at elapsed)) [
    | inl begun ↦
        let (low, rest) =
          stage_from-IsLatest s stages elapsed (leb→le s.at elapsed begun) o.0 o.1 in
        subst (λ (c : Stage F). IsLatest elapsed c (s ∷ stages))
          (sym (stage_from_begun result s stages elapsed begun))
          (low, (λ t. stage_from-ge s stages elapsed o.0 o.1, rest))
    | inr early ↦
        let late = leb_false→lt s.at elapsed early in
        subst (λ (c : Stage F). IsLatest elapsed c (s ∷ stages))
          (sym (stage_from_early result s stages elapsed early))
          (b, (λ t. absurd (omega arith), not_begun elapsed s.at result stages late o.0))
  ]

  -- In a scenario whose stages stand in order and whose first one has begun, the current stage has
  -- begun, and no stage that has begun begins later.
  pub current_stage-IsLatest :
      (scenario : Scenario F) (elapsed : ℕ)
      → InOrder (scenario.first ∷ scenario.later)
      → scenario.first.at ≤ elapsed
      → IsLatest elapsed (current_stage scenario elapsed) (scenario.first ∷ scenario.later)
  unfolding current_stage
  current_stage-IsLatest scenario elapsed o b =
      stage_from-IsLatest scenario.first (scenario.first ∷ scenario.later) elapsed b
        (omega arith, o.0) o
