-- ===== src/Verifier/Gate.antt =====
-- `Detection`, `FireState` and `FireVerifier`. `update` returns `self.state`, so its result is the
-- `state` of the verifier after it. The object that a caller kept from an earlier call is not modelled.
use ignis_test.Prelude.{
  ℕ, ◌+◌, ◌-◌, ◌/◌, Bool, true, false, not, ◌&&◌, ◌||◌, Option, none, some, List, [], ◌∷◌, ◌++◌,
  String, max, leb, if◌then◌else◌, length, drop, keep, count_by, str_eq,
}
use ignis_test.Prelude.Floats.{Floats}
use ignis_test.Verifier.Decimal.{incident_name}

pub record Detection (F : Type 0) : Type 0 where
  pub class_name : String
  pub class_id : ℕ
  pub confidence : F
  pub bbox : F × F × F × F

pub data HazardState : Type 0 where
  clear suspected verifying confirmed_fire visual_signature_lost resolved degraded : HazardState

pub record FireState (F : Type 0) : Type 0 where
  pub hazard_state : HazardState
  pub incident_id : Option String
  pub first_detection_ns : ℕ
  pub last_relevant_ns : ℕ
  pub confirmed : Bool
  pub fire_confidence : F
  pub smoke_confidence : F
  pub seconds_persistent : F

pub record FireVerifier (F : Type 0) : Type 0 where
  pub device_id : String
  pub boot_id : String
  pub window : List Bool
  -- `deque(maxlen=window)`
  pub max_window : ℕ
  pub required : ℕ
  pub fire_threshold : F
  pub smoke_threshold : F
  pub confirm_ns : ℕ
  pub clear_ns : ℕ
  pub reset_ns : ℕ
  pub counter : ℕ
  pub state : FireState F

-- `deque.append` on a bounded deque drops from the left.
unfoldable pub push : ℕ → List Bool → Bool → List Bool
push max_window window item =
    let longer = window ++ item ∷ [] in drop (length longer - max_window) longer

-- `sum(self.window)`
abbrev pub hits : List Bool → ℕ
hits = count_by (λ b. b)

module _ {F : Type 0} (floats : Floats F) where
  open floats use {zero_float, geb, gtb, seconds_between}

  -- `FireState()`
  abbrev pub initial : FireState F
  initial = record {
    hazard_state = clear;
    incident_id = none;
    first_detection_ns = 0;
    last_relevant_ns = 0;
    confirmed = false;
    fire_confidence = zero_float;
    smoke_confidence = zero_float;
    seconds_persistent = zero_float;
  }

  max_from : F → List (Detection F) → F
  max_from best [] = best
  max_from best (d ∷ ds) = max_from (if gtb d.confidence best then d.confidence else best) ds

  max_or_zero : List (Detection F) → F
  unfolding max_from
  max_or_zero [] = zero_float
  max_or_zero (d ∷ ds) = max_from d.confidence ds

  -- `max((item.confidence for item in detections if item.class_name == name), default=0.0)`
  unfoldable pub best_confidence : String → List (Detection F) → F
  unfolding max_or_zero
  best_confidence name detections = max_or_zero (keep (λ d. str_eq d.class_name name) detections)

  -- `relevant` of `update`
  unfoldable pub is_relevant : FireVerifier F → List (Detection F) → Bool
  unfolding best_confidence
  is_relevant v detections =
      geb (best_confidence "fire" detections) v.fire_threshold
      || geb (best_confidence "smoke" detections) v.smoke_threshold

  -- The writes before the branch on `relevant`.
  unfoldable pub observe : Bool → List (Detection F) → FireVerifier F → FireVerifier F
  observe relevant detections v = record v {
    window = push v.max_window v.window relevant;
    state = record (v.state) {
      fire_confidence = best_confidence "fire" detections;
      smoke_confidence = best_confidence "smoke" detections;
    };
  }

  -- `if state.incident_id is None: …`
  unfoldable pub open_incident : ℕ → Option String → FireVerifier F → FireVerifier F
  open_incident now (some id) v = v
  open_incident now none v = record v {
    counter = v.counter + 1;
    state = record (v.state) {
      incident_id = some (incident_name v.device_id v.boot_id (v.counter + 1));
      first_detection_ns = now;
      hazard_state = suspected;
    };
  }

  -- The two tests on the hits. `now - first >= confirm_ns` is written without the subtraction.
  unfoldable pub judge : ℕ → FireVerifier F → FireState F → FireState F
  judge now v s =
      let verified =
        if leb (max 3 (v.required / 2)) (hits v.window) && not s.confirmed
        then record s { hazard_state = verifying }
        else s in
      if leb v.required (hits v.window) && leb (s.first_detection_ns + v.confirm_ns) now
      then record verified { hazard_state = confirmed_fire; confirmed = true }
      else verified

  unfoldable pub on_relevant : ℕ → FireVerifier F → FireVerifier F
  unfolding open_incident judge
  on_relevant now v =
      let opened =
        open_incident now v.state.incident_id
          (record v { state = record (v.state) { last_relevant_ns = now } }) in
      record opened {
        state = judge now opened (record (opened.state) {
          seconds_persistent = seconds_between now opened.state.first_detection_ns;
        });
      }

  -- `elif state.incident_id:`; a name that was given is never empty.
  unfoldable pub on_missing : ℕ → Option String → FireVerifier F → FireVerifier F
  on_missing now none v = v
  on_missing now (some id) v =
      let s = v.state in
      let fresh = record v { window = []; state = initial } in
      if s.confirmed && leb (s.last_relevant_ns + v.reset_ns) now
      then fresh
      else if s.confirmed && leb (s.last_relevant_ns + v.clear_ns) now
      then record v { state = record s { hazard_state = visual_signature_lost } }
      else if not s.confirmed && leb (s.last_relevant_ns + v.clear_ns) now
      then fresh
      else v

  unfoldable pub update_by : Bool → ℕ → List (Detection F) → FireVerifier F → FireVerifier F
  unfolding observe on_relevant on_missing
  update_by true now detections v = on_relevant now (observe true detections v)
  update_by false now detections v = on_missing now v.state.incident_id (observe false detections v)

  -- `FireVerifier.update`
  unfoldable pub update : ℕ → List (Detection F) → FireVerifier F → FireVerifier F
  unfolding update_by
  update now detections v = update_by (is_relevant v detections) now detections v

  -- `FireVerifier(device_id, boot_id, …)` with the durations already in nanoseconds.
  abbrev pub new_verifier : String → String → ℕ → ℕ → F → F → ℕ → ℕ → ℕ → FireVerifier F
  new_verifier device_id boot_id window required fire smoke confirm_ns clear_ns reset_ns = record {
    device_id = device_id;
    boot_id = boot_id;
    window = [];
    max_window = window;
    required = required;
    fire_threshold = fire;
    smoke_threshold = smoke;
    confirm_ns = confirm_ns;
    clear_ns = clear_ns;
    reset_ns = reset_ns;
    counter = 0;
    state = initial;
  }

  -- One call of `update` for each frame, at its clock reading.
  unfoldable pub run : List (ℕ × List (Detection F)) → FireVerifier F → FireVerifier F
  run [] v = v
  run ((now, detections) ∷ frames) v = run frames (update now detections v)
