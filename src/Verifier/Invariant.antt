-- ===== src/Verifier/Invariant.antt =====
-- What holds of a `FireVerifier` between two calls of `update`.
use ignis_test.Prelude.{
  ℕ, ◌≤◌, ◌<◌, ◌≡◌, refl, Bool, true, false, ◌⊎◌, Option, none, some, List, arith, length, String,
}
use ignis_test.Prelude.Floats.{Floats}
use ignis_test.Verifier.Decimal.{incident_name}
use ignis_test.Verifier.Window.{length-push-le, hits-push-le}
use ignis_test.Verifier.Gate.{
  Detection, clear, suspected, verifying, confirmed_fire, visual_signature_lost, FireVerifier, hits,
  observe, on_relevant, on_missing, update_by, update, is_relevant,
}

pub record IsConsistent {F : Type 0} (v : FireVerifier F) : Type 0 where
  pub bounded : length v.window ≤ v.max_window
  pub idle :
      v.state.incident_id ≡ none
      → (v.state.hazard_state ≡ clear) × (v.state.confirmed ≡ false) × (hits v.window ≡ 0)
  pub active :
      (id : String)
      → v.state.incident_id ≡ some id
      → (id ≡ incident_name v.device_id v.boot_id v.counter) × (0 < v.counter)
  pub flagged :
      v.state.confirmed ≡ true
      → (v.state.hazard_state ≡ confirmed_fire) ⊎ (v.state.hazard_state ≡ visual_signature_lost)
  pub unflagged :
      (id : String)
      → v.state.incident_id ≡ some id
      → v.state.confirmed ≡ false
      → (v.state.hazard_state ≡ suspected) ⊎ (v.state.hazard_state ≡ verifying)

module _ {F : Type 0} (floats : Floats F) where
  on_missing-IsConsistent :
      (now : ℕ) (o : Option String) (v : FireVerifier F)
      → v.state.incident_id ≡ o
      → IsConsistent v
      → IsConsistent (on_missing floats now o v)
  unfolding on_missing
  on_missing-IsConsistent now none v e c = c
  on_missing-IsConsistent now (some id) v e c = ground (arith, c.active id, c.unflagged id)

  -- `v` is the verifier after the writes before the branch: its window may already show the hit.
  on_relevant-IsConsistent :
      (now : ℕ) (v : FireVerifier F)
      → length v.window ≤ v.max_window
      → (v.state.incident_id ≡ none → v.state.confirmed ≡ false)
      → ((id : String)
          → v.state.incident_id ≡ some id
          → (id ≡ incident_name v.device_id v.boot_id v.counter) × (0 < v.counter))
      → (v.state.confirmed ≡ true
          → (v.state.hazard_state ≡ confirmed_fire)
            ⊎ (v.state.hazard_state ≡ visual_signature_lost))
      → ((id : String)
          → v.state.incident_id ≡ some id
          → v.state.confirmed ≡ false
          → (v.state.hazard_state ≡ suspected) ⊎ (v.state.hazard_state ≡ verifying))
      → IsConsistent (on_relevant floats now v)
  unfolding on_relevant
  on_relevant-IsConsistent now v bounded idle active flagged unflagged =
      by_incident v.state.incident_id refl
    where
      by_incident :
          (o : Option String) → v.state.incident_id ≡ o → IsConsistent (on_relevant floats now v)
      by_incident none e = ground (arith, idle)
      by_incident (some id) e = ground (arith, active id, unflagged id)

  -- Every call of `update` keeps the invariant.
  pub update-IsConsistent :
      (now : ℕ) (detections : List (Detection F)) (v : FireVerifier F)
      → IsConsistent v
      → IsConsistent (update floats now detections v)
  unfolding update
  update-IsConsistent now detections v c = by_test (is_relevant floats v detections)
    where
      by_test : (b : Bool) → IsConsistent (update_by floats b now detections v)
      by_test true =
          on_relevant-IsConsistent now (observe floats true detections v)
            (length-push-le v.max_window v.window true) (λ n. (c.idle n).1) c.active c.flagged
            c.unflagged
      by_test false =
          on_missing-IsConsistent now v.state.incident_id (observe floats false detections v) refl
            (record {
              bounded = length-push-le v.max_window v.window false;
              idle = λ n. (
                (c.idle n).0,
                (c.idle n).1,
                omega (arith, (c.idle n).2, hits-push-le v.max_window v.window false),
              );
              active = c.active;
              flagged = c.flagged;
              unflagged = c.unflagged;
            })
