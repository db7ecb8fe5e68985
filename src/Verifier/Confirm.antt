-- ===== src/Verifier/Confirm.antt =====
-- When `FireVerifier` confirms, keeps and gives up an incident.
use ignis_test.Prelude.{
  ℕ, ◌+◌, ◌≤◌, ◌<◌, ◌≡◌, refl, Bool, true, false, ◌⊎◌, if◌then◌else◌, none, some, List, arith,
  String,
}
use ignis_test.Prelude.Floats.{Floats}
use ignis_test.Verifier.Decimal.{incident_name}
use ignis_test.Verifier.Window.{hits-push-le}
use ignis_test.Verifier.Invariant.{IsConsistent}
use ignis_test.Verifier.Gate.{
  Detection, suspected, confirmed_fire, FireVerifier, hits, update_by, update, is_relevant,
}

module _ {F : Type 0} (floats : Floats F) (now : ℕ) (detections : List (Detection F))
    (v : FireVerifier F) where
  abbrev after : FireVerifier F
  after = update floats now detections v

  -- From a verifier with no incident, where two hits at least are required, one relevant frame opens
  -- a fresh incident that is only suspected; it confirms nothing.
  pub one_frame_only_suspects :
      IsConsistent v
      → v.state.incident_id ≡ none
      → 2 ≤ v.required
      → is_relevant floats v detections ≡ true
      → (after.state.hazard_state ≡ suspected)
        × (after.state.confirmed ≡ false)
        × (after.state.incident_id ≡ some (incident_name v.device_id v.boot_id (v.counter + 1)))
        × (after.state.first_detection_ns ≡ now)
  unfolding update
  one_frame_only_suspects c n two r =
      rw (r, update_by) (ground (arith, c.idle, n, hits-push-le v.max_window v.window true))

  -- A frame that confirms is relevant, the window then holds the required hits, and the incident,
  -- which the frame itself may have opened, is as old as is required.
  pub confirm_needs :
      v.state.confirmed ≡ false
      → after.state.confirmed ≡ true
      → (is_relevant floats v detections ≡ true)
        × (v.required ≤ hits after.window)
        × (after.state.first_detection_ns + v.confirm_ns ≤ now)
        × (after.state.hazard_state ≡ confirmed_fire)
  unfolding update
  confirm_needs u k = by_test (is_relevant floats v detections) refl k
    where
      by_test :
          (b : Bool)
          → is_relevant floats v detections ≡ b
          → (update_by floats b now detections v).state.confirmed ≡ true
          → (b ≡ true)
            × (v.required ≤ hits (update_by floats b now detections v).window)
            × ((update_by floats b now detections v).state.first_detection_ns + v.confirm_ns ≤ now)
            × ((update_by floats b now detections v).state.hazard_state ≡ confirmed_fire)
      by_test true e t = ground arith
      by_test false e t = absurd (ground arith)

  -- One frame: a confirmed incident stays confirmed, under its name, where the frame is relevant, and
  -- dates from it, or where the last relevant one is nearer than the reset time.
  pub confirmed_stays :
      (id : String)
      → v.state.incident_id ≡ some id
      → v.state.confirmed ≡ true
      → (is_relevant floats v detections ≡ true) ⊎ (now < v.state.last_relevant_ns + v.reset_ns)
      → (after.state.confirmed ≡ true)
        × (after.state.incident_id ≡ some id)
        × (after.state.last_relevant_ns
            ≡ (if is_relevant floats v detections then now else v.state.last_relevant_ns))
  unfolding update
  confirmed_stays id i k near = by_test (is_relevant floats v detections) near
    where
      by_test :
          (b : Bool)
          → (b ≡ true) ⊎ (now < v.state.last_relevant_ns + v.reset_ns)
          → ((update_by floats b now detections v).state.confirmed ≡ true)
            × ((update_by floats b now detections v).state.incident_id ≡ some id)
            × ((update_by floats b now detections v).state.last_relevant_ns
                ≡ (if b then now else v.state.last_relevant_ns))
      by_test true h = ground arith
      by_test false h = ground arith
