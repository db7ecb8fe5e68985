-- ===== src/Verifier/Names.antt =====
-- The names of the incidents that one `FireVerifier` opens.
use ignis_test.Prelude.{
  ℕ, ◌≤◌, ◌<◌, ◌≡◌, ◌≢◌, refl, sym, ◌∙◌, Bool, true, false, Option, none, some, List, [], ◌∷◌,
  String, arith, Option-cases, inl, inr,
}
use ignis_test.Prelude.Floats.{Floats}
use ignis_test.Verifier.Decimal.{incident_name, incident_name-injective}
use ignis_test.Verifier.Settings.{SameSettings, SameSettings-trans}
use ignis_test.Verifier.Invariant.{IsConsistent}
use ignis_test.Verifier.Traces.{Frame, IsConsistent-run, SameSettings-run}
use ignis_test.Verifier.Gate.{
  Detection, FireVerifier, observe, on_relevant, on_missing, update_by, update, is_relevant, run,
}

module _ {F : Type 0} (floats : Floats F) where
  counter-on_relevant :
      (now : ℕ) (v : FireVerifier F)
      → (v.counter ≤ (on_relevant floats now v).counter)
        × (v.state.incident_id ≡ none → v.counter < (on_relevant floats now v).counter)
  unfolding on_relevant
  counter-on_relevant now v = by_incident v.state.incident_id refl
    where
      by_incident :
          (o : Option String)
          → v.state.incident_id ≡ o
          → (v.counter ≤ (on_relevant floats now v).counter)
            × (v.state.incident_id ≡ none → v.counter < (on_relevant floats now v).counter)
      by_incident none e = ground arith
      by_incident (some id) e = ground arith

  counter-on_missing :
      (now : ℕ) (o : Option String) (v : FireVerifier F)
      → v.state.incident_id ≡ o
      → (v.counter ≡ (on_missing floats now o v).counter)
        × (o ≡ none → (on_missing floats now o v).state.incident_id ≡ none)
  unfolding on_missing
  counter-on_missing now none v e = (refl, λ n. e)
  counter-on_missing now (some id) v e = ground arith

  -- The counter never falls, and rises where an incident is opened.
  counter-update :
      (now : ℕ) (detections : List (Detection F)) (v : FireVerifier F)
      → (v.counter ≤ (update floats now detections v).counter)
        × ((id : String)
            → v.state.incident_id ≡ none
            → (update floats now detections v).state.incident_id ≡ some id
            → v.counter < (update floats now detections v).counter)
  unfolding update
  counter-update now detections v = by_test (is_relevant floats v detections)
    where
      by_test :
          (b : Bool)
          → (v.counter ≤ (update_by floats b now detections v).counter)
            × ((id : String)
                → v.state.incident_id ≡ none
                → (update_by floats b now detections v).state.incident_id ≡ some id
                → v.counter < (update_by floats b now detections v).counter)
      by_test true =
          let (le, lt) = counter-on_relevant now (observe floats true detections v) in
          (le, λ id n s. lt n)
      by_test false =
          let (same, idle) =
            counter-on_missing now v.state.incident_id (observe floats false detections v) refl in
          (omega (arith, same), λ id n s. absurd (let e = idle n in cc))

  counter-run-le :
      (frames : List (Frame F)) (v : FireVerifier F) → v.counter ≤ (run floats frames v).counter
  unfolding run
  counter-run-le [] v = omega arith
  counter-run-le ((now, detections) ∷ frames) v = omega (
    arith,
    (counter-update now detections v).0,
    counter-run-le frames (update floats now detections v),
  )

  counter-run-lt :
      (frames : List (Frame F)) (v : FireVerifier F) (id : String)
      → v.state.incident_id ≡ none
      → (run floats frames v).state.incident_id ≡ some id
      → v.counter < (run floats frames v).counter
  unfolding run
  counter-run-lt [] v id n s = absurd (cc)
  counter-run-lt ((now, detections) ∷ frames) v id n s =
      let u = update floats now detections v in
      let (le, lt) = counter-update now detections v in
      elim (Option-cases u.state.incident_id) [
        | inl idle ↦ omega (arith, le, counter-run-lt frames u id idle s)
        | inr (other, opened) ↦ omega (arith, lt other n opened, counter-run-le frames u)
      ]

  -- Of two incidents that one verifier has at two times of a run, between which it has none, the
  -- names are different.
  pub incident_names_differ :
      (v : FireVerifier F) (frames later : List (Frame F)) (first second : String)
      → IsConsistent v
      → v.state.incident_id ≡ some first
      → (run floats frames v).state.incident_id ≡ none
      → (run floats later (run floats frames v)).state.incident_id ≡ some second
      → first ≢ second
  incident_names_differ v frames later first second c one idle two same =
      let m = run floats frames v in
      let u = run floats later m in
      let left = (c.active first one).0 in
      let consistent : IsConsistent u =
        IsConsistent-run floats later m (IsConsistent-run floats frames v c) in
      let kept : SameSettings v u =
        SameSettings-trans floats (SameSettings-run floats frames v)
          (SameSettings-run floats later m) in
      let right : second ≡ incident_name v.device_id v.boot_id u.counter =
        (consistent.active second two).0 ∙ rw (kept.device_id, kept.boot_id) refl in
      omega (
        arith,
        incident_name-injective v.device_id v.boot_id v.counter u.counter
            (sym left ∙ (same ∙ right)),
        counter-run-le frames v,
        counter-run-lt later m second idle two,
      )
