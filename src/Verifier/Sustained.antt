-- ===== src/Verifier/Sustained.antt =====
-- A fire that stays in view is confirmed.
use ignis_test.Prelude.{
  ℕ, suc, ◌+◌, ◌≤◌, ◌≡◌, Bool, true, false, List, [], ◌∷◌, arith, length, min, All,
}
use ignis_test.Prelude.Floats.{Floats}
use ignis_test.Verifier.Window.{trailing, trailing-le-hits, trailing-push-true}
use ignis_test.Verifier.Settings.{SameSettings, SameSettings-update, is_relevant-SameSettings}
use ignis_test.Verifier.Traces.{Frame, SameSettings-run}
use ignis_test.Verifier.Gate.{Detection, FireVerifier, hits, update_by, update, is_relevant, run}

module _ {F : Type 0} (floats : Floats F) where
  trailing-update :
      (now : ℕ) (detections : List (Detection F)) (v : FireVerifier F)
      → is_relevant floats v detections ≡ true
      → min (suc (trailing v.window)) v.max_window
        ≤ trailing (update floats now detections v).window
  unfolding update
  trailing-update now detections v r =
      rw (r, update_by) (ground (arith, trailing-push-true v.max_window v.window))

  update_confirms :
      (now : ℕ) (detections : List (Detection F)) (v : FireVerifier F)
      → is_relevant floats v detections ≡ true
      → v.required ≤ hits (update floats now detections v).window
      → (update floats now detections v).state.first_detection_ns + v.confirm_ns ≤ now
      → (update floats now detections v).state.confirmed ≡ true
  unfolding update
  update_confirms now detections v r enough old =
      by_test (is_relevant floats v detections) r enough old
    where
      by_test :
          (b : Bool)
          → b ≡ true
          → v.required ≤ hits (update_by floats b now detections v).window
          → (update_by floats b now detections v).state.first_detection_ns + v.confirm_ns ≤ now
          → (update_by floats b now detections v).state.confirmed ≡ true
      by_test false t e o = cc
      by_test true t e o = ground arith

  -- Every frame is relevant under the settings of `v`.
  abbrev pub AllRelevant : FireVerifier F → List (Frame F) → Type 0
  AllRelevant v = All (λ frame. is_relevant floats v frame.1 ≡ true)

  AllRelevant-SameSettings :
      (v u : FireVerifier F) (frames : List (Frame F))
      → SameSettings v u
      → AllRelevant v frames
      → AllRelevant u frames
  AllRelevant-SameSettings v u [] s h = tt
  AllRelevant-SameSettings v u ((now, detections) ∷ frames) s h = (
    rw (is_relevant-SameSettings floats detections s) h.0,
    AllRelevant-SameSettings v u frames s h.1,
  )

  trailing-run :
      (frames : List (Frame F)) (v : FireVerifier F)
      → AllRelevant v frames
      → min (trailing v.window + length frames) v.max_window ≤ trailing (run floats frames v).window
  unfolding run
  trailing-run [] v h = omega arith
  trailing-run ((now, detections) ∷ frames) v h =
      let u = update floats now detections v in
      let same = SameSettings-update floats now detections v in
      omega (
        arith,
        trailing-update now detections v h.0,
        same.max_window,
        trailing-run frames u (AllRelevant-SameSettings v u frames same h.1),
      )

  -- After frames that are all relevant, one more relevant frame confirms the incident, where the
  -- window can hold the required hits, the frames are as many as are required, and the incident is
  -- then as old as is required.
  pub sustained_fire_confirms :
      (frames : List (Frame F)) (now : ℕ) (detections : List (Detection F)) (v : FireVerifier F)
      → AllRelevant v frames
      → is_relevant floats v detections ≡ true
      → v.required ≤ suc (length frames)
      → v.required ≤ v.max_window
      → (update floats now detections (run floats frames v)).state.first_detection_ns + v.confirm_ns
        ≤ now
      → (update floats now detections (run floats frames v)).state.confirmed ≡ true
  sustained_fire_confirms frames now detections v all last enough room old =
      let u = run floats frames v in
      let same = SameSettings-run floats frames v in
      let relevant : is_relevant floats u detections ≡ true =
        rw (is_relevant-SameSettings floats detections same) last in
      update_confirms now detections u relevant
        (omega (
          arith,
          trailing-run frames v all,
          trailing-update now detections u relevant,
          trailing-le-hits (update floats now detections u).window,
          same.max_window,
          same.required,
        ))
        (omega (arith, old, same.confirm_ns))
