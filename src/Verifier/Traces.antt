-- ===== src/Verifier/Traces.antt =====
-- `FireVerifier` over a run of frames.
use ignis_test.Prelude.{
  ℕ, suc, ◌+◌, ◌≤◌, ◌≡◌, refl, Bool, true, false, inl, inr, List, [], ◌∷◌, arith, Bool-cases,
  if◌then◌else◌,
}
use ignis_test.Prelude.Floats.{Floats}
use ignis_test.Verifier.Window.{hits-push-le}
use ignis_test.Verifier.Settings.{
  SameSettings, SameSettings-refl, SameSettings-trans, SameSettings-update,
  is_relevant-SameSettings,
}
use ignis_test.Verifier.Invariant.{IsConsistent, update-IsConsistent}
use ignis_test.Verifier.Confirm.{confirm_needs}
use ignis_test.Verifier.Gate.{Detection, FireVerifier, hits, update_by, update, is_relevant, run}

abbrev pub Frame : Type 0 → Type 0
Frame F = ℕ × List (Detection F)

module _ {F : Type 0} (floats : Floats F) where
  -- How many frames of a run count as relevant under the settings of `v`.
  abbrev pub relevant_frames : FireVerifier F → List (Frame F) → ℕ
  relevant_frames v [] = 0
  relevant_frames v ((now, detections) ∷ frames) =
      let rest = relevant_frames v frames in
      if is_relevant floats v detections then suc rest else rest

  hits-update-le :
      (now : ℕ) (detections : List (Detection F)) (v : FireVerifier F)
      → hits (update floats now detections v).window
        ≤ hits v.window + hits (is_relevant floats v detections ∷ [])
  unfolding update
  hits-update-le now detections v = by_test (is_relevant floats v detections)
    where
      by_test :
          (b : Bool)
          → hits (update_by floats b now detections v).window ≤ hits v.window + hits (b ∷ [])
      by_test true = ground (arith, hits-push-le v.max_window v.window true)
      by_test false = ground (arith, hits-push-le v.max_window v.window false)

  -- `n` frames of the run so far were relevant: the window shows no more, and a confirmed incident
  -- needed that many.
  pub record IsBacked (v : FireVerifier F) (n : ℕ) : Type 0 where
    pub shown : hits v.window ≤ n
    pub needed : v.state.confirmed ≡ true → v.required ≤ n

  pub update-IsBacked :
      (now : ℕ) (detections : List (Detection F)) (v : FireVerifier F) (n : ℕ)
      → IsBacked v n
      → IsBacked (update floats now detections v) (n + hits (is_relevant floats v detections ∷ []))
  update-IsBacked now detections v n b = record {
    shown = omega (arith, b.shown, hits-update-le now detections v);
    needed = λ k. elim (Bool-cases v.state.confirmed) [
      | inl before ↦
          omega (arith, b.needed before, (SameSettings-update floats now detections v).required)
      | inr fresh ↦ omega (
        arith,
        (confirm_needs floats now detections v fresh k).1,
        hits-update-le now detections v,
        b.shown,
        (SameSettings-update floats now detections v).required,
      )
    ];
  }

  pub IsConsistent-run :
      (frames : List (Frame F)) (v : FireVerifier F)
      → IsConsistent v
      → IsConsistent (run floats frames v)
  unfolding run
  IsConsistent-run [] v c = c
  IsConsistent-run ((now, detections) ∷ frames) v c =
      IsConsistent-run frames (update floats now detections v)
        (update-IsConsistent floats now detections v c)

  pub SameSettings-run :
      (frames : List (Frame F)) (v : FireVerifier F) → SameSettings v (run floats frames v)
  unfolding run
  SameSettings-run [] v = SameSettings-refl floats v
  SameSettings-run ((now, detections) ∷ frames) v =
      SameSettings-trans floats (SameSettings-update floats now detections v)
        (SameSettings-run frames (update floats now detections v))

  pub relevant_frames-SameSettings :
      (v u : FireVerifier F) (frames : List (Frame F))
      → SameSettings v u
      → relevant_frames u frames ≡ relevant_frames v frames
  relevant_frames-SameSettings v u [] s = refl
  relevant_frames-SameSettings v u ((now, detections) ∷ frames) s = ground (
    arith,
    is_relevant-SameSettings floats detections s,
    relevant_frames-SameSettings v u frames s,
  )

  run-IsBacked :
      (frames : List (Frame F)) (v : FireVerifier F) (n : ℕ)
      → IsBacked v n
      → IsBacked (run floats frames v) (n + relevant_frames v frames)
  unfolding run
  run-IsBacked [] v n b = record {
    shown = omega (arith, b.shown);
    needed = λ k. omega (arith, b.needed k);
  }
  run-IsBacked ((now, detections) ∷ frames) v n b =
      let u = update floats now detections v in
      let m = n + hits (is_relevant floats v detections ∷ []) in
      let whole : IsBacked (run floats frames u) (m + relevant_frames u frames) =
        run-IsBacked frames u m (update-IsBacked now detections v n b) in
      let same : m + relevant_frames u frames ≡ n + relevant_frames v ((now, detections) ∷ frames) =
        ground (
          arith,
          relevant_frames-SameSettings v u frames (SameSettings-update floats now detections v),
        ) in
      rw same at whole

  -- From a verifier with nothing in its window and nothing confirmed, a run that ends in a confirmed
  -- incident had as many relevant frames as are required: no single model output confirms a fire,
  -- where two at least are required.
  pub confirmed_needs_frames :
      (frames : List (Frame F)) (v : FireVerifier F)
      → v.window ≡ []
      → v.state.confirmed ≡ false
      → (run floats frames v).state.confirmed ≡ true
      → v.required ≤ relevant_frames v frames
  confirmed_needs_frames frames v empty none_yet k =
      let start : IsBacked v 0 = record {
        shown = rw empty (omega arith);
        needed = λ t. absurd (cc);
      } in
      omega (arith, (run-IsBacked frames v 0 start).needed k, (SameSettings-run frames v).required)
