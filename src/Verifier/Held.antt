-- ===== src/Verifier/Held.antt =====
-- A confirmed incident over a run of frames.
use mathlib.Core.Path.{subst}
use ignis_test.Prelude.{
  sym, ℕ, ◌+◌, ◌≤◌, ◌<◌, ◌≡◌, true, false, inl, inr, some, List, [], ◌∷◌, String, arith, Bool-cases,
  if◌then◌else◌,
}
use ignis_test.Prelude.Floats.{Floats}
use ignis_test.Verifier.Settings.{SameSettings, SameSettings-update, is_relevant-SameSettings}
use ignis_test.Verifier.Confirm.{confirmed_stays}
use ignis_test.Verifier.Traces.{Frame}
use ignis_test.Verifier.Gate.{FireVerifier, update, is_relevant, run}

module _ {F : Type 0} (floats : Floats F) where
  -- Each frame is relevant under the settings of `v`, or sooner than the clear time after the last
  -- one that was, which `last` is at the start.
  abbrev pub AreNear : FireVerifier F → ℕ → List (Frame F) → Type 0
  AreNear v last [] = Unit {0}
  AreNear v last ((now, detections) ∷ frames) =
      ((is_relevant floats v detections ≡ false) → now < last + v.clear_ns)
      × AreNear v (if is_relevant floats v detections then now else last) frames

  AreNear-SameSettings :
      (v u : FireVerifier F) (frames : List (Frame F)) (last : ℕ)
      → SameSettings v u
      → AreNear v last frames
      → AreNear u last frames
  AreNear-SameSettings v u [] last s near = tt
  AreNear-SameSettings v u ((now, detections) ∷ frames) last s near =
      rw (is_relevant-SameSettings floats detections s, s.clear_ns)
        (near.0, AreNear-SameSettings v u frames _ s near.1)

  -- A confirmed incident stays confirmed, under its name, over a run of frames each of which is
  -- relevant or sooner than the clear time after the last relevant one, where the clear time is no
  -- longer than the reset time.
  pub confirmed_over_run :
      (frames : List (Frame F)) (v : FireVerifier F) (id : String)
      → v.state.incident_id ≡ some id
      → v.state.confirmed ≡ true
      → v.clear_ns ≤ v.reset_ns
      → AreNear v v.state.last_relevant_ns frames
      → ((run floats frames v).state.confirmed ≡ true)
        × ((run floats frames v).state.incident_id ≡ some id)
  unfolding run
  confirmed_over_run [] v id i k order near = (k, i)
  confirmed_over_run ((now, detections) ∷ frames) v id i k order near =
      let u = update floats now detections v in
      let s = SameSettings-update floats now detections v in
      let (confirmed, named, last) =
        confirmed_stays floats now detections v id i k
          (elim (Bool-cases (is_relevant floats v detections)) [
            | inl hit ↦ inl hit
            | inr miss ↦ inr (omega (arith, near.0 miss, order))
          ]) in
      confirmed_over_run frames u id named confirmed (omega (arith, s.clear_ns, s.reset_ns, order))
        (subst (λ t. AreNear u t frames) (sym last) (AreNear-SameSettings v u frames _ s near.1))
