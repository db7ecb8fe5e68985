-- ===== src/Verifier/Settings.antt =====
-- `update` changes no setting of a `FireVerifier`.
use ignis_test.Prelude.{ℕ, ◌≡◌, Bool, true, false, List, arith}
use ignis_test.Prelude.Floats.{Floats}
use ignis_test.Verifier.Gate.{Detection, FireVerifier, update_by, update, is_relevant}

pub record SameSettings {F : Type 0} (v u : FireVerifier F) : Type 0 where
  pub device_id : u.device_id ≡ v.device_id
  pub boot_id : u.boot_id ≡ v.boot_id
  pub max_window : u.max_window ≡ v.max_window
  pub required : u.required ≡ v.required
  pub fire_threshold : u.fire_threshold ≡ v.fire_threshold
  pub smoke_threshold : u.smoke_threshold ≡ v.smoke_threshold
  pub confirm_ns : u.confirm_ns ≡ v.confirm_ns
  pub clear_ns : u.clear_ns ≡ v.clear_ns
  pub reset_ns : u.reset_ns ≡ v.reset_ns

module _ {F : Type 0} (floats : Floats F) where
  pub SameSettings-refl : (v : FireVerifier F) → SameSettings v v
  SameSettings-refl v = ground arith

  pub SameSettings-trans :
      {u v w : FireVerifier F} → SameSettings u v → SameSettings v w → SameSettings u w
  SameSettings-trans a b = ground arith

  pub SameSettings-update :
      (now : ℕ) (detections : List (Detection F)) (v : FireVerifier F)
      → SameSettings v (update floats now detections v)
  unfolding update
  SameSettings-update now detections v = by_test (is_relevant floats v detections)
    where
      by_test : (b : Bool) → SameSettings v (update_by floats b now detections v)
      by_test true = ground arith
      by_test false = ground arith

  -- What counts as relevant does not change along a run.
  pub is_relevant-SameSettings :
      {v u : FireVerifier F} (detections : List (Detection F))
      → SameSettings v u
      → is_relevant floats u detections ≡ is_relevant floats v detections
  unfolding is_relevant
  is_relevant-SameSettings detections s = cc
