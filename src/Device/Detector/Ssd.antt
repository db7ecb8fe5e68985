-- ===== src/Device/Detector/Ssd.antt =====
-- poc/pi/ignis_poc/model.py: the branch of `detect` for an SSD model, behind the interpreter. The
-- arrays are lists, a box is its four values, and `rounded` is `int(round(x))`, `none` below zero,
-- where no label is.
use ignis_test.Prelude.{
  ℕ, zero, suc, ◌≡◌, refl, Bool, true, false, not, ◌||◌, Option, none, some, List, [], ◌∷◌, All,
  if◌then◌else◌, Bool-cases, inl, inr, arith,
}
use ignis_test.Verifier.Gate.{Detection}
use ignis_test.Device.Detector.{
  Arithmetic, max_float, min_float, keep_box, label_of, is_hazard, Decoding,
}
use ignis_test.Device.Detector.Suppression.{IsTotal}
use ignis_test.Device.Detector.Decode.{
  IsDetection, OnSome, max_float-ge, min_float-le, keep_box-IsDetection,
}

-- `raw_class_id if zero_based else raw_class_id - 1`
abbrev pub class_from : Bool → Option ℕ → Option ℕ
class_from zero_based none = none
class_from true (some k) = some k
class_from false (some zero) = none
class_from false (some (suc k)) = some k

module _ {F : Type 0} (m : Arithmetic F) (d : Decoding F) where
  open m use {of_nat, floats.{zero_float, geb, gtb}}

  -- `max(0.0, min(1.0, value))`
  abbrev pub clipped : F → F
  clipped value = max_float m zero_float (min_float m (of_nat 1) value)

  -- From `y_min, x_min, y_max, x_max`
  abbrev pub clipped_box : F × F × F × F → F × F × F × F
  clipped_box (y_min, x_min, y_max, x_max) =
      (clipped x_min, clipped y_min, clipped x_max, clipped y_max)

  -- A round of the loop; `none` is a `continue`.
  unfoldable pub decode_ssd : Option ℕ → F → F × F × F × F → Option (Detection F)
  unfolding keep_box label_of
  decode_ssd none confidence box = none
  decode_ssd (some class_id) confidence box =
      let name = label_of d.labels class_id in
      if gtb d.threshold confidence || not (is_hazard name)
      then none
      else keep_box m name class_id confidence (clipped_box box)

  abbrev pub appended : Option (Detection F) → List (Detection F) → List (Detection F)
  appended none rest = rest
  appended (some x) rest = x ∷ rest

  -- The loop, which ends with the count or with the shortest of the arrays
  unfoldable pub ssd_detections :
      (F → Option ℕ) → Bool → ℕ → List F → List F → List (F × F × F × F) → List (Detection F)
  unfolding decode_ssd
  ssd_detections rounded zero_based (suc count) (score ∷ scores) (c ∷ classes) (box ∷ boxes) =
      appended (decode_ssd (class_from zero_based (rounded c)) score box)
        (ssd_detections rounded zero_based count scores classes boxes)
  ssd_detections rounded zero_based count scores classes boxes = []

  module _ (t : IsTotal m.floats) (one_above : geb (of_nat 1) zero_float ≡ true) where
    clipped_range :
        (value : F)
        → (geb (clipped value) zero_float ≡ true) × (geb (of_nat 1) (clipped value) ≡ true)
    clipped_range value = (
      max_float-ge m d t zero_float _,
      ground (arith, min_float-le m d t (of_nat 1) value, one_above),
    )

    decode_ssd-IsDetection :
        (o : Option ℕ) (score : F) (box : F × F × F × F)
        → OnSome m d (IsDetection m d) (decode_ssd o score box)
    unfolding decode_ssd
    decode_ssd-IsDetection none score box = tt
    decode_ssd-IsDetection (some k) score (y_min, x_min, y_max, x_max) =
        elim (Bool-cases (gtb d.threshold score || not (is_hazard (label_of d.labels k)))) [
          | inl skipped ↦ rw skipped tt
          | inr passing ↦ rw passing (
              keep_box-IsDetection m d t (label_of d.labels k) k score _ (ground arith) refl
                (ground (arith, t.strict d.threshold score, t.total d.threshold score))
                (
                  (clipped_range x_min).0,
                  (clipped_range y_min).0,
                  (clipped_range x_max).1,
                  (clipped_range y_max).1,
                ))
        ]

    All-appended :
        (o : Option (Detection F)) (rest : List (Detection F))
        → OnSome m d (IsDetection m d) o
        → All (IsDetection m d) rest
        → All (IsDetection m d) (appended o rest)
    All-appended none rest h hs = hs
    All-appended (some x) rest h hs = (h, hs)

    -- With floats that are no NaN, whatever the arrays of an SSD model hold, each detection is fire or
    -- smoke, as confident as is asked for, with a box in the picture that is not empty.
    pub ssd_detections-IsDetection :
        (rounded : F → Option ℕ) (zero_based : Bool) (count : ℕ) (scores classes : List F)
        (boxes : List (F × F × F × F))
        → All (IsDetection m d) (ssd_detections rounded zero_based count scores classes boxes)
    unfolding ssd_detections
    ssd_detections-IsDetection rounded zero_based zero scores classes boxes = tt
    ssd_detections-IsDetection rounded zero_based (suc n) [] classes boxes = tt
    ssd_detections-IsDetection rounded zero_based (suc n) (s ∷ ss) [] boxes = tt
    ssd_detections-IsDetection rounded zero_based (suc n) (s ∷ ss) (c ∷ cs) [] = tt
    ssd_detections-IsDetection rounded zero_based (suc n) (s ∷ ss) (c ∷ cs) (b ∷ bs) =
        All-appended _ _ (decode_ssd-IsDetection (class_from zero_based (rounded c)) s b)
          (ssd_detections-IsDetection rounded zero_based n ss cs bs)
