-- ===== src/Device/Detector.antt =====
-- poc/pi/ignis_poc/model.py: `_decode_yolo_v8`, `_iou` and `_class_aware_nms` of `TFLiteDetector`.
-- The squeezed output is a `Matrix` where it has two dimensions. Numpy's argmax and transposition
-- and the arithmetic of floats are arguments. `sorted` is an insertion sort: both are stable.
pub mod Suppression
pub mod Decode
pub mod Ssd
mod Examples
use Prim.Native.String.{◌++◌ as str_append}
use ignis_test.Prelude.{
  ℕ, zero, suc, ◌+◌, Bool, true, not, ◌&&◌, ◌||◌, Option, none, some, List, [], ◌∷◌, ◌++◌, String,
  str_eq, ◌==◌, if◌then◌else◌, length,
}
use ignis_test.Prelude.Floats.{Floats}
use ignis_test.Verifier.Decimal.{decimal}
use ignis_test.Verifier.Gate.{Detection}

pub record Arithmetic (F : Type 0) : Type 0 where
  pub floats : Floats F
  pub of_nat : ℕ → F
  pub add : F → F → F
  pub sub : F → F → F
  pub mul : F → F → F
  -- only by a float that is not zero
  pub div : F → F → F

-- A numpy array of two dimensions, read by row and column.
pub record Matrix (F : Type 0) : Type 0 where
  pub rows : ℕ
  pub columns : ℕ
  pub at : ℕ → ℕ → F

pub record Numpy (F : Type 0) : Type 0 where
  -- `.T`
  pub transpose : Matrix F → Matrix F
  -- `np.argmax` of one row
  pub argmax : List F → ℕ

pub data DecodeError : Type 0 where
  not_rank_two columns_mismatch division_by_zero : DecodeError

pub data Result {ℓ} (A : Type ℓ) : Type ℓ where
  ok : A → Result A
  err : DecodeError → Result A

module _ {F : Type 0} (m : Arithmetic F) where
  open m use {of_nat, add, sub, mul, div, floats.{zero_float, geb, gtb}}

  -- Python's `max(a, b)` and `min(a, b)`
  abbrev pub max_float : F → F → F
  max_float a b = if gtb b a then b else a

  abbrev pub min_float : F → F → F
  min_float a b = if gtb a b then b else a

  -- `_iou`
  unfoldable pub iou : Detection F → Detection F → F
  iou left right =
      let l = left.bbox in
      let r = right.bbox in
      let width = max_float zero_float (sub (min_float l.2 r.2) (max_float l.0 r.0)) in
      let height = max_float zero_float (sub (min_float l.3 r.3) (max_float l.1 r.1)) in
      let intersection = mul width height in
      let left_area = mul (sub l.2 l.0) (sub l.3 l.1) in
      let right_area = mul (sub r.2 r.0) (sub r.3 r.1) in
      let union = sub (add left_area right_area) intersection in
      if gtb union zero_float then div intersection union else zero_float

  -- `candidate.class_id != kept.class_id or self._iou(candidate, kept) <= iou_threshold`
  unfoldable pub passes : F → Detection F → Detection F → Bool
  passes iou_threshold candidate kept =
      not (candidate.class_id == kept.class_id) || geb iou_threshold (iou candidate kept)

  -- `all(… for kept in selected)`
  unfoldable pub passes_all : F → Detection F → List (Detection F) → Bool
  passes_all iou_threshold candidate [] = true
  passes_all iou_threshold candidate (kept ∷ selected) =
      passes iou_threshold candidate kept && passes_all iou_threshold candidate selected

  -- `sorted(candidates, key=lambda item: item.confidence, reverse=True)`
  unfoldable pub insert : Detection F → List (Detection F) → List (Detection F)
  insert c [] = c ∷ []
  insert c (d ∷ ds) =
      let rest = insert c ds in if gtb d.confidence c.confidence then d ∷ rest else c ∷ d ∷ ds

  unfoldable pub by_confidence : List (Detection F) → List (Detection F)
  unfolding insert
  by_confidence [] = []
  by_confidence (c ∷ cs) = insert c (by_confidence cs)

  -- The loop of `_class_aware_nms` over the sorted candidates.
  unfoldable pub select : F → List (Detection F) → List (Detection F) → List (Detection F)
  unfolding passes_all
  select iou_threshold [] selected = selected
  select iou_threshold (c ∷ cs) selected =
      select iou_threshold cs
        (if passes_all iou_threshold c selected then selected ++ c ∷ [] else selected)

  unfoldable pub class_aware_nms : List (Detection F) → F → List (Detection F)
  unfolding select by_confidence
  class_aware_nms candidates iou_threshold = select iou_threshold (by_confidence candidates) []

  -- `coordinates`
  abbrev pub box_of : F → F → F → F → F × F × F × F
  box_of center_x center_y width height = (
    max_float zero_float (sub center_x (div width (of_nat 2))),
    max_float zero_float (sub center_y (div height (of_nat 2))),
    min_float (of_nat 1) (add center_x (div width (of_nat 2))),
    min_float (of_nat 1) (add center_y (div height (of_nat 2))),
  )

  -- The `continue` on an empty box.
  unfoldable pub keep_box : String → ℕ → F → F × F × F × F → Option (Detection F)
  keep_box name class_id confidence box =
      if geb box.0 box.2 || geb box.1 box.3
      then none
      else some
          (record { class_name = name; class_id = class_id; confidence = confidence; bbox = box })

abbrev pub label_at : ℕ → List (ℕ × String) → Option String
label_at k [] = none
label_at k ((j, name) ∷ rest) = let later = label_at k rest in if j == k then some name else later

-- `labels.get(class_index, f"class_{class_index}")`
unfoldable pub label_of : List (ℕ × String) → ℕ → String
label_of labels class_index = elim (label_at class_index labels) [
  | none ↦ str_append "class_" (decimal class_index)
  | some name ↦ name
]

-- `class_name in {"fire", "smoke"}`
abbrev pub is_hazard : String → Bool
is_hazard name = str_eq name "fire" || str_eq name "smoke"

-- The columns `first` to `first + n - 1` of a row
abbrev pub slice : {F : Type 0} → (ℕ → F) → ℕ → ℕ → List F
slice row first zero = []
slice row first (suc n) = row first ∷ slice row (first + 1) n

-- What a call of `_decode_yolo_v8` reads besides the output.
pub record Decoding (F : Type 0) : Type 0 where
  pub threshold : F
  pub labels : List (ℕ × String)
  pub input_width : ℕ
  pub input_height : ℕ
  pub coordinates_are_pixels : Bool

module _ {F : Type 0} (m : Arithmetic F) (d : Decoding F) where
  open m use {of_nat, div}

  -- The division of the four values of a box by the size of the input.
  unfoldable pub scaled_box : (ℕ → F) → Result (F × F × F × F)
  scaled_box row =
      if d.coordinates_are_pixels
      then (if d.input_width == 0 || d.input_height == 0
          then err division_by_zero
          else ok (
              box_of m (div (row 0) (of_nat d.input_width)) (div (row 1) (of_nat d.input_height))
                (div (row 2) (of_nat d.input_width)) (div (row 3) (of_nat d.input_height))))
      else ok (box_of m (row 0) (row 1) (row 2) (row 3))

  abbrev pub boxed : String → ℕ → F → Result (F × F × F × F) → Result (Option (Detection F))
  boxed name class_id confidence (err e) = err e
  boxed name class_id confidence (ok box) = ok (keep_box m name class_id confidence box)

abbrev pub joined :
    {F : Type 0}
    → Result (Option (Detection F))
    → Result (List (Detection F))
    → Result (List (Detection F))
joined (err e) rest = err e
joined (ok none) rest = rest
joined (ok (some x)) (err e) = err e
joined (ok (some x)) (ok xs) = ok (x ∷ xs)

module _ {F : Type 0} (m : Arithmetic F) (np : Numpy F) (d : Decoding F) where
  open m use {floats.{gtb}}

  -- One round of the loop over the rows: `none` is a `continue`.
  unfoldable pub decode_row : (ℕ → F) → Result (Option (Detection F))
  unfolding scaled_box keep_box label_of
  decode_row row =
      let class_id = np.argmax (slice row 4 (length d.labels)) in
      let confidence = row (4 + class_id) in
      let name = label_of d.labels class_id in
      if gtb d.threshold confidence || not (is_hazard name)
      then ok none
      else boxed m d name class_id confidence (scaled_box m d row)

  -- The rows from `first` on, `n` of them.
  unfoldable pub candidates_from : Matrix F → ℕ → ℕ → Result (List (Detection F))
  unfolding decode_row
  candidates_from p first zero = ok []
  candidates_from p first (suc n) =
      joined (decode_row (p.at first)) (candidates_from p (first + 1) n)

  abbrev pub oriented : Matrix F → Result (Matrix F)
  oriented p =
      let columns = 4 + length d.labels in
      if p.rows == columns
      then ok (np.transpose p)
      else if p.columns == columns
      then ok p
      else err columns_mismatch

  abbrev pub candidates_of : Result (Matrix F) → Result (List (Detection F))
  candidates_of (err e) = err e
  candidates_of (ok p) = candidates_from p 0 p.rows

  unfoldable pub candidates : Option (Matrix F) → Result (List (Detection F))
  unfolding candidates_from
  candidates none = err not_rank_two
  candidates (some p) = candidates_of (oriented p)

  abbrev pub suppressed : F → Result (List (Detection F)) → Result (List (Detection F))
  suppressed iou_threshold (err e) = err e
  suppressed iou_threshold (ok cs) = ok (class_aware_nms m cs iou_threshold)

  -- `_decode_yolo_v8`; `iou_threshold` is the float 0.45.
  unfoldable pub decode_yolo_v8 : F → Option (Matrix F) → Result (List (Detection F))
  unfolding candidates class_aware_nms
  decode_yolo_v8 iou_threshold raw = suppressed iou_threshold (candidates raw)
