-- ===== src/Device/Detector/Decode.antt =====
-- `_decode_yolo_v8` as a whole: its errors, and what it returns.
use ignis_test.Prelude.{
  ℕ, zero, suc, ◌+◌, ◌≡◌, ◌≢◌, refl, true, false, ◌⊎◌, inl, inr, Option, none, some, List, [], ◌∷◌,
  String, All, length, ◌==◌, ==_iff, arith, ◌||◌, not, Bool-cases,
}
use ignis_test.Verifier.Gate.{Detection}
use ignis_test.Device.Detector.{
  Arithmetic, Matrix, Numpy, Result, ok, max_float, min_float, box_of, keep_box, label_of,
  is_hazard, slice, Decoding, scaled_box, decode_row, joined, candidates_from, oriented, candidates,
  class_aware_nms, decode_yolo_v8,
}
use ignis_test.Device.Detector.Suppression.{
  IsTotal, IsSelection, All-class_aware_nms, class_aware_nms-IsSelection,
}

module _ {F : Type 0} (m : Arithmetic F) (d : Decoding F) where
  open m use {of_nat, floats.{zero_float, geb, gtb}}

  -- A box that is not empty, inside the picture.
  pub record IsBox (box : F × F × F × F) : Type 0 where
    pub left : geb box.0 zero_float ≡ true
    pub top : geb box.1 zero_float ≡ true
    pub right : geb (of_nat 1) box.2 ≡ true
    pub bottom : geb (of_nat 1) box.3 ≡ true
    pub wide : geb box.0 box.2 ≡ false
    pub high : geb box.1 box.3 ≡ false

  -- A detection of fire or smoke, as confident as is asked for.
  pub record IsDetection (x : Detection F) : Type 0 where
    pub hazard : is_hazard x.class_name ≡ true
    pub labelled : x.class_name ≡ label_of d.labels x.class_id
    pub confident : geb x.confidence d.threshold ≡ true
    pub box : IsBox x.bbox

  abbrev pub OnSome : (Detection F → Type 0) → Option (Detection F) → Type 0
  OnSome P none = Unit {0}
  OnSome P (some x) = P x

  -- The program can divide by the size of the input.
  abbrev pub HasSize : Type 0
  HasSize = (d.input_width ≢ 0) × (d.input_height ≢ 0)

  -- The shape that the labels ask for, in one of the two orientations.
  abbrev pub HasShape : Matrix F → Type 0
  HasShape p = (p.rows ≡ 4 + length d.labels) ⊎ (p.columns ≡ 4 + length d.labels)

  module _ (t : IsTotal m.floats) where
    pub max_float-ge : (a b : F) → geb (max_float m a b) a ≡ true
    max_float-ge a b = ground (arith, t.strict b a, t.total a a, t.total b a)

    pub min_float-le : (a b : F) → geb a (min_float m a b) ≡ true
    min_float-le a b = ground (arith, t.strict a b, t.total a a, t.total a b)

    -- What the clipped coordinates keep to, before the test on an empty box.
    abbrev pub IsClipped : F × F × F × F → Type 0
    IsClipped box =
        (geb box.0 zero_float ≡ true)
        × (geb box.1 zero_float ≡ true)
        × (geb (of_nat 1) box.2 ≡ true)
        × (geb (of_nat 1) box.3 ≡ true)

    box_of-IsClipped : (x y w h : F) → IsClipped (box_of m x y w h)
    box_of-IsClipped x y w h = (
      max_float-ge zero_float _,
      max_float-ge zero_float _,
      min_float-le (of_nat 1) _,
      min_float-le (of_nat 1) _,
    )

    pub keep_box-IsDetection :
        (name : String) (class_id : ℕ) (confidence : F) (box : F × F × F × F)
        → is_hazard name ≡ true
        → name ≡ label_of d.labels class_id
        → geb confidence d.threshold ≡ true
        → IsClipped box
        → OnSome IsDetection (keep_box m name class_id confidence box)
    unfolding keep_box
    keep_box-IsDetection name class_id confidence box hazard label confident c =
        elim (Bool-cases (geb box.0 box.2 || geb box.1 box.3)) [
          | inl empty ↦ rw empty tt
          | inr full ↦ rw full (record {
            hazard = hazard;
            labelled = label;
            confident = confident;
            box = record {
              left = c.0;
              top = c.1;
              right = c.2;
              bottom = c.3;
              wide = ground arith;
              high = ground arith;
            };
          })
        ]

    scaled_box-IsClipped :
        (row : ℕ → F)
        → HasSize
        → (box : F × F × F × F) × (scaled_box m d row ≡ ok box) × IsClipped box
    unfolding scaled_box
    scaled_box-IsClipped row s = elim (Bool-cases d.coordinates_are_pixels) [
      | inl pixels ↦ rw (pixels, has_size) (_, refl, box_of-IsClipped _ _ _ _)
      | inr normalized ↦ rw normalized (_, refl, box_of-IsClipped _ _ _ _)
    ]
      where
        has_size : (d.input_width == 0 || d.input_height == 0) ≡ false
        has_size = ground (arith, ==_iff d.input_width 0, ==_iff d.input_height 0)

module _ {F : Type 0} (m : Arithmetic F) (np : Numpy F) (d : Decoding F)
    (t : IsTotal m.floats) where
  open m use {floats.{gtb}}

  decode_row-IsDetection :
      (row : ℕ → F)
      → HasSize m d
      → (o : Option (Detection F)) × (decode_row m np d row ≡ ok o) × OnSome m d (IsDetection m d) o
  unfolding decode_row
  decode_row-IsDetection row s =
      let class_id = np.argmax (slice row 4 (length d.labels)) in
      let name = label_of d.labels class_id in
      elim (Bool-cases (gtb d.threshold (row (4 + class_id)) || not (is_hazard name))) [
        | inl skipped ↦ rw skipped (none, refl, tt)
        | inr read ↦
            let (box, e, clipped) = scaled_box-IsClipped m d t row s in
            rw (read, e)
              (
                _,
                refl,
                keep_box-IsDetection m d t name class_id (row (4 + class_id)) box (ground arith)
                    refl (ground (arith, t.strict d.threshold (row (4 + class_id)))) clipped,
              )
      ]

  joined-IsDetection :
      (r : Result (Option (Detection F))) (q : Result (List (Detection F)))
      → ((o : Option (Detection F)) × (r ≡ ok o) × OnSome m d (IsDetection m d) o)
      → ((xs : List (Detection F)) × (q ≡ ok xs) × All (IsDetection m d) xs)
      → (xs : List (Detection F)) × (joined r q ≡ ok xs) × All (IsDetection m d) xs
  joined-IsDetection r q (none, e, h) (xs, e', hs) = rw (e, e') (xs, refl, hs)
  joined-IsDetection r q (some x, e, h) (xs, e', hs) = rw (e, e') (x ∷ xs, refl, (h, hs))

  candidates_from-IsDetection :
      (p : Matrix F) (first n : ℕ)
      → HasSize m d
      → (xs : List (Detection F)) × (candidates_from m np d p first n ≡ ok xs)
        × All (IsDetection m d) xs
  unfolding candidates_from
  candidates_from-IsDetection p first zero s = ([], refl, tt)
  candidates_from-IsDetection p first (suc n) s =
      joined-IsDetection _ _ (decode_row-IsDetection (p.at first) s)
        (candidates_from-IsDetection p (first + 1) n s)

  oriented-ok : (p : Matrix F) → HasShape m d p → (q : Matrix F) × (oriented m np d p ≡ ok q)
  oriented-ok p h = elim (Bool-cases (p.rows == 4 + length d.labels)) [
    | inl columns_first ↦ rw columns_first (_, refl)
    | inr rows_first ↦ (p, ground (arith, ==_iff p.columns (4 + length d.labels)))
  ]

  -- With floats that are no NaN, an output of the shape that the labels ask for is decoded without
  -- an error, where the input has a size. What is returned is selected among the candidates, by
  -- falling confidence, with no two of one class that overlap by more than the threshold, and a
  -- candidate is left out only where a detection that was kept, of its class and as confident at
  -- least, overlaps it so; and each is fire or smoke, as confident as is asked for, with a box in the
  -- picture that is not empty.
  pub decode_yolo_v8-IsSelection :
      (iou_threshold : F) (p : Matrix F)
      → HasShape m d p
      → HasSize m d
      → (cs : List (Detection F)) × (candidates m np d (some p) ≡ ok cs)
        × (decode_yolo_v8 m np d iou_threshold (some p) ≡ ok (class_aware_nms m cs iou_threshold))
        × IsSelection m iou_threshold cs (class_aware_nms m cs iou_threshold)
        × All (IsDetection m d) (class_aware_nms m cs iou_threshold)
  unfolding candidates decode_yolo_v8
  decode_yolo_v8-IsSelection iou_threshold p h s =
      let (q, turned) = oriented-ok p h in
      let (cs, e, hs) = candidates_from-IsDetection q 0 q.rows s in
      (
        cs,
        rw turned e,
        rw (turned, e) refl,
        class_aware_nms-IsSelection m t cs iou_threshold,
        All-class_aware_nms m (IsDetection m d) cs iou_threshold hs,
      )
