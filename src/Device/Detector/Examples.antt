-- ===== src/Device/Detector/Examples.antt =====
-- A decoded output with two boxes of one fire and a box of smoke. A float is a number of thousandths
-- here, and what falls below zero is zero.
use ignis_test.Prelude.{
  ℕ, zero, suc, ◌+◌, ◌-◌, ◌*◌, ◌/◌, ◌≡◌, refl, inr, false, some, List, [], ◌∷◌, All, ltb,
  if◌then◌else◌, arith,
}
use ignis_test.Verifier.Gate.{Detection}
use ignis_test.Store.Examples.{floats}
use ignis_test.Device.Detector.{
  Arithmetic, Matrix, Numpy, ok, iou, passes, class_aware_nms, Decoding, candidates, decode_yolo_v8,
}
use ignis_test.Device.Detector.Suppression.{IsTotal, IsSelection}
use ignis_test.Device.Detector.Decode.{IsDetection, decode_yolo_v8-IsSelection}

abbrev thousandths : Arithmetic ℕ
thousandths = record {
  floats = floats;
  of_nat = λ n. n * 1000;
  add = λ a b. a + b;
  sub = λ a b. a - b;
  mul = λ a b. a * b / 1000;
  div = λ a b. a * 1000 / b;
}

IsTotal-thousandths : IsTotal floats
IsTotal-thousandths = record {
  total = λ a b. ground arith;
  transitive = λ a b c h k. ground arith;
  strict = λ a b. ground arith;
}

first_largest : List ℕ → ℕ
first_largest (a ∷ b ∷ []) = if ltb a b then 1 else 0
first_largest _ = 0

abbrev numpy : Numpy ℕ
numpy = record {
  transpose = λ p. record { rows = p.columns; columns = p.rows; at = λ i j. p.at j i };
  argmax = first_largest;
}

abbrev decoding : Decoding ℕ
decoding = record {
  threshold = 450;
  labels = (0, "fire") ∷ (1, "smoke") ∷ [];
  input_width = 320;
  input_height = 320;
  coordinates_are_pixels = false;
}

item : List ℕ → ℕ → ℕ
item [] n = 0
item (x ∷ xs) zero = x
item (x ∷ xs) (suc n) = item xs n

pixels : ℕ → List ℕ
pixels zero = 500 ∷ 500 ∷ 200 ∷ 200 ∷ 600 ∷ 100 ∷ []
pixels (suc zero) = 510 ∷ 500 ∷ 200 ∷ 200 ∷ 900 ∷ 100 ∷ []
pixels (suc (suc zero)) = 500 ∷ 300 ∷ 200 ∷ 200 ∷ 0 ∷ 700 ∷ []
pixels n = 500 ∷ 500 ∷ 200 ∷ 200 ∷ 400 ∷ 100 ∷ []

abbrev output : Matrix ℕ
output = record { rows = 4; columns = 6; at = λ i j. item (pixels i) j }

abbrev found : List (Detection ℕ)
found =
    record { class_name = "fire"; class_id = 0; confidence = 900; bbox = (410, 400, 610, 600) }
    ∷ record { class_name = "smoke"; class_id = 1; confidence = 700; bbox = (400, 200, 600, 400) }
    ∷ []

program : Unit {0}
unfolding first_largest item pixels decode_yolo_v8 iou passes
program = tt

decoded : decode_yolo_v8 thousandths numpy decoding 450 (some output) ≡ ok found
unfolding program
decoded = refl

decode_yolo_v8-IsSelection_example :
    (cs : List (Detection ℕ)) × (candidates thousandths numpy decoding (some output) ≡ ok cs)
    × (decode_yolo_v8 thousandths numpy decoding 450 (some output)
        ≡ ok (class_aware_nms thousandths cs 450))
    × IsSelection thousandths 450 cs (class_aware_nms thousandths cs 450)
    × All (IsDetection thousandths decoding) (class_aware_nms thousandths cs 450)
unfolding program
decode_yolo_v8-IsSelection_example =
    decode_yolo_v8-IsSelection thousandths numpy decoding IsTotal-thousandths 450 output (inr refl)
      (omega arith)
