-- ===== src/Training/Examples.antt =====
-- A split of three records, a record without a source, and a split with one source on both sides. A
-- float is a number of thousandths here, and the digest is made of the last character.
use ignis_test.Prelude.{
  ℕ, ◌+◌, ◌≤◌, ◌≡◌, refl, sym, ◌∙◌, ◌⊎◌, inl, inr, Bool, Bool-cases, false, List, [], ◌∷◌, String,
  str_eq, codes, count_by, take, str_eq_iff, arith,
}
use ignis_test.Store.Examples.{floats}
use ignis_test.Wire.Bytes.{of_be}
use ignis_test.Training.Split.{
  Python, Ratios, Parts, ok, err, source_required, leakage, split_records,
}
use ignis_test.Training.Check.{validate_split, counts, items}
use ignis_test.Training.Grouping.{all_records, ArePlaced}
use ignis_test.Training.Sound.{validate_split-split_records}

last_of : ℕ → List ℕ → ℕ
last_of n [] = n
last_of n (x ∷ xs) = last_of x xs

abbrev Sample : Type 0
Sample = String × String

abbrev python : Python Sample ℕ
python = record {
  source_of = λ r. r.0;
  path_of = λ r. r.1;
  strip = λ s. s;
  before = λ s t. str_eq s "a";
  digest = λ s. last_of 0 (codes s) ∷ [];
  true_div = λ a b. a;
  floats = floats;
  one = 1000;
  add = λ a b. a + b;
}

-- A source that ends in "a" is for training, in "b" for validation, and in "c" for tests.
abbrev ratios : Ratios ℕ
ratios = record { seed = "seed"; train_ratio = 98; validation_ratio = 1 }

abbrev samples : List Sample
samples = ("c", "1.jpg") ∷ ("a", "2.jpg") ∷ ("a", "3.jpg") ∷ []

abbrev parts : Parts Sample
parts = record {
  train_records = ("a", "2.jpg") ∷ ("a", "3.jpg") ∷ [];
  validation_records = [];
  test_records = ("c", "1.jpg") ∷ [];
}

program : Unit {0}
unfolding last_of of_be take split_records validate_split
program = tt

split : split_records python ratios samples ≡ ok parts
unfolding program
split = refl

validated :
    validate_split python (items parts) ≡ ok (("train", 2) ∷ ("validation", 0) ∷ ("test", 1) ∷ [])
unfolding program
validated = refl

no_source : split_records python ratios (("", "1.jpg") ∷ []) ≡ err source_required
unfolding program
no_source = refl

leaks :
    validate_split python
      (("train", ("a", "1.jpg") ∷ []) ∷ ("test", ("a", "2.jpg") ∷ []) ∷ ("validation", []) ∷ [])
    ≡ err (leakage "a" "train" "test")
unfolding program
leaks = refl

-- Two texts that differ are not both `t`.
differ : (a b t : String) → str_eq a b ≡ false → (str_eq a t ≡ false) ⊎ (str_eq b t ≡ false)
differ a b t h = elim (Bool-cases (str_eq a t)) [
  | inl same ↦ elim (Bool-cases (str_eq b t)) [
    | inl also ↦
        absurd
          (cc (h, (str_eq_iff a b).1 ((str_eq_iff a t).0 same ∙ sym ((str_eq_iff b t).0 also))))
    | inr other ↦ inr other
  ]
  | inr other ↦ inl other
]

distinct : (t : String) → count_by (λ (r : Sample). str_eq r.1 t) samples ≤ 1
distinct t = ground (
  arith,
  differ "1.jpg" "2.jpg" t refl,
  differ "1.jpg" "3.jpg" t refl,
  differ "2.jpg" "3.jpg" t refl,
)

validate_split-split_records_example :
    (p : Parts Sample) × (split_records python ratios samples ≡ ok p)
    × (validate_split python (items p) ≡ ok (counts python (items p)))
    × ArePlaced python ratios p
    × ((f : Sample → Bool) → count_by f (all_records p) ≡ count_by f samples)
unfolding program
validate_split-split_records_example =
    validate_split-split_records python ratios samples refl refl (refl, (refl, (refl, tt)))
      (refl, (refl, (refl, tt))) distinct
