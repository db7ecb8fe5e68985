-- ===== src/Training/Check.antt =====
-- training/ignis_training/validate_split.py: `validate_split` on a dictionary from JSON, as its items.
use ignis_test.Prelude.{
  ℕ, Bool, true, false, ◌&&◌, ◌||◌, Option, none, some, List, [], ◌∷◌, String, str_eq,
  if◌then◌else◌, length,
}
use ignis_test.Training.Split.{
  Python, Parts, Result, ok, err, wrong_partitions, incomplete_record, leakage, duplicate_path,
}

-- `sources` and `paths`
pub record Seen : Type 0 where
  pub sources : List (String × String)
  pub paths : List String

abbrev pub has : String → List String → Bool
has k [] = false
has k (j ∷ js) = str_eq j k || has k js

abbrev pub previous_of : String → List (String × String) → Option String
previous_of k [] = none
previous_of k ((j, v) ∷ m) = let rest = previous_of k m in if str_eq j k then some v else rest

abbrev pub keys : {R : Type 0} → List (String × List R) → List String
keys [] = []
keys ((k, rs) ∷ split) = k ∷ keys split

abbrev pub all_required : List String → Bool
all_required [] = true
all_required (k ∷ ks) = has k ("train" ∷ "validation" ∷ "test" ∷ []) && all_required ks

-- `set(split) == required`
abbrev pub has_partitions : List String → Bool
has_partitions ks = (has "train" ks && (has "validation" ks && has "test" ks)) && all_required ks

module _ {R F : Type 0} (py : Python R F) where
  open py use {source_of, path_of}

  -- The test on the path
  abbrev pub with_path : String → List (String × String) → List String → Result Seen
  with_path path sources paths =
      if has path paths
      then err (duplicate_path path)
      else ok (record { sources = sources; paths = path ∷ paths })

  -- The test on `sources.setdefault(source, partition)`
  abbrev pub with_source : String → String → String → Option String → Seen → Result Seen
  with_source partition source path none seen =
      with_path path ((source, partition) ∷ seen.sources) seen.paths
  with_source partition source path (some previous) seen =
      if str_eq previous partition
      then with_path path seen.sources seen.paths
      else err (leakage source previous partition)

  -- The body of the inner loop
  unfoldable pub check_record : String → R → Seen → Result Seen
  check_record partition r seen =
      if str_eq (source_of r) "" || str_eq (path_of r) ""
      then err incomplete_record
      else with_source partition (source_of r) (path_of r) (previous_of (source_of r) seen.sources)
          seen

  abbrev pub before_rest : (Seen → Result Seen) → Result Seen → Result Seen
  before_rest rest (err e) = err e
  before_rest rest (ok seen) = rest seen

  unfoldable pub check_records : String → List R → Seen → Result Seen
  unfolding check_record
  check_records partition [] seen = ok seen
  check_records partition (r ∷ rs) seen =
      before_rest (check_records partition rs) (check_record partition r seen)

  unfoldable pub check_partitions : List (String × List R) → Seen → Result Seen
  unfolding check_records
  check_partitions [] seen = ok seen
  check_partitions ((partition, rs) ∷ split) seen =
      before_rest (check_partitions split) (check_records partition rs seen)

  -- `{partition: len(records) …}`
  abbrev pub counts : List (String × List R) → List (String × ℕ)
  counts [] = []
  counts ((partition, rs) ∷ split) = (partition, length rs) ∷ counts split

  abbrev pub counted : List (String × List R) → Result Seen → Result (List (String × ℕ))
  counted split (err e) = err e
  counted split (ok seen) = ok (counts split)

  -- `validate_split`
  unfoldable pub validate_split : List (String × List R) → Result (List (String × ℕ))
  unfolding check_partitions
  validate_split split =
      if has_partitions (keys split)
      then counted split (check_partitions split (record { sources = []; paths = [] }))
      else err wrong_partitions

-- The dictionary that `split_records` returns, as it is written and read back.
abbrev pub items : {R : Type 0} → Parts R → List (String × List R)
items p =
    ("train", p.train_records)
    ∷ ("validation", p.validation_records)
    ∷ ("test", p.test_records)
    ∷ []
