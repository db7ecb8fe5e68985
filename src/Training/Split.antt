-- ===== src/Training/Split.antt =====
-- training/ignis_training/split_by_source.py: `assign_source` and `split_records`. A record of the
-- dataset is read through `Python`, which also stands for SHA-256, `str.strip`, the order of texts
-- and the arithmetic of floats.
use Prim.Native.String.{◌++◌ as str_append}
use ignis_test.Prelude.{
  ℕ, ◌-◌, ◌^◌, Bool, not, ◌&&◌, List, [], ◌∷◌, ◌++◌, String, str_eq, if◌then◌else◌, take,
}
use ignis_test.Prelude.Floats.{Floats}
use ignis_test.Wire.Bytes.{of_be}

pub record Python (R F : Type 0) : Type 0 where
  -- `str(record.get("source_id", ""))` and `str(record.get("path", ""))`
  pub source_of : R → String
  pub path_of : R → String
  pub strip : String → String
  -- `a < b` for two texts
  pub before : String → String → Bool
  -- `hashlib.sha256(text.encode()).digest()`
  pub digest : String → List ℕ
  -- `a / b` for two integers
  pub true_div : ℕ → ℕ → F
  pub floats : Floats F
  pub one : F
  pub add : F → F → F

pub data Partition : Type 0 where
  train validation test : Partition

pub record Parts (R : Type 0) : Type 0 where
  pub train_records : List R
  pub validation_records : List R
  pub test_records : List R

-- The `ValueError` of either function, by its message.
pub data SplitError : Type 0 where
  no_test_fraction source_required wrong_partitions incomplete_record : SplitError
  leakage : String → String → String → SplitError
  duplicate_path : String → SplitError

pub data Result {ℓ} (A : Type ℓ) : Type ℓ where
  ok : A → Result A
  err : SplitError → Result A

pub record Ratios (F : Type 0) : Type 0 where
  pub seed : String
  pub train_ratio : F
  pub validation_ratio : F

abbrev pub Groups : Type 0 → Type 0
Groups R = List (String × List R)

module _ {R F : Type 0} (py : Python R F) (q : Ratios F) where
  open py use {
    source_of,
    path_of,
    strip,
    before,
    digest,
    true_div,
    one,
    add,
    floats.{zero_float, geb, gtb},
  }

  -- `assign_source`
  unfoldable pub assign_source : String → Partition
  assign_source source_id =
      let raw = of_be (take 8 (digest (str_append q.seed (str_append ":" source_id)))) in
      let value = true_div raw (2 ^ 64 - 1) in
      if gtb q.train_ratio value
      then train
      else if gtb (add q.train_ratio q.validation_ratio) value
      then validation
      else test

  -- The test on the ratios
  unfoldable pub leaves_test : Bool
  leaves_test =
      (gtb q.train_ratio zero_float && gtb one q.train_ratio)
      && ((geb q.validation_ratio zero_float && gtb one q.validation_ratio)
          && not (geb (add q.train_ratio q.validation_ratio) one))

  -- `grouped[source_id].append(record)`
  unfoldable pub add_record : String → R → Groups R → Groups R
  add_record k r [] = (k, r ∷ []) ∷ []
  add_record k r ((j, rs) ∷ groups) =
      let rest = add_record k r groups in
      if str_eq j k then (j, rs ++ r ∷ []) ∷ groups else (j, rs) ∷ rest

  -- The loop over the records
  unfoldable pub group_from : List R → Groups R → Result (Groups R)
  unfolding add_record
  group_from [] groups = ok groups
  group_from (r ∷ rs) groups =
      let source_id = strip (source_of r) in
      let rest = group_from rs (add_record source_id r groups) in
      if str_eq source_id "" then err source_required else rest

  unfoldable pub insert_group : String → List R → Groups R → Groups R
  insert_group k rs [] = (k, rs) ∷ []
  insert_group k rs ((j, ss) ∷ groups) =
      let rest = insert_group k rs groups in
      if before k j then (k, rs) ∷ (j, ss) ∷ groups else (j, ss) ∷ rest

  -- `sorted(grouped.items())`; no two groups have one key, so the records are never compared.
  unfoldable pub sort_groups : Groups R → Groups R
  unfolding insert_group
  sort_groups [] = []
  sort_groups ((k, rs) ∷ groups) = insert_group k rs (sort_groups groups)

  -- `result[…].extend(source_records)`
  unfoldable pub extend : Partition → List R → Parts R → Parts R
  extend train rs p = record p { train_records = p.train_records ++ rs }
  extend validation rs p = record p { validation_records = p.validation_records ++ rs }
  extend test rs p = record p { test_records = p.test_records ++ rs }

  unfoldable pub distribute : Groups R → Parts R → Parts R
  unfolding extend assign_source
  distribute [] p = p
  distribute ((k, rs) ∷ groups) p = distribute groups (extend (assign_source k) rs p)

  abbrev pub no_parts : Parts R
  no_parts = record { train_records = []; validation_records = []; test_records = [] }

  abbrev pub distributed : Result (Groups R) → Result (Parts R)
  distributed (err e) = err e
  distributed (ok groups) = ok (distribute (sort_groups groups) no_parts)

  -- `split_records`
  unfoldable pub split_records : List R → Result (Parts R)
  unfolding leaves_test group_from sort_groups distribute
  split_records records =
      if leaves_test then distributed (group_from records []) else err no_test_fraction
