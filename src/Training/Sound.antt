-- ===== src/Training/Sound.antt =====
-- `validate_split` accepts what `split_records` returns.
use ignis_test.Prelude.{
  ℕ, ◌+◌, ◌≤◌, ◌≡◌, refl, ◌∙◌, ap, Bool, true, false, Option, none, some, List, [], ◌∷◌, ◌++◌,
  String, str_eq, str_eq_iff, str_eq_refl, All, count_by, append-nil, if◌then◌else◌, arith,
}
use ignis_test.Training.Split.{
  Python, Ratios, Partition, train, validation, test, Parts, ok, assign_source, leaves_test,
  split_records,
}
use ignis_test.Training.Check.{
  Seen, has, previous_of, with_path, with_source, check_record, check_records, check_partitions,
  validate_split, counts, items,
}
use ignis_test.Training.Grouping.{all_records, HasSource, GoesTo, ArePlaced, split_records-ok}

abbrev name_of_partition : Partition → String
name_of_partition train = "train"
name_of_partition validation = "validation"
name_of_partition test = "test"

abbrev once : Bool → ℕ
once b = if b then 1 else 0

All-of_count {ℓ} :
    {A : Type ℓ} (f : A → Bool) (xs : List A) → count_by f xs ≡ 0 → All (λ x. f x ≡ false) xs
All-of_count f [] h = tt
All-of_count f (x ∷ xs) h = (ground arith, All-of_count f xs (ground arith))

count_of_All {ℓ} :
    {A : Type ℓ} (f : A → Bool) (xs : List A) → All (λ x. f x ≡ false) xs → count_by f xs ≡ 0
count_of_All f [] h = refl
count_of_All f (x ∷ xs) h = ground (arith, count_of_All f xs h.1)

All-unappend {ℓ} :
    {A : Type ℓ} (P : A → Type 0) (xs ys : List A) → All P (xs ++ ys) → All P xs × All P ys
All-unappend P [] ys h = (tt, h)
All-unappend P (x ∷ xs) ys h =
    let (first, others) = All-unappend P xs ys h.1 in ((h.0, first), others)

module _ {R F : Type 0} (py : Python R F) (place : String → String) where
  open py use {source_of, path_of}

  abbrev IsComplete : R → Type 0
  IsComplete r = (str_eq (source_of r) "" ≡ false) × (str_eq (path_of r) "" ≡ false)

  abbrev has_path : String → R → Bool
  has_path t r = str_eq (path_of r) t

  -- Every source that was seen stands with its partition, and no path that was seen comes again, nor
  -- one of the rest twice.
  record IsClean (seen : Seen) (rest : List R) : Type 0 where
    placed : (s p : String) → previous_of s seen.sources ≡ some p → p ≡ place s
    fresh : (t : String) → once (has t seen.paths) + count_by (has_path t) rest ≤ 1

  with_path-IsClean :
      (r : R) (rest : List R) (sources : List (String × String)) (paths : List String)
      → ((s p : String) → previous_of s sources ≡ some p → p ≡ place s)
      → ((t : String) → once (has t paths) + count_by (has_path t) (r ∷ rest) ≤ 1)
      → (next : Seen) × (with_path py (path_of r) sources paths ≡ ok next) × IsClean next rest
  with_path-IsClean r rest sources paths placed fresh = (
    record { sources = sources; paths = path_of r ∷ paths },
    ground (arith, fresh (path_of r), str_eq_refl (path_of r)),
    record { placed = placed; fresh = λ t. ground (arith, fresh t) },
  )

  with_source-IsClean :
      (partition : String) (r : R) (rest : List R) (seen : Seen) (o : Option String)
      → place (source_of r) ≡ partition
      → previous_of (source_of r) seen.sources ≡ o
      → IsClean seen (r ∷ rest)
      → (next : Seen) × (with_source py partition (source_of r) (path_of r) o seen ≡ ok next)
        × IsClean next rest
  with_source-IsClean partition r rest seen none e o c =
      with_path-IsClean r rest ((source_of r, partition) ∷ seen.sources) seen.paths
        (λ s p h. ground (arith, c.placed s p, str_eq_iff (source_of r) s)) c.fresh
  with_source-IsClean partition r rest seen (some previous) e o c =
      let same : str_eq previous partition ≡ true =
        (str_eq_iff previous partition).1 (c.placed (source_of r) previous o ∙ e) in
      rw same (with_path-IsClean r rest seen.sources seen.paths c.placed c.fresh)

  check_record-IsClean :
      (partition : String) (r : R) (rest : List R) (seen : Seen)
      → IsComplete r
      → place (source_of r) ≡ partition
      → IsClean seen (r ∷ rest)
      → (next : Seen) × (check_record py partition r seen ≡ ok next) × IsClean next rest
  unfolding check_record
  check_record-IsClean partition r rest seen complete e c =
      rw (complete.0, complete.1)
        (with_source-IsClean partition r rest seen (previous_of (source_of r) seen.sources) e refl
          c)

  check_records-IsClean :
      (partition : String) (rs rest : List R) (seen : Seen)
      → All IsComplete rs
      → All (λ r. place (source_of r) ≡ partition) rs
      → IsClean seen (rs ++ rest)
      → (next : Seen) × (check_records py partition rs seen ≡ ok next) × IsClean next rest
  unfolding check_records
  check_records-IsClean partition [] rest seen complete e c = (seen, refl, c)
  check_records-IsClean partition (r ∷ rs) rest seen complete e c =
      let (next, step, clean) =
        check_record-IsClean partition r (rs ++ rest) seen complete.0 e.0 c in
      let (last, steps, done) = check_records-IsClean partition rs rest next complete.1 e.1 clean in
      (last, rw step steps, done)

  check_partitions-ok :
      (p : Parts R)
      → All IsComplete (all_records p)
      → All (λ r. place (source_of r) ≡ "train") p.train_records
      → All (λ r. place (source_of r) ≡ "validation") p.validation_records
      → All (λ r. place (source_of r) ≡ "test") p.test_records
      → ((t : String) → count_by (has_path t) (all_records p) ≤ 1)
      → validate_split py (items p) ≡ ok (counts py (items p))
  unfolding validate_split check_partitions
  check_partitions-ok p complete in_train in_validation in_test distinct =
      let (first, others) =
        All-unappend IsComplete p.train_records (p.validation_records ++ p.test_records) complete in
      let (second, third) = All-unappend IsComplete p.validation_records p.test_records others in
      let clean : IsClean (record { sources = []; paths = [] })
          (p.train_records ++ (p.validation_records ++ p.test_records)) =
        record { placed = λ s q h. absurd (cc); fresh = λ t. omega (arith, distinct t) } in
      let (a, step_a, clean_a) =
        check_records-IsClean "train" p.train_records (p.validation_records ++ p.test_records) _
          first in_train clean in
      let (b, step_b, clean_b) =
        check_records-IsClean "validation" p.validation_records p.test_records a second
          in_validation clean_a in
      let (c, step_c, clean_c) =
        check_records-IsClean "test" p.test_records [] b third in_test (rw append-nil clean_b) in
      rw (step_a, step_b, step_c) refl

module _ {R F : Type 0} (py : Python R F) (q : Ratios F) where
  open py use {source_of, path_of, strip}

  abbrev place_of : String → String
  place_of source = name_of_partition (assign_source py q (strip source))

  place_of-GoesTo :
      (t : Partition) (rs : List R)
      → All (GoesTo py q t) rs
      → All (λ r. place_of (source_of r) ≡ name_of_partition t) rs
  place_of-GoesTo t [] h = tt
  place_of-GoesTo t (r ∷ rs) h = (ap name_of_partition h.0, place_of-GoesTo t rs h.1)

  IsComplete-intro :
      (rs : List R)
      → strip "" ≡ ""
      → All (λ r. str_eq (strip (source_of r)) "" ≡ false) rs
      → All (λ r. str_eq (path_of r) "" ≡ false) rs
      → All (IsComplete py place_of) rs
  IsComplete-intro [] e s h = tt
  IsComplete-intro (r ∷ rs) e s h =
      ((is_given (str_eq (source_of r) "") refl, h.0), IsComplete-intro rs e s.1 h.1)
    where
      is_given : (b : Bool) → str_eq (source_of r) "" ≡ b → str_eq (source_of r) "" ≡ false
      is_given false eq = eq
      is_given true eq =
          let stripped : strip (source_of r) ≡ "" =
            ap strip ((str_eq_iff (source_of r) "").0 eq) ∙ e in
          absurd (cc (s.0, (str_eq_iff (strip (source_of r)) "").1 stripped))

  -- Where the ratios leave a test fraction, `strip` leaves an empty text empty, every record has a
  -- source and a path, and no two have one path, `split_records` returns partitions that
  -- `validate_split` accepts and counts: every record is in the partition of its source's hash, and
  -- occurs as often as in the input.
  pub validate_split-split_records :
      (records : List R)
      → leaves_test py q ≡ true
      → strip "" ≡ ""
      → All (HasSource py q) records
      → All (λ r. str_eq (path_of r) "" ≡ false) records
      → ((t : String) → count_by (λ r. str_eq (path_of r) t) records ≤ 1)
      → (p : Parts R) × (split_records py q records ≡ ok p)
        × (validate_split py (items p) ≡ ok (counts py (items p)))
        × ArePlaced py q p
        × ((f : R → Bool) → count_by f (all_records p) ≡ count_by f records)
  validate_split-split_records records room e sources paths distinct =
      let (p, done, placed, count) = split_records-ok py q records room sources in
      let missing_source : R → Bool = λ r. str_eq (strip (source_of r)) "" in
      let missing_path : R → Bool = λ r. str_eq (path_of r) "" in
      let complete =
        IsComplete-intro (all_records p) e
          (All-of_count missing_source (all_records p)
            (count missing_source ∙ count_of_All missing_source records sources))
          (All-of_count missing_path (all_records p)
            (count missing_path ∙ count_of_All missing_path records paths)) in
      (
        p,
        done,
        check_partitions-ok py place_of p complete
            (place_of-GoesTo train p.train_records placed.in_train)
            (place_of-GoesTo validation p.validation_records placed.in_validation)
            (place_of-GoesTo test p.test_records placed.in_test)
            (λ t. omega (arith, count (has_path py place_of t), distinct t)),
        placed,
        count,
      )
