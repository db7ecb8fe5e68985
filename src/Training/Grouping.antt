-- ===== src/Training/Grouping.antt =====
-- `split_records` puts every record into the partition of its source, and loses none.
use ignis_test.Prelude.{
  ◌+◌, ◌≡◌, refl, ap, Bool, true, false, List, [], ◌∷◌, ◌++◌, String, str_eq, str_eq_iff, All,
  All-append, count_by, count_by-append, Bool-cases, inl, inr, arith,
}
use ignis_test.Training.Split.{
  Python, Ratios, Partition, train, validation, test, Parts, ok, Groups, assign_source, leaves_test,
  add_record, group_from, insert_group, sort_groups, extend, distribute, no_parts, split_records,
}

-- The records of all groups, and of all partitions.
abbrev pub grouped_records : {R : Type 0} → Groups R → List R
grouped_records [] = []
grouped_records ((k, rs) ∷ groups) = rs ++ grouped_records groups

abbrev pub all_records : {R : Type 0} → Parts R → List R
all_records p = p.train_records ++ (p.validation_records ++ p.test_records)

module _ {R F : Type 0} (py : Python R F) (q : Ratios F) where
  open py use {source_of, strip}

  abbrev pub HasSource : R → Type 0
  HasSource r = str_eq (strip (source_of r)) "" ≡ false

  -- The partition that the hash of the record's source gives.
  abbrev pub GoesTo : Partition → R → Type 0
  GoesTo p r = assign_source py q (strip (source_of r)) ≡ p

  abbrev OfSource : String → R → Type 0
  OfSource k r = strip (source_of r) ≡ k

  abbrev AreKeyed : Groups R → Type 0
  AreKeyed [] = Unit {0}
  AreKeyed ((k, rs) ∷ groups) = All (OfSource k) rs × AreKeyed groups

  pub record ArePlaced (p : Parts R) : Type 0 where
    pub in_train : All (GoesTo train) p.train_records
    pub in_validation : All (GoesTo validation) p.validation_records
    pub in_test : All (GoesTo test) p.test_records

  module _ (f : R → Bool) where
    count-add_record :
        (k : String) (r : R) (groups : Groups R)
        → count_by f (grouped_records (add_record py q k r groups))
          ≡ count_by f (grouped_records groups) + count_by f (r ∷ [])
    unfolding add_record
    count-add_record k r [] = ground arith
    count-add_record k r ((j, rs) ∷ groups) = elim (Bool-cases (str_eq j k)) [
      | inl here ↦ rw here (
          omega (
            arith,
            count_by-append f (rs ++ r ∷ []) (grouped_records groups),
            count_by-append f rs (r ∷ []),
            count_by-append f rs (grouped_records groups),
          ))
      | inr later ↦ rw later (
          omega (
            arith,
            count_by-append f rs (grouped_records (add_record py q k r groups)),
            count_by-append f rs (grouped_records groups),
            count-add_record k r groups,
          ))
    ]

    count-insert_group :
        (k : String) (rs : List R) (groups : Groups R)
        → count_by f (grouped_records (insert_group py q k rs groups))
          ≡ count_by f rs + count_by f (grouped_records groups)
    unfolding insert_group
    count-insert_group k rs [] = count_by-append f rs []
    count-insert_group k rs ((j, ss) ∷ groups) = elim (Bool-cases (py.before k j)) [
      | inl here ↦ rw here (count_by-append f rs (ss ++ grouped_records groups))
      | inr later ↦ rw later (
          omega (
            arith,
            count_by-append f ss (grouped_records (insert_group py q k rs groups)),
            count_by-append f ss (grouped_records groups),
            count-insert_group k rs groups,
          ))
    ]

    count-sort_groups :
        (groups : Groups R)
        → count_by f (grouped_records (sort_groups py q groups))
          ≡ count_by f (grouped_records groups)
    unfolding sort_groups
    count-sort_groups [] = refl
    count-sort_groups ((k, rs) ∷ groups) = omega (
      arith,
      count-insert_group k rs (sort_groups py q groups),
      count-sort_groups groups,
      count_by-append f rs (grouped_records groups),
    )

    count-all_records :
        (p : Parts R)
        → count_by f (all_records p)
          ≡ count_by f p.train_records
            + (count_by f p.validation_records + count_by f p.test_records)
    count-all_records p = omega (
      arith,
      count_by-append f p.train_records (p.validation_records ++ p.test_records),
      count_by-append f p.validation_records p.test_records,
    )

    count-extend :
        (t : Partition) (rs : List R) (p : Parts R)
        → count_by f (all_records (extend py q t rs p)) ≡ count_by f (all_records p) + count_by f rs
    unfolding extend
    count-extend train rs p = omega (
      arith,
      count-all_records (extend py q train rs p),
      count-all_records p,
      count_by-append f p.train_records rs,
    )
    count-extend validation rs p = omega (
      arith,
      count-all_records (extend py q validation rs p),
      count-all_records p,
      count_by-append f p.validation_records rs,
    )
    count-extend test rs p = omega (
      arith,
      count-all_records (extend py q test rs p),
      count-all_records p,
      count_by-append f p.test_records rs,
    )

    count-distribute :
        (groups : Groups R) (p : Parts R)
        → count_by f (all_records (distribute py q groups p))
          ≡ count_by f (all_records p) + count_by f (grouped_records groups)
    unfolding distribute
    count-distribute [] p = omega arith
    count-distribute ((k, rs) ∷ groups) p = omega (
      arith,
      count-distribute groups (extend py q (assign_source py q k) rs p),
      count-extend (assign_source py q k) rs p,
      count_by-append f rs (grouped_records groups),
    )

  AreKeyed-add_record :
      (k : String) (r : R) (groups : Groups R)
      → OfSource k r
      → AreKeyed groups
      → AreKeyed (add_record py q k r groups)
  unfolding add_record
  AreKeyed-add_record k r [] e h = ((e, tt), tt)
  AreKeyed-add_record k r ((j, rs) ∷ groups) e h = elim (Bool-cases (str_eq j k)) [
    | inl here ↦
        rw here (All-append (OfSource j) rs (r ∷ []) h.0 (cc ((str_eq_iff j k).0 here), tt), h.1)
    | inr later ↦ rw later (h.0, AreKeyed-add_record k r groups e h.1)
  ]

  AreKeyed-insert_group :
      (k : String) (rs : List R) (groups : Groups R)
      → All (OfSource k) rs
      → AreKeyed groups
      → AreKeyed (insert_group py q k rs groups)
  unfolding insert_group
  AreKeyed-insert_group k rs [] e h = (e, tt)
  AreKeyed-insert_group k rs ((j, ss) ∷ groups) e h = elim (Bool-cases (py.before k j)) [
    | inl here ↦ rw here (e, h)
    | inr later ↦ rw later (h.0, AreKeyed-insert_group k rs groups e h.1)
  ]

  AreKeyed-sort_groups : (groups : Groups R) → AreKeyed groups → AreKeyed (sort_groups py q groups)
  unfolding sort_groups
  AreKeyed-sort_groups [] h = tt
  AreKeyed-sort_groups ((k, rs) ∷ groups) h =
      AreKeyed-insert_group k rs (sort_groups py q groups) h.0 (AreKeyed-sort_groups groups h.1)

  GoesTo-OfSource :
      (k : String) (rs : List R) → All (OfSource k) rs → All (GoesTo (assign_source py q k)) rs
  GoesTo-OfSource k [] h = tt
  GoesTo-OfSource k (r ∷ rs) h = (ap (assign_source py q) h.0, GoesTo-OfSource k rs h.1)

  ArePlaced-extend :
      (t : Partition) (rs : List R) (p : Parts R)
      → All (GoesTo t) rs
      → ArePlaced p
      → ArePlaced (extend py q t rs p)
  unfolding extend
  ArePlaced-extend train rs p e h = record {
    in_train = All-append (GoesTo train) p.train_records rs h.in_train e;
    in_validation = h.in_validation;
    in_test = h.in_test;
  }
  ArePlaced-extend validation rs p e h = record {
    in_train = h.in_train;
    in_validation = All-append (GoesTo validation) p.validation_records rs h.in_validation e;
    in_test = h.in_test;
  }
  ArePlaced-extend test rs p e h = record {
    in_train = h.in_train;
    in_validation = h.in_validation;
    in_test = All-append (GoesTo test) p.test_records rs h.in_test e;
  }

  ArePlaced-distribute :
      (groups : Groups R) (p : Parts R)
      → AreKeyed groups
      → ArePlaced p
      → ArePlaced (distribute py q groups p)
  unfolding distribute
  ArePlaced-distribute [] p k h = h
  ArePlaced-distribute ((j, rs) ∷ groups) p k h =
      ArePlaced-distribute groups (extend py q (assign_source py q j) rs p) k.1
        (ArePlaced-extend (assign_source py q j) rs p (GoesTo-OfSource j rs k.0) h)

  group_from-ok :
      (rs : List R) (groups : Groups R)
      → All HasSource rs
      → AreKeyed groups
      → (result : Groups R) × (group_from py q rs groups ≡ ok result)
        × AreKeyed result
        × ((f : R → Bool)
            → count_by f (grouped_records result)
              ≡ count_by f (grouped_records groups) + count_by f rs)
  unfolding group_from
  group_from-ok [] groups s k = (groups, refl, k, λ f. omega arith)
  group_from-ok (r ∷ rs) groups s k =
      let source_id = strip (source_of r) in
      let more = add_record py q source_id r groups in
      let (result, e, keyed, count) =
        group_from-ok rs more s.1 (AreKeyed-add_record source_id r groups refl k) in
      (
        result,
        rw s.0 e,
        keyed,
        λ f.
            omega (
              arith,
              count f,
              count-add_record f source_id r groups,
              count_by-append f (r ∷ []) rs,
            ),
      )

  -- Where the ratios leave a test fraction and every record has a source.
  pub split_records-ok :
      (records : List R)
      → leaves_test py q ≡ true
      → All HasSource records
      → (p : Parts R) × (split_records py q records ≡ ok p)
        × ArePlaced p
        × ((f : R → Bool) → count_by f (all_records p) ≡ count_by f records)
  unfolding split_records
  split_records-ok records room s =
      let (groups, e, keyed, count) = group_from-ok records [] s tt in
      let sorted = sort_groups py q groups in
      (
        distribute py q sorted (no_parts py q),
        rw (room, e) refl,
        ArePlaced-distribute sorted (no_parts py q) (AreKeyed-sort_groups groups keyed)
            (record { in_train = tt; in_validation = tt; in_test = tt }),
        λ f.
            omega (
              arith,
              count f,
              count-sort_groups f groups,
              count-distribute f sorted (no_parts py q),
            ),
      )
