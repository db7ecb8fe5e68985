-- ===== src/Device/Detector/Suppression.antt =====
-- What `_class_aware_nms` selects.
use mathlib.Core.Path.{subst}
use ignis_test.Prelude.{
  ◌≡◌, refl, sym, true, false, ◌⊎◌, inl, inr, List, [], ◌∷◌, ◌++◌, ==_iff, All, All-append,
  append_assoc, append-nil, Bool-cases, arith, not,
}
use ignis_test.Prelude.Floats.{Floats}
use ignis_test.Verifier.Gate.{Detection}
use ignis_test.Device.Detector.{
  Arithmetic, iou, passes, passes_all, insert, by_confidence, select, class_aware_nms,
}

-- Some item has a property.
abbrev pub Some : {A : Type 0} → (A → Type 0) → List A → Type 0
Some P [] = ⊥
Some P (x ∷ xs) = P x ⊎ Some P xs

Some-append_left : {A : Type 0} (P : A → Type 0) (xs ys : List A) → Some P xs → Some P (xs ++ ys)
Some-append_left P [] ys h = absurd h
Some-append_left P (x ∷ xs) ys (inl h) = inl h
Some-append_left P (x ∷ xs) ys (inr h) = inr (Some-append_left P xs ys h)

Some-append_last : {A : Type 0} (P : A → Type 0) (xs : List A) (x : A) → P x → Some P (xs ++ x ∷ [])
Some-append_last P [] x h = inl h
Some-append_last P (y ∷ xs) x h = inr (Some-append_last P xs x h)

All-weaken :
    {A : Type 0} (P Q : A → Type 0) (xs : List A) → ((x : A) → P x → Q x) → All P xs → All Q xs
All-weaken P Q [] f h = tt
All-weaken P Q (x ∷ xs) f h = (f x h.0, All-weaken P Q xs f h.1)

-- Every item stands in its list.
All-Some : {A : Type 0} (xs : List A) → All (λ x. Some (λ y. y ≡ x) xs) xs
All-Some [] = tt
All-Some {A} (x ∷ xs) = (
  inl refl,
  All-weaken (λ y. Some (λ z. z ≡ y) xs) (λ y. Some (λ z. z ≡ y) (x ∷ xs)) xs (λ y h. inr h)
      (All-Some xs),
)

-- The order of floats that are no NaN.
pub record IsTotal {F : Type 0} (floats : Floats F) : Type 0 where
  pub total : (a b : F) → (floats.geb a b ≡ true) ⊎ (floats.geb b a ≡ true)
  pub transitive :
      (a b c : F) → floats.geb a b ≡ true → floats.geb b c ≡ true → floats.geb a c ≡ true
  pub strict : (a b : F) → (floats.gtb a b ≡ not (floats.geb b a))

module _ {F : Type 0} (m : Arithmetic F) where
  open m use {floats.{geb, gtb}}

  -- No earlier detection suppresses a later one.
  abbrev pub Separate : F → List (Detection F) → Type 0
  Separate iou_threshold [] = Unit {0}
  Separate iou_threshold (k ∷ ks) =
      All (λ (c : Detection F). passes m iou_threshold c k ≡ true) ks × Separate iou_threshold ks

  abbrev pub Descending : List (Detection F) → Type 0
  Descending [] = Unit {0}
  Descending (k ∷ ks) =
      All (λ (c : Detection F). geb k.confidence c.confidence ≡ true) ks × Descending ks

  -- A detection of the same class, as confident at least, overlaps `c` by more than the threshold.
  abbrev pub Overlaps : F → Detection F → Detection F → Type 0
  Overlaps iou_threshold c k =
      (k.class_id ≡ c.class_id)
      × (geb iou_threshold (iou m c k) ≡ false)
      × (geb k.confidence c.confidence ≡ true)

  abbrev pub IsCovered : F → List (Detection F) → Detection F → Type 0
  IsCovered iou_threshold selected c =
      Some (λ (k : Detection F). (k ≡ c) ⊎ Overlaps iou_threshold c k) selected

  pub record IsSelection (iou_threshold : F) (candidates selected : List (Detection F))
      : Type 0 where
    pub chosen : All (λ (k : Detection F). Some (λ (c : Detection F). c ≡ k) candidates) selected
    pub separate : Separate iou_threshold selected
    pub descending : Descending selected
    pub covered : All (IsCovered iou_threshold selected) candidates

  All-insert :
      (P : Detection F → Type 0) (c : Detection F) (ds : List (Detection F))
      → P c
      → All P ds
      → All P (insert m c ds)
  unfolding insert
  All-insert P c [] h hs = (h, tt)
  All-insert P c (d ∷ ds) h hs = elim (Bool-cases (gtb d.confidence c.confidence)) [
    | inl above ↦ rw above (hs.0, All-insert P c ds h hs.1)
    | inr below ↦ rw below (h, hs)
  ]

  All-of_insert :
      (P : Detection F → Type 0) (c : Detection F) (ds : List (Detection F))
      → All P (insert m c ds)
      → P c × All P ds
  unfolding insert
  All-of_insert P c [] = λ h. h
  All-of_insert P c (d ∷ ds) = elim (Bool-cases (gtb d.confidence c.confidence)) [
    | inl above ↦ rw above (λ h. let r = All-of_insert P c ds h.1 in (r.0, (h.0, r.1)))
    | inr below ↦ rw below (λ h. h)
  ]

  All-by_confidence :
      (P : Detection F → Type 0) (cs : List (Detection F)) → All P cs → All P (by_confidence m cs)
  unfolding by_confidence
  All-by_confidence P [] h = tt
  All-by_confidence P (c ∷ cs) h =
      All-insert P c (by_confidence m cs) h.0 (All-by_confidence P cs h.1)

  All-of_by_confidence :
      (P : Detection F → Type 0) (cs : List (Detection F)) → All P (by_confidence m cs) → All P cs
  unfolding by_confidence
  All-of_by_confidence P [] h = tt
  All-of_by_confidence P (c ∷ cs) h =
      let r = All-of_insert P c (by_confidence m cs) h in (r.0, All-of_by_confidence P cs r.1)

  All-select :
      (P : Detection F → Type 0) (iou_threshold : F) (cs selected : List (Detection F))
      → All P cs
      → All P selected
      → All P (select m iou_threshold cs selected)
  unfolding select
  All-select P iou_threshold [] selected h s = s
  All-select P iou_threshold (c ∷ cs) selected h s =
      elim (Bool-cases (passes_all m iou_threshold c selected)) [
        | inl free ↦ rw free (
            All-select P iou_threshold cs (selected ++ c ∷ []) h.1
              (All-append P selected (c ∷ []) s (h.0, tt)))
        | inr taken ↦ rw taken (All-select P iou_threshold cs selected h.1 s)
      ]

  -- What all candidates have, all that are selected have.
  pub All-class_aware_nms :
      (P : Detection F → Type 0) (cs : List (Detection F)) (iou_threshold : F)
      → All P cs
      → All P (class_aware_nms m cs iou_threshold)
  unfolding class_aware_nms
  All-class_aware_nms P cs iou_threshold h =
      All-select P iou_threshold (by_confidence m cs) [] (All-by_confidence P cs h) tt

  Separate-append :
      (iou_threshold : F) (ks : List (Detection F)) (c : Detection F)
      → passes_all m iou_threshold c ks ≡ true
      → Separate iou_threshold ks
      → Separate iou_threshold (ks ++ c ∷ [])
  unfolding passes_all
  Separate-append iou_threshold [] c p s = (tt, tt)
  Separate-append iou_threshold (k ∷ ks) c p s = (
    All-append (λ (x : Detection F). passes m iou_threshold x k ≡ true) ks (c ∷ []) s.0
        (ground arith, tt),
    Separate-append iou_threshold ks c (ground arith) s.1,
  )

  Separate-select :
      (iou_threshold : F) (cs selected : List (Detection F))
      → Separate iou_threshold selected
      → Separate iou_threshold (select m iou_threshold cs selected)
  unfolding select
  Separate-select iou_threshold [] selected s = s
  Separate-select iou_threshold (c ∷ cs) selected s =
      elim (Bool-cases (passes_all m iou_threshold c selected)) [
        | inl free ↦ rw free (
            Separate-select iou_threshold cs (selected ++ c ∷ [])
              (Separate-append iou_threshold selected c free s))
        | inr taken ↦ rw taken (Separate-select iou_threshold cs selected s)
      ]

  Some-select :
      (P : Detection F → Type 0) (iou_threshold : F) (cs selected : List (Detection F))
      → Some P selected
      → Some P (select m iou_threshold cs selected)
  unfolding select
  Some-select P iou_threshold [] selected h = h
  Some-select P iou_threshold (c ∷ cs) selected h =
      elim (Bool-cases (passes_all m iou_threshold c selected)) [
        | inl free ↦ rw free (
            Some-select P iou_threshold cs (selected ++ c ∷ [])
              (Some-append_left P selected (c ∷ []) h))
        | inr taken ↦ rw taken (Some-select P iou_threshold cs selected h)
      ]

  All-drop_middle :
      (P : Detection F → Type 0) (ks : List (Detection F)) (c : Detection F)
      (cs : List (Detection F))
      → All P (ks ++ c ∷ cs)
      → All P (ks ++ cs)
  All-drop_middle P [] c cs h = h.1
  All-drop_middle P (k ∷ ks) c cs h = (h.0, All-drop_middle P ks c cs h.1)

  All-middle :
      (P : Detection F → Type 0) (ks : List (Detection F)) (c : Detection F)
      (cs : List (Detection F))
      → All P (ks ++ c ∷ cs)
      → P c
  All-middle P [] c cs h = h.0
  All-middle P (k ∷ ks) c cs h = All-middle P ks c cs h.1

  Descending-drop_middle :
      (ks : List (Detection F)) (c : Detection F) (cs : List (Detection F))
      → Descending (ks ++ c ∷ cs)
      → Descending (ks ++ cs)
  Descending-drop_middle [] c cs h = h.1
  Descending-drop_middle (k ∷ ks) c cs h = (
    All-drop_middle (λ (x : Detection F). geb k.confidence x.confidence ≡ true) ks c cs h.0,
    Descending-drop_middle ks c cs h.1,
  )

  above-middle :
      (ks : List (Detection F)) (c : Detection F) (cs : List (Detection F))
      → Descending (ks ++ c ∷ cs)
      → All (λ (k : Detection F). geb k.confidence c.confidence ≡ true) ks
  above-middle [] c cs h = tt
  above-middle (k ∷ ks) c cs h = (
    All-middle (λ (x : Detection F). geb k.confidence x.confidence ≡ true) ks c cs h.0,
    above-middle ks c cs h.1,
  )

  Descending-select :
      (iou_threshold : F) (cs selected : List (Detection F))
      → Descending (selected ++ cs)
      → Descending (select m iou_threshold cs selected)
  unfolding select
  Descending-select iou_threshold [] selected h = rw append-nil at h
  Descending-select iou_threshold (c ∷ cs) selected h =
      elim (Bool-cases (passes_all m iou_threshold c selected)) [
        | inl free ↦ rw free (
            Descending-select iou_threshold cs (selected ++ c ∷ [])
              (rw (append_assoc selected (c ∷ []) cs) h))
        | inr taken ↦
            rw taken
              (Descending-select iou_threshold cs selected (Descending-drop_middle selected c cs h))
      ]

  Overlaps-of_passes :
      (iou_threshold : F) (c k : Detection F)
      → passes m iou_threshold c k ≡ false
      → geb k.confidence c.confidence ≡ true
      → Overlaps iou_threshold c k
  unfolding passes
  Overlaps-of_passes iou_threshold c k p g = ground (arith, ==_iff c.class_id k.class_id)

  -- A candidate that is left out overlaps a detection that was selected before it.
  IsCovered-taken :
      (iou_threshold : F) (c : Detection F) (ks : List (Detection F))
      → passes_all m iou_threshold c ks ≡ false
      → All (λ (k : Detection F). geb k.confidence c.confidence ≡ true) ks
      → IsCovered iou_threshold ks c
  unfolding passes_all
  IsCovered-taken iou_threshold c [] p h = absurd (cc)
  IsCovered-taken iou_threshold c (k ∷ ks) p h = elim (Bool-cases (passes m iou_threshold c k)) [
    | inl free ↦ inr (IsCovered-taken iou_threshold c ks (ground arith) h.1)
    | inr taken ↦ inl (inr (Overlaps-of_passes iou_threshold c k taken h.0))
  ]

  select_free :
      (iou_threshold : F) (c : Detection F) (cs selected : List (Detection F))
      → passes_all m iou_threshold c selected ≡ true
      → select m iou_threshold (c ∷ cs) selected ≡ select m iou_threshold cs (selected ++ c ∷ [])
  unfolding select
  select_free iou_threshold c cs selected free = rw free refl

  select_taken :
      (iou_threshold : F) (c : Detection F) (cs selected : List (Detection F))
      → passes_all m iou_threshold c selected ≡ false
      → select m iou_threshold (c ∷ cs) selected ≡ select m iou_threshold cs selected
  unfolding select
  select_taken iou_threshold c cs selected taken = rw taken refl

  IsCovered-select :
      (iou_threshold : F) (cs selected : List (Detection F))
      → Descending (selected ++ cs)
      → All (IsCovered iou_threshold (select m iou_threshold cs selected)) cs
  IsCovered-select iou_threshold [] selected h = tt
  IsCovered-select iou_threshold (c ∷ cs) selected h =
      elim (Bool-cases (passes_all m iou_threshold c selected)) [
        | inl free ↦
            subst (λ r. All (IsCovered iou_threshold r) (c ∷ cs))
              (sym (select_free iou_threshold c cs selected free))
              (
                Some-select (λ (k : Detection F). (k ≡ c) ⊎ Overlaps iou_threshold c k)
                    iou_threshold cs (selected ++ c ∷ [])
                    (Some-append_last _ selected c (inl refl)),
                IsCovered-select iou_threshold cs (selected ++ c ∷ [])
                    (rw (append_assoc selected (c ∷ []) cs) h),
              )
        | inr taken ↦
            subst (λ r. All (IsCovered iou_threshold r) (c ∷ cs))
              (sym (select_taken iou_threshold c cs selected taken))
              (
                Some-select (λ (k : Detection F). (k ≡ c) ⊎ Overlaps iou_threshold c k)
                    iou_threshold cs selected
                    (IsCovered-taken iou_threshold c selected taken (above-middle selected c cs h)),
                IsCovered-select iou_threshold cs selected (Descending-drop_middle selected c cs h),
              )
      ]

  module _ (t : IsTotal m.floats) where
    above-All :
        (a b : F) (ds : List (Detection F))
        → geb a b ≡ true
        → All (λ (x : Detection F). geb b x.confidence ≡ true) ds
        → All (λ (x : Detection F). geb a x.confidence ≡ true) ds
    above-All a b ds h =
        All-weaken (λ (x : Detection F). geb b x.confidence ≡ true)
          (λ (x : Detection F). geb a x.confidence ≡ true) ds (λ x. t.transitive a b x.confidence h)

    geb-of_gtb : (a b : F) → gtb a b ≡ true → geb a b ≡ true
    geb-of_gtb a b h = ground (arith, t.strict a b, t.total a b)

    geb-of_not_gtb : (a b : F) → gtb a b ≡ false → geb b a ≡ true
    geb-of_not_gtb a b h = ground (arith, t.strict a b)

    Descending-insert :
        (c : Detection F) (ds : List (Detection F)) → Descending ds → Descending (insert m c ds)
    unfolding insert
    Descending-insert c [] h = (tt, tt)
    Descending-insert c (d ∷ ds) h = elim (Bool-cases (gtb d.confidence c.confidence)) [
      | inl above ↦ rw above (
        All-insert (λ (x : Detection F). geb d.confidence x.confidence ≡ true) c ds
            (geb-of_gtb d.confidence c.confidence above) h.0,
        Descending-insert c ds h.1,
      )
      | inr below ↦
          let g = geb-of_not_gtb d.confidence c.confidence below in
          rw below ((g, above-All c.confidence d.confidence ds g h.0), h)
    ]

    Descending-by_confidence : (cs : List (Detection F)) → Descending (by_confidence m cs)
    unfolding by_confidence
    Descending-by_confidence [] = tt
    Descending-by_confidence (c ∷ cs) =
        Descending-insert c (by_confidence m cs) (Descending-by_confidence cs)

    -- With floats that are no NaN, `_class_aware_nms` selects among the candidates, by falling
    -- confidence, no two of one class that overlap by more than the threshold, and leaves a candidate
    -- out only where a detection of its class, as confident at least, overlaps it so.
    pub class_aware_nms-IsSelection :
        (cs : List (Detection F)) (iou_threshold : F)
        → IsSelection iou_threshold cs (class_aware_nms m cs iou_threshold)
    unfolding class_aware_nms
    class_aware_nms-IsSelection cs iou_threshold =
        let ordered = Descending-by_confidence cs in
        record {
          chosen = All-class_aware_nms _ cs iou_threshold (All-Some cs);
          separate = Separate-select iou_threshold (by_confidence m cs) [] tt;
          descending = Descending-select iou_threshold (by_confidence m cs) [] ordered;
          covered =
              All-of_by_confidence _ cs
                (IsCovered-select iou_threshold (by_confidence m cs) [] ordered);
        }
