-- ===== src/Backend/Zones/Sound.antt =====
-- What an accepted configuration of zones satisfies.
use ignis_test.Prelude.{
  ℕ, zero, suc, ◌+◌, ◌%◌, ◌≤◌, ◌<◌, ◌≡◌, ◌≢◌, refl, ap, Bool, true, false, Option, none, some, List,
  [], ◌∷◌, map, length, list_eq, list_eq_iff, if◌then◌else◌, All, Bool-cases, inl, inr, arith,
}
use native.Mathlib.Nat.{mod-lt}
use mathlib.Core.Path.{subst}
use ignis_test.Backend.Observations.{is_empty, cleaned, lower}
use ignis_test.Backend.Observations.Safe.{AreSafe, AreSafe-cleaned, length-cleaned}
use ignis_test.Backend.Zones.{
  Plane, Point, Zone, ZoneConfiguration, sanitize_name, has_text, size_of_set, get_elem?, term_to,
  joined_terms, terms, area_of_terms, polygon_area, is_large, all_normalized, named, validate_zone,
  joined_zones, validate_zones, are_unique, unique_fields, validate_configuration,
}

-- No two of the texts are one text.
abbrev pub AreDistinct : List (List ℕ) → Type 0
AreDistinct [] = Unit {0}
AreDistinct (x ∷ xs) = All (λ (y : List ℕ). x ≢ y) xs × AreDistinct xs

size_of_set-le : (xs : List (List ℕ)) → size_of_set xs ≤ length xs
unfolding size_of_set
size_of_set-le [] = omega arith
size_of_set-le (x ∷ xs) = ground (arith, size_of_set-le xs)

has_text-false :
    (x : List ℕ) (xs : List (List ℕ)) → has_text x xs ≡ false → All (λ (y : List ℕ). x ≢ y) xs
has_text-false x [] h = tt
has_text-false x (y ∷ ys) h = elim (Bool-cases (list_eq x y)) [
  | inl same ↦ absurd (let e : true ≡ false = rw same at h in cc)
  | inr other ↦
      (λ e. absurd (let s = (list_eq_iff x y).1 e in cc), has_text-false x ys (rw other at h))
]

size_of_set-AreDistinct : (xs : List (List ℕ)) → length xs ≡ size_of_set xs → AreDistinct xs
unfolding size_of_set
size_of_set-AreDistinct [] h = tt
size_of_set-AreDistinct (x ∷ xs) h = elim (Bool-cases (has_text x xs)) [
  | inl there ↦ absurd (let e = rw there at h in omega (arith, e, size_of_set-le xs))
  | inr new ↦ (
    has_text-false x xs new,
    size_of_set-AreDistinct xs (let e = rw new at h in omega (arith, e)),
  )
]

get_elem?-lt :
    {A : Type 0} (xs : List A) (n : ℕ) → n < length xs → (x : A) × (get_elem? xs n ≡ some x)
get_elem?-lt [] n h = absurd (omega arith)
get_elem?-lt (x ∷ xs) zero h = (x, refl)
get_elem?-lt (x ∷ xs) (suc n) h = get_elem?-lt xs n (omega arith)

if_some :
    {A : Type 0} (b : Bool) (o : Option A) (x : A)
    → (if b then o else none) ≡ some x
    → (b ≡ true) × (o ≡ some x)
if_some true o x e = (refl, e)
if_some false o x e = absurd (cc)

module _ {F : Type 0} (plane : Plane F) where
  joined_terms-some :
      (t : Option F) (rest : Option (List F)) (x : F) (xs : List F)
      → t ≡ some x
      → rest ≡ some xs
      → joined_terms plane t rest ≡ some (x ∷ xs)
  joined_terms-some t rest x xs e f = rw (e, f)

  terms-total :
      (points : List (Point F)) (index : ℕ) (rest : List (Point F))
      → 0 < length points
      → (found : List F) × (terms plane points index rest ≡ some found)
  unfolding terms
  terms-total points index [] h = ([], refl)
  terms-total points index (point ∷ rest) h =
      let (next, e) = get_elem?-lt points ((index + 1) % length points) (mod-lt (index + 1) h) in
      let (found, f) = terms-total points (index + 1) rest h in
      (_, joined_terms-some _ _ _ found (ap (term_to plane point) e) f)

  -- The indices of `_polygon_area` are in range: of a polygon with a point it always gives an area.
  pub polygon_area-total :
      (points : List (Point F))
      → 0 < length points
      → (area : F) × (polygon_area plane points ≡ some area)
  unfolding polygon_area
  polygon_area-total points h =
      let (found, e) = terms-total points 0 points h in (_, ap (area_of_terms plane) e)

  -- What `Zone` promises of a zone.
  pub record IsSound (z : Zone F) : Type 0 where
    safe : AreSafe z.name
    named_so : (1 ≤ length z.name) × (length z.name ≤ 48)
    points_between : (3 ≤ length z.points) × (length z.points ≤ 32)
    normalized : all_normalized plane z.points ≡ true
    large : is_large plane (polygon_area plane z.points) ≡ true

  sanitize_name_sound :
      (name clean : List ℕ)
      → sanitize_name name ≡ some clean
      → AreSafe clean × (1 ≤ length clean) × (length clean ≤ length name)
  unfolding sanitize_name
  sanitize_name_sound name clean e =
      by_text (cleaned name) (AreSafe-cleaned name) (length-cleaned name) e
    where
      by_text :
          (t : List ℕ)
          → AreSafe t
          → length t ≤ length name
          → (if is_empty t then none else some t) ≡ some clean
          → AreSafe clean × (1 ≤ length clean) × (length clean ≤ length name)
      by_text [] s l e = absurd (cc)
      by_text (c ∷ cs) s l e =
          let same : c ∷ cs ≡ clean = cc in
          subst (λ t. AreSafe t × (1 ≤ length t) × (length t ≤ length name)) same
            (s, omega arith, l)

  named_sound :
      (zone checked : Zone F) (o : Option (List ℕ))
      → named plane zone o ≡ some checked
      → (clean : List ℕ) × (o ≡ some clean)
        × (record zone { name = clean } ≡ checked)
        × (is_large plane (polygon_area plane zone.points) ≡ true)
  named_sound zone checked none e = absurd (cc)
  named_sound zone checked (some clean) e =
      let (large, f) = if_some _ _ checked e in (clean, refl, cc, large)

  validate_zone-IsSound :
      (zone checked : Zone F) → validate_zone plane zone ≡ some checked → IsSound checked
  unfolding validate_zone
  validate_zone-IsSound zone checked e =
      let (guard, f) = if_some _ (named plane zone (sanitize_name zone.name)) checked e in
      let (clean, g, same, large) = named_sound zone checked _ f in
      let (safe, least, most) = sanitize_name_sound zone.name clean g in
      subst IsSound same (record {
        safe = safe;
        named_so = (least, ground arith);
        points_between = ground arith;
        normalized = ground arith;
        large = large;
      })

  joined_zones_sound :
      (o : Option (Zone F)) (rest : Option (List (Zone F))) (checked : List (Zone F))
      → joined_zones plane o rest ≡ some checked
      → (z : Zone F) × (zs : List (Zone F)) × (o ≡ some z) × (rest ≡ some zs) × (z ∷ zs ≡ checked)
  joined_zones_sound none rest checked e = absurd (cc)
  joined_zones_sound (some z) none checked e = absurd (cc)
  joined_zones_sound (some z) (some zs) checked e = (z, zs, refl, refl, cc)

  validate_zones-IsSound :
      (zones checked : List (Zone F))
      → validate_zones plane zones ≡ some checked
      → All IsSound checked × (length checked ≡ length zones)
  unfolding validate_zones
  validate_zones-IsSound [] checked e =
      let same : [] ≡ checked = cc in subst (λ zs. All IsSound zs × (length zs ≡ 0)) same (tt, refl)
  validate_zones-IsSound (zone ∷ zones) checked e =
      let (z, zs, f, g, same) =
        joined_zones_sound (validate_zone plane zone) (validate_zones plane zones) checked e in
      let (sound, long) = validate_zones-IsSound zones zs g in
      subst (λ ws. All IsSound ws × (length ws ≡ suc (length zones))) same
        ((validate_zone-IsSound zone z f, sound), omega (arith, long))

  -- What `ZoneConfiguration` promises.
  pub record IsAccepted (checked : ZoneConfiguration F) : Type 0 where
    positive : 1 ≤ checked.configuration_version
    sound : All IsSound checked.zones
    few : length checked.zones ≤ 32
    distinct_ids : AreDistinct (map (λ (z : Zone F). z.id) checked.zones)
    distinct_names : AreDistinct (map (λ (z : Zone F). lower z.name) checked.zones)

  are_unique-AreDistinct :
      (zones : List (Zone F))
      → are_unique plane zones ≡ true
      → AreDistinct (map (λ (z : Zone F). z.id) zones)
        × AreDistinct (map (λ (z : Zone F). lower z.name) zones)
  unfolding are_unique
  are_unique-AreDistinct zones h =
      (size_of_set-AreDistinct _ (ground arith), size_of_set-AreDistinct _ (ground arith))

  unique_fields_sound :
      (body checked : ZoneConfiguration F) (o : Option (List (Zone F)))
      → unique_fields plane body o ≡ some checked
      → (zones : List (Zone F)) × (o ≡ some zones)
        × (are_unique plane zones ≡ true)
        × (record body { zones = zones } ≡ checked)
  unique_fields_sound body checked none e = absurd (cc)
  unique_fields_sound body checked (some zones) e =
      let (unique, f) = if_some _ _ checked e in (zones, refl, unique, cc)

  -- A configuration that the validators accept has a version of 1 at least and at most 32 zones, of
  -- which no two share an identifier, or a name up to case. Each has a name of 1 to 48 characters
  -- that are letters, digits, spaces or the marks of the pattern, and 3 to 32 points, each in the
  -- unit square, that span the least area.
  pub validate_configuration-IsAccepted :
      (body checked : ZoneConfiguration F)
      → validate_configuration plane body ≡ some checked
      → IsAccepted checked
  unfolding validate_configuration
  validate_configuration-IsAccepted body checked e =
      let (guard, f) =
        if_some _ (unique_fields plane body (validate_zones plane body.zones)) checked e in
      let (zones, g, unique, same) = unique_fields_sound body checked _ f in
      let (sound, long) = validate_zones-IsSound body.zones zones g in
      let (ids, names) = are_unique-AreDistinct zones unique in
      subst IsAccepted same (record {
        positive = ground arith;
        sound = sound;
        few = ground (arith, long);
        distinct_ids = ids;
        distinct_names = names;
      })
