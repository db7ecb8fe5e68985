-- ===== src/Backend/Zones.antt =====
-- backend/app/models.py: `Point`, `Zone` and `ZoneConfiguration`, with the validators that pydantic
-- runs on a body. A text is a list of code points, and `none` stands for a `ValueError`. `Plane`
-- stands for the arithmetic of floats: `sum` is Python's, and `half_abs` is `abs(s / 2)`. A name is
-- ASCII behind the filter, where `casefold` is the lower case of letters.
pub mod Sound
use ignis_test.Prelude.{
  ℕ, zero, suc, ◌+◌, ◌%◌, Bool, true, false, not, ◌&&◌, ◌||◌, Option, none, some, List, [], ◌∷◌,
  map, length, list_eq, leb, ◌==◌, if◌then◌else◌,
}
use ignis_test.Backend.Observations.{cleaned, is_empty, lower}

pub record Plane (F : Type 0) : Type 0 where
  pub geb : F → F → Bool
  pub is_finite : F → Bool
  pub times : F → F → F
  pub minus : F → F → F
  pub sum : List F → F
  pub half_abs : F → F
  -- 0, 1, 10 and 0.0001
  pub nought : F
  pub one : F
  pub ten : F
  pub least_area : F

pub record Point (F : Type 0) : Type 0 where
  pub x : F
  pub y : F

pub record Zone (F : Type 0) : Type 0 where
  pub id : List ℕ
  pub name : List ℕ
  pub points : List (Point F)

pub record ZoneConfiguration (F : Type 0) : Type 0 where
  pub configuration_version : ℕ
  pub frame_aspect_ratio : F
  pub zones : List (Zone F)

-- `[a-zA-Z0-9]`
abbrev pub is_alphanumeric : ℕ → Bool
is_alphanumeric c =
    (leb b'a' c && leb c b'z') || ((leb b'A' c && leb c b'Z') || (leb b'0' c && leb c b'9'))

abbrev pub all_in_id : List ℕ → Bool
all_in_id [] = true
all_in_id (c ∷ cs) = (is_alphanumeric c || (c == b'_' || c == b'-')) && all_in_id cs

-- `^[a-zA-Z0-9][a-zA-Z0-9_-]{0,63}$`
unfoldable pub is_id : List ℕ → Bool
is_id [] = false
is_id (c ∷ cs) = is_alphanumeric c && (leb (length cs) 63 && all_in_id cs)

unfoldable pub sanitize_name : List ℕ → Option (List ℕ)
sanitize_name value = let clean = cleaned value in if is_empty clean then none else some clean

abbrev pub has_text : List ℕ → List (List ℕ) → Bool
has_text x [] = false
has_text x (y ∷ ys) = list_eq x y || has_text x ys

-- `len(set(texts))`
unfoldable pub size_of_set : List (List ℕ) → ℕ
size_of_set [] = 0
size_of_set (x ∷ xs) = let rest = size_of_set xs in if has_text x xs then rest else suc rest

-- `points[index]`
abbrev pub get_elem? : {A : Type 0} → List A → ℕ → Option A
get_elem? [] n = none
get_elem? (x ∷ xs) zero = some x
get_elem? (x ∷ xs) (suc n) = get_elem? xs n

module _ {F : Type 0} (plane : Plane F) where
  open plane use {geb, is_finite, times, minus, sum, half_abs, nought, one, ten, least_area}

  abbrev pub is_normalized : F → Bool
  is_normalized value = is_finite value && (geb value nought && geb one value)

  unfoldable pub validate_normalized : Point F → Bool
  validate_normalized p = is_normalized p.x && is_normalized p.y

  abbrev pub term_to : Point F → Option (Point F) → Option F
  term_to point none = none
  term_to point (some next) = some (minus (times point.x next.y) (times next.x point.y))

  abbrev pub joined_terms : Option F → Option (List F) → Option (List F)
  joined_terms none rest = none
  joined_terms (some t) none = none
  joined_terms (some t) (some rest) = some (t ∷ rest)

  -- The terms from `index` on; `none` where an index is out of range
  unfoldable pub terms : List (Point F) → ℕ → List (Point F) → Option (List F)
  terms points index [] = some []
  terms points index (point ∷ rest) =
      joined_terms (term_to point (get_elem? points ((index + 1) % length points)))
        (terms points (index + 1) rest)

  abbrev pub area_of_terms : Option (List F) → Option F
  area_of_terms none = none
  area_of_terms (some found) = some (half_abs (sum found))

  -- `_polygon_area`
  unfoldable pub polygon_area : List (Point F) → Option F
  unfolding terms
  polygon_area points = area_of_terms (terms points 0 points)

  -- `not _polygon_area(self.points) < 0.0001`
  abbrev pub is_large : Option F → Bool
  is_large none = false
  is_large (some area) = geb area least_area

  abbrev pub all_normalized : List (Point F) → Bool
  all_normalized [] = true
  all_normalized (p ∷ ps) = validate_normalized p && all_normalized ps

  abbrev pub named : Zone F → Option (List ℕ) → Option (Zone F)
  named zone none = none
  named zone (some clean) =
      if is_large (polygon_area zone.points) then some (record zone { name = clean }) else none

  unfoldable pub validate_zone : Zone F → Option (Zone F)
  unfolding is_id sanitize_name validate_normalized polygon_area
  validate_zone zone =
      if is_id zone.id
        && ((leb 1 (length zone.name) && leb (length zone.name) 48)
            && ((leb 3 (length zone.points) && leb (length zone.points) 32)
                && all_normalized zone.points))
      then named zone (sanitize_name zone.name)
      else none

  abbrev pub joined_zones : Option (Zone F) → Option (List (Zone F)) → Option (List (Zone F))
  joined_zones none rest = none
  joined_zones (some zone) none = none
  joined_zones (some zone) (some rest) = some (zone ∷ rest)

  unfoldable pub validate_zones : List (Zone F) → Option (List (Zone F))
  unfolding validate_zone
  validate_zones [] = some []
  validate_zones (zone ∷ zones) = joined_zones (validate_zone zone) (validate_zones zones)

  -- `unique_fields`
  unfoldable pub are_unique : List (Zone F) → Bool
  unfolding size_of_set
  are_unique zones =
      let ids = map (λ (z : Zone F). z.id) zones in
      let names = map (λ (z : Zone F). lower z.name) zones in
      length ids == size_of_set ids && length names == size_of_set names

  abbrev pub unique_fields :
      ZoneConfiguration F → Option (List (Zone F)) → Option (ZoneConfiguration F)
  unique_fields body none = none
  unique_fields body (some zones) =
      if are_unique zones then some (record body { zones = zones }) else none

  unfoldable pub validate_configuration : ZoneConfiguration F → Option (ZoneConfiguration F)
  unfolding validate_zones are_unique
  validate_configuration body =
      if leb 1 body.configuration_version
        && (not (geb nought body.frame_aspect_ratio)
            && (geb ten body.frame_aspect_ratio && leb (length body.zones) 32))
      then unique_fields body (validate_zones body.zones)
      else none
