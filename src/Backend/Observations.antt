-- ===== src/Backend/Observations.antt =====
-- backend/app/observation_formatter.py, and `safe_incident_context` of backend/app/communications.py:
-- what the voice agents are told of an incident. A text is a list of code points. `Rounding` stands
-- for the constants and the roundings of floats. After the filter a text is ASCII, where `strip` takes
-- spaces, and `lower` and `casefold` are the lower case of letters.
pub mod Safe
use ignis_test.Prelude.{
  ℕ, ◌+◌, Bool, true, false, not, ◌&&◌, ◌||◌, Option, none, some, List, [], ◌∷◌, ◌++◌, String,
  codes, list_eq, leb, ltb, ◌==◌, if◌then◌else◌, take, keep, map,
}
use ignis_test.Prelude.Floats.{Floats}
use ignis_test.Verifier.Decimal.{decimal}
use ignis_test.Store.Schema.{HazardState, ResponseState, Incident}

-- A character of the class `[A-Za-z0-9 .,'()&-]`
abbrev pub is_safe : ℕ → Bool
is_safe c =
    (leb b'A' c && leb c b'Z')
    || ((leb b'a' c && leb c b'z')
        || ((leb b'0' c && leb c b'9')
            || (c == 32
                || (c == b'.'
                    || (c == b','
                        || (c == 39 || (c == b'(' || (c == b')' || (c == b'&' || c == b'-')))))))))

abbrev pub is_empty : List ℕ → Bool
is_empty [] = true
is_empty (c ∷ cs) = false

abbrev pub strip_start : List ℕ → List ℕ
strip_start [] = []
strip_start (c ∷ cs) = let rest = strip_start cs in if c == 32 then rest else c ∷ cs

abbrev pub strip_end : List ℕ → List ℕ
strip_end [] = []
strip_end (c ∷ cs) = let rest = strip_end cs in if c == 32 && is_empty rest then [] else c ∷ rest

-- `re.sub(r"[^A-Za-z0-9 .,'()&-]", "", text).strip()`
abbrev pub cleaned : List ℕ → List ℕ
cleaned text = strip_end (strip_start (keep is_safe text))

abbrev pub or_unconfigured : List ℕ → List ℕ
or_unconfigured [] = codes "unconfigured area"
or_unconfigured (c ∷ cs) = c ∷ cs

-- `sanitize_zone`
unfoldable pub sanitize_zone : List ℕ → List ℕ
sanitize_zone text = or_unconfigured (take 48 (cleaned text))

abbrev pub lower_code : ℕ → ℕ
lower_code c = if leb b'A' c && leb c b'Z' then c + 32 else c

abbrev pub lower : List ℕ → List ℕ
lower text = map lower_code text

pub record Rounding (F : Type 0) : Type 0 where
  pub floats : Floats F
  -- 0.75, 20 and 1000
  pub three_quarters : F
  pub twenty : F
  pub thousand : F
  -- `round(x)`, `round(100 * x)` and `round(x, 1)`
  pub rounded : F → ℕ
  pub percent : F → ℕ
  pub tenths : F → F

abbrev pub duration_word : ℕ → List ℕ
duration_word n =
    if n == 1
    then codes "one"
    else if n == 2
    then codes "two"
    else if n == 3
    then codes "three"
    else if n == 4
    then codes "four"
    else if n == 5
    then codes "five"
    else if n == 6
    then codes "six"
    else if n == 7
    then codes "seven"
    else if n == 8
    then codes "eight"
    else if n == 9
    then codes "nine"
    else if n == 10
    then codes "ten"
    else codes (decimal n)

-- What the formatter reads of an incident.
pub record Observed (F : Type 0) : Type 0 where
  pub first_zone : List ℕ
  pub smoke_to_fire_delay_seconds : Option F
  pub smoke_first : Option Bool
  pub fire_region_growth_percent : Option F
  pub occupant_visible : Option Bool

pub record Observations : Type 0 where
  pub observed_origin : List ℕ
  pub sequence_observation : List ℕ
  pub growth_observation : List ℕ
  pub occupant_observation : List ℕ
  pub cause_statement : List ℕ

-- `origin`
abbrev pub origin_of : List ℕ → List ℕ
origin_of zone =
    let folded = lower zone in
    if list_eq folded (codes "unconfigured area")
      || (list_eq folded (codes "general room") || list_eq folded (codes "unknown"))
    then codes "The source is not visible from the camera."
    else codes "Visible flames first appeared in the configured " ++ (folded ++ codes " zone.")

-- `sequence`
abbrev pub sequence_of : Option Bool → Option (List ℕ) → List ℕ
sequence_of (some true) (some delay) =
    codes "Smoke was detected approximately " ++ (delay ++ codes " seconds before visible flames.")
sequence_of (some false) (some delay) =
    codes "Visible flames were detected approximately " ++ (delay ++ codes " seconds before smoke.")
sequence_of order delay = codes "The visual sequence could not be determined reliably."

abbrev pub occupant_of : Option Bool → List ℕ
occupant_of (some true) = codes "An occupant was visibly detected."
occupant_of (some false) = codes "No occupant was visibly detected in the available frame."
occupant_of none = codes "Occupant visibility was not determined."

module _ {F : Type 0} (r : Rounding F) where
  open r use {three_quarters, twenty, thousand, rounded, percent, tenths, floats.{geb, gtb}}

  -- `_rounded_duration`
  unfoldable pub rounded_duration : Option F → Option (List ℕ)
  rounded_duration none = none
  rounded_duration (some seconds) =
      if gtb three_quarters seconds then none else some (duration_word (rounded seconds))

  abbrev pub growth_of : Option F → List ℕ
  growth_of none = codes "Stable visual-region growth was not established."
  growth_of (some growth) =
      if geb growth twenty && geb thousand growth
      then codes "The visible fire region expanded during verification."
      else codes "Stable visual-region growth was not established."

  unfoldable pub format_observations : Observed F → Observations
  unfolding sanitize_zone rounded_duration
  format_observations observed = record {
    observed_origin = take 180 (origin_of (sanitize_zone observed.first_zone));
    sequence_observation =
        take 180 (
          sequence_of observed.smoke_first (rounded_duration observed.smoke_to_fire_delay_seconds));
    growth_observation = growth_of observed.fire_region_growth_percent;
    occupant_observation = occupant_of observed.occupant_visible;
    cause_statement = codes "The exact cause is unconfirmed.";
  }

-- The context of a call, but for its two constant texts.
pub record Context (F : Type 0) : Type 0 where
  pub incident_id : String
  pub hazard_state : HazardState
  pub response_state : ResponseState
  pub zone : List ℕ
  pub fire_confidence_percent : ℕ
  pub smoke_confidence_percent : ℕ
  pub duration_seconds : F
  pub smoke_first : Option Bool
  pub smoke_to_fire_delay_seconds : Option F
  pub fire_region_growth_percent : Option F
  pub occupant_visible : String
  pub observations : Observations

abbrev pub visibility : Option Bool → String
visibility none = "unknown"
visibility (some true) = "true"
visibility (some false) = "false"

module _ {F : Type 0} (r : Rounding F) where
  open r use {percent, tenths}

  -- A row of the database has no `fire_region_growth_percent`, so the peak of the growth is read.
  unfoldable pub safe_incident_context : Incident F → Context F
  unfolding format_observations
  safe_incident_context i = record {
    incident_id = i.incident_id;
    hazard_state = i.hazard_state;
    response_state = i.response_state;
    zone = sanitize_zone (codes i.first_zone);
    fire_confidence_percent = percent i.peak_fire_confidence;
    smoke_confidence_percent = percent i.peak_smoke_confidence;
    duration_seconds = tenths i.seconds_persistent;
    smoke_first = i.smoke_first;
    smoke_to_fire_delay_seconds = i.smoke_to_fire_delay_seconds;
    fire_region_growth_percent = i.max_growth_percent;
    occupant_visible = visibility i.occupant_visible;
    observations = format_observations r (record {
      first_zone = codes i.first_zone;
      smoke_to_fire_delay_seconds = i.smoke_to_fire_delay_seconds;
      smoke_first = i.smoke_first;
      fire_region_growth_percent = i.max_growth_percent;
      occupant_visible = i.occupant_visible;
    });
  }
