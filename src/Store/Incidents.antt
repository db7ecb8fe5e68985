-- ===== src/Store/Incidents.antt =====
-- `upsert_incident`, `get_incident`, `update_incident_response` and `add_event`.
pub mod Laws
use Prim.Native.String.{[], ◌∷◌}
use ignis_test.Prelude.{
  ℕ, zero, suc, ◌+◌, ◌≡◌, Bool, true, false, not, Option, none, some, List, ◌++◌, String, str_eq,
  max, if◌then◌else◌,
}
use ignis_test.Prelude.Floats.{Floats}
use ignis_test.Store.Table.{find, update_where, upsert}
use ignis_test.Store.Schema.{
  HazardState, ResponseState, StoreError, Result, ok, err, incident_not_found, foreign_key,
  Incident, Event, Db, cancelled, escalating, call_requested, call_initiated, call_connected,
  call_completed, call_failed,
}

-- `IncidentUpdate.model_validate(data).model_dump()`, whose defaults are filled in.
pub record IncidentUpdate (F : Type 0) : Type 0 where
  pub incident_id : String
  pub device_id : Option String
  pub boot_id : Option String
  pub hazard_state : HazardState
  pub response_state : ResponseState
  pub first_detection_monotonic_ns : ℕ
  pub updated_monotonic_ns : ℕ
  pub fire_confidence : F
  pub smoke_confidence : F
  pub seconds_persistent : F
  pub first_zone : String
  pub current_zone : String
  pub primary_fire_bbox : Option (List F)
  pub primary_smoke_bbox : Option (List F)
  pub fire_region_growth_percent : Option F
  pub smoke_first : Option Bool
  pub smoke_to_fire_delay_seconds : Option F
  pub occupant_visible : Option Bool
  pub camera_health : String
  pub inference_health : String

-- `value or default` for a text that may be missing or empty
abbrev pub text_or : Option String → String → String
text_or none default = default
text_or (some s) default = if str_eq s "" then default else s

-- `_json(box) if box else None`
abbrev pub box_or_null {ℓ} : {A : Type ℓ} → Option (List A) → Option (List A)
box_or_null none = none
box_or_null (some List.[]) = none
box_or_null (some (List.◌∷◌ x xs)) = some (List.◌∷◌ x xs)

abbrev pub coalesce {ℓ} : {A : Type ℓ} → Option A → Option A → Option A
coalesce none b = b
coalesce (some a) b = some a

abbrev pub is_confirmed : HazardState → Bool
is_confirmed HazardState.confirmed = true
is_confirmed _ = false

abbrev pub is_resolved : HazardState → Bool
is_resolved HazardState.resolved = true
is_resolved _ = false

abbrev pub stamp : Bool → ℕ → Option ℕ
stamp b now = if b then some now else none

-- The states that a device's update does not overwrite.
abbrev pub is_sticky : ResponseState → Bool
is_sticky cancelled = true
is_sticky escalating = true
is_sticky call_requested = true
is_sticky call_initiated = true
is_sticky call_connected = true
is_sticky call_completed = true
is_sticky call_failed = true
is_sticky _ = false

-- `s[:n]`
abbrev clip : ℕ → String → String
clip zero s = []
clip (suc n) [] = []
clip (suc n) (c ∷ s) = c ∷ clip n s

module _ {F J : Type 0} where
  abbrev pub get_incident : String → Db F J → Option (Incident F)
  get_incident id db = find (λ r. r.incident_id) id db.incidents

module _ {F : Type 0} where
  -- The row of the INSERT.
  unfoldable pub fresh_incident : ℕ → IncidentUpdate F → String → String → Incident F
  fresh_incident now u default_device_id boot_id = record {
    incident_id = u.incident_id;
    device_id = text_or u.device_id default_device_id;
    boot_id = text_or u.boot_id boot_id;
    hazard_state = u.hazard_state;
    response_state = u.response_state;
    first_detection_monotonic_ns = u.first_detection_monotonic_ns;
    updated_monotonic_ns = u.updated_monotonic_ns;
    first_detected_at = now;
    confirmed_at = stamp (is_confirmed u.hazard_state) now;
    resolved_at = stamp (is_resolved u.hazard_state) now;
    first_zone = u.first_zone;
    current_zone = u.current_zone;
    peak_fire_confidence = u.fire_confidence;
    peak_smoke_confidence = u.smoke_confidence;
    max_growth_percent = u.fire_region_growth_percent;
    smoke_first = u.smoke_first;
    smoke_to_fire_delay_seconds = u.smoke_to_fire_delay_seconds;
    seconds_persistent = u.seconds_persistent;
    occupant_visible = u.occupant_visible;
    occupant_response = none;
    call_status = none;
    call_conversation_id = none;
    call_sid = none;
    primary_fire_bbox = box_or_null u.primary_fire_bbox;
    primary_smoke_bbox = box_or_null u.primary_smoke_bbox;
    camera_health = u.camera_health;
    inference_health = u.inference_health;
    created_at = now;
    updated_at = now;
  }

module _ {F : Type 0} (floats : Floats F) where
  -- SQLite's MAX of two numbers
  abbrev pub max_float : F → F → F
  max_float a b = if floats.geb a b then a else b

  abbrev pub max_growth : Option F → Option F → Option F
  max_growth old none = old
  max_growth none (some new) = some new
  max_growth (some old) (some new) = some (max_float old new)

  -- ON CONFLICT(incident_id) DO UPDATE SET …, with `x` for `excluded`.
  unfoldable pub merge_incident : Incident F → Incident F → Incident F
  merge_incident x r = record r {
    hazard_state = x.hazard_state;
    response_state = if is_sticky r.response_state then r.response_state else x.response_state;
    updated_monotonic_ns = max r.updated_monotonic_ns x.updated_monotonic_ns;
    confirmed_at = coalesce r.confirmed_at x.confirmed_at;
    resolved_at = coalesce x.resolved_at r.resolved_at;
    current_zone = x.current_zone;
    peak_fire_confidence = max_float r.peak_fire_confidence x.peak_fire_confidence;
    peak_smoke_confidence = max_float r.peak_smoke_confidence x.peak_smoke_confidence;
    max_growth_percent = max_growth r.max_growth_percent x.max_growth_percent;
    smoke_first = coalesce r.smoke_first x.smoke_first;
    smoke_to_fire_delay_seconds =
        coalesce r.smoke_to_fire_delay_seconds x.smoke_to_fire_delay_seconds;
    seconds_persistent = max_float r.seconds_persistent x.seconds_persistent;
    occupant_visible = coalesce x.occupant_visible r.occupant_visible;
    primary_fire_bbox = coalesce x.primary_fire_bbox r.primary_fire_bbox;
    primary_smoke_bbox = coalesce x.primary_smoke_bbox r.primary_smoke_bbox;
    camera_health = x.camera_health;
    inference_health = x.inference_health;
    updated_at = x.updated_at;
  }

  unfoldable pub upsert_incident :
      {J : Type 0} → ℕ → IncidentUpdate F → String → String → Db F J → Db F J
  upsert_incident now u default_device_id boot_id db =
      let x = fresh_incident now u default_device_id boot_id in
      record db { incidents = upsert (λ r. r.incident_id) x (merge_incident x) db.incidents }

module _ {F : Type 0} where
  -- The two UPDATE statements of `update_incident_response`: with and without a hazard state.
  abbrev pub respond :
      ℕ → ResponseState → Option String → Option HazardState → Incident F → Incident F
  respond now response answer none r = record r {
    response_state = response;
    occupant_response = coalesce answer r.occupant_response;
    updated_at = now;
  }
  respond now response answer (some hazard) r = record r {
    response_state = response;
    occupant_response = answer;
    hazard_state = hazard;
    resolved_at = if is_resolved hazard then some now else r.resolved_at;
    updated_at = now;
  }

module _ {F J : Type 0} where
  abbrev updated_by : Option (Incident F) → Db F J → Result (Db F J)
  updated_by none db = err incident_not_found
  updated_by (some r) db = ok db

  unfoldable pub update_incident_response :
      ℕ → String → ResponseState → Option String → Option HazardState → Db F J → Result (Db F J)
  update_incident_response now id response answer hazard db =
      updated_by (get_incident id db) (record db {
        incidents =
            update_where (λ r. r.incident_id) id (respond now response answer hazard) db.incidents;
      })

  abbrev pub event_row :
      ℕ → String → String → String → J → Option ℕ → Option String → Db F J → Event J
  event_row now id event_type source payload monotonic_ns occurred_at db = record {
    id = db.last_event + 1;
    incident_id = id;
    event_type = clip 80 event_type;
    source = clip 40 source;
    device_monotonic_ns = monotonic_ns;
    occurred_at = occurred_at;
    received_at = now;
    payload = payload;
  }

  abbrev referenced : Option (Incident F) → Db F J × Event J → Result (Db F J × Event J)
  referenced none done = err foreign_key
  referenced (some r) done = ok done

  -- `add_event` returns the row that it inserted; `foreign_keys=ON` refuses an unknown incident.
  unfoldable pub add_event :
      ℕ
      → String
      → String
      → String
      → J
      → Option ℕ
      → Option String
      → Db F J
      → Result (Db F J × Event J)
  add_event now id event_type source payload monotonic_ns occurred_at db =
      let row = event_row now id event_type source payload monotonic_ns occurred_at db in
      referenced (get_incident id db) (
        record db { events = db.events ++ (List.◌∷◌ row List.[]); last_event = db.last_event + 1 },
        row,
      )
