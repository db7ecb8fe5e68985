-- ===== src/Store/Schema.antt =====
-- The rows of backend/app/database.py, and what the transactions raise.
-- A time is the reading of `utc_now()` in microseconds: its ISO text with the same offset sorts the
-- same way, and `fromisoformat` gives the reading back. `J` is the type of JSON values, which a
-- `…_json` column holds as text and `_decode_row` reads back. `F` is the type of floats.
use ignis_test.Prelude.{ℕ, Bool, Option, List, String}

pub data HazardState : Type 0 where
  clear suspected verifying confirmed visual_signature_lost resolved degraded : HazardState

pub data ResponseState : Type 0 where
  idle awaiting_response cancelled escalating call_requested call_initiated : ResponseState
  call_connected call_completed call_failed : ResponseState

pub data CallStatus : Type 0 where
  requested initiated unknown connected completed failed : CallStatus

-- `DatabaseError`, `CallPolicyError`, sqlite3's `IntegrityError`, and `KeyError`.
pub data StoreError : Type 0 where
  incident_not_found call_attempt_not_found version_must_increase foreign_key key_error : StoreError
  policy_incident_not_found policy_not_confirmed policy_cancelled : StoreError
  policy_max_calls policy_cooldown : StoreError

-- A transaction that raises is rolled back: no state comes with the error.
pub data Result {ℓ} (A : Type ℓ) : Type ℓ where
  ok : A → Result A
  err : StoreError → Result A

pub record Device (J : Type 0) : Type 0 where
  pub device_id : String
  pub boot_id : String
  pub software_version : String
  pub connected : Bool
  pub connected_at : Option ℕ
  pub disconnected_at : Option ℕ
  pub last_seen_at : ℕ
  pub capabilities : J
  pub health : J

pub record Incident (F : Type 0) : Type 0 where
  pub incident_id : String
  pub device_id : String
  pub boot_id : String
  pub hazard_state : HazardState
  pub response_state : ResponseState
  pub first_detection_monotonic_ns : ℕ
  pub updated_monotonic_ns : ℕ
  pub first_detected_at : ℕ
  pub confirmed_at : Option ℕ
  pub resolved_at : Option ℕ
  pub first_zone : String
  pub current_zone : String
  pub peak_fire_confidence : F
  pub peak_smoke_confidence : F
  pub max_growth_percent : Option F
  pub smoke_first : Option Bool
  pub smoke_to_fire_delay_seconds : Option F
  pub seconds_persistent : F
  pub occupant_visible : Option Bool
  pub occupant_response : Option String
  pub call_status : Option CallStatus
  pub call_conversation_id : Option String
  pub call_sid : Option String
  pub primary_fire_bbox : Option (List F)
  pub primary_smoke_bbox : Option (List F)
  pub camera_health : String
  pub inference_health : String
  pub created_at : ℕ
  pub updated_at : ℕ

pub record Event (J : Type 0) : Type 0 where
  pub id : ℕ
  pub incident_id : String
  pub event_type : String
  pub source : String
  pub device_monotonic_ns : Option ℕ
  pub occurred_at : Option String
  pub received_at : ℕ
  pub payload : J

pub record CallAttempt : Type 0 where
  pub id : ℕ
  pub incident_id : String
  pub destination_hash : String
  pub status : CallStatus
  pub provider_conversation_id : Option String
  pub provider_call_sid : Option String
  pub requested_at : ℕ
  pub updated_at : ℕ
  pub error_code : Option String
  pub error_message_safe : Option String

pub record ConfigurationRow (J : Type 0) : Type 0 where
  pub name : String
  pub version : ℕ
  pub value : J
  pub updated_at : ℕ

-- The last two fields are the counters of AUTOINCREMENT: the largest id that was ever given.
pub record Db (F J : Type 0) : Type 0 where
  pub devices : List (Device J)
  pub incidents : List (Incident F)
  pub events : List (Event J)
  pub call_attempts : List CallAttempt
  pub configurations : List (ConfigurationRow J)
  pub last_event : ℕ
  pub last_attempt : ℕ

abbrev pub empty_db : {F J : Type 0} → Db F J
empty_db = record {
  devices = List.[];
  incidents = List.[];
  events = List.[];
  call_attempts = List.[];
  configurations = List.[];
  last_event = 0;
  last_attempt = 0;
}
