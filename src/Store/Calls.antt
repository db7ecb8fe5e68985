-- ===== src/Store/Calls.antt =====
-- `reserve_call_attempt`, `update_call_attempt` and `find_attempt_for_incident`.
pub mod Policy
use ignis_test.Prelude.{
  ℕ, zero, suc, ◌+◌, ◌*◌, ◌≡◌, Bool, true, false, not, ◌&&◌, Option, none, some, List, [], ◌∷◌,
  ◌++◌, String, str_eq, max, if◌then◌else◌, leb, ltb, ◌==◌, count_by, keep,
}
use ignis_test.Store.Table.{find, update_where}
use ignis_test.Store.Schema.{
  HazardState, ResponseState, CallStatus, requested, initiated, unknown, connected, completed,
  failed, StoreError, Result, ok, err, call_attempt_not_found, key_error, policy_incident_not_found,
  policy_not_confirmed, policy_cancelled, policy_max_calls, policy_cooldown, Incident, CallAttempt,
  Db,
}
use ignis_test.Store.Incidents.{get_incident, coalesce}

-- `active_statuses`
abbrev pub is_active : CallStatus → Bool
is_active failed = false
is_active _ = true

abbrev pub is_cancelled : ResponseState → Bool
is_cancelled ResponseState.cancelled = true
is_cancelled _ = false

abbrev pub is_some {ℓ} : {A : Type ℓ} → Option A → Bool
is_some none = false
is_some (some _) = true

-- A timedelta of seconds, in microseconds.
abbrev pub second : ℕ
second = 1_000_000

abbrev pub is_active_call_of : String → CallAttempt → Bool
is_active_call_of id a = str_eq a.incident_id id && is_active a.status

-- SELECT COUNT(*) … WHERE incident_id=? AND status IN (…)
abbrev pub active_calls : String → List CallAttempt → ℕ
active_calls id = count_by (is_active_call_of id)

abbrev later : ℕ → Option ℕ → Option ℕ
later t none = some t
later t (some s) = some (max t s)

-- SELECT requested_at … WHERE status IN (…) ORDER BY requested_at DESC LIMIT 1
abbrev pub latest_request : List CallAttempt → Option ℕ
latest_request [] = none
latest_request (a ∷ calls) =
    let rest = latest_request calls in
    if is_active a.status then later a.requested_at rest else rest

-- `latest_time + timedelta(seconds=cooldown_seconds) > now`
abbrev pub cooling : ℕ → ℕ → Option ℕ → Bool
cooling now cooldown_seconds none = false
cooling now cooldown_seconds (some t) = ltb now (t + cooldown_seconds * second)

abbrev pub call_row : ℕ → ℕ → String → String → CallAttempt
call_row now id incident_id destination_hash = record {
  id = id;
  incident_id = incident_id;
  destination_hash = destination_hash;
  status = requested;
  provider_conversation_id = none;
  provider_call_sid = none;
  requested_at = now;
  updated_at = now;
  error_code = none;
  error_message_safe = none;
}

-- `mapping[status]`; a status that is no key raises `KeyError`
abbrev pub response_of : CallStatus → Option ResponseState
response_of requested = none
response_of initiated = some ResponseState.call_initiated
response_of unknown = some ResponseState.call_initiated
response_of connected = some ResponseState.call_connected
response_of completed = some ResponseState.call_completed
response_of failed = some ResponseState.call_failed

module _ {F : Type 0} where
  abbrev pub requested_row : ℕ → Incident F → Incident F
  requested_row now r = record r {
    response_state = ResponseState.call_requested;
    call_status = some requested;
    updated_at = now;
  }

  abbrev pub called_row :
      ℕ → ResponseState → CallStatus → Option String → Option String → Incident F → Incident F
  called_row now response status conversation_id call_sid r = record r {
    response_state = response;
    call_status = some status;
    call_conversation_id = coalesce conversation_id r.call_conversation_id;
    call_sid = coalesce call_sid r.call_sid;
    updated_at = now;
  }

module _ {F J : Type 0} where
  abbrev pub reserved : ℕ → String → String → Db F J → Db F J
  reserved now id destination_hash db = record db {
    call_attempts = db.call_attempts ++ call_row now (db.last_attempt + 1) id destination_hash ∷ [];
    incidents = update_where (λ r. r.incident_id) id (requested_row now) db.incidents;
    last_attempt = db.last_attempt + 1;
  }

  -- The tests on the incident's row, then those on the calls, in the order of the source.
  unfoldable pub reserve_for :
      Option (Incident F) → ℕ → String → String → ℕ → ℕ → Db F J → Result (Db F J × ℕ)
  reserve_for none now id destination_hash cooldown_seconds max_calls db =
      err policy_incident_not_found
  reserve_for (some incident) now id destination_hash cooldown_seconds max_calls db =
      if not (is_some incident.confirmed_at)
      then err policy_not_confirmed
      else if is_cancelled incident.response_state
      then err policy_cancelled
      else if leb max_calls (active_calls id db.call_attempts)
      then err policy_max_calls
      else if cooling now cooldown_seconds (latest_request db.call_attempts)
      then err policy_cooldown
      else ok (reserved now id destination_hash db, db.last_attempt + 1)

  unfoldable pub reserve_call_attempt : ℕ → String → String → ℕ → ℕ → Db F J → Result (Db F J × ℕ)
  unfolding reserve_for
  reserve_call_attempt now id destination_hash cooldown_seconds max_calls db =
      reserve_for (get_incident id db) now id destination_hash cooldown_seconds max_calls db

-- The columns that an UPDATE of a call writes.
pub record CallReport : Type 0 where
  pub status : CallStatus
  pub conversation_id : Option String
  pub call_sid : Option String
  pub error_code : Option String
  pub error_message_safe : Option String

abbrev pub report_call : ℕ → CallReport → CallAttempt → CallAttempt
report_call now report a = record a {
  status = report.status;
  provider_conversation_id = report.conversation_id;
  provider_call_sid = report.call_sid;
  error_code = report.error_code;
  error_message_safe = report.error_message_safe;
  updated_at = now;
}

unfoldable pub find_call : ℕ → List CallAttempt → Option CallAttempt
find_call n [] = none
find_call n (a ∷ calls) = if a.id == n then some a else find_call n calls

unfoldable pub update_call : ℕ → (CallAttempt → CallAttempt) → List CallAttempt → List CallAttempt
update_call n change [] = []
update_call n change (a ∷ calls) = (if a.id == n then change a else a) ∷ update_call n change calls

module _ {F J : Type 0} where
  abbrev pub report_incident :
      ℕ → CallReport → Option ResponseState → CallAttempt → Db F J → Result (Db F J)
  report_incident now report none a db = err key_error
  report_incident now report (some response) a db = ok (record db {
    incidents =
        update_where (λ r. r.incident_id) a.incident_id
          (called_row now response report.status report.conversation_id report.call_sid)
          db.incidents;
  })

  abbrev pub report_by : ℕ → CallReport → Option CallAttempt → Db F J → Result (Db F J)
  report_by now report none db = err call_attempt_not_found
  report_by now report (some a) db = report_incident now report (response_of report.status) a db

  unfoldable pub update_call_attempt : ℕ → ℕ → CallReport → Db F J → Result (Db F J)
  update_call_attempt now attempt_id report db =
      let calls = update_call attempt_id (report_call now report) db.call_attempts in
      report_by now report (find_call attempt_id calls) (record db { call_attempts = calls })

-- SELECT * … WHERE incident_id=? ORDER BY id DESC LIMIT 1; rows are inserted in the order of ids.
abbrev last_or : Option CallAttempt → CallAttempt → Option CallAttempt
last_or none a = some a
last_or (some b) a = some b

unfoldable pub latest_call_of : String → List CallAttempt → Option CallAttempt
latest_call_of id [] = none
latest_call_of id (a ∷ calls) =
    let rest = latest_call_of id calls in if str_eq a.incident_id id then last_or rest a else rest

unfoldable pub find_attempt_for_incident : {F J : Type 0} → String → Db F J → Option CallAttempt
unfolding latest_call_of
find_attempt_for_incident id db = latest_call_of id db.call_attempts
