-- ===== src/Backend/Http/Calls.antt =====
-- backend/app/main.py: the routes of calls and of the arming. `call_demo_dispatch`
-- awaits the provider: `call_demo_dispatch` is the code before it and `call_answered` the code behind
-- it, on the state as it then is.
use ignis_test.Prelude.{
  ℕ, Bool, true, false, not, Option, none, some, List, String, str_eq, if◌then◌else◌,
}
use ignis_test.Store.Schema
use ignis_test.Store.Schema.{
  CallStatus, connected, completed, failed, Incident, Event, CallAttempt, Db,
}
use ignis_test.Store.Incidents.{get_incident, add_event}
use ignis_test.Store.Calls.{CallReport, update_call_attempt, find_attempt_for_incident, find_call}
use ignis_test.Backend.Settings.{Settings}
use ignis_test.Backend.Destination.{
  CallError, destination_not_valid_e164, emergency_numbers_are_forbidden,
  destination_not_allowlisted, demo_calls_disabled, incident_not_found,
  incident_not_visually_confirmed, incident_cancelled, dispatch_provider_not_configured,
  duplicate_or_max_calls_reached, global_call_cooldown, call_provider_outcome_unknown,
  call_provider_connection_error, call_provider_rejected_request, store_failure,
}
use ignis_test.Backend.Dispatch.{
  Begun, dial, Finished, faulted, undecoded, Provider, Reply, begin_call, finish_call,
}
use ignis_test.Backend.Session.{timeline_event, call_reply, call_row, arming_update}
use ignis_test.Backend.Http.{
  App, Request, HttpError, http_exception, server_error, Answer, answered, refused, Payloads,
  require_rate_limit, with_db, tell,
}

-- `communication_exception`: the status and the code of a `CommunicationError`
abbrev pub http_of : CallError → HttpError
http_of destination_not_valid_e164 = http_exception 400 "destination_not_valid_e164"
http_of emergency_numbers_are_forbidden = http_exception 403 "emergency_numbers_are_forbidden"
http_of destination_not_allowlisted = http_exception 403 "destination_not_allowlisted"
http_of demo_calls_disabled = http_exception 403 "demo_calls_disabled"
http_of incident_not_found = http_exception 404 "incident_not_found"
http_of incident_not_visually_confirmed = http_exception 409 "incident_not_visually_confirmed"
http_of incident_cancelled = http_exception 409 "incident_cancelled"
http_of dispatch_provider_not_configured = http_exception 503 "dispatch_provider_not_configured"
http_of duplicate_or_max_calls_reached = http_exception 409 "duplicate_or_max_calls_reached"
http_of global_call_cooldown = http_exception 409 "global_call_cooldown"
http_of call_provider_outcome_unknown = http_exception 502 "call_provider_outcome_unknown"
http_of call_provider_connection_error = http_exception 502 "call_provider_connection_error"
http_of call_provider_rejected_request = http_exception 502 "call_provider_rejected_request"
http_of store_failure = server_error

-- How a route that calls goes on: with an answer, or with a provider to wait for.
pub data Pending : Type 0 where
  settled : Answer Reply → Pending
  waiting : ℕ → List ℕ → Pending

pub data Report : Type 0 where
  connected_report completed_report failed_report : Report

-- `ProviderStatus`
pub record ProviderStatus : Type 0 where
  pub incident_id : String
  pub status : Report
  pub conversation_id : Option String
  pub call_sid : Option String
  pub error_code : Option String

abbrev pub status_of : Report → CallStatus
status_of connected_report = connected
status_of completed_report = completed
status_of failed_report = failed

abbrev pub message_of : Report → Option String
message_of failed_report = some "Provider reported call failure."
message_of other = none

abbrev pub reported : ProviderStatus → CallReport
reported body = record {
  status = status_of body.status;
  conversation_id = body.conversation_id;
  call_sid = body.call_sid;
  error_code = body.error_code;
  error_message_safe = message_of body.status;
}

abbrev pub system_unarmed : HttpError
system_unarmed = http_exception 409 "system_unarmed"

module _ {F J : Type 0} (payloads : Payloads J) (request : Request) (id : String) where
  abbrev pub noted : Reply → Schema.Result (Db F J × Event J) → App F J → App F J × Answer Reply
  noted reply (Schema.err e) app = (app, refused server_error)
  noted reply (Schema.ok (db, event)) app =
      (tell (call_reply reply) (tell (timeline_event event) (with_db db app)), answered reply)

  -- From `add_event` on.
  abbrev pub note_call : Reply → App F J → App F J × Answer Reply
  note_call reply app =
      noted reply
        (add_event request.utc id "DEMO_DISPATCH_REQUESTED" "backend" (payloads.dispatched reply)
          none none app.world.db)
        app

  abbrev pub answer_of : Finished F J → App F J → App F J × Answer Reply
  answer_of (Finished.raised db e) app = (with_db db app, refused (http_of e))
  answer_of (Finished.returned db reply) app = note_call reply (with_db db app)
  answer_of (faulted e) app = (app, refused server_error)
  answer_of undecoded app = (app, refused server_error)

  abbrev pub settle : App F J × Answer Reply → App F J × Pending
  settle (app, answer) = (app, settled answer)

  abbrev pub begun_by : Begun F J → App F J → App F J × Pending
  begun_by (Begun.refused e) app = (app, settled (refused (http_of e)))
  begun_by (Begun.answered db reply) app = settle (note_call reply (with_db db app))
  begun_by (dial db n number) app = (with_db db app, waiting n number)

module _ (is_other_digit : ℕ → Bool) (sha256_hex : List ℕ → String) (settings : Settings)
    {F J : Type 0} (payloads : Payloads J) (request : Request) (id : String) where
  abbrev pub call_found : Option (Incident F) → App F J → App F J × Pending
  call_found none app = (app, settled (refused (http_exception 404 "incident_not_found")))
  call_found (some stored) app =
      begun_by payloads request id
        (begin_call is_other_digit sha256_hex settings request.utc id app.world.db) app

  abbrev pub call_rated : App F J × Bool → App F J × Pending
  call_rated (app, false) =
      (app, settled (refused (http_exception 429 "action_rate_limit_exceeded")))
  call_rated (app, true) =
      if not app.armed
      then (app, settled (refused system_unarmed))
      else call_found (get_incident id app.world.db) app

  unfoldable pub call_demo_dispatch : App F J → App F J × Pending
  unfolding require_rate_limit
  call_demo_dispatch app = call_rated (require_rate_limit request app)

  unfoldable pub call_answered : ℕ → Provider → App F J → App F J × Answer Reply
  call_answered n provider app =
      answer_of payloads request id
        (finish_call is_other_digit sha256_hex settings request.utc n provider app.world.db) app

module _ (compare_digest : String → String → Option Bool) (settings : Settings) where
  abbrev pub same_secret : Option String → Option Bool
  same_secret none = some false
  same_secret (some supplied) =
      if str_eq settings.provider_webhook_secret ""
      then some false
      else if str_eq supplied ""
      then some false
      else compare_digest settings.provider_webhook_secret supplied

  -- `none` where hmac raises
  unfoldable pub authenticate_provider_webhook : Option String → Option Bool
  authenticate_provider_webhook supplied = same_secret supplied

  module _ {F J : Type 0} (request : Request) where
    abbrev pub stored_report :
        ProviderStatus → ℕ → Schema.Result (Db F J) → App F J → App F J × Answer Report
    stored_report body n (Schema.err e) app = (app, refused server_error)
    stored_report body n (Schema.ok db) app =
        (tell (call_row (find_call n db.call_attempts)) (with_db db app), answered body.status)

    abbrev pub report_on : ProviderStatus → Option CallAttempt → App F J → App F J × Answer Report
    report_on body none app = (app, refused (http_exception 404 "call_attempt_not_found"))
    report_on body (some attempt) app =
        stored_report body attempt.id
          (update_call_attempt request.utc attempt.id (reported body) app.world.db) app

    abbrev pub status_by : ProviderStatus → Option Bool → App F J → App F J × Answer Report
    status_by body none app = (app, refused server_error)
    status_by body (some false) app = (app, refused (http_exception 401 "invalid_webhook_secret"))
    status_by body (some true) app =
        report_on body (find_attempt_for_incident body.incident_id app.world.db) app

    unfoldable pub provider_call_status :
        ProviderStatus → Option String → App F J → App F J × Answer Report
    unfolding authenticate_provider_webhook
    provider_call_status body secret app = status_by body (authenticate_provider_webhook secret) app

module _ {F J : Type 0} (request : Request) where
  abbrev pub armed_by : Bool → App F J × Bool → App F J × Answer Bool
  armed_by armed (app, false) = (app, refused (http_exception 429 "action_rate_limit_exceeded"))
  armed_by armed (app, true) =
      (tell (arming_update armed) (record app { armed = armed }), answered armed)

  -- `armed` is `bool(body.get("armed"))`
  unfoldable pub put_arming : Bool → App F J → App F J × Answer Bool
  unfolding require_rate_limit
  put_arming armed app = armed_by armed (require_rate_limit request app)
