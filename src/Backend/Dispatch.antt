-- ===== src/Backend/Dispatch.antt =====
-- backend/app/communications.py: `ElevenLabsService.request_demo_call`. The call of the provider is
-- an `await`, across which the database may change: `begin_call` is the code before it, and
-- `finish_call` the code behind it, over the database as it then is. The text of the message
-- (the dynamic variables) is not modelled.
pub mod Safety
use Prim.Native.String
use ignis_test.Prelude.{
  ℕ, zero, suc, ◌+◌, ◌-◌, ◌≤◌, ◌≡◌, refl, Bool, true, false, not, ◌&&◌, ◌||◌, List, [], ◌∷◌, ◌++◌,
  codes, leb, ltb, if◌then◌else◌, length, take, drop, Option, none, some, String, str_eq,
}
use ignis_test.Verifier.Decimal.{decimal}
use ignis_test.Store.Schema.{
  ResponseState, CallStatus, initiated, unknown, failed, StoreError, Result, ok, err,
  policy_incident_not_found, policy_not_confirmed, policy_cancelled, policy_max_calls,
  policy_cooldown, Incident, Db,
}
use ignis_test.Store.Incidents.{get_incident}
use ignis_test.Store.Calls.{
  is_some, is_cancelled, reserve_call_attempt, update_call_attempt, CallReport,
}
use ignis_test.Backend.Settings.{Settings}
use ignis_test.Backend.Destination.{
  CallError, demo_calls_disabled, incident_not_found, incident_not_visually_confirmed,
  incident_cancelled, dispatch_provider_not_configured, duplicate_or_max_calls_reached,
  global_call_cooldown, call_provider_outcome_unknown, call_provider_connection_error,
  call_provider_rejected_request, store_failure, validate_destination,
}

-- `mask_destination`
unfoldable pub mask_destination : List ℕ → List ℕ
mask_destination destination =
    if leb 6 (length destination)
    then take 2 destination ++ codes "••••••" ++ drop (length destination - 2) destination
    else codes "[masked]"

pub record Reply : Type 0 where
  pub provider : String
  pub conversation_id : Option String
  pub destination : List ℕ

-- How `begin_call` ends: with an error, at once (the mock provider), or with a call to place.
pub data Begun (F J : Type 0) : Type 0 where
  refused : CallError → Begun F J
  answered : Db F J → Reply → Begun F J
  dial : Db F J → ℕ → List ℕ → Begun F J

-- How `finish_call` ends: with an error after a write, with a reply, with the database's error, or
-- with an exception of reading the body, before which nothing was written.
pub data Finished (F J : Type 0) : Type 0 where
  undecoded : Finished F J
  raised : Db F J → CallError → Finished F J
  returned : Db F J → Reply → Finished F J
  faulted : StoreError → Finished F J

-- `str(x) if x else None`
abbrev pub filled : Option String → Option String
filled none = none
filled (some s) = if str_eq s "" then none else some s

-- What the provider's client gives: httpx's exceptions, or a response with its status, and its body
-- where that is a JSON object.
pub data Provider : Type 0 where
  unreadable : ℕ → Provider
  timed_out unreachable : Provider
  responded : ℕ → Option String → Option String → Provider

-- `str(exc)` of a `CallPolicyError`, as the new error's code
abbrev pub call_error : StoreError → CallError
call_error policy_incident_not_found = incident_not_found
call_error policy_not_confirmed = incident_not_visually_confirmed
call_error policy_cancelled = incident_cancelled
call_error policy_max_calls = duplicate_or_max_calls_reached
call_error policy_cooldown = global_call_cooldown
call_error _ = store_failure

abbrev is_configured : Settings → Bool
is_configured s =
    not (str_eq s.elevenlabs_api_key "")
    && (not (str_eq s.dispatch_agent_id "") && not (str_eq s.phone_number_id ""))

abbrev pub report :
    CallStatus → Option String → Option String → Option String → Option String → CallReport
report status conversation_id call_sid error_code message = record {
  status = status;
  conversation_id = conversation_id;
  call_sid = call_sid;
  error_code = error_code;
  error_message_safe = message;
}

module _ (is_other_digit : ℕ → Bool) (sha256_hex : List ℕ → String) (settings : Settings) where
  abbrev pub reply_to : String → Option String → Reply
  reply_to provider conversation_id = record {
    provider = provider;
    conversation_id = conversation_id;
    destination = mask_destination settings.demo_dispatch_number;
  }

  module _ {F J : Type 0} where
    abbrev mocked : ℕ → Result (Db F J) → Begun F J
    mocked n (ok db) = answered db (reply_to "mock" (some (String.◌++◌ "mock-" (decimal n))))
    mocked n (err e) = refused store_failure

    -- From the reservation on.
    unfoldable pub place_call : ℕ → Result (Db F J × ℕ) → Begun F J
    place_call now (err e) = refused (call_error e)
    place_call now (ok (db, n)) =
        if str_eq settings.call_provider "mock"
        then mocked n (
            update_call_attempt now n
              (report initiated (some (String.◌++◌ "mock-" (decimal n))) none none none) db)
        else dial db n settings.demo_dispatch_number

    -- The tests on the incident that was read, then the reservation.
    unfoldable pub call_for : ℕ → String → Option (Incident F) → Db F J → Begun F J
    unfolding place_call
    call_for now id none db = refused incident_not_found
    call_for now id (some incident) db =
        if not (is_some incident.confirmed_at)
        then refused incident_not_visually_confirmed
        else if is_cancelled incident.response_state
        then refused incident_cancelled
        else if str_eq settings.call_provider "elevenlabs" && not (is_configured settings)
        then refused dispatch_provider_not_configured
        else place_call now (
            reserve_call_attempt now id (sha256_hex settings.demo_dispatch_number)
              settings.global_call_cooldown_seconds settings.max_calls_per_incident db)

    abbrev validated : Option CallError → Begun F J → Begun F J
    validated (some e) rest = refused e
    validated none rest = rest

    unfoldable pub begin_call : ℕ → String → Db F J → Begun F J
    unfolding call_for
    begin_call now id db =
        if settings.demo_calls_enabled
        then validated
            (validate_destination is_other_digit settings.demo_dispatch_number
              settings.demo_allowed_numbers)
            (call_for now id (get_incident id db) db)
        else refused demo_calls_disabled

    abbrev pub raising : CallError → Result (Db F J) → Finished F J
    raising e (ok db) = raised db e
    raising e (err x) = faulted x

    abbrev pub returning : Reply → Result (Db F J) → Finished F J
    returning r (ok db) = returned db r
    returning r (err x) = faulted x

    abbrev pub rejected : ℕ → ℕ → ℕ → Db F J → Finished F J
    rejected now n status db = raising call_provider_rejected_request (
        update_call_attempt now n
          (report failed none none (some (String.◌++◌ "provider_http_" (decimal status)))
            (some "The call provider rejected the request."))
          db)

    -- `n` is the attempt that `begin_call` reserved.
    unfoldable pub finish_call : ℕ → ℕ → Provider → Db F J → Finished F J
    finish_call now n timed_out db = raising call_provider_outcome_unknown (
        update_call_attempt now n
          (report unknown none none (some "provider_timeout")
            (some "Provider outcome is unknown; automatic retry was suppressed."))
          db)
    finish_call now n unreachable db = raising call_provider_connection_error (
        update_call_attempt now n
          (report failed none none (some "provider_connection_error")
            (some "Could not reach the configured call provider."))
          db)
    finish_call now n (unreadable status) db =
        if leb 400 status then rejected now n status db else undecoded
    finish_call now n (responded status conversation_id call_sid) db =
        if leb 400 status
        then rejected now n status db
        else returning (reply_to "elevenlabs_twilio" conversation_id) (
            update_call_attempt now n
              (report initiated (filled conversation_id) (filled call_sid) none none) db)
