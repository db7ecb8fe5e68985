-- ===== src/Backend/Http/Actions.antt =====
-- backend/app/main.py: the routes of an occupant's and an operator's actions on an incident.
use ignis_test.Prelude.{Bool, true, false, not, none, some, String, if◌then◌else◌}
use ignis_test.Wire.Packet.{occupant_confirm, occupant_cancel, manual_reset}
use ignis_test.Wire.Frame.{Json}
use ignis_test.Store.Schema.{
  ResponseState, cancelled, escalating, call_connected, call_completed, call_failed, resolved,
  Incident,
}
use ignis_test.Store.Incidents.{get_incident}
use ignis_test.Store.Calls.{is_cancelled}
use ignis_test.Backend.Escalation
use ignis_test.Backend.Escalation.{is_burning}
use ignis_test.Backend.Http.{
  App, Request, http_exception, Answer, refused, Applied, Payloads, Action, require_rate_limit,
  rated, or_404, apply_action,
}

-- `ManualConfirmation` and `ResetRequest`
pub record Remark : Type 0 where
  pub source : String
  pub note : String

pub record Cancellation : Type 0 where
  pub source : String
  pub reason : String
  pub note : String

abbrev pub is_connected : ResponseState → Bool
is_connected call_connected = true
is_connected call_completed = true
is_connected other = false

-- `in {"CANCELLED", "CALL_COMPLETED", "CALL_FAILED"}`
abbrev pub is_resettable : ResponseState → Bool
is_resettable cancelled = true
is_resettable call_completed = true
is_resettable call_failed = true
is_resettable other = false

module _ {F J : Type 0} where
  -- `timeout_manager.cancel(incident_id)`
  abbrev pub without_task : String → App F J → App F J
  without_task id app = record app { timeout_manager = Escalation.cancel id app.timeout_manager }

module _ {J : Type 0} (payloads : Payloads J) (id : String) where
  abbrev pub confirming : Remark → Action J
  confirming body = record {
    response_state = escalating;
    occupant_response = some "confirmed";
    hazard_state = none;
    event_type = "OCCUPANT_CONFIRMED";
    source = body.source;
    event_payload = payloads.note body.note;
    packet_type = occupant_confirm;
    packet_payload = payloads.control id body.source;
  }

  abbrev pub cancelling : Cancellation → Action J
  cancelling body = record {
    response_state = cancelled;
    occupant_response = some body.reason;
    hazard_state = none;
    event_type = "ESCALATION_CANCELLED";
    source = body.source;
    event_payload = payloads.reason_and_note body.reason body.note;
    packet_type = occupant_cancel;
    packet_payload = payloads.control_reason id body.reason body.source;
  }

module _ {F J : Type 0} (json : Json J) (payloads : Payloads J) (request : Request)
    (id : String) where
  abbrev pub confirm_stored : Remark → Incident F → App F J → App F J × Answer (Applied F)
  confirm_stored body stored app =
      if not (is_burning stored.hazard_state)
      then (app, refused (http_exception 409 "incident_not_visually_confirmed"))
      else if is_cancelled stored.response_state
      then (app, refused (http_exception 409 "incident_cancelled"))
      else apply_action json request id (confirming payloads id body) (without_task id app)

  unfoldable pub confirm : Remark → App F J → App F J × Answer (Applied F)
  unfolding require_rate_limit apply_action
  confirm body app =
      rated (λ a. or_404 (confirm_stored body) (get_incident id a.world.db) a)
        (require_rate_limit request app)

  abbrev pub cancel_stored : Cancellation → Incident F → App F J → App F J × Answer (Applied F)
  cancel_stored body stored app =
      if is_connected stored.response_state
      then (app, refused (http_exception 409 "communication_already_connected"))
      else apply_action json request id (cancelling payloads id body) (without_task id app)

  unfoldable pub cancel : Cancellation → App F J → App F J × Answer (Applied F)
  unfolding require_rate_limit apply_action
  cancel body app =
      rated (λ a. or_404 (cancel_stored body) (get_incident id a.world.db) a)
        (require_rate_limit request app)

  abbrev pub resetting : Remark → Incident F → Action J
  resetting body stored = record {
    response_state = stored.response_state;
    occupant_response = stored.occupant_response;
    hazard_state = some resolved;
    event_type = "MANUAL_RESET";
    source = body.source;
    event_payload = payloads.note body.note;
    packet_type = manual_reset;
    packet_payload = payloads.control id body.source;
  }

  abbrev pub reset_stored : Remark → Incident F → App F J → App F J × Answer (Applied F)
  reset_stored body stored app =
      if not (is_resettable stored.response_state)
      then (app, refused (http_exception 409 "incident_not_ready_for_reset"))
      else apply_action json request id (resetting body stored) app

  unfoldable pub reset : Remark → App F J → App F J × Answer (Applied F)
  unfolding require_rate_limit apply_action
  reset body app =
      rated (λ a. or_404 (reset_stored body) (get_incident id a.world.db) a)
        (require_rate_limit request app)
