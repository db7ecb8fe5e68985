-- ===== src/Backend/Escalation.antt =====
-- backend/app/escalation.py: `ResponseTimeoutManager`. A task is the name of the incident that it
-- waits for; `on_timeout` is the code of `_wait` behind its sleep, up to the call that it asks for.
-- `asyncio` runs and cancels the tasks, and is not modelled.
pub mod Timeout
mod Examples
use ignis_test.Prelude.{
  ℕ, Bool, true, false, ◌&&◌, not, Option, none, some, List, [], ◌∷◌, ◌++◌, String, str_eq,
  if◌then◌else◌, keep,
}
use ignis_test.Store.Schema
use ignis_test.Store.Schema.{
  HazardState, ResponseState, awaiting_response, escalating, visual_signature_lost, Incident, Event,
  Db,
}
use ignis_test.Store.Incidents.{get_incident, update_incident_response, add_event}
use ignis_test.Backend.Settings.{Settings}
use ignis_test.Backend.Dispatch.{Begun, begin_call}

pub record ResponseTimeoutManager : Type 0 where
  pub tasks : List String

abbrev pub is_awaiting : ResponseState → Bool
is_awaiting awaiting_response = true
is_awaiting other = false

-- `in {"CONFIRMED", "VISUAL_SIGNATURE_LOST"}`
abbrev pub is_burning : HazardState → Bool
is_burning HazardState.confirmed = true
is_burning visual_signature_lost = true
is_burning other = false

unfoldable pub has_task : String → List String → Bool
has_task id [] = false
has_task id (t ∷ tasks) = if str_eq id t then true else has_task id tasks

-- How `_wait` ends: at a return, with the call that is asked for if calls are enabled, or with an
-- exception, which is logged.
pub data TimeoutEnd (F J : Type 0) : Type 0 where
  ignored : TimeoutEnd F J
  escalated : Db F J → Event J → Option (Begun F J) → TimeoutEnd F J
  crashed : TimeoutEnd F J

module _ {F : Type 0} where
  abbrev pub wants_task : Option (Incident F) → Bool
  wants_task none = false
  wants_task (some r) = is_awaiting r.response_state

module _ {F J : Type 0} where
  unfoldable pub observe_task : String → Db F J → ResponseTimeoutManager → ResponseTimeoutManager
  unfolding has_task
  observe_task id db m =
      if wants_task (get_incident id db) && not (has_task id m.tasks)
      then record { tasks = m.tasks ++ id ∷ [] }
      else m

-- `self._tasks.pop(incident_id, None)`, also at the end of `_wait`
unfoldable pub cancel : String → ResponseTimeoutManager → ResponseTimeoutManager
cancel id m = record { tasks = keep (λ t. not (str_eq id t)) m.tasks }

module _ (is_other_digit : ℕ → Bool) (sha256_hex : List ℕ → String) (settings : Settings)
    {F J : Type 0} (payload : J) where
  abbrev pub announce : ℕ → String → Schema.Result (Db F J × Event J) → TimeoutEnd F J
  announce now id (Schema.err e) = crashed
  announce now id (Schema.ok (db, event)) = escalated db event (
      if settings.demo_calls_enabled
      then some (begin_call is_other_digit sha256_hex settings now id db)
      else none)

  abbrev pub escalate : ℕ → String → Schema.Result (Db F J) → TimeoutEnd F J
  escalate now id (Schema.err e) = crashed
  escalate now id (Schema.ok db) =
      announce now id
        (add_event now id "NO_OCCUPANT_RESPONSE" "backend_timeout" payload none none db)

  abbrev pub timeout_of : ℕ → String → Option (Incident F) → Db F J → TimeoutEnd F J
  timeout_of now id none db = ignored
  timeout_of now id (some r) db =
      if is_awaiting r.response_state && is_burning r.hazard_state
      then escalate now id (update_incident_response now id escalating (some "no_response") none db)
      else ignored

  unfoldable pub on_timeout : ℕ → String → Db F J → TimeoutEnd F J
  on_timeout now id db = timeout_of now id (get_incident id db) db
