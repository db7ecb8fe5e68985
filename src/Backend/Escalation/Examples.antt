-- ===== src/Backend/Escalation/Examples.antt =====
-- An occupant who does not answer.
use ignis_test.Prelude.{
  if◌then◌else◌, ℕ, ◌≡◌, ◌≢◌, ◌⊎◌, refl, Bool, true, false, ◌&&◌, Option, none, some, List, [], ◌∷◌,
  String,
}
use ignis_test.Store.Schema.{escalating, Incident, Event, Db}
use ignis_test.Store.Table.{find, update_where, upsert}
use ignis_test.Store.Incidents.{
  get_incident, fresh_incident, merge_incident, upsert_incident, update_incident_response,
  add_event,
}
use ignis_test.Store.Incidents.Laws.{SameEvidence, Writes}
use ignis_test.Store.Examples.{burning}
use ignis_test.Backend.Dispatch.{Begun, begin_call}
use ignis_test.Backend.Session.Examples.{settings}
use ignis_test.Backend.Escalation.{
  is_awaiting, is_burning, TimeoutEnd, ignored, escalated, crashed, on_timeout, observe_task,
  cancel, has_task,
}
use ignis_test.Backend.Escalation.Timeout.{Records, on_timeout_escalates}

program : Unit {0}
unfolding find update_where upsert fresh_incident merge_incident upsert_incident
    update_incident_response add_event on_timeout observe_task cancel has_task
program = tt

abbrev no_other : ℕ → Bool
no_other c = false

abbrev hash : List ℕ → String
hash number = "hash"

abbrev ended : TimeoutEnd ℕ ℕ
ended = on_timeout no_other hash settings 0 700 "fire-1" burning

abbrev database_of : TimeoutEnd ℕ ℕ → Db ℕ ℕ
database_of ignored = burning
database_of (escalated db event call) = db
database_of crashed = burning

-- After the wait has ended, the incident awaits no answer, and a second wait does nothing.
waits_once : on_timeout no_other hash settings 0 900 "fire-1" (database_of ended) ≡ ignored
unfolding program
waits_once = refl

-- An incident has one task, however often it is observed.
one_task :
    (observe_task "fire-1" burning (observe_task "fire-1" burning (record { tasks = [] }))).tasks
    ≡ "fire-1" ∷ []
unfolding program
one_task = refl

on_timeout_escalates_example :
    ((ended ≡ ignored)
      × ((r : Incident ℕ)
          → get_incident "fire-1" burning ≡ some r
          → (is_awaiting r.response_state && is_burning r.hazard_state) ≡ false))
    ⊎ ((old : Incident ℕ) × (new : Incident ℕ) × (final : Db ℕ ℕ) × (event : Event ℕ)
        × (call : Option (Begun ℕ ℕ)) × (get_incident "fire-1" burning ≡ some old)
        × ((is_awaiting old.response_state && is_burning old.hazard_state) ≡ true)
        × (ended ≡ escalated final event call)
        × (get_incident "fire-1" final ≡ some new)
        × (new.response_state ≡ escalating)
        × SameEvidence old new
        × Writes 700 (some "no_response") none old new
        × ((j : String) → j ≢ "fire-1" → get_incident j final ≡ get_incident j burning)
        × Records 0 700 "fire-1" burning final event
        × (call ≡ (
            if settings.demo_calls_enabled
            then some (begin_call no_other hash settings 700 "fire-1" final)
            else none)))
on_timeout_escalates_example = on_timeout_escalates no_other hash settings 0 700 "fire-1" burning
