-- ===== src/Backend/Http/Examples.antt =====
-- The routes of a small backend: one burning incident, and a real provider of calls.
use ignis_test.Prelude.{ℕ, ◌≡◌, ◌≢◌, refl, true, false, Bool, none, some, List, [], String}
use ignis_test.Store.Table.{find, update_where, upsert}
use ignis_test.Store.Schema.{ResponseState, Incident, Db}
use ignis_test.Store.Calls.{reserved, find_call, update_call, update_call_attempt}
use ignis_test.Store.Incidents.{
  get_incident, fresh_incident, merge_incident, upsert_incident, update_incident_response,
  add_event,
}
use ignis_test.Store.Examples.{floats, burning}
use ignis_test.Backend.RateLimit.{allow, expire}
use ignis_test.Backend.Settings.{Settings}
use ignis_test.Backend.Registry.{send, send_control}
use ignis_test.Backend.Dispatch.{dial, timed_out, responded, begin_call, finish_call}
use ignis_test.Backend.Session.Examples.{json, values, digest, settings, world}
use ignis_test.Backend.Http.{
  App, Request, Payloads, refused, http_exception, require_rate_limit, apply_action,
}
use ignis_test.Backend.Http.Actions.{Remark, Cancellation, confirm, cancel, reset}
use ignis_test.Backend.Http.Cancelled.{IsCancelled}
use ignis_test.Backend.Http.Cancelled.Steps.{
  Run, here, next, confirms, wait_answers, AllElsewhere, cancellation_stays,
}
use ignis_test.Backend.Http.Cancelled.Answers.{finished_db}
use ignis_test.Backend.Http.Errors.{refused_writes_nothing}

program : Unit {0}
unfolding find update_where upsert fresh_incident merge_incident upsert_incident
    update_incident_response add_event allow expire send send_control require_rate_limit
    apply_action confirm cancel reset find_call update_call update_call_attempt finish_call
program = tt

abbrev payloads : Payloads ℕ
payloads = record {
  note = λ s. 1;
  reason_and_note = λ s t. 2;
  control = λ s t. 3;
  control_reason = λ s t u. 4;
  dispatched = λ r. 5;
}

abbrev real_calls : Settings
real_calls = record settings { call_provider = "elevenlabs" }

abbrev request : Request
request = record { client = none; utc = 700; monotonic = 1; drained = true }

abbrev app : App ℕ ℕ
app = record {
  armed = true;
  rate_limiter = record { limit = 2; window = 60; requests = λ k. [] };
  timeout_manager = record { tasks = [] };
  world = record world { db = burning };
}

abbrev remark : Remark
remark = record { source = "dashboard"; note = "" }

abbrev false_alarm : Cancellation
false_alarm = record { source = "dashboard"; reason = "toast"; note = "" }

abbrev called_off : App ℕ ℕ
called_off = (cancel json payloads request "fire-1" false_alarm app).0

abbrev no_other : ℕ → Bool
no_other c = false

abbrev hash : List ℕ → String
hash number = "hash"

abbrev later : App ℕ ℕ
later = (confirm json payloads request "fire-1" remark called_off).0

-- The database behind a request to confirm, and behind an answer to a call that is not there.
abbrev answered_db : Db ℕ ℕ
answered_db =
    finished_db (finish_call no_other hash real_calls 800 7 timed_out later.world.db) later.world.db

abbrev run :
    Run floats json values payloads digest no_other hash real_calls called_off.world.db answered_db
run =
    next (next here (confirms request "fire-1" remark called_off refl refl))
      (wait_answers 800 7 timed_out refl)

run_is_elsewhere :
    AllElsewhere floats json values payloads digest no_other hash real_calls "fire-1" run
unfolding program
run_is_elsewhere = ((tt, tt), λ c. let e = c.1 in cc)

is_called_off : IsCancelled "fire-1" called_off.world.db.incidents
unfolding program
is_called_off = (_, refl, refl)

cancellation_stays_example :
    IsCancelled "fire-1" answered_db.incidents
    × ((now n : ℕ) (final : Db ℕ ℕ) (number : List ℕ)
        → begin_call no_other hash real_calls now "fire-1" answered_db ≢ dial final n number)
cancellation_stays_example =
    cancellation_stays floats json values payloads digest no_other hash real_calls "fire-1" refl run
      run_is_elsewhere is_called_off

refused_writes_nothing_example :
    ((confirm json payloads request "fire-1" remark called_off).1
        ≡ refused (http_exception 409 "incident_cancelled")
      → later.world ≡ called_off.world)
    × ((cancel json payloads request "fire-1" false_alarm called_off).1
          ≡ refused (http_exception 409 "incident_cancelled")
        → (cancel json payloads request "fire-1" false_alarm called_off).0.world ≡ called_off.world)
    × ((reset json payloads request "fire-1" remark called_off).1
          ≡ refused (http_exception 409 "incident_cancelled")
        → (reset json payloads request "fire-1" remark called_off).0.world ≡ called_off.world)
refused_writes_nothing_example =
    refused_writes_nothing json payloads request "fire-1" 409 "incident_cancelled" remark
      false_alarm called_off

-- A call is reserved, the incident is cancelled, and the provider answers the call.
abbrev called_and_off : App ℕ ℕ
called_and_off =
    (cancel json payloads request "fire-1" false_alarm
      (record app { world = record world { db = reserved 650 "fire-1" "hash" burning } })).0

abbrev answered_late : Db ℕ ℕ
answered_late =
    finished_db
      (finish_call no_other hash real_calls 800 1 (responded 200 (some "c") none)
        called_and_off.world.db)
      called_and_off.world.db

late_answer_wins :
    IsCancelled "fire-1" called_and_off.world.db.incidents
    × ((r : Incident ℕ) × (get_incident "fire-1" answered_late ≡ some r)
        × (r.response_state ≡ ResponseState.call_initiated))
unfolding program
late_answer_wins = ((_, refl, refl), (_, refl, refl))

-- The request to confirm is refused, since the incident is cancelled.
confirm_refused :
    (confirm json payloads request "fire-1" remark called_off).1
    ≡ refused (http_exception 409 "incident_cancelled")
unfolding program
confirm_refused = refl
