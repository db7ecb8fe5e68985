-- ===== src/Backend/Http/Cancelled/Steps.antt =====
-- The steps of the backend as a relation on its database, and a cancelled incident over any run of
-- them. A call is two steps, the code before its `await` and the code behind it, so that other steps
-- stand between them, as they do between the request and a report of the provider.
use ignis_test.Prelude.{
  ℕ, ◌≡◌, ◌≢◌, inl, inr, refl, Bool, true, false, Option, none, some, List, String, str_eq,
  str_eq_iff, Bool-cases, arith,
}
use ignis_test.Prelude.Floats.{Floats}
use ignis_test.Wire.Packet.{Packet}
use ignis_test.Wire.Frame.{Json}
use ignis_test.Store.Schema.{cancelled, CallAttempt, Incident, Db}
use ignis_test.Store.Incidents.{get_incident}
use ignis_test.Store.Calls.{is_cancelled, find_attempt_for_incident}
use ignis_test.Backend.Settings.{Settings}
use ignis_test.Backend.Dispatch.{Begun, dial, Provider, begin_call, finish_call}
use ignis_test.Backend.Escalation.{on_timeout, is_burning}
use ignis_test.Backend.Session.{Values, World, Session, Moment}
use ignis_test.Backend.Session.Incidents.{handle-keeps}
use ignis_test.Backend.Session.Loop.{handle}
use ignis_test.Backend.Http.{App, Request, Payloads, require_rate_limit}
use ignis_test.Backend.Http.Actions.{
  Remark, Cancellation, confirm, confirm_stored, confirming, cancel, cancel_stored, cancelling,
  reset, reset_stored, resetting, without_task, is_connected, is_resettable,
}
use ignis_test.Backend.Http.Calls.{
  call_demo_dispatch, call_rated, call_found, begun_by, call_answered, ProviderStatus,
  provider_call_status,
}
use ignis_test.Backend.Http.Keeps.{
  incidents_of, incidents-require_rate_limit, apply_action-keeps, route-keeps,
}
use ignis_test.Backend.Http.Cancelled.{IsCancelled, upsert-IsCancelled, responded-IsCancelled}
use ignis_test.Backend.Http.Cancelled.Answers.{
  Concerns, finished_db, finish_call-IsCancelled, call_answered-IsCancelled,
  provider_call_status-IsCancelled,
}
use ignis_test.Backend.Http.Cancelled.Calls.{
  begin_call-waits, begin_call-IsCancelled, on_timeout-IsCancelled, ended_db, same_state,
  IsCancelled-not-dial,
}

module _ {F J : Type 0} (floats : Floats F) (json : Json J) (values : Values F J)
    (payloads : Payloads J) (compare_digest : String → String → Option Bool)
    (is_other_digit : ℕ → Bool) (sha256_hex : List ℕ → String) (settings : Settings) where
  -- What may happen to the database `before`: a packet of a device, a request, the end of a wait, the
  -- provider's answer to a call that a request or a wait has placed, a report of the provider.
  pub data Step (before after : Db F J) : Type 0 where
    packet :
        (m : Moment) (k : Packet) (s : Session J) (w : World F J)
        → w.db ≡ before
        → after ≡ (handle floats json values compare_digest settings m k s w).world.db
        → Step before after
    confirms :
        (request : Request) (j : String) (body : Remark) (app : App F J)
        → app.world.db ≡ before
        → after ≡ (confirm json payloads request j body app).0.world.db
        → Step before after
    cancels :
        (request : Request) (j : String) (body : Cancellation) (app : App F J)
        → app.world.db ≡ before
        → after ≡ (cancel json payloads request j body app).0.world.db
        → Step before after
    resets :
        (request : Request) (j : String) (body : Remark) (app : App F J)
        → app.world.db ≡ before
        → after ≡ (reset json payloads request j body app).0.world.db
        → Step before after
    calls :
        (request : Request) (j : String) (app : App F J)
        → app.world.db ≡ before
        → after
          ≡ (call_demo_dispatch is_other_digit sha256_hex settings payloads request j
              app).0.world.db
        → Step before after
    wait_ends :
        (payload : J) (now : ℕ) (j : String)
        → after
          ≡ ended_db (on_timeout is_other_digit sha256_hex settings payload now j before) before
        → Step before after
    call_answers :
        (request : Request) (j : String) (n : ℕ) (provider : Provider) (app : App F J)
        → app.world.db ≡ before
        → after
          ≡ (call_answered is_other_digit sha256_hex settings payloads request j n provider
              app).0.world.db
        → Step before after
    wait_answers :
        (now n : ℕ) (provider : Provider)
        → after
          ≡ finished_db
              (finish_call is_other_digit sha256_hex settings now n provider before)
              before
        → Step before after
    reports :
        (request : Request) (body : ProviderStatus) (secret : Option String) (app : App F J)
        → app.world.db ≡ before
        → after ≡ (provider_call_status compare_digest settings request body secret app).0.world.db
        → Step before after

  pub data Run (start : Db F J) : Db F J → Type 0 where
    here : Run start start
    next : {db after : Db F J} → Run start db → Step db after → Run start after

  module _ (id : String) where
    -- The step is no answer to a call of the incident, and no report that is written to one.
    abbrev pub IsElsewhere : {before after : Db F J} → Step before after → Type 0
    IsElsewhere {before = db} (call_answers request j n provider app e f) = ¬ Concerns id n db
    IsElsewhere {before = db} (wait_answers now n provider f) = ¬ Concerns id n db
    IsElsewhere {before = db} (reports request body secret app e f) =
        (a : CallAttempt)
        → find_attempt_for_incident body.incident_id db ≡ some a
        → ¬ Concerns id a.id db
    IsElsewhere step = Unit {0}

    abbrev pub AllElsewhere : {start after : Db F J} → Run start after → Type 0
    AllElsewhere here = Unit {0}
    AllElsewhere (next r s) = AllElsewhere r × IsElsewhere s

    state_at :
        (j : String) (b : App F J) (r : Incident F)
        → get_incident j b.world.db ≡ some r
        → IsCancelled id (incidents_of b)
        → str_eq j id ≡ true
        → r.response_state ≡ cancelled
    state_at j b r known c hit = same_state j b.world.db r known (rw ((str_eq_iff j id).0 hit) c)

    confirm_stored-IsCancelled :
        (request : Request) (j : String) (body : Remark) (r : Incident F) (b : App F J)
        → get_incident j b.world.db ≡ some r
        → IsCancelled id (incidents_of b)
        → IsCancelled id (incidents_of (confirm_stored json payloads request j body r b).0)
    confirm_stored-IsCancelled request j body r b known c =
        elim (Bool-cases (is_burning r.hazard_state)) [
          | inr cold ↦ rw cold c
          | inl hot ↦ elim (Bool-cases (is_cancelled r.response_state)) [
            | inl called_off ↦ rw (hot, called_off) c
            | inr live ↦
                rw (hot, live)
                  (apply_action-keeps json request j (IsCancelled id) (confirming payloads j body)
                    (λ rows.
                      responded-IsCancelled {J = J} request j id (confirming payloads j body) rows
                        (λ hit. absurd (live_response r live (state_at j b r known c hit))))
                    (without_task j b) c)
          ]
        ]
      where
        live_response :
            (r : Incident F) → is_cancelled r.response_state ≡ false → r.response_state ≢ cancelled
        live_response r live e = ground arith

    confirm-IsCancelled :
        (request : Request) (j : String) (body : Remark) (app : App F J)
        → IsCancelled id (incidents_of app)
        → IsCancelled id (incidents_of (confirm json payloads request j body app).0)
    unfolding confirm
    confirm-IsCancelled request j body app c =
        route-keeps json request j (IsCancelled id) (confirm_stored json payloads request j body)
          app (λ r b same known. confirm_stored-IsCancelled request j body r b known (rw same c)) c

    cancel_stored-IsCancelled :
        (request : Request) (j : String) (body : Cancellation) (r : Incident F) (b : App F J)
        → IsCancelled id (incidents_of b)
        → IsCancelled id (incidents_of (cancel_stored json payloads request j body r b).0)
    cancel_stored-IsCancelled request j body r b c =
        elim (Bool-cases (is_connected r.response_state)) [
          | inl on ↦ rw on c
          | inr off ↦ rw off (
              apply_action-keeps json request j (IsCancelled id) (cancelling payloads j body)
                (λ rows.
                  responded-IsCancelled {J = J} request j id (cancelling payloads j body) rows
                    (λ hit. refl))
                (without_task j b) c)
        ]

    cancel-IsCancelled :
        (request : Request) (j : String) (body : Cancellation) (app : App F J)
        → IsCancelled id (incidents_of app)
        → IsCancelled id (incidents_of (cancel json payloads request j body app).0)
    unfolding cancel
    cancel-IsCancelled request j body app c =
        route-keeps json request j (IsCancelled id) (cancel_stored json payloads request j body) app
          (λ r b same known. cancel_stored-IsCancelled request j body r b (rw same c)) c

    reset_stored-IsCancelled :
        (request : Request) (j : String) (body : Remark) (r : Incident F) (b : App F J)
        → get_incident j b.world.db ≡ some r
        → IsCancelled id (incidents_of b)
        → IsCancelled id (incidents_of (reset_stored json payloads request j body r b).0)
    reset_stored-IsCancelled request j body r b known c =
        elim (Bool-cases (is_resettable r.response_state)) [
          | inr early ↦ rw early c
          | inl ready ↦ rw ready (
              apply_action-keeps json request j (IsCancelled id)
                (resetting json payloads request j body r)
                (λ rows.
                  responded-IsCancelled {J = J} request j id
                    (resetting json payloads request j body r) rows (state_at j b r known c))
                b c)
        ]

    reset-IsCancelled :
        (request : Request) (j : String) (body : Remark) (app : App F J)
        → IsCancelled id (incidents_of app)
        → IsCancelled id (incidents_of (reset json payloads request j body app).0)
    unfolding reset
    reset-IsCancelled request j body app c =
        route-keeps json request j (IsCancelled id) (reset_stored json payloads request j body) app
          (λ r b same known. reset_stored-IsCancelled request j body r b known (rw same c)) c

    module _ (real : str_eq settings.call_provider "mock" ≡ false) where
      begun_by-IsCancelled :
          (request : Request) (j : String) (app : App F J) (b : Begun F J)
          → begin_call is_other_digit sha256_hex settings request.utc j app.world.db ≡ b
          → IsCancelled id (incidents_of app)
          → IsCancelled id (incidents_of (begun_by payloads request j b app).0)
      begun_by-IsCancelled request j app (Begun.refused e) h c = c
      begun_by-IsCancelled request j app (Begun.answered after reply) h c = absurd (
          begin_call-waits is_other_digit sha256_hex settings real request.utc j app.world.db after
            reply h)
      begun_by-IsCancelled request j app (dial after n number) h c = rw h at (
          begin_call-IsCancelled is_other_digit sha256_hex settings real request.utc j app.world.db
            id c)

      call_rated-IsCancelled :
          (request : Request) (j : String) (r : App F J × Bool)
          → IsCancelled id (incidents_of r.0)
          → IsCancelled id
              (incidents_of (call_rated is_other_digit sha256_hex settings payloads request j r).0)
      call_rated-IsCancelled request j (app, false) c = c
      call_rated-IsCancelled request j (app, true) c = elim (Bool-cases app.armed) [
        | inr off ↦ rw off c
        | inl on ↦ simp on (by_row (get_incident j app.world.db))
      ]
        where
          by_row :
              (o : Option (Incident F))
              → IsCancelled id (
                  incidents_of
                    (call_found is_other_digit sha256_hex settings payloads request j o app).0)
          by_row none = c
          by_row (some r) = begun_by-IsCancelled request j app _ refl c

      Step-IsCancelled :
          {before after : Db F J} (s : Step before after)
          → IsElsewhere s
          → IsCancelled id before.incidents
          → IsCancelled id after.incidents
      unfolding call_demo_dispatch
      Step-IsCancelled (packet m k s w e f) q c = rw f (
          handle-keeps floats json values compare_digest settings (IsCancelled id) w
            (λ t u device_id boot_id. upsert-IsCancelled floats t u device_id boot_id id w.db) m k s
            (rw e c))
      Step-IsCancelled (confirms request j body app e f) q c =
          rw f (confirm-IsCancelled request j body app (rw e c))
      Step-IsCancelled (cancels request j body app e f) q c =
          rw f (cancel-IsCancelled request j body app (rw e c))
      Step-IsCancelled (resets request j body app e f) q c =
          rw f (reset-IsCancelled request j body app (rw e c))
      Step-IsCancelled (calls request j app e f) q c = rw f (
          call_rated-IsCancelled request j (require_rate_limit request app)
            (rw (incidents-require_rate_limit request app, e) c))
      Step-IsCancelled {before = db} (wait_ends payload now j f) q c =
          rw f
            (on_timeout-IsCancelled is_other_digit sha256_hex settings real payload now j db id c)
      Step-IsCancelled (call_answers request j n provider app e f) q c = rw f (
          call_answered-IsCancelled is_other_digit sha256_hex settings id payloads request j n
            provider app (rw e q) (rw e c))
      Step-IsCancelled {before = db} (wait_answers now n provider f) q c =
          rw f (finish_call-IsCancelled is_other_digit sha256_hex settings id now n db q c provider)
      Step-IsCancelled (reports request body secret app e f) q c = rw f (
          provider_call_status-IsCancelled compare_digest settings id request body secret app
            (rw e q) (rw e c))

      Run-IsCancelled :
          {start after : Db F J} (r : Run start after)
          → AllElsewhere r
          → IsCancelled id start.incidents
          → IsCancelled id after.incidents
      Run-IsCancelled here q c = c
      Run-IsCancelled (next r s) q c = Step-IsCancelled s q.1 (Run-IsCancelled r q.0 c)

      -- A cancelled incident stays cancelled over any run of packets of devices, of requests to confirm, to
      -- cancel, to reset and to call for whatever incident, of waits that end, and of answers and
      -- reports of the provider, none of which is to a call of that incident, where the provider of
      -- calls is not the mock; and after the run no call is placed for it.
      pub cancellation_stays :
          {start after : Db F J} (r : Run start after)
          → AllElsewhere r
          → IsCancelled id start.incidents
          → IsCancelled id after.incidents
            × ((now n : ℕ) (final : Db F J) (number : List ℕ)
                → begin_call is_other_digit sha256_hex settings now id after ≢ dial final n number)
      cancellation_stays r q c = (
        Run-IsCancelled r q c,
        λ now n final number.
            IsCancelled-not-dial is_other_digit sha256_hex settings now id _ final n number
              (Run-IsCancelled r q c),
      )
