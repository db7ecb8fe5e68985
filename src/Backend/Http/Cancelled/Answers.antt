-- ===== src/Backend/Http/Cancelled/Answers.antt =====
-- The provider's answers and reports of one call, on the incidents that the call is not of.
use ignis_test.Prelude.{
  ℕ, ◌≡◌, ◌≢◌, inl, inr, refl, sym, ap, ◌∙◌, Bool, true, false, Option, none, some, List, [], ◌∷◌,
  String, str_eq-ne, leb, ◌==◌, Bool-cases, Option-cases,
}
use ignis_test.Store.Table.{find-update_where}
use ignis_test.Store.Schema
use ignis_test.Store.Schema.{
  ResponseState, CallStatus, initiated, unknown, failed, CallAttempt, Incident, Db,
}
use ignis_test.Store.Incidents.{get_incident, add_event}
use ignis_test.Store.Calls.{
  CallReport, called_row, report_call, find_call, update_call, response_of, report_incident,
  report_by, update_call_attempt, find_attempt_for_incident,
}
use ignis_test.Backend.Settings.{Settings}
use ignis_test.Backend.Destination.{
  CallError, call_provider_outcome_unknown, call_provider_connection_error,
  call_provider_rejected_request,
}
use ignis_test.Verifier.Decimal.{decimal}
use Prim.Native.String
use ignis_test.Backend.Dispatch.{
  Finished, faulted, undecoded, Provider, timed_out, unreachable, responded, unreadable, Reply,
  reply_to, report, filled, raising, returning, rejected, finish_call,
}
use ignis_test.Backend.Http.{App, Request, Payloads, with_db}
use ignis_test.Backend.Http.Calls.{
  answer_of, noted, call_answered, ProviderStatus, authenticate_provider_webhook,
  provider_call_status, status_by, report_on, stored_report, reported,
}
use ignis_test.Backend.Http.Keeps.{incidents_of}
use ignis_test.Backend.Http.Cancelled.{IsCancelled}

module _ {F J : Type 0} where
  -- The call `n` is one of the incident `id`.
  abbrev pub Concerns : String → ℕ → Db F J → Type 0
  Concerns id n db =
      (a : CallAttempt) × (find_call n db.call_attempts ≡ some a) × (a.incident_id ≡ id)

  -- The database behind `finish_call`.
  abbrev pub finished_db : Finished F J → Db F J → Db F J
  finished_db (Finished.raised after e) db = after
  finished_db (Finished.returned after reply) db = after
  finished_db (faulted e) db = db
  finished_db undecoded db = db

  abbrev written_db : Schema.Result (Db F J) → Db F J → Db F J
  written_db (Schema.err e) db = db
  written_db (Schema.ok after) db = after

find_call-update_call :
    (n : ℕ) (change : CallAttempt → CallAttempt) (calls : List CallAttempt)
    → ((a : CallAttempt) → (change a).id ≡ a.id)
    → find_call n (update_call n change calls)
      ≡ (elim (find_call n calls) [ none ↦ none | some a ↦ some (change a) ])
unfolding find_call update_call
find_call-update_call n change [] keeps = refl
find_call-update_call n change (a ∷ calls) keeps = elim (Bool-cases (a.id == n)) [
  | inl hit ↦ rw hit (rw (keeps a, hit) refl)
  | inr other ↦ rw other (rw other (find_call-update_call n change calls keeps))
]

module _ {F J : Type 0} (id : String) where
  report_incident-IsCancelled :
      (now : ℕ) (report : CallReport) (o : Option ResponseState) (a : CallAttempt)
      (db written : Db F J)
      → a.incident_id ≢ id
      → written.incidents ≡ db.incidents
      → IsCancelled id db.incidents
      → IsCancelled id (written_db (report_incident now report o a written) db).incidents
  report_incident-IsCancelled now report none a db written other same c = c
  report_incident-IsCancelled now report (some response) a db written other same (r, known, e) = (
    r,
    find-update_where (λ (x : Incident F). x.incident_id) a.incident_id id
          (called_row now response report.status report.conversation_id report.call_sid)
          written.incidents (λ x. refl)
        ∙ rw (str_eq-ne a.incident_id id (λ f. other (sym f)), same) known,
    e,
  )

  report_by-IsCancelled :
      (now : ℕ) (report : CallReport) (o : Option CallAttempt) (db written : Db F J)
      → ((a : CallAttempt) → o ≡ some a → a.incident_id ≢ id)
      → written.incidents ≡ db.incidents
      → IsCancelled id db.incidents
      → IsCancelled id (written_db (report_by now report o written) db).incidents
  report_by-IsCancelled now report none db written other same c = c
  report_by-IsCancelled now report (some a) db written other same c =
      report_incident-IsCancelled now report (response_of report.status) a db written (other a refl)
        same c

  -- The row that is read back is of the incident that the call was of.
  incident-report_call :
      (now n : ℕ) (report : CallReport) (db : Db F J) (a : CallAttempt)
      → find_call n (update_call n (report_call now report) db.call_attempts) ≡ some a
      → ¬ Concerns id n db
      → a.incident_id ≢ id
  incident-report_call now n report db a e silent same =
      elim (Option-cases (find_call n db.call_attempts)) [
        | inl missing ↦
            (let none_found : none ≡ some a =
                rw
                  (
                    find_call-update_call n (report_call now report) db.call_attempts (λ b. refl),
                    missing,
                  )
                  at e in
              cc)
        | inr (b, known) ↦
            (let found : some (report_call now report b) ≡ some a =
                rw
                  (
                    find_call-update_call n (report_call now report) db.call_attempts (λ c. refl),
                    known,
                  )
                  at e in
              let f : report_call now report b ≡ a = cc in
              silent (b, known, ap (λ (x : CallAttempt). x.incident_id) f ∙ same))
      ]

  update_call_attempt-IsCancelled :
      (now n : ℕ) (report : CallReport) (db : Db F J)
      → ¬ Concerns id n db
      → IsCancelled id db.incidents
      → IsCancelled id (written_db (update_call_attempt now n report db) db).incidents
  unfolding update_call_attempt
  update_call_attempt-IsCancelled now n report db silent c =
      report_by-IsCancelled now report _ db _
        (λ a e. incident-report_call now n report db a e silent) refl c

module _ (is_other_digit : ℕ → Bool) (sha256_hex : List ℕ → String) (settings : Settings)
    {F J : Type 0} (id : String) where
  raising-IsCancelled :
      (e : CallError) (r : Schema.Result (Db F J)) (db : Db F J)
      → IsCancelled id (written_db r db).incidents
      → IsCancelled id (finished_db (raising is_other_digit sha256_hex settings e r) db).incidents
  raising-IsCancelled e (Schema.ok after) db c = c
  raising-IsCancelled e (Schema.err x) db c = c

  returning-IsCancelled :
      (reply : Reply) (r : Schema.Result (Db F J)) (db : Db F J)
      → IsCancelled id (written_db r db).incidents
      → IsCancelled id
          (finished_db (returning is_other_digit sha256_hex settings reply r) db).incidents
  returning-IsCancelled reply (Schema.ok after) db c = c
  returning-IsCancelled reply (Schema.err x) db c = c

  module _ (now n : ℕ) (db : Db F J) (silent : ¬ Concerns id n db)
      (c : IsCancelled id db.incidents) where
    -- An answer that is written, and an error that is written before it is raised
    abbrev Keeps : Finished F J → Type 0
    Keeps f = IsCancelled id (finished_db f db).incidents

    raising-report :
        (e : CallError) (told : CallReport)
        → Keeps (raising is_other_digit sha256_hex settings e (update_call_attempt now n told db))
    raising-report e told =
        raising-IsCancelled e (update_call_attempt now n told db) db
          (update_call_attempt-IsCancelled id now n told db silent c)

    rejected-IsCancelled :
        (status : ℕ) → Keeps (rejected is_other_digit sha256_hex settings now n status db)
    rejected-IsCancelled status = raising-report call_provider_rejected_request (
        report failed none none (some (String.◌++◌ "provider_http_" (decimal status)))
          (some "The call provider rejected the request."))

    -- The answer to a call of another incident.
    pub finish_call-IsCancelled :
        (provider : Provider)
        → Keeps (finish_call is_other_digit sha256_hex settings now n provider db)
    unfolding finish_call
    finish_call-IsCancelled timed_out = raising-report call_provider_outcome_unknown (
        report unknown none none (some "provider_timeout")
          (some "Provider outcome is unknown; automatic retry was suppressed."))
    finish_call-IsCancelled unreachable = raising-report call_provider_connection_error (
        report failed none none (some "provider_connection_error")
          (some "Could not reach the configured call provider."))
    finish_call-IsCancelled (unreadable status) = elim (Bool-cases (leb 400 status)) [
      | inl bad ↦ rw bad (rejected-IsCancelled status)
      | inr fine ↦ rw fine c
    ]
    finish_call-IsCancelled (responded status conversation_id call_sid) =
        elim (Bool-cases (leb 400 status)) [
          | inl bad ↦ rw bad (rejected-IsCancelled status)
          | inr fine ↦ rw fine (
              let told = report initiated (filled conversation_id) (filled call_sid) none none in
              returning-IsCancelled
                (reply_to is_other_digit sha256_hex settings "elevenlabs_twilio" conversation_id)
                (update_call_attempt now n told db) db
                (update_call_attempt-IsCancelled id now n told db silent c))
        ]

  noted-IsCancelled :
      (reply : Reply) (kind source : String) (value : J) (payloads : Payloads J) (request : Request)
      (j : String) (app : App F J)
      → IsCancelled id (incidents_of app)
      → IsCancelled id (
          incidents_of
            (noted payloads request j reply
              (add_event request.utc j kind source value none none app.world.db)
              app).0)
  unfolding add_event
  noted-IsCancelled reply kind source value payloads request j app c =
      elim (Option-cases (get_incident j app.world.db)) [
        | inl missing ↦ rw missing c
        | inr (r, known) ↦ rw known c
      ]

  answer_of-IsCancelled :
      (payloads : Payloads J) (request : Request) (j : String) (f : Finished F J) (app : App F J)
      → IsCancelled id (finished_db f app.world.db).incidents
      → IsCancelled id (incidents_of (answer_of payloads request j f app).0)
  answer_of-IsCancelled payloads request j (Finished.raised after e) app c = c
  answer_of-IsCancelled payloads request j (Finished.returned after reply) app c =
      noted-IsCancelled reply "DEMO_DISPATCH_REQUESTED" "backend" (payloads.dispatched reply)
        payloads request j (with_db after app) c
  answer_of-IsCancelled payloads request j (faulted e) app c = c
  answer_of-IsCancelled payloads request j undecoded app c = c

  pub call_answered-IsCancelled :
      (payloads : Payloads J) (request : Request) (j : String) (n : ℕ) (provider : Provider)
      (app : App F J)
      → ¬ Concerns id n app.world.db
      → IsCancelled id (incidents_of app)
      → IsCancelled id (
          incidents_of
            (call_answered is_other_digit sha256_hex settings payloads request j n provider app).0)
  unfolding call_answered
  call_answered-IsCancelled payloads request j n provider app silent c =
      answer_of-IsCancelled payloads request j
        (finish_call is_other_digit sha256_hex settings request.utc n provider app.world.db) app
        (finish_call-IsCancelled request.utc n app.world.db silent c provider)

module _ (compare_digest : String → String → Option Bool) (settings : Settings) {F J : Type 0}
    (id : String) where
  -- A report that is of no call of `id`
  pub provider_call_status-IsCancelled :
      (request : Request) (body : ProviderStatus) (secret : Option String) (app : App F J)
      → ((a : CallAttempt)
          → find_attempt_for_incident body.incident_id app.world.db ≡ some a
          → ¬ Concerns id a.id app.world.db)
      → IsCancelled id (incidents_of app)
      → IsCancelled id
          (incidents_of (provider_call_status compare_digest settings request body secret app).0)
  unfolding provider_call_status
  provider_call_status-IsCancelled request body secret app silent c =
      by_secret (authenticate_provider_webhook compare_digest settings secret)
    where
      by_row :
          (o : Option CallAttempt)
          → find_attempt_for_incident body.incident_id app.world.db ≡ o
          → IsCancelled id (incidents_of (report_on compare_digest settings request body o app).0)
      by_row none e = c
      by_row (some a) e =
          by_result (update_call_attempt request.utc a.id (reported body) app.world.db) (
            update_call_attempt-IsCancelled id request.utc a.id (reported body) app.world.db
              (silent a e) c)
        where
          by_result :
              (r : Schema.Result (Db F J))
              → IsCancelled id (written_db r app.world.db).incidents
              → IsCancelled id
                  (incidents_of (stored_report compare_digest settings request body a.id r app).0)
          by_result (Schema.err e) k = k
          by_result (Schema.ok after) k = k

      by_secret :
          (o : Option Bool)
          → IsCancelled id (incidents_of (status_by compare_digest settings request body o app).0)
      by_secret none = c
      by_secret (some false) = c
      by_secret (some true) = by_row (find_attempt_for_incident body.incident_id app.world.db) refl
