-- ===== src/Backend/Http/Cancelled.antt =====
-- A cancelled incident over any run of the backend's steps.
pub mod Calls
pub mod Answers
pub mod Steps
use ignis_test.Prelude.{
  ℕ, ◌≡◌, ◌≢◌, ◌⊎◌, inl, inr, refl, sym, ◌∙◌, Bool, true, false, not, ◌&&◌, Option, none, some,
  List, String, str_eq, str_eq_iff, str_eq-ne, Bool-cases, if◌then◌else◌, arith,
}
use ignis_test.Prelude.Floats.{Floats}
use ignis_test.Wire.Packet.{Packet}
use ignis_test.Wire.Frame.{Json}
use ignis_test.Store.Table.{find, update_where, find-update_where, upserted, changed}
use ignis_test.Store.Schema
use ignis_test.Store.Schema.{HazardState, ResponseState, cancelled, Incident, Event, Db}
use ignis_test.Store.Incidents.{
  IncidentUpdate, get_incident, respond, is_sticky, merge_incident, fresh_incident, upsert_incident,
  add_event,
}
use ignis_test.Store.Incidents.Laws.{get_incident-upsert_incident}
use ignis_test.Store.Calls.{is_cancelled}
use ignis_test.Backend.Settings.{Settings}
use ignis_test.Backend.Http.{App, Request, Action, Payloads, Answer}
use ignis_test.Backend.Http.Keeps.{incidents_of, responded}

module _ {F : Type 0} where
  -- The table has the incident `id`, and it is cancelled.
  abbrev pub IsCancelled : String → List (Incident F) → Type 0
  IsCancelled id rows =
      (r : Incident F) × (find (λ (x : Incident F). x.incident_id) id rows ≡ some r)
      × (r.response_state ≡ cancelled)

  key-respond :
      (now : ℕ) (response : ResponseState) (answer : Option String) (h : Option HazardState)
      (r : Incident F)
      → (respond now response answer h r).incident_id ≡ r.incident_id
  key-respond now response answer none r = refl
  key-respond now response answer (some h) r = refl

  response-respond :
      (now : ℕ) (response : ResponseState) (answer : Option String) (h : Option HazardState)
      (r : Incident F)
      → (respond now response answer h r).response_state ≡ response
  response-respond now response answer none r = refl
  response-respond now response answer (some h) r = refl

  response-merge :
      (floats : Floats F) (x r : Incident F)
      → r.response_state ≡ cancelled
      → (merge_incident floats x r).response_state ≡ cancelled
  unfolding merge_incident
  response-merge floats x r e = rw e refl

  pub upsert-IsCancelled :
      {J : Type 0} (floats : Floats F) (now : ℕ) (u : IncidentUpdate F)
      (device_id boot_id id : String) (db : Db F J)
      → IsCancelled id db.incidents
      → IsCancelled id (upsert_incident floats now u device_id boot_id db).incidents
  upsert-IsCancelled floats now u device_id boot_id id db (r, known, e) =
      elim (Bool-cases (str_eq u.incident_id id)) [
        | inl same ↦ (
          merge_incident floats (fresh_incident now u device_id boot_id) r,
          get_incident-upsert_incident floats now u device_id boot_id db id ∙ rw (same, known) refl,
          response-merge floats (fresh_incident now u device_id boot_id) r e,
        )
        | inr other ↦ (
          r,
          get_incident-upsert_incident floats now u device_id boot_id db id ∙ rw other known,
          e,
        )
      ]

  -- The write of an action on another incident, or of one that cancels.
  pub responded-IsCancelled :
      {J : Type 0} (request : Request) (j id : String) (a : Action J) (rows : List (Incident F))
      → (str_eq j id ≡ true → a.response_state ≡ cancelled)
      → IsCancelled id rows
      → IsCancelled id (responded request j a rows)
  responded-IsCancelled request j id a rows same (r, known, e) =
      let change = respond request.utc a.response_state a.occupant_response a.hazard_state in
      let row =
        find-update_where (λ (x : Incident F). x.incident_id) j id change rows
          (key-respond request.utc a.response_state a.occupant_response a.hazard_state) in
      elim (Bool-cases (str_eq j id)) [
        | inl hit ↦ (
          change r,
          row ∙ rw (hit, known) refl,
          response-respond request.utc a.response_state a.occupant_response a.hazard_state r
              ∙ same hit,
        )
        | inr other ↦ (r, row ∙ rw other known, e)
      ]
