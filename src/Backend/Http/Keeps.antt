-- ===== src/Backend/Http/Keeps.antt =====
-- What the routes of main.py do to the table of incidents: the write of one response, and nothing
-- else. A predicate `P` of the table that the write keeps is kept by the route.
use ignis_test.Prelude.{
  ◌≡◌, inl, inr, refl, Bool, true, false, Option, none, some, List, String, Option-cases,
}
use ignis_test.Wire.Frame.{Json}
use ignis_test.Store.Table.{update_where}
use ignis_test.Store.Schema.{Incident, Event, Db}
use ignis_test.Store.Incidents.{get_incident, respond, update_incident_response, add_event}
use ignis_test.Backend.Registry.{DeviceRegistry}
use ignis_test.Backend.Http.{
  App, Request, Answer, Applied, Action, require_rate_limit, rated, or_404, delivered,
  announce_action, recorded, apply_action,
}

module _ {F J : Type 0} where
  abbrev pub incidents_of : App F J → List (Incident F)
  incidents_of app = app.world.db.incidents

  pub incidents-require_rate_limit :
      (request : Request) (app : App F J)
      → incidents_of (require_rate_limit request app).0 ≡ incidents_of app
  unfolding require_rate_limit
  incidents-require_rate_limit request app = refl

  -- The write of an action on the table.
  abbrev pub responded : Request → String → Action J → List (Incident F) → List (Incident F)
  responded request id a rows =
      update_where (λ r. r.incident_id) id
        (respond request.utc a.response_state a.occupant_response a.hazard_state) rows

module _ {F J : Type 0} (json : Json J) (request : Request) (id : String)
    (P : List (Incident F) → Type 0) where
  delivered-keeps :
      (updated : Option (Incident F)) (event : Event J) (r : DeviceRegistry J × Option String)
      (app : App F J)
      → P (incidents_of app)
      → P (incidents_of (delivered json updated event r app).0)
  delivered-keeps updated event (registry, none) app h = h
  delivered-keeps updated event (registry, some d) app h = h

  announce_action-keeps :
      (a : Action J) (event : Event J) (o : Option (Incident F)) (app : App F J)
      → P (incidents_of app)
      → P (incidents_of (announce_action json request a event o app).0)
  announce_action-keeps a event none app h = h
  announce_action-keeps a event (some updated) app h = delivered-keeps (some updated) event _ app h

  recorded-keeps :
      (a : Action J) (kind source : String) (value : J) (db : Db F J) (app : App F J)
      → P db.incidents
      → P (incidents_of app)
      → P (
          incidents_of
            (recorded json request id a
              (add_event request.utc id kind source value none none db)
              app).0)
  unfolding add_event
  recorded-keeps a kind source value db app h g = elim (Option-cases (get_incident id db)) [
    | inl missing ↦ rw missing g
    | inr (r, known) ↦ rw known (announce_action-keeps a _ _ _ h)
  ]

  module _ (a : Action J)
      (keeps : (xs : List (Incident F)) → P xs → P (responded request id a xs)) where
    pub apply_action-keeps :
        (app : App F J)
        → P (incidents_of app)
        → P (incidents_of (apply_action json request id a app).0)
    unfolding apply_action update_incident_response
    apply_action-keeps app h = elim (Option-cases (get_incident id app.world.db)) [
      | inl missing ↦ rw missing h
      | inr (r, known) ↦ rw known (
          recorded-keeps a a.event_type a.source a.event_payload _ _ (keeps (incidents_of app) h)
            (keeps (incidents_of app) h))
    ]

  -- The frame of the routes: the rate limit and the 404.
  pub route-keeps :
      (rest : Incident F → App F J → App F J × Answer (Applied F)) (app : App F J)
      → ((r : Incident F) (b : App F J)
          → incidents_of b ≡ incidents_of app
          → get_incident id b.world.db ≡ some r
          → P (incidents_of (rest r b).0))
      → P (incidents_of app)
      → P (
          incidents_of
            (rated
              (λ b. or_404 rest (get_incident id b.world.db) b)
              (require_rate_limit request app)).0)
  unfolding require_rate_limit
  route-keeps rest app go h =
      by_grant (require_rate_limit request app) (incidents-require_rate_limit request app)
    where
      by_row :
          (b : App F J) (o : Option (Incident F))
          → incidents_of b ≡ incidents_of app
          → get_incident id b.world.db ≡ o
          → P (incidents_of (or_404 rest o b).0)
      by_row b none same e = rw same h
      by_row b (some r) same e = go r b same e

      by_grant :
          (g : App F J × Bool)
          → incidents_of g.0 ≡ incidents_of app
          → P (incidents_of (rated (λ b. or_404 rest (get_incident id b.world.db) b) g).0)
      by_grant (b, false) same = rw same h
      by_grant (b, true) same = by_row b (get_incident id b.world.db) same refl
