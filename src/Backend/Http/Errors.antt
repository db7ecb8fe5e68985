-- ===== src/Backend/Http/Errors.antt =====
-- Requests that are refused.
use ignis_test.Prelude.{ℕ, ◌≡◌, refl, ◌∙◌, Bool, true, false, Option, none, some, String, arith}
use ignis_test.Wire.Frame.{Json}
use ignis_test.Store.Schema
use ignis_test.Store.Schema.{Incident, Event, Db}
use ignis_test.Store.Incidents.{get_incident}
use ignis_test.Backend.Registry.{DeviceRegistry}
use ignis_test.Backend.Http.{
  App, Request, http_exception, Answer, refused, Applied, Payloads, Action, require_rate_limit,
  rated, or_404, delivered, announce_action, recorded, answered_by, apply_action,
}
use ignis_test.Backend.Http.Actions.{
  Remark, Cancellation, confirm, confirm_stored, confirming, cancel, cancel_stored, cancelling,
  reset, reset_stored, resetting, without_task,
}

module _ {F J : Type 0} (json : Json J) (payloads : Payloads J) (request : Request) (id : String)
    (status : ℕ) (detail : String) where
  abbrev Refuses : App F J × Answer (Applied F) → Type 0
  Refuses r = r.1 ≡ refused (http_exception status detail)

  delivered-answers :
      (updated : Option (Incident F)) (event : Event J) (r : DeviceRegistry J × Option String)
      (app : App F J)
      → ¬ Refuses (delivered json updated event r app)
  delivered-answers updated event (registry, none) app h = cc
  delivered-answers updated event (registry, some d) app h = cc

  announce_action-answers :
      (a : Action J) (event : Event J) (o : Option (Incident F)) (app : App F J)
      → ¬ Refuses (announce_action json request a event o app)
  announce_action-answers a event none app h = cc
  announce_action-answers a event (some updated) app h =
      delivered-answers (some updated) event _ app h

  recorded-answers :
      (a : Action J) (r : Schema.Result (Db F J × Event J)) (app : App F J)
      → ¬ Refuses (recorded json request id a r app)
  recorded-answers a (Schema.err e) app h = cc
  recorded-answers a (Schema.ok (db, event)) app h = announce_action-answers a event _ _ h

  answered_by-answers :
      (a : Action J) (r : Schema.Result (Db F J)) (app : App F J)
      → ¬ Refuses (answered_by json request id a r app)
  answered_by-answers a (Schema.err e) app h = cc
  answered_by-answers a (Schema.ok db) app h = recorded-answers a _ _ h

  apply_action-answers :
      (a : Action J) (app : App F J) → ¬ Refuses (apply_action json request id a app)
  unfolding apply_action
  apply_action-answers a app h = answered_by-answers a _ app h

  -- A route that refuses only before `apply_action`.
  route-Refuses :
      (rest : Incident F → App F J → App F J × Answer (Applied F)) (app : App F J)
      → ((r : Incident F) (b : App F J) → Refuses (rest r b) → (rest r b).0.world ≡ b.world)
      → Refuses
          (rated (λ b. or_404 rest (get_incident id b.world.db) b) (require_rate_limit request app))
      → (rated
          (λ b. or_404 rest (get_incident id b.world.db) b)
          (require_rate_limit request app)).0.world
        ≡ app.world
  unfolding require_rate_limit
  route-Refuses rest app go = by_grant (require_rate_limit request app) refl
    where
      by_row :
          (b : App F J) (o : Option (Incident F))
          → b.world ≡ app.world
          → Refuses (or_404 rest o b)
          → (or_404 rest o b).0.world ≡ app.world
      by_row b none same h = same
      by_row b (some r) same h = go r b h ∙ same

      by_grant :
          (g : App F J × Bool)
          → g.0.world ≡ app.world
          → Refuses (rated (λ b. or_404 rest (get_incident id b.world.db) b) g)
          → (rated (λ b. or_404 rest (get_incident id b.world.db) b) g).0.world ≡ app.world
      by_grant (b, false) same h = same
      by_grant (b, true) same h = by_row b (get_incident id b.world.db) same h

  confirm_stored-Refuses :
      (body : Remark) (r : Incident F) (b : App F J)
      → Refuses (confirm_stored json payloads request id body r b)
      → (confirm_stored json payloads request id body r b).0.world ≡ b.world
  confirm_stored-Refuses body r b h =
      ground (arith, apply_action-answers (confirming payloads id body) (without_task id b))

  cancel_stored-Refuses :
      (body : Cancellation) (r : Incident F) (b : App F J)
      → Refuses (cancel_stored json payloads request id body r b)
      → (cancel_stored json payloads request id body r b).0.world ≡ b.world
  cancel_stored-Refuses body r b h =
      ground (arith, apply_action-answers (cancelling payloads id body) (without_task id b))

  reset_stored-Refuses :
      (body : Remark) (r : Incident F) (b : App F J)
      → Refuses (reset_stored json payloads request id body r b)
      → (reset_stored json payloads request id body r b).0.world ≡ b.world
  reset_stored-Refuses body r b h =
      ground (arith, apply_action-answers (resetting json payloads request id body r) b)

  -- A request to confirm, to cancel or to reset that is answered with an `HTTPException` of the routes,
  -- with whichever status and detail, has changed nothing of the database, the registry of devices
  -- or what clients were sent. An exception that nothing catches, the server's 500, is none of them.
  pub refused_writes_nothing :
      (body : Remark) (reason : Cancellation) (app : App F J)
      → (Refuses (confirm json payloads request id body app)
          → (confirm json payloads request id body app).0.world ≡ app.world)
        × (Refuses (cancel json payloads request id reason app)
            → (cancel json payloads request id reason app).0.world ≡ app.world)
        × (Refuses (reset json payloads request id body app)
            → (reset json payloads request id body app).0.world ≡ app.world)
  unfolding confirm cancel reset
  refused_writes_nothing body reason app = (
    route-Refuses (confirm_stored json payloads request id body) app (confirm_stored-Refuses body),
    route-Refuses (cancel_stored json payloads request id reason) app
        (cancel_stored-Refuses reason),
    route-Refuses (reset_stored json payloads request id body) app (reset_stored-Refuses body),
  )
