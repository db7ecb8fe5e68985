-- ===== src/Backend/Http.antt =====
-- backend/app/main.py: the state that the routes share, their answers, and the steps they have in
-- common. A route gives the state back with its answer also where it raises, as what it has written
-- by then stays. The bodies are those that pydantic has accepted.
pub mod Actions
pub mod Keeps
pub mod Cancelled
pub mod Errors
pub mod Calls
pub mod Zones
pub mod Voice
mod Examples
use ignis_test.Prelude.{
  ℕ, Bool, true, false, Option, none, some, List, [], ◌∷◌, String, if◌then◌else◌,
}
use ignis_test.Wire.Packet.{PacketType}
use ignis_test.Wire.Frame.{Json}
use ignis_test.Store.Schema
use ignis_test.Store.Schema.{HazardState, ResponseState, Incident, Event, CallAttempt, Db}
use ignis_test.Store.Incidents.{get_incident, update_incident_response, add_event}
use ignis_test.Backend.RateLimit.{RateLimiter, allow}
use ignis_test.Backend.Registry.{DeviceRegistry, send_control}
use ignis_test.Backend.Destination.{CallError}
use ignis_test.Backend.Dispatch.{Reply}
use ignis_test.Backend.Escalation.{ResponseTimeoutManager}
use ignis_test.Backend.Session.{World, Message, incident, timeline_event, broadcast}

-- `app.state`
pub record App (F J : Type 0) : Type 0 where
  pub armed : Bool
  pub rate_limiter : RateLimiter
  pub timeout_manager : ResponseTimeoutManager
  pub world : World F J

-- Who asks, the two clocks, and whether a device's writer drains in time.
pub record Request : Type 0 where
  pub client : Option String
  pub utc : ℕ
  pub monotonic : ℕ
  pub drained : Bool

-- `HTTPException(status_code, detail)`; an exception that nothing catches is the server's 500.
pub data HttpError : Type 0 where
  http_exception : ℕ → String → HttpError
  server_error : HttpError

pub data Answer (A : Type 0) : Type 0 where
  answered : A → Answer A
  refused : HttpError → Answer A

-- `{"incident": …, "device_delivery": …}`
pub record Applied (F : Type 0) : Type 0 where
  pub incident : Option (Incident F)
  pub device_delivery : String

-- The JSON objects that the routes build.
pub record Payloads (J : Type 0) : Type 0 where
  -- {"note": …} and {"reason": …, "note": …}
  pub note : String → J
  pub reason_and_note : String → String → J
  -- {"incident_id": …, "source": …}, and with a reason
  pub control : String → String → J
  pub control_reason : String → String → String → J
  pub dispatched : Reply → J

abbrev pub too_many_requests : HttpError
too_many_requests = http_exception 429 "action_rate_limit_exceeded"

abbrev pub unknown_incident : HttpError
unknown_incident = http_exception 404 "incident_not_found"

abbrev pub client_of : Option String → String
client_of none = "unknown"
client_of (some host) = host

module _ {F J : Type 0} where
  -- `require_rate_limit`
  unfoldable pub require_rate_limit : Request → App F J → App F J × Bool
  require_rate_limit request app =
      let (limiter, granted) =
        allow request.monotonic (client_of request.client) app.rate_limiter in
      (record app { rate_limiter = limiter }, granted)

  abbrev pub with_db : Db F J → App F J → App F J
  with_db db app = record app { world = record (app.world) { db = db } }

  abbrev pub tell : Message F J → App F J → App F J
  tell m app = record app { world = broadcast m app.world }

  abbrev pub rated :
      {A : Type 0} → (App F J → App F J × Answer A) → App F J × Bool → App F J × Answer A
  rated rest (app, false) = (app, refused too_many_requests)
  rated rest (app, true) = rest app

  -- `get_incident_or_404`
  abbrev pub or_404 :
      {A : Type 0}
      → (Incident F → App F J → App F J × Answer A)
      → Option (Incident F)
      → App F J
      → App F J × Answer A
  or_404 rest none app = (app, refused unknown_incident)
  or_404 rest (some stored) app = rest stored app

-- What an action writes and sends.
pub record Action (J : Type 0) : Type 0 where
  pub response_state : ResponseState
  pub occupant_response : Option String
  pub hazard_state : Option HazardState
  pub event_type : String
  pub source : String
  pub event_payload : J
  pub packet_type : PacketType
  pub packet_payload : J

module _ {F J : Type 0} (json : Json J) where
  abbrev pub delivered :
      Option (Incident F)
      → Event J
      → DeviceRegistry J × Option String
      → App F J
      → App F J × Answer (Applied F)
  delivered updated event (registry, none) app =
      (record app { world = record (app.world) { registry = registry } }, refused server_error)
  delivered updated event (registry, some delivery) app =
      let sent = record app { world = record (app.world) { registry = registry } } in
      (
        tell (incident updated) (tell (timeline_event event) sent),
        answered (record { incident = updated; device_delivery = delivery }),
      )

  -- `announce_action`, for the incident that `update_incident_response` returned
  abbrev pub announce_action :
      Request → Action J → Event J → Option (Incident F) → App F J → App F J × Answer (Applied F)
  announce_action request a event none app = (app, refused server_error)
  announce_action request a event (some updated) app =
      delivered (some updated) event
        (send_control request.drained request.monotonic updated.device_id a.packet_type
          (json.dumps a.packet_payload) app.world.registry)
        app

  abbrev pub recorded :
      Request
      → String
      → Action J
      → Schema.Result (Db F J × Event J)
      → App F J
      → App F J × Answer (Applied F)
  recorded request id a (Schema.err e) app = (app, refused server_error)
  recorded request id a (Schema.ok (db, event)) app =
      announce_action request a event (get_incident id db) (with_db db app)

  abbrev pub answered_by :
      Request → String → Action J → Schema.Result (Db F J) → App F J → App F J × Answer (Applied F)
  answered_by request id a (Schema.err e) app = (app, refused server_error)
  answered_by request id a (Schema.ok db) app =
      recorded request id a
        (add_event request.utc id a.event_type a.source a.event_payload none none db)
        (with_db db app)

  -- The tail that the routes of an action share: the response, the event, the device, the clients.
  unfoldable pub apply_action : Request → String → Action J → App F J → App F J × Answer (Applied F)
  apply_action request id a app =
      answered_by request id a
        (update_incident_response request.utc id a.response_state a.occupant_response a.hazard_state
          app.world.db)
        app
