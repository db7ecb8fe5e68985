-- ===== src/Backend/Http/Zones.antt =====
-- backend/app/main.py: the routes of the configurations and of the voice's address, with `signed_url`
-- of backend/app/communications.py. The bodies are those that `Backend.Zones` accepts. The registry
-- is a function, so the keys of `registry.connections` are an argument, each with the clock of its
-- turn and whether its writer drains in time.
pub mod Stored
use ignis_test.Prelude.{
  ℕ, ◌+◌, ◌<◌, ◌≤◌, ◌≡◌, ◌⊎◌, inl, inr, refl, Bool, true, false, not, ◌&&◌, ◌||◌, Option, none,
  some, List, [], ◌∷◌, map, String, str_eq, codes, list_eq, leb, take, if◌then◌else◌, arith,
}
use ignis_test.Wire.Packet.{config_update}
use ignis_test.Wire.Frame.{Json}
use ignis_test.Store.Schema
use ignis_test.Store.Schema.{ConfigurationRow, Db, Incident}
use ignis_test.Store.Incidents.{get_incident}
use ignis_test.Store.Configuration.{
  get_row, get_configuration, put_configuration, put_configuration_lem,
}
use ignis_test.Backend.Settings.{Settings}
use ignis_test.Backend.Registry.{DeviceRegistry, send_control}
use ignis_test.Backend.Session.{World, configuration_update}
use ignis_test.Backend.Observations.{Rounding, Context, safe_incident_context}
use ignis_test.Backend.Zones.{Point, Zone, ZoneConfiguration}
use ignis_test.Backend.Http.{
  App, Request, HttpError, http_exception, server_error, Answer, answered, refused,
  too_many_requests, require_rate_limit, rated, or_404, with_db, tell,
}
use ignis_test.Backend.Http.Calls.{system_unarmed}

-- A zone of the dumped body, whose points are pairs.
pub record PairedZone (F : Type 0) : Type 0 where
  pub id : List ℕ
  pub name : List ℕ
  pub points : List (F × F)

pub record Recipient : Type 0 where
  pub device_id : String
  pub monotonic : ℕ
  pub drained : Bool

-- `{"configuration": …, "device_delivery": …, "acknowledged": False}`
pub record Configured (J : Type 0) : Type 0 where
  pub configuration : J
  pub device_delivery : List (String × String)

-- The JSON values of this route.
pub record ZonesJson (F J : Type 0) : Type 0 where
  pub value_of : ℕ → F → List (PairedZone F) → J
  -- `{"kind": "zones", "value": value}`
  pub kind_zones : J → J
  pub result_of : Configured J → J
  pub empty : J

abbrev pub paired : {F : Type 0} → Zone F → PairedZone F
paired z = record { id = z.id; name = z.name; points = map (λ p. (p.x, p.y)) z.points }

module _ {F J : Type 0} (json : Json J) (zones_json : ZonesJson F J) where
  -- `value`
  abbrev pub stored_value : ZoneConfiguration F → J
  stored_value body =
      zones_json.value_of body.configuration_version body.frame_aspect_ratio (map paired body.zones)

  abbrev pub delivered_to :
      Recipient
      → DeviceRegistry J × Option (List (String × String))
      → String
      → DeviceRegistry J × Option (List (String × String))
  delivered_to to (registry, none) delivery = (registry, none)
  delivered_to to (registry, some rest) delivery =
      (registry, some ((to.device_id, delivery) ∷ rest))

  abbrev pub goes_on_to :
      (DeviceRegistry J → DeviceRegistry J × Option (List (String × String)))
      → Recipient
      → DeviceRegistry J × Option String
      → DeviceRegistry J × Option (List (String × String))
  goes_on_to rest to (registry, none) = (registry, none)
  goes_on_to rest to (registry, some delivery) = delivered_to to (rest registry) delivery

  -- The loop over the devices; `none` where a packet cannot be encoded, which raises
  unfoldable pub deliver_zones :
      J → List Recipient → DeviceRegistry J → DeviceRegistry J × Option (List (String × String))
  deliver_zones value [] registry = (registry, some [])
  deliver_zones value (to ∷ recipients) registry = goes_on_to (deliver_zones value recipients) to (
      send_control to.drained to.monotonic to.device_id config_update
        (json.dumps (zones_json.kind_zones value)) registry)

  abbrev pub with_registry : DeviceRegistry J → App F J → App F J
  with_registry registry app = record app { world = record (app.world) { registry = registry } }

  abbrev pub zones_told :
      J
      → DeviceRegistry J × Option (List (String × String))
      → App F J
      → App F J × Answer (Configured J)
  zones_told value (registry, none) app = (with_registry registry app, refused server_error)
  zones_told value (registry, some deliveries) app =
      let result : Configured J = record { configuration = value; device_delivery = deliveries } in
      (
        tell (configuration_update (zones_json.result_of result)) (with_registry registry app),
        answered result,
      )

  abbrev pub zones_put :
      J → List Recipient → Schema.Result (Db F J) → App F J → App F J × Answer (Configured J)
  zones_put value recipients (Schema.err e) app =
      (app, refused (http_exception 409 "configuration version must increase"))
  zones_put value recipients (Schema.ok db) app =
      zones_told value (deliver_zones value recipients app.world.registry) (with_db db app)

  unfoldable pub put_zones :
      Request → List Recipient → ZoneConfiguration F → App F J → App F J × Answer (Configured J)
  unfolding require_rate_limit
  put_zones request recipients body app =
      rated
        (λ a.
          zones_put (stored_value body) recipients
            (put_configuration request.utc "zones" body.configuration_version (stored_value body)
              a.world.db)
            a)
        (require_rate_limit request app)

  abbrev pub or_empty : Option J → J
  or_empty none = zones_json.empty
  or_empty (some value) = value

  unfoldable pub get_zones : App F J → J
  get_zones app = or_empty (get_configuration "zones" app.world.db)

  unfoldable pub get_thresholds : App F J → J
  get_thresholds app = or_empty (get_configuration "thresholds" app.world.db)
