-- ===== src/Backend/Http/Zones/Stored.antt =====
-- What a request to change the zones leaves in the database.
use ignis_test.Prelude.{
  ℕ, ◌≤◌, ◌<◌, ◌≡◌, ◌≢◌, ◌⊎◌, inl, inr, refl, ap, ◌∙◌, Bool, true, false, Option, none, some, List,
  String,
}
use ignis_test.Wire.Frame.{Json}
use ignis_test.Store.Schema
use ignis_test.Store.Schema.{ConfigurationRow, Db}
use ignis_test.Store.Configuration.{
  get_row, get_configuration, put_configuration, put_configuration_lem,
}
use ignis_test.Backend.Registry.{DeviceRegistry}
use ignis_test.Backend.Zones.{ZoneConfiguration}
use ignis_test.Backend.Http.{
  App, Request, http_exception, Answer, refused, require_rate_limit, rated, with_db,
}
use ignis_test.Backend.Http.Zones.{
  Recipient, Configured, ZonesJson, stored_value, deliver_zones, zones_told, zones_put, put_zones,
}

module _ {F J : Type 0} (json : Json J) (zones_json : ZonesJson F J) (request : Request)
    (recipients : List Recipient) (body : ZoneConfiguration F) where
  zones_told-db :
      (value : J) (r : DeviceRegistry J × Option (List (String × String))) (app : App F J)
      → (zones_told json zones_json value r app).0.world.db ≡ app.world.db
  zones_told-db value (registry, none) app = refl
  zones_told-db value (registry, some deliveries) app = refl

  abbrev new_version : ℕ
  new_version = body.configuration_version

  abbrev value : J
  value = stored_value json zones_json body

  abbrev zones_of : Db F J → Schema.Result (Db F J)
  zones_of db = put_configuration request.utc "zones" new_version value db

  -- What a request that is not limited comes to, from the application after the limiter.
  abbrev Refusal : App F J → App F J × Answer (Configured J) → Type 0
  Refusal app r =
      (c : ConfigurationRow J) × (get_row "zones" app.world.db ≡ some c)
      × (new_version ≤ c.version)
      × (r ≡ (app, refused (http_exception 409 "configuration version must increase")))

  abbrev Change : App F J → App F J × Answer (Configured J) → Type 0
  Change app (after, answer) =
      ((c : ConfigurationRow J) → get_row "zones" app.world.db ≡ some c → c.version < new_version)
      × (get_configuration "zones" after.world.db ≡ some value)
      × ((j : String)
          → j ≢ "zones"
          → get_configuration j after.world.db ≡ get_configuration j app.world.db)

  zones_put_lem :
      (app : App F J)
      → Refusal app (zones_put json zones_json value recipients (zones_of app.world.db) app)
        ⊎ Change app (zones_put json zones_json value recipients (zones_of app.world.db) app)
  zones_put_lem app =
      elim (put_configuration_lem request.utc "zones" new_version value app.world.db) [
        | inl (c, known, old, refusal) ↦
            inl (c, known, old, ap (λ r. zones_put json zones_json value recipients r app) refusal)
        | inr (after, stored, newer, given, others) ↦
            let kept : (zones_put json zones_json value recipients (zones_of app.world.db)
                  app).0.world.db
                ≡ after =
              ap (λ r. (zones_put json zones_json value recipients r app).0.world.db) stored
              ∙ zones_told-db value
                  (deliver_zones json zones_json value recipients app.world.registry)
                  (with_db after app) in
            inr (
              newer,
              ap (get_configuration "zones") kept ∙ given,
              λ j other. ap (get_configuration j) kept ∙ others j other,
            )
      ]

  -- A request to change the zones that is not limited is refused, and leaves the application as the
  -- limiter did, exactly where a version as high is stored; otherwise the zones are stored, whatever
  -- becomes of the packets to the devices, and no other configuration changes.
  pub put_zones_lem :
      (app : App F J)
      → (require_rate_limit request app).1 ≡ true
      → Refusal
          (require_rate_limit request app).0
          (put_zones json zones_json request recipients body app)
        ⊎ Change
            (require_rate_limit request app).0
            (put_zones json zones_json request recipients body app)
  unfolding put_zones
  put_zones_lem app granted = by_limiter (require_rate_limit request app) granted
    where
      by_limiter :
          (l : App F J × Bool)
          → l.1 ≡ true
          → Refusal l.0
              (rated (λ a. zones_put json zones_json value recipients (zones_of a.world.db) a) l)
            ⊎ Change l.0
                (rated (λ a. zones_put json zones_json value recipients (zones_of a.world.db) a) l)
      by_limiter (a, true) g = zones_put_lem a
      by_limiter (a, false) g = absurd (cc)
