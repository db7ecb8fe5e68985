-- ===== src/Store/Devices.antt =====
-- `upsert_device`, `mark_device_disconnected` and `update_health`.
use ignis_test.Prelude.{
  ℕ, ◌≡◌, refl, ◌∙◌, Bool, true, false, Option, none, some, String, str_eq, str_eq_refl,
  if◌then◌else◌, arith,
}
use ignis_test.Store.Table.{find, update_where, upsert, upserted, find-upsert, find-update_where}
use ignis_test.Store.Schema.{Device, Db}

-- The fields of a HELLO that are stored, with `.get`'s defaults filled in.
pub record Hello (J : Type 0) : Type 0 where
  pub device_id : String
  pub boot_id : String
  pub software_version : String
  pub capabilities : J

module _ {F J : Type 0} where
  abbrev pub get_device : String → Db F J → Option (Device J)
  get_device id db = find (λ d. d.device_id) id db.devices

module _ {J : Type 0} where
  -- `no_health` is the text '{}' of the INSERT.
  abbrev pub device_row : ℕ → Hello J → Bool → J → Device J
  device_row now hello connected no_health = record {
    device_id = hello.device_id;
    boot_id = hello.boot_id;
    software_version = hello.software_version;
    connected = connected;
    connected_at = some now;
    disconnected_at = none;
    last_seen_at = now;
    capabilities = hello.capabilities;
    health = no_health;
  }

  -- The row on a conflict: the health that was reported stays.
  abbrev pub renewed : Device J → Device J → Device J
  renewed x d = record d {
    boot_id = x.boot_id;
    software_version = x.software_version;
    connected = x.connected;
    connected_at = x.connected_at;
    disconnected_at = none;
    last_seen_at = x.last_seen_at;
    capabilities = x.capabilities;
  }

  -- … WHERE device_id=? AND boot_id=?
  abbrev pub gone : ℕ → String → Device J → Device J
  gone now boot_id d =
      if str_eq d.boot_id boot_id
      then record d { connected = false; disconnected_at = some now; last_seen_at = now }
      else d

module _ {F J : Type 0} where
  unfoldable pub upsert_device : ℕ → Hello J → Bool → J → Db F J → Db F J
  upsert_device now hello connected no_health db =
      let x = device_row now hello connected no_health in
      record db { devices = upsert (λ d. d.device_id) x (renewed x) db.devices }

  unfoldable pub mark_device_disconnected : ℕ → String → String → Db F J → Db F J
  mark_device_disconnected now id boot_id db = record db {
    devices = update_where (λ d. d.device_id) id (gone now boot_id) db.devices;
  }

  unfoldable pub update_health : ℕ → String → J → Db F J → Db F J
  update_health now id health db = record db {
    devices =
        update_where (λ d. d.device_id) id (λ d. record d { health = health; last_seen_at = now })
          db.devices;
  }

module _ {J : Type 0} where
  key-gone :
      (now : ℕ) (boot_id : String) (d : Device J) → (gone now boot_id d).device_id ≡ d.device_id
  key-gone now boot_id d = ground arith

  pub row_of : ℕ → Hello J → J → Option (Device J) → Device J
  row_of now hello no_health =
      upserted (λ d. d.device_id) (device_row now hello true no_health)
        (renewed (device_row now hello true no_health))

  row_of_fields :
      (now : ℕ) (hello : Hello J) (no_health : J) (o : Option (Device J))
      → ((row_of now hello no_health o).boot_id ≡ hello.boot_id)
        × ((row_of now hello no_health o).connected ≡ true)
  unfolding row_of
  row_of_fields now hello no_health none = (refl, refl)
  row_of_fields now hello no_health (some d) = (refl, refl)

module _ {F J : Type 0} (now later : ℕ) (hello : Hello J) (no_health : J) (boot_id : String)
    (db : Db F J) where
  abbrev pub greeted : Db F J
  greeted = upsert_device now hello true no_health db

  get_device-greeted :
      get_device hello.device_id greeted
      ≡ some (row_of now hello no_health (get_device hello.device_id db))
  unfolding upsert_device row_of
  get_device-greeted =
      find-upsert (λ d. d.device_id) hello.device_id (device_row now hello true no_health)
        (renewed (device_row now hello true no_health)) db.devices (λ r. refl)
      ∙ rw (str_eq_refl hello.device_id) refl

  -- A device that has said HELLO is marked as gone by the end of a connection of the same boot, and
  -- not by the end of an earlier boot's connection.
  pub disconnect_after_hello :
      (d : Device J) × (get_device hello.device_id greeted ≡ some d)
      × (d.connected ≡ true)
      × (get_device hello.device_id (mark_device_disconnected later hello.device_id boot_id greeted)
          ≡ some (
              if str_eq hello.boot_id boot_id
              then record d {
                connected = false;
                disconnected_at = some later;
                last_seen_at = later;
              }
              else d))
  unfolding mark_device_disconnected
  disconnect_after_hello =
      let d = row_of now hello no_health (get_device hello.device_id db) in
      let (boot, on) = row_of_fields now hello no_health (get_device hello.device_id db) in
      (
        d,
        get_device-greeted,
        on,
        find-update_where (λ r. r.device_id) hello.device_id hello.device_id (gone later boot_id)
              greeted.devices (key-gone later boot_id)
            ∙ rw (str_eq_refl hello.device_id, get_device-greeted, boot) refl,
      )
