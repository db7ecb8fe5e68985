-- ===== src/Backend/Session/Examples.antt =====
-- Concrete connections of a device: JSON values are numbers, of which 1 is a right HELLO, 2 one with
-- a wrong token, and 3 an update of an incident.
use ignis_test.Prelude.{
  ℕ, ◌≡◌, ◌⊎◌, refl, Bool, true, false, Option, none, some, List, [], ◌∷◌, String, str_eq, ◌==◌,
  if◌then◌else◌, arith,
}
use ignis_test.Wire.Packet.{
  PacketType, Packet, hello, incident_update, encode_packet, fits, pack_header,
}
use ignis_test.Wire.Frame.{Json, packet_json, decode_frame_payload}
use ignis_test.Store.Table.{find, update_where, upsert}
use ignis_test.Store.Schema.{confirmed, idle}
use ignis_test.Store.Devices.{Hello, upsert_device, mark_device_disconnected}
use ignis_test.Store.Incidents.{fresh_incident, merge_incident, upsert_incident}
use ignis_test.Store.Examples.{floats, sighting, burning}
use ignis_test.Backend.Settings.{Settings}
use ignis_test.Backend.Registry.{
  DeviceConnection, connection, DeviceRegistry, empty_registry, register, unregister, close_old,
  close_writer, send,
}
use ignis_test.Backend.Registry.Turns.{unregister-register}
use ignis_test.Backend.Session.{
  Greeting, Values, World, new_session, Moment, Progress, authentication_failed,
}
use ignis_test.Backend.Session.Login.{authenticate, check_greeting, check_token, accept}
use ignis_test.Backend.Session.Dispatch.{dispatch, on_data}
use ignis_test.Backend.Session.Loop.{handle, handle_by, handle_all, finish}
use ignis_test.Backend.Session.Safety.{IsAuthentic, Among, login_before_writes}
use ignis_test.Backend.Session.Replay.{
  replay_ignored, disarmed_keeps_incidents, replaced_connection_ends,
}

program : Unit {0}
unfolding find update_where upsert fresh_incident merge_incident upsert_incident upsert_device
    mark_device_disconnected register unregister close_old close_writer send encode_packet fits
    packet_json decode_frame_payload authenticate check_greeting check_token accept dispatch on_data
    handle handle_by handle_all finish pack_header
program = tt

abbrev pub json : Json ℕ
json = record {
  dumps = λ value. value ∷ [];
  loads = λ bytes. elim bytes [ [] ↦ none | value ∷ rest ↦ some value ];
  is_object = λ value. true;
}

abbrev first_boot : Hello ℕ
first_boot = record { device_id = "cam"; boot_id = "a"; software_version = "1"; capabilities = 0 }

abbrev greeting : String → Greeting ℕ
greeting token = record { is_version_one = true; hello = first_boot; device_token = token }

abbrev pub values : Values ℕ ℕ
values = record {
  greeting_of = λ value. some (greeting (if value == 1 then "secret" else "guess"));
  incident_of = λ value. some (sighting confirmed idle);
  timeline_of = λ value. none;
  with_device = λ id value. value;
  ack = [];
  pong_to = λ n. [];
  no_health = 0;
}

abbrev pub digest : String → String → Option Bool
digest s t = some (str_eq s t)

abbrev pub settings : Settings
settings = record {
  app_env = "development";
  device_token = "secret";
  expected_device_id = "cam";
  elevenlabs_api_key = "";
  occupant_agent_id = "";
  dispatch_agent_id = "";
  phone_number_id = "";
  demo_calls_enabled = false;
  demo_dispatch_number = [];
  demo_allowed_numbers = [];
  global_call_cooldown_seconds = 60;
  max_calls_per_incident = 1;
  call_provider = "mock";
  provider_webhook_secret = "";
  max_payload_bytes = 100;
  action_rate_limit_per_minute = 30;
  response_timeout_seconds = 10;
}

abbrev packet : PacketType → ℕ → ℕ → Packet
packet t sequence value = record {
  packet_type = t;
  flags = 0;
  sequence = sequence;
  monotonic_ns = 7;
  payload = value ∷ [];
}

abbrev moment : Moment
moment = record { now = 5; armed = true; drained = true }

abbrev always : Packet → Moment
always k = moment

abbrev pub world : World ℕ ℕ
world = record { registry = empty_registry; db = burning; messages = []; observed = [] }

abbrev after : List Packet → Progress ℕ ℕ
after ks = handle_all floats json values digest settings always ks (new_session 1 100) world

-- The right HELLO logs in; a wrong token does not, and ends the connection.
logins :
    ((after (packet hello 1 1 ∷ [])).session.hello ≡ some first_boot)
    × ((after (packet hello 1 2 ∷ packet incident_update 2 3 ∷ [])).stopped
        ≡ some authentication_failed)
unfolding program
logins = (refl, refl)

login_before_writes_example :
    ((after (packet hello 1 2 ∷ packet incident_update 2 3 ∷ [])).world.db ≡ burning)
    ⊎ ((k : Packet) × Among floats json values digest settings k
          (packet hello 1 2 ∷ packet incident_update 2 3 ∷ [])
        × IsAuthentic floats json values digest settings k)
login_before_writes_example =
    login_before_writes floats json values digest settings always
      (packet hello 1 2 ∷ packet incident_update 2 3 ∷ []) (new_session 1 100) world refl

abbrev greeted : Progress ℕ ℕ
greeted =
    handle floats json values digest settings moment (packet hello 1 1) (new_session 1 100) world

-- The login, an incident, and the login again
abbrev onward : Progress ℕ ℕ
onward =
    handle_all floats json values digest settings always (packet incident_update 2 3 ∷ [])
      greeted.session greeted.world

abbrev twice : Progress ℕ ℕ
twice =
    handle floats json values digest settings moment (packet hello 1 1) onward.session onward.world

replay_ignored_example :
    (twice.session ≡ onward.session)
    × (twice.world.db ≡ onward.world.db)
    × (twice.world.registry ≡ onward.world.registry)
    × (twice.stopped ≡ none)
replay_ignored_example =
    replay_ignored floats json values digest settings moment moment (packet hello 1 1)
      (new_session 1 100) world always (packet incident_update 2 3 ∷ []) (packet hello 1 1)
      (omega arith)

disarmed_keeps_incidents_example :
    (dispatch floats json values 5 false true first_boot
      (packet incident_update 2 3)
      world).0.db.incidents
    ≡ burning.incidents
disarmed_keeps_incidents_example =
    disarmed_keeps_incidents floats json values 5 true first_boot (packet incident_update 2 3) world

abbrev one : DeviceConnection
one = connection "cam" "a" 1

abbrev two : DeviceConnection
two = connection "cam" "b" 2

abbrev with_one : DeviceRegistry ℕ
with_one = record (empty_registry {J = ℕ}) {
  connections = λ k. if str_eq "cam" k then some one else none;
}

unregister-register_example :
    ((register two with_one).is_closing 1 ≡ true)
    × (unregister "cam" 1 (register two with_one) ≡ (register two with_one, false))
    × ((unregister "cam" 2 (register two with_one)).1 ≡ true)
    × ((unregister "cam" 2 (register two with_one)).0.connections "cam" ≡ none)
unregister-register_example = unregister-register two with_one one refl (omega arith)

abbrev replaced : Progress ℕ ℕ
replaced = record {
  session = record (new_session {J = ℕ} 1 100) { hello = some first_boot };
  world = record world { registry = register two with_one };
  stopped = none;
}

replaced_connection_ends_example :
    ((finish 9 replaced).db ≡ burning) × ((finish 9 replaced).registry.connections "cam" ≡ some two)
replaced_connection_ends_example =
    replaced_connection_ends 9 two one first_boot with_one replaced refl refl refl refl
      (omega arith) refl
