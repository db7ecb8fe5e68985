-- ===== src/Backend/Session.antt =====
-- backend/app/tcp_server.py: one connection of `DeviceTcpServer`, from its first packet to its end.
-- A packet is one step: other tasks may run where the step awaits, between packets and at the
-- broadcasts. `Values` stands for what Python does with JSON values and for pydantic's parsing, and
-- `compare_digest` for hmac, which raises on text that is not ASCII (`none`).
pub mod Login
pub mod Dispatch
pub mod Loop
pub mod Incidents
pub mod Safety
pub mod Replay
pub mod Examples
use ignis_test.Prelude.{
  ℕ, ◌+◌, ◌≡◌, Bool, true, false, not, ◌&&◌, Option, none, some, List, [], ◌∷◌, ◌++◌, String,
  str_eq, leb, ltb, if◌then◌else◌,
}
use ignis_test.Prelude.Floats.{Floats}
use ignis_test.Wire.Packet
use ignis_test.Wire.Packet.{
  PacketType, hello, hello_ack, frame, detections, incident_update, incident_timeline_event,
  health_update, evidence_manifest, log_event, config_ack, ping, pong, WireError,
  field_out_of_range, Packet,
}
use ignis_test.Wire.Parser
use ignis_test.Wire.Parser.{Parser, feed}
use ignis_test.Wire.Frame.{Json, packet_json, decode_frame_payload}
use ignis_test.Store.Schema
use ignis_test.Store.Schema.{CallAttempt, Incident, Event, Db}
use ignis_test.Store.Devices.{Hello, upsert_device, mark_device_disconnected, update_health}
use ignis_test.Store.Incidents.{IncidentUpdate, upsert_incident, get_incident, add_event}
use ignis_test.Backend.Settings.{Settings}
use ignis_test.Backend.Dispatch.{Reply}
use ignis_test.Backend.Registry.{
  DeviceConnection, connection, DeviceRegistry, LiveFrame, Sent, sent, raised, register, unregister,
  send, close_writer,
}

-- The fields of a HELLO that is complete, and whether `protocol_version` is 1.
pub record Greeting (J : Type 0) : Type 0 where
  pub is_version_one : Bool
  pub hello : Hello J
  pub device_token : String

-- The fields of a timeline event that are read.
pub record Timeline : Type 0 where
  pub incident_id : String
  pub event_type : String
  pub wall_time_utc : Option String

pub record Values (F J : Type 0) : Type 0 where
  -- the required fields of a HELLO, or `none` where one is missing
  pub greeting_of : J → Option (Greeting J)
  -- `IncidentUpdate.model_validate`, or `none` where it raises
  pub incident_of : J → Option (IncidentUpdate F)
  -- `none` where `data["incident_id"]` raises `KeyError`
  pub timeline_of : J → Option Timeline
  -- `{**data, "device_id": …, "qnx_connected": True}`
  pub with_device : String → J → J
  -- the payloads of HELLO_ACK and PONG, and `{}`
  pub ack : List ℕ
  pub pong_to : ℕ → List ℕ
  pub no_health : J

pub data SessionError : Type 0 where
  hello_first hello_incomplete version_mismatch unknown_device authentication_failed : SessionError
  digest_type_error invalid_incident missing_incident_id unknown_incident : SessionError
  unexpected_packet_type : SessionError
  wire : WireError → SessionError

-- The messages that `hub.broadcast` is given.
pub data Message (F J : Type 0) : Type 0 where
  out_of_order : ℕ → Message F J
  protocol_error : SessionError → Message F J
  live_frame : LiveFrame J → Message F J
  live_detections configuration_update health : J → Message F J
  incident : Option (Incident F) → Message F J
  timeline_event : Event J → Message F J
  device_log : PacketType → J → Message F J
  qnx_connected : String → Bool → Message F J
  arming_update : Bool → Message F J
  call_reply : Reply → Message F J
  call_row : Option CallAttempt → Message F J

pub record World (F J : Type 0) : Type 0 where
  pub registry : DeviceRegistry J
  pub db : Db F J
  pub messages : List (Message F J)
  -- the calls of `incident_observer`
  pub observed : List String

-- A step ends with the world, and with a value or an exception.
pub data Ended (A : Type 0) : Type 0 where
  done : A → Ended A
  failed : SessionError → Ended A

pub data Done : Type 0 where
  returned : Done

-- The local variables of `_handle_connection`; `last_sequence` is one more than the source's, whose
-- first value is -1.
pub record Session (J : Type 0) : Type 0 where
  pub writer : ℕ
  pub parser : Parser
  pub hello : Option (Hello J)
  pub next_sequence : ℕ

abbrev pub new_session : {J : Type 0} → ℕ → ℕ → Session J
new_session writer max_payload_bytes = record {
  writer = writer;
  parser = Parser.new max_payload_bytes;
  hello = none;
  next_sequence = 0;
}

-- What a packet finds when it is handled: the clock, `arming_state()`, and whether `drain` returns
-- in time.
pub record Moment : Type 0 where
  pub now : ℕ
  pub armed : Bool
  pub drained : Bool

-- The session and the world after some packets, and the exception that ended them, if one did.
pub record Progress (F J : Type 0) : Type 0 where
  pub session : Session J
  pub world : World F J
  pub stopped : Option SessionError

abbrev pub is_hello : PacketType → Bool
is_hello hello = true
is_hello other = false

abbrev pub is_frame : PacketType → Bool
is_frame frame = true
is_frame other = false

module _ {F J : Type 0} where
  abbrev pub broadcast : Message F J → World F J → World F J
  broadcast m w = record w { messages = w.messages ++ m ∷ [] }

  abbrev pub go_by :
      Option SessionError → (Session J → World F J → Progress F J) → Progress F J → Progress F J
  go_by none rest p = rest p.session p.world
  go_by (some e) rest p = p

  -- An exception ends the loop.
  abbrev pub go_on : (Session J → World F J → Progress F J) → Progress F J → Progress F J
  go_on rest p = go_by p.stopped rest p
