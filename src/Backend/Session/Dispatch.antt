-- ===== src/Backend/Session/Dispatch.antt =====
-- backend/app/tcp_server.py: `_dispatch`.
use ignis_test.Prelude.{ℕ, Bool, Option, none, some, List, [], ◌∷◌, ◌++◌, if◌then◌else◌}
use ignis_test.Prelude.Floats.{Floats}
use ignis_test.Wire.Packet
use ignis_test.Wire.Packet.{
  PacketType, hello, hello_ack, frame, detections, incident_update, incident_timeline_event,
  health_update, evidence_manifest, log_event, config_ack, ping, pong, WireError,
  field_out_of_range, Packet,
}
use ignis_test.Wire.Frame.{Json, packet_json, decode_frame_payload}
use ignis_test.Store.Schema
use ignis_test.Store.Schema.{Incident, Event, Db}
use ignis_test.Store.Devices.{Hello, update_health}
use ignis_test.Store.Incidents.{IncidentUpdate, upsert_incident, get_incident, add_event}
use ignis_test.Backend.Registry.{
  DeviceConnection, DeviceRegistry, LiveFrame, Sent, sent, raised, send,
}
use ignis_test.Backend.Session.{
  Timeline, Values, invalid_incident, missing_incident_id, unknown_incident, unexpected_packet_type,
  wire, live_frame, live_detections, configuration_update, health, incident, timeline_event,
  device_log, World, Ended, done, failed, Done, returned, broadcast, is_frame,
}

module _ {F J : Type 0} (floats : Floats F) (json : Json J) (values : Values F J) where
  abbrev pub on_frame : Packet → Packet.Result (J × List ℕ) → World F J → World F J × Ended Done
  on_frame k (Packet.err e) w = (w, failed (wire e))
  on_frame k (Packet.ok (metadata, jpeg)) w =
      let f : LiveFrame J = record {
        metadata = metadata;
        monotonic_ns = k.monotonic_ns;
        sequence = k.sequence;
        jpeg = jpeg;
      } in
      (
        broadcast (live_frame f)
            (record w { registry = record (w.registry) { latest_frame = some f } }),
        done returned,
      )

  abbrev pub on_incident :
      ℕ → Hello J → Option (IncidentUpdate F) → World F J → World F J × Ended Done
  on_incident now greeted none w = (w, failed invalid_incident)
  on_incident now greeted (some u) w =
      let db = upsert_incident floats now u greeted.device_id greeted.boot_id w.db in
      let shown = broadcast (incident (get_incident u.incident_id db)) (record w { db = db }) in
      (record shown { observed = w.observed ++ u.incident_id ∷ [] }, done returned)

  abbrev pub added : World F J → Schema.Result (Db F J × Event J) → World F J × Ended Done
  added w (Schema.ok (db, event)) =
      (broadcast (timeline_event event) (record w { db = db }), done returned)
  added w (Schema.err e) = (w, failed unknown_incident)

  -- `add_event` and the broadcast; its foreign key holds, as the incident was just read.
  abbrev pub add_timeline :
      ℕ → Packet → Timeline → J → Option (Incident F) → World F J → World F J × Ended Done
  add_timeline now k t value none w = (w, failed unknown_incident)
  add_timeline now k t value (some r) w = added w (
      add_event now t.incident_id t.event_type "qnx" value (some k.monotonic_ns) t.wall_time_utc
        w.db)

  abbrev pub on_timeline : ℕ → Packet → J → Option Timeline → World F J → World F J × Ended Done
  on_timeline now k value none w = (w, failed missing_incident_id)
  on_timeline now k value (some t) w =
      add_timeline now k t value (get_incident t.incident_id w.db) w

  abbrev pub on_health : ℕ → Hello J → J → World F J → World F J × Ended Done
  on_health now greeted value w =
      let h = values.with_device greeted.device_id value in
      (
        broadcast (health h) (record w {
          registry = record (w.registry) { latest_health = some h };
          db = update_health now greeted.device_id h w.db;
        }),
        done returned,
      )

  abbrev pub ponged : World F J → DeviceRegistry J × Sent → World F J × Ended Done
  ponged w (registry, sent b) = (record w { registry = registry }, done returned)
  ponged w (registry, raised e) = (record w { registry = registry }, failed (wire e))

  abbrev pub on_ping :
      ℕ → Packet → Bool → Option DeviceConnection → World F J → World F J × Ended Done
  on_ping now k drained none w = (w, done returned)
  on_ping now k drained (some c) w =
      ponged w (send drained now pong (values.pong_to k.sequence) c w.registry)

  -- The branches behind `data = packet.json()`.
  unfoldable pub on_data :
      ℕ → Bool → Bool → Hello J → Packet → PacketType → J → World F J → World F J × Ended Done
  on_data now armed drained greeted k detections value w = (
    broadcast (live_detections value)
        (record w { registry = record (w.registry) { latest_detections = some value } }),
    done returned,
  )
  on_data now armed drained greeted k incident_update value w =
      if armed then on_incident now greeted (values.incident_of value) w else (w, done returned)
  on_data now armed drained greeted k incident_timeline_event value w =
      on_timeline now k value (values.timeline_of value) w
  on_data now armed drained greeted k health_update value w = on_health now greeted value w
  on_data now armed drained greeted k config_ack value w =
      (broadcast (configuration_update value) w, done returned)
  on_data now armed drained greeted k ping value w =
      on_ping now k drained (w.registry.connections greeted.device_id) w
  on_data now armed drained greeted k evidence_manifest value w =
      (broadcast (device_log evidence_manifest value) w, done returned)
  on_data now armed drained greeted k log_event value w =
      (broadcast (device_log log_event value) w, done returned)
  on_data now armed drained greeted k other value w = (w, failed unexpected_packet_type)

  abbrev pub with_data :
      ℕ → Bool → Bool → Hello J → Packet → Packet.Result J → World F J → World F J × Ended Done
  with_data now armed drained greeted k (Packet.err e) w = (w, failed (wire e))
  with_data now armed drained greeted k (Packet.ok value) w =
      on_data now armed drained greeted k k.packet_type value w

  -- `_dispatch`
  unfoldable pub dispatch : ℕ → Bool → Bool → Hello J → Packet → World F J → World F J × Ended Done
  unfolding on_data
  dispatch now armed drained greeted k w =
      if is_frame k.packet_type
      then on_frame k (decode_frame_payload json k.payload) w
      else with_data now armed drained greeted k (packet_json json k) w
