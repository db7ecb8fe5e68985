-- ===== src/Backend/Session/Login.antt =====
-- backend/app/tcp_server.py: `_authenticate`.
use ignis_test.Prelude.{
  ℕ, Bool, true, false, not, Option, none, some, String, str_eq, if◌then◌else◌,
}
use ignis_test.Wire.Packet
use ignis_test.Wire.Packet.{
  PacketType, hello, hello_ack, frame, detections, incident_update, incident_timeline_event,
  health_update, evidence_manifest, log_event, config_ack, ping, pong, WireError,
  field_out_of_range, Packet,
}
use ignis_test.Wire.Frame.{Json, packet_json}
use ignis_test.Store.Devices.{Hello, upsert_device}
use ignis_test.Backend.Settings.{Settings}
use ignis_test.Backend.Registry.{connection, Sent, sent, raised, register, send}
use ignis_test.Backend.Session.{
  Greeting, Values, hello_incomplete, version_mismatch, unknown_device, authentication_failed,
  digest_type_error, wire, qnx_connected, World, Ended, done, failed, broadcast,
}

module _ {F J : Type 0} (json : Json J) (values : Values F J)
    (compare_digest : String → String → Option Bool) (settings : Settings) where
  abbrev pub acked : Hello J → Sent → World F J → World F J × Ended (Hello J)
  acked greeted (sent b) v = (broadcast (qnx_connected greeted.device_id true) v, done greeted)
  acked greeted (raised e) v = (v, failed (wire e))

  -- From `register` on.
  unfoldable pub accept : ℕ → ℕ → Hello J → Bool → World F J → World F J × Ended (Hello J)
  accept now writer greeted drained w =
      let c = connection greeted.device_id greeted.boot_id writer in
      let (registry, result) = send drained now hello_ack values.ack c (register c w.registry) in
      acked greeted result (record w {
        registry = registry;
        db = upsert_device now greeted true values.no_health w.db;
      })

  unfoldable pub check_token :
      ℕ → ℕ → Hello J → Bool → Option Bool → World F J → World F J × Ended (Hello J)
  unfolding accept
  check_token now writer greeted drained none w = (w, failed digest_type_error)
  check_token now writer greeted drained (some false) w = (w, failed authentication_failed)
  check_token now writer greeted drained (some true) w = accept now writer greeted drained w

  unfoldable pub check_greeting :
      ℕ → ℕ → Bool → Option (Greeting J) → World F J → World F J × Ended (Hello J)
  unfolding check_token
  check_greeting now writer drained none w = (w, failed hello_incomplete)
  check_greeting now writer drained (some g) w =
      if not g.is_version_one
      then (w, failed version_mismatch)
      else if not (str_eq g.hello.device_id settings.expected_device_id)
      then (w, failed unknown_device)
      else check_token now writer g.hello drained
          (compare_digest g.device_token settings.device_token) w

  abbrev pub greet : ℕ → ℕ → Bool → Packet.Result J → World F J → World F J × Ended (Hello J)
  greet now writer drained (Packet.err e) w = (w, failed (wire e))
  greet now writer drained (Packet.ok value) w =
      check_greeting now writer drained (values.greeting_of value) w

  -- `_authenticate`
  unfoldable pub authenticate : ℕ → ℕ → Bool → Packet → World F J → World F J × Ended (Hello J)
  unfolding check_greeting
  authenticate now writer drained k w = greet now writer drained (packet_json json k) w
