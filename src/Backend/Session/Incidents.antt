-- ===== src/Backend/Session/Incidents.antt =====
-- What a connection does to the table of incidents: an update of a device, while the system is armed,
-- and nothing else. A predicate `P` of the table that such updates keep is kept by every packet.
use ignis_test.Prelude.{
  ℕ, ◌+◌, ◌≡◌, refl, Bool, true, false, Option, none, some, String, List, Bool-cases, Option-cases,
  inl, inr, str_eq, ltb,
}
use ignis_test.Prelude.Floats.{Floats}
use ignis_test.Wire.Packet
use ignis_test.Wire.Packet.{
  PacketType, Packet, hello, hello_ack, frame, detections, incident_update, incident_timeline_event,
  health_update, evidence_manifest, log_event, config_ack, ping, pong,
}
use ignis_test.Wire.Frame.{Json, packet_json, decode_frame_payload}
use ignis_test.Store.Schema.{Incident}
use ignis_test.Store.Devices.{Hello, update_health, upsert_device}
use ignis_test.Store.Incidents.{IncidentUpdate, get_incident, add_event, upsert_incident}
use ignis_test.Backend.Settings.{Settings}
use ignis_test.Backend.Registry.{DeviceConnection, DeviceRegistry, Sent, sent, raised}
use ignis_test.Backend.Session.{
  Greeting, Timeline, Values, World, Ended, done, failed, Done, Session, Moment, is_frame, is_hello,
}
use ignis_test.Backend.Session.Login.{
  acked, accept, check_token, check_greeting, greet, authenticate,
}
use ignis_test.Backend.Session.Dispatch.{
  dispatch, on_data, on_frame, on_incident, on_timeline, on_ping, with_data, added, ponged,
}
use ignis_test.Backend.Session.Loop.{handle, handle_by, welcomed, dispatched}

module _ {F J : Type 0} (floats : Floats F) (json : Json J) (values : Values F J)
    (P : List (Incident F) → Type 0) where
  incidents-added :
      (w : World F J) (now : ℕ) (id kind : String) (value : J) (at : Option ℕ) (day : Option String)
      → (added floats json values w (add_event now id kind "qnx" value at day w.db)).0.db.incidents
        ≡ w.db.incidents
  unfolding add_event
  incidents-added w now id kind value at day = elim (Option-cases (get_incident id w.db)) [
    | inl none_there ↦ rw none_there refl
    | inr (r, known) ↦ rw known refl
  ]

  on_timeline-keeps :
      (now : ℕ) (k : Packet) (value : J) (o : Option Timeline) (w : World F J)
      → P w.db.incidents
      → P (on_timeline floats json values now k value o w).0.db.incidents
  on_timeline-keeps now k value none w h = h
  on_timeline-keeps now k value (some t) w h =
      elim (Option-cases (get_incident t.incident_id w.db)) [
        | inl none_there ↦ rw none_there h
        | inr (r, known) ↦ rw known (
            rw
              (incidents-added w now t.incident_id t.event_type value (some k.monotonic_ns)
                t.wall_time_utc)
              h)
      ]

  on_ping-keeps :
      (now : ℕ) (k : Packet) (drained : Bool) (o : Option DeviceConnection) (w : World F J)
      → P w.db.incidents
      → P (on_ping floats json values now k drained o w).0.db.incidents
  on_ping-keeps now k drained none w h = h
  on_ping-keeps now k drained (some c) w h = by_sent _
    where
      by_sent : (r : DeviceRegistry J × Sent) → P (ponged floats json values w r).0.db.incidents
      by_sent (registry, sent b) = h
      by_sent (registry, raised e) = h

  on_frame-keeps :
      (k : Packet) (r : Packet.Result (J × List ℕ)) (w : World F J)
      → P w.db.incidents
      → P (on_frame floats json values k r w).0.db.incidents
  on_frame-keeps k (Packet.ok (metadata, jpeg)) w h = h
  on_frame-keeps k (Packet.err e) w h = h

  module _ (now : ℕ) (armed drained : Bool) (greeted : Hello J) (k : Packet) (w : World F J)
      (keeps : armed ≡ true
        → (t : ℕ) (u : IncidentUpdate F) → P w.db.incidents
        → P (upsert_incident floats t u greeted.device_id greeted.boot_id w.db).incidents) where
    on_incident-keeps :
        armed ≡ true
        → (o : Option (IncidentUpdate F)) → P w.db.incidents
        → P (on_incident floats json values now greeted o w).0.db.incidents
    on_incident-keeps on none h = h
    on_incident-keeps on (some u) h = keeps on now u h

    on_data-keeps :
        (t : PacketType) (value : J)
        → P w.db.incidents
        → P (on_data floats json values now armed drained greeted k t value w).0.db.incidents
    unfolding on_data update_health
    on_data-keeps incident_timeline_event value h =
        on_timeline-keeps now k value (values.timeline_of value) w h
    on_data-keeps ping value h =
        on_ping-keeps now k drained (w.registry.connections greeted.device_id) w h
    on_data-keeps incident_update value h = elim (Bool-cases armed) [
      | inl on ↦ rw on (on_incident-keeps on (values.incident_of value) h)
      | inr off ↦ rw off h
    ]
    on_data-keeps other value h = h

    with_data-keeps :
        (r : Packet.Result J)
        → P w.db.incidents
        → P (with_data floats json values now armed drained greeted k r w).0.db.incidents
    with_data-keeps (Packet.ok value) h = on_data-keeps k.packet_type value h
    with_data-keeps (Packet.err e) h = h

    pub dispatch-keeps :
        P w.db.incidents
        → P (dispatch floats json values now armed drained greeted k w).0.db.incidents
    unfolding dispatch
    dispatch-keeps h = elim (Bool-cases (is_frame k.packet_type)) [
      | inl live ↦ rw live (on_frame-keeps k (decode_frame_payload json k.payload) w h)
      | inr other ↦ rw other (with_data-keeps (packet_json json k) h)
    ]

module _ {F J : Type 0} (floats : Floats F) (json : Json J) (values : Values F J)
    (compare_digest : String → String → Option Bool) (settings : Settings)
    (P : List (Incident F) → Type 0) (w : World F J) where
  accept-keeps :
      (now writer : ℕ) (greeted : Hello J) (drained : Bool)
      → P w.db.incidents
      → P (accept json values compare_digest settings now writer greeted drained w).0.db.incidents
  unfolding accept upsert_device
  accept-keeps now writer greeted drained h = by_sent _ _ h
    where
      by_sent :
          (r : Sent) (v : World F J)
          → P v.db.incidents
          → P (acked json values compare_digest settings greeted r v).0.db.incidents
      by_sent (sent b) v p = p
      by_sent (raised e) v p = p

  check_token-keeps :
      (now writer : ℕ) (greeted : Hello J) (drained : Bool) (o : Option Bool)
      → P w.db.incidents
      → P
          (check_token json values compare_digest settings now writer greeted drained o
            w).0.db.incidents
  unfolding check_token
  check_token-keeps now writer greeted drained none h = h
  check_token-keeps now writer greeted drained (some false) h = h
  check_token-keeps now writer greeted drained (some true) h =
      accept-keeps now writer greeted drained h

  check_greeting-keeps :
      (now writer : ℕ) (drained : Bool) (o : Option (Greeting J))
      → P w.db.incidents
      → P (check_greeting json values compare_digest settings now writer drained o w).0.db.incidents
  unfolding check_greeting
  check_greeting-keeps now writer drained none h = h
  check_greeting-keeps now writer drained (some g) h = elim (Bool-cases g.is_version_one) [
    | inr other ↦ rw other h
    | inl one ↦ elim (Bool-cases (str_eq g.hello.device_id settings.expected_device_id)) [
      | inr unknown ↦ rw (one, unknown) h
      | inl same ↦
          rw (one, same)
            (check_token-keeps now writer g.hello drained
              (compare_digest g.device_token settings.device_token) h)
    ]
  ]

  greet-keeps :
      (now writer : ℕ) (drained : Bool) (r : Packet.Result J)
      → P w.db.incidents
      → P (greet json values compare_digest settings now writer drained r w).0.db.incidents
  greet-keeps now writer drained (Packet.ok value) h =
      check_greeting-keeps now writer drained (values.greeting_of value) h
  greet-keeps now writer drained (Packet.err e) h = h

  welcomed-keeps :
      (s : Session J) (r : World F J × Ended (Hello J))
      → P r.0.db.incidents
      → P (welcomed floats json values compare_digest settings s r).world.db.incidents
  welcomed-keeps s (v, done greeted) h = h
  welcomed-keeps s (v, failed e) h = h

  dispatched-keeps :
      (s : Session J) (r : World F J × Ended Done)
      → P r.0.db.incidents
      → P (dispatched floats json values compare_digest settings s r).world.db.incidents
  dispatched-keeps s (v, done d) h = h
  dispatched-keeps s (v, failed e) h = h

  module _
      (keeps : (t : ℕ) (u : IncidentUpdate F) (device_id boot_id : String)
        → P w.db.incidents
        → P (upsert_incident floats t u device_id boot_id w.db).incidents) where
    handle_by-keeps :
        (o : Option (Hello J)) (m : Moment) (k : Packet) (s : Session J)
        → P w.db.incidents
        → P (handle_by floats json values compare_digest settings o m k s w).world.db.incidents
    unfolding handle_by authenticate
    handle_by-keeps none m k s h = elim (Bool-cases (is_hello k.packet_type)) [
      | inr other ↦ rw other h
      | inl greeting ↦
          rw greeting
            (welcomed-keeps s _ (greet-keeps m.now s.writer m.drained (packet_json json k) h))
    ]
    handle_by-keeps (some greeted) m k s h = dispatched-keeps s _ (
        dispatch-keeps floats json values P m.now m.armed m.drained greeted k w
          (λ on t u p. keeps t u greeted.device_id greeted.boot_id p) h)

    pub handle-keeps :
        (m : Moment) (k : Packet) (s : Session J)
        → P w.db.incidents
        → P (handle floats json values compare_digest settings m k s w).world.db.incidents
    unfolding handle
    handle-keeps m k s h = elim (Bool-cases (ltb k.sequence s.next_sequence)) [
      | inl old ↦ rw old h
      | inr new ↦
          rw new (handle_by-keeps s.hello m k (record s { next_sequence = k.sequence + 1 }) h)
    ]
