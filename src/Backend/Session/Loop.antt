-- ===== src/Backend/Session/Loop.antt =====
-- backend/app/tcp_server.py: `_handle_connection`.
use ignis_test.Prelude.{
  ℕ, ◌+◌, Bool, true, false, Option, none, some, List, [], ◌∷◌, String, ltb, if◌then◌else◌,
}
use ignis_test.Prelude.Floats.{Floats}
use ignis_test.Wire.Packet
use ignis_test.Wire.Packet.{
  PacketType, hello, hello_ack, frame, detections, incident_update, incident_timeline_event,
  health_update, evidence_manifest, log_event, config_ack, ping, pong, WireError,
  field_out_of_range, Packet,
}
use ignis_test.Wire.Parser.{Parser, feed}
use ignis_test.Wire.Frame.{Json}
use ignis_test.Store.Devices.{Hello, mark_device_disconnected}
use ignis_test.Backend.Settings.{Settings}
use ignis_test.Backend.Registry.{DeviceRegistry, unregister, close_writer}
use ignis_test.Backend.Session.{
  Values, SessionError, hello_first, digest_type_error, wire, out_of_order, protocol_error,
  qnx_connected, World, Ended, done, failed, Done, Session, Moment, Progress, broadcast, go_on,
  is_hello,
}
use ignis_test.Backend.Session.Login.{authenticate}
use ignis_test.Backend.Session.Dispatch.{dispatch}

module _ {F J : Type 0} (floats : Floats F) (json : Json J) (values : Values F J)
    (compare_digest : String → String → Option Bool) (settings : Settings) where
  abbrev pub welcomed : Session J → World F J × Ended (Hello J) → Progress F J
  welcomed s (w, done greeted) = record {
    session = record s { hello = some greeted };
    world = w;
    stopped = none;
  }
  welcomed s (w, failed e) = record { session = s; world = w; stopped = some e }

  abbrev pub dispatched : Session J → World F J × Ended Done → Progress F J
  dispatched s (w, done r) = record { session = s; world = w; stopped = none }
  dispatched s (w, failed e) = record { session = s; world = w; stopped = some e }

  unfoldable pub handle_by :
      Option (Hello J) → Moment → Packet → Session J → World F J → Progress F J
  unfolding authenticate dispatch
  handle_by none m k s w =
      if is_hello k.packet_type
      then welcomed s
          (authenticate json values compare_digest settings m.now s.writer m.drained k w)
      else record { session = s; world = w; stopped = some hello_first }
  handle_by (some greeted) m k s w =
      dispatched s (dispatch floats json values m.now m.armed m.drained greeted k w)

  -- The body of the loop over the packets of a chunk.
  unfoldable pub handle : Moment → Packet → Session J → World F J → Progress F J
  unfolding handle_by
  handle m k s w =
      if ltb k.sequence s.next_sequence
      then record { session = s; world = broadcast (out_of_order k.sequence) w; stopped = none }
      else handle_by s.hello m k (record s { next_sequence = k.sequence + 1 }) w

  -- A packet that is handled has a sequence of its own, so the moments are a function of the packet.
  unfoldable pub handle_all : (Packet → Moment) → List Packet → Session J → World F J → Progress F J
  unfolding handle
  handle_all at [] s w = record { session = s; world = w; stopped = none }
  handle_all at (k ∷ ks) s w = go_on (handle_all at ks) (handle (at k) k s w)

  abbrev pub fed :
      (Packet → Moment)
      → Session J
      → World F J
      → Parser × Packet.Result (List Packet)
      → Progress F J
  fed at s w (parser, Packet.ok ks) = handle_all at ks (record s { parser = parser }) w
  fed at s w (parser, Packet.err e) = record {
    session = record s { parser = parser };
    world = w;
    stopped = some (wire e);
  }

  -- One read of the connection.
  unfoldable pub read_chunk : (Packet → Moment) → List ℕ → Session J → World F J → Progress F J
  unfolding handle_all
  read_chunk at chunk s w = fed at s w (feed s.parser chunk)

  unfoldable pub read_chunks :
      (Packet → Moment) → List (List ℕ) → Session J → World F J → Progress F J
  unfolding read_chunk
  read_chunks at [] s w = record { session = s; world = w; stopped = none }
  read_chunks at (chunk ∷ chunks) s w = go_on (read_chunks at chunks) (read_chunk at chunk s w)

abbrev pub is_reported : SessionError → Bool
is_reported digest_type_error = false
is_reported (wire field_out_of_range) = false
is_reported e = true

module _ {F J : Type 0} where
  -- The `except` clause of the protocol's errors; those of hmac and struct are only logged.
  abbrev pub report_error : Option SessionError → World F J → World F J
  report_error none w = w
  report_error (some e) w = if is_reported e then broadcast (protocol_error e) w else w

  abbrev pub gone_offline : ℕ → Hello J → DeviceRegistry J × Bool → World F J → World F J
  gone_offline now greeted (registry, false) w = record w { registry = registry }
  gone_offline now greeted (registry, true) w =
      broadcast (qnx_connected greeted.device_id false) (record w {
        registry = registry;
        db = mark_device_disconnected now greeted.device_id greeted.boot_id w.db;
      })

  abbrev pub leave : ℕ → ℕ → Option (Hello J) → World F J → World F J
  leave now writer none w = w
  leave now writer (some greeted) w =
      gone_offline now greeted (unregister greeted.device_id writer w.registry) w

  -- The `except` and `finally` clauses of `_handle_connection`.
  unfoldable pub finish : ℕ → Progress F J → World F J
  finish now p =
      let w = leave now p.session.writer p.session.hello (report_error p.stopped p.world) in
      record w { registry = close_writer p.session.writer w.registry }
