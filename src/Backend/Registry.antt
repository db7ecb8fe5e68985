-- ===== src/Backend/Registry.antt =====
-- backend/app/device_registry.py: `DeviceConnection` and `DeviceRegistry`. A writer is a number, as
-- `is` compares writers by identity; the registry also holds which writers are closed and what was
-- written, which are the state of the writers. Whether `drain` returns in time is an argument.
pub mod Turns
use ignis_test.Prelude.{
  ℕ, ◌+◌, Bool, true, false, not, ◌&&◌, Option, none, some, List, [], ◌∷◌, ◌++◌, String, str_eq,
  ◌==◌, if◌then◌else◌,
}
use ignis_test.Wire.Packet.{PacketType, Packet, Result, ok, err, WireError, encode_packet}

pub record DeviceConnection : Type 0 where
  pub device_id : String
  pub boot_id : String
  pub writer : ℕ
  pub outbound_sequence : ℕ

-- `DeviceConnection(device_id, boot_id, writer)`
abbrev pub connection : String → String → ℕ → DeviceConnection
connection device_id boot_id writer = record {
  device_id = device_id;
  boot_id = boot_id;
  writer = writer;
  outbound_sequence = 1;
}

-- A frame as it is kept and broadcast; the JPEG before it is written in base64.
pub record LiveFrame (J : Type 0) : Type 0 where
  pub metadata : J
  pub monotonic_ns : ℕ
  pub sequence : ℕ
  pub jpeg : List ℕ

pub record DeviceRegistry (J : Type 0) : Type 0 where
  pub connections : String → Option DeviceConnection
  pub latest_frame : Option (LiveFrame J)
  pub latest_detections : Option J
  pub latest_health : Option J
  pub is_closing : ℕ → Bool
  pub written : List (ℕ × List ℕ)

-- What `send` ends with: its Boolean, or the exception of `encode_packet`.
pub data Sent : Type 0 where
  sent : Bool → Sent
  raised : WireError → Sent

abbrev pub reply_of : Sent → Option String
reply_of (sent true) = some "queued_to_device"
reply_of (sent false) = some "delivery_failed"
reply_of (raised e) = none

module _ {J : Type 0} where
  abbrev pub empty_registry : DeviceRegistry J
  empty_registry = record {
    connections = λ id. none;
    latest_frame = none;
    latest_detections = none;
    latest_health = none;
    is_closing = λ w. false;
    written = [];
  }

  abbrev pub put : String → Option DeviceConnection → DeviceRegistry J → DeviceRegistry J
  put id o r = record r { connections = λ k. if str_eq id k then o else r.connections k }

  unfoldable pub close_writer : ℕ → DeviceRegistry J → DeviceRegistry J
  close_writer w r = record r { is_closing = λ v. if w == v then true else r.is_closing v }

  -- `if old and old.writer is not connection.writer and not old.writer.is_closing(): …`
  unfoldable pub close_old : Option DeviceConnection → ℕ → DeviceRegistry J → DeviceRegistry J
  unfolding close_writer
  close_old none w r = r
  close_old (some old) w r =
      if not (old.writer == w) && not (r.is_closing old.writer)
      then close_writer old.writer r
      else r

  unfoldable pub register : DeviceConnection → DeviceRegistry J → DeviceRegistry J
  unfolding close_old
  register c r = close_old (r.connections c.device_id) c.writer (put c.device_id (some c) r)

  unfoldable pub remove_if :
      Option DeviceConnection → String → ℕ → DeviceRegistry J → DeviceRegistry J × Bool
  remove_if none id w r = (r, false)
  remove_if (some current) id w r =
      if current.writer == w then (put id none r, true) else (r, false)

  unfoldable pub unregister : String → ℕ → DeviceRegistry J → DeviceRegistry J × Bool
  unfolding remove_if
  unregister id w r = remove_if (r.connections id) id w r

  abbrev write :
      Bool → DeviceConnection → Result (List ℕ) → DeviceRegistry J → DeviceRegistry J × Sent
  write drained c (err e) r = (r, raised e)
  write drained c (ok bytes) r =
      let next =
        put c.device_id (some (record c { outbound_sequence = c.outbound_sequence + 1 })) r in
      (record next { written = r.written ++ (c.writer, bytes) ∷ [] }, sent drained)

  -- `DeviceConnection.send` on the connection that is registered for its device, which every caller
  -- passes; `payload` is the JSON text.
  unfoldable pub send :
      Bool → ℕ → PacketType → List ℕ → DeviceConnection → DeviceRegistry J → DeviceRegistry J × Sent
  send drained now packet_type payload c r =
      if r.is_closing c.writer
      then (r, sent false)
      else write drained c
          (encode_packet (record {
            packet_type = packet_type;
            flags = 0;
            sequence = c.outbound_sequence;
            monotonic_ns = now;
            payload = payload;
          }))
          r

  abbrev control_of :
      Bool
      → ℕ
      → PacketType
      → List ℕ
      → Option DeviceConnection
      → DeviceRegistry J
      → DeviceRegistry J × Option String
  control_of drained now packet_type payload none r = (r, some "device_offline")
  control_of drained now packet_type payload (some c) r =
      let (after, result) = send drained now packet_type payload c r in (after, reply_of result)

  -- `none` where `encode_packet` raises
  unfoldable pub send_control :
      Bool → ℕ → String → PacketType → List ℕ → DeviceRegistry J → DeviceRegistry J × Option String
  unfolding send
  send_control drained now id packet_type payload r =
      control_of drained now packet_type payload (r.connections id) r
