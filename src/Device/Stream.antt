-- ===== src/Device/Stream.antt =====
-- poc/pi/ignis_poc/edge.py: `BackendStream`, over `encode_packet` of poc/pi/ignis_poc/protocol.py. What
-- the sockets do is an argument: `Dial` is how `create_connection`, `sendall` and `receive_ack` go in
-- `connect`, and an `OSError` of `sendall` is its message.
pub mod Order
pub mod Packets
use ignis_test.Prelude.{
  ℕ, ◌+◌, ◌^◌, ◌≤◌, ◌<◌, ◌≡◌, refl, ◌∙◌, sym, Bool, true, false, ◌&&◌, Option, none, some, List, [],
  ◌∷◌, ◌++◌, String, str_eq, ltb, if◌then◌else◌, codes, length, All, All-append, arith,
}
use ignis_test.Wire.Bytes.{be, crc32}
use ignis_test.Wire.Packet
use ignis_test.Wire.Packet.{
  PacketType, hello, type_code, Packet, ok, err, WireError, field_out_of_range, invalid_json,
  pack_header, fits,
}
use ignis_test.Wire.Parser.{Parser, new, feed}
use ignis_test.Wire.RoundTrip.{feed-encode_packet}

-- `encode_packet` of the device, whose flags are 0; `payload` is the JSON text or the bytes.
unfoldable pub encode_packet : PacketType → List ℕ → ℕ → ℕ → Packet.Result (List ℕ)
encode_packet packet_type payload sequence monotonic_ns =
    if ltb (length payload) (2 ^ 32) && (ltb sequence (2 ^ 64) && ltb monotonic_ns (2 ^ 64))
    then ok (
        (codes "IGNS"
          ++ (be 1 1
              ++ (be 1 (type_code packet_type)
                  ++ (be 2 0
                      ++ (be 4 (length payload)
                          ++ (be 8 sequence ++ (be 8 monotonic_ns ++ be 4 (crc32 payload))))))))
        ++ payload)
    else err field_out_of_range

abbrev pub packet_of : PacketType → List ℕ → ℕ → ℕ → Packet
packet_of packet_type payload sequence monotonic_ns = record {
  packet_type = packet_type;
  flags = 0;
  sequence = sequence;
  monotonic_ns = monotonic_ns;
  payload = payload;
}

same_encoding :
    (t : PacketType) (payload : List ℕ) (sequence monotonic_ns : ℕ)
    → encode_packet t payload sequence monotonic_ns
      ≡ Packet.encode_packet (packet_of t payload sequence monotonic_ns)
unfolding encode_packet Packet.encode_packet pack_header fits
same_encoding t payload sequence monotonic_ns = refl

-- What the device encodes is parsed by a new parser of the backend as the packet that was meant, if
-- its payload is within the backend's limit.
pub feed-encode_packet_device :
    (limit : ℕ) (t : PacketType) (payload : List ℕ) (sequence monotonic_ns : ℕ) (bytes : List ℕ)
    → encode_packet t payload sequence monotonic_ns ≡ ok bytes
    → length payload ≤ limit
    → feed (new limit) bytes ≡ (new limit, ok (packet_of t payload sequence monotonic_ns ∷ []))
feed-encode_packet_device limit t payload sequence monotonic_ns bytes e l =
    feed-encode_packet limit (packet_of t payload sequence monotonic_ns) bytes
      (sym (same_encoding t payload sequence monotonic_ns) ∙ e) l

-- `sequence` is the next number, and `sent` what `sendall` was given, on this connection or an earlier.
pub record BackendStream : Type 0 where
  pub is_connected : Bool
  pub sequence : ℕ
  pub next_reconnect : ℕ
  pub last_error : String
  pub sent : List Packet

abbrev pub new_stream : BackendStream
new_stream = record {
  is_connected = false;
  sequence = 1;
  next_reconnect = 0;
  last_error = "";
  sent = [];
}

pub data Dial : Type 0 where
  no_connection no_ack : String → Dial
  unreadable_ack : Dial
  accepted : Dial

-- What a call ends with: its Boolean, or an exception that it does not catch, the `struct.error` of
-- `encode_packet` or the `ValueError` of `json.loads` on what was to be the HELLO_ACK's text.
pub data Outcome : Type 0 where
  returned : Bool → Outcome
  raised : WireError → Outcome

-- 2.0 seconds, in the clock's nanoseconds
abbrev reconnect_delay : ℕ
reconnect_delay = 2_000_000_000

abbrev pub close : BackendStream → BackendStream
close s = record s { is_connected = false }

-- The `except` clauses; `connect` keeps an equal message, which is the same.
abbrev pub failing : ℕ → String → BackendStream → BackendStream
failing now message s = record (close s) {
  next_reconnect = now + reconnect_delay;
  last_error = message;
}

abbrev pub by_encoding :
    PacketType
    → List ℕ
    → ℕ
    → BackendStream
    → Packet.Result (List ℕ)
    → BackendStream × Option WireError
by_encoding t payload now s (err e) = (s, some e)
by_encoding t payload now s (ok bytes) = (
  record s { sequence = s.sequence + 1; sent = s.sent ++ packet_of t payload s.sequence now ∷ [] },
  none,
)

-- `self.packet(…)` as the argument of `sendall`
unfoldable pub pass_on : PacketType → List ℕ → ℕ → BackendStream → BackendStream × Option WireError
pass_on t payload now s = by_encoding t payload now s (encode_packet t payload s.sequence now)

abbrev pub greeted : ℕ → Option String → BackendStream × Option WireError → BackendStream × Outcome
greeted now o (s, some e) = (s, raised e)
greeted now (some message) (s, none) = (failing now message s, returned false)
greeted now none (s, none) = (record s { is_connected = true; last_error = "" }, returned true)

abbrev pub misled : BackendStream × Option WireError → BackendStream × Outcome
misled (s, some e) = (s, raised e)
misled (s, none) = (s, raised invalid_json)

abbrev pub dialled : Dial → List ℕ → ℕ → BackendStream → BackendStream × Outcome
dialled (no_connection message) payload now s = (failing now message s, returned false)
dialled (no_ack message) payload now s = greeted now (some message) (pass_on hello payload now s)
dialled unreadable_ack payload now s = misled (pass_on hello payload now s)
dialled accepted payload now s = greeted now none (pass_on hello payload now s)

unfoldable pub connect : Dial → List ℕ → ℕ → BackendStream → BackendStream × Outcome
connect dial payload now s =
    if ltb now s.next_reconnect then (s, returned false) else dialled dial payload now s

abbrev pub passed : ℕ → Option String → BackendStream × Option WireError → BackendStream × Outcome
passed now o (s, some e) = (s, raised e)
passed now (some message) (s, none) = (failing now message s, returned false)
passed now none (s, none) = (s, returned true)

abbrev pub send_if :
    PacketType → List ℕ → ℕ → Option String → BackendStream × Outcome → BackendStream × Outcome
send_if t payload now broken (s, raised e) = (s, raised e)
send_if t payload now broken (s, returned false) = (s, returned false)
send_if t payload now broken (s, returned true) = passed now broken (pass_on t payload now s)

-- `send`: one clock reading stands for those of the call.
unfoldable pub send :
    Dial
    → List ℕ
    → PacketType
    → List ℕ
    → ℕ
    → Option String
    → BackendStream
    → BackendStream × Outcome
unfolding connect pass_on
send dial greeting t payload now broken s =
    send_if t payload now broken
      (if s.is_connected then (s, returned true) else connect dial greeting now s)
