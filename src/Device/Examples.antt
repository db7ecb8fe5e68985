-- ===== src/Device/Examples.antt =====
-- A device whose connection breaks.
use ignis_test.Prelude.{
  ℕ, Bool, Option, List, ◌≡◌, refl, none, some, [], ◌∷◌, ◌++◌, ◌==◌, list_eq, if◌then◌else◌, map,
  arith, take, drop,
}
use ignis_test.Wire.Bytes.{be}
use ignis_test.Wire.Packet
use ignis_test.Wire.Packet.{Packet, ping, hello_ack, detections, ok, fits}
use ignis_test.Wire.Parser.{new, feed}
use ignis_test.Wire.Packet.{pack_header}
use ignis_test.Wire.RoundTrip.{encoded}
use ignis_test.Device.Stream.{
  BackendStream, new_stream, accepted, encode_packet, packet_of, pass_on, connect, send,
  feed-encode_packet_device,
}
use ignis_test.Device.Ack.{Socket, receive_ack}
use ignis_test.Device.Ack.Handshake.{Accepts, receive_ack-encode_packet}
use ignis_test.Device.Stream.Order.{IsOrdered, send-IsOrdered}

program : Unit {0}
unfolding be take drop fits Packet.encode_packet encode_packet pack_header pass_on connect send
program = tt

abbrev started : BackendStream
started = (send accepted [] detections (1 ∷ []) 10 none new_stream).0

abbrev broken : BackendStream
broken = (send accepted [] detections (2 ∷ []) 20 (some "reset") started).0

abbrev waiting : BackendStream
waiting = (send accepted [] detections (3 ∷ []) 30 none broken).0

abbrev again : BackendStream
again = (send accepted [] detections (4 ∷ []) 3_000_000_000 none waiting).0

-- The HELLO is sent first, and again after the connection broke and the delay is over.
numbers : map (λ (k : Packet). k.sequence) again.sent ≡ 1 ∷ 2 ∷ 3 ∷ 4 ∷ 5 ∷ []
unfolding program
numbers = refl

send-IsOrdered_example : IsOrdered again
unfolding program
send-IsOrdered_example =
    send-IsOrdered accepted [] detections (4 ∷ []) 3_000_000_000 none waiting (omega arith)

abbrev poke : Packet
poke = packet_of ping (7 ∷ []) 3 4

feed-encode_packet_device_example : feed (new 10) (encoded poke) ≡ (new 10, ok (poke ∷ []))
unfolding program
feed-encode_packet_device_example =
    feed-encode_packet_device 10 ping (7 ∷ []) 3 4 (encoded poke) refl (omega arith)

-- A HELLO_ACK whose text the reader of JSON takes as a 1, in two pieces, with two bytes behind it
abbrev ack : Packet
ack = packet_of hello_ack (9 ∷ []) 3 4

abbrev pieces : Socket
pieces = take 5 (encoded ack) ∷ (drop 5 (encoded ack) ++ 6 ∷ 7 ∷ []) ∷ []

abbrev read_text : List ℕ → Option ℕ
read_text text = if list_eq text (9 ∷ []) then some 1 else none

abbrev says_so : ℕ → Bool
says_so value = value == 1

receive_ack-encode_packet_example :
    Accepts read_text says_so 1 (6 ∷ 7 ∷ []) (receive_ack read_text says_so pieces)
unfolding program
receive_ack-encode_packet_example =
    receive_ack-encode_packet read_text says_so ack (encoded ack) (6 ∷ 7 ∷ []) 1 pieces refl refl
      refl refl (refl, (λ e. cc, (λ e. cc, tt)))
