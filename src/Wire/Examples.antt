-- ===== src/Wire/Examples.antt =====
-- Runs of the protocol, and each theorem at an input.
use ignis_test.Prelude.{
  ◌↔◌, ℕ, ◌≡◌, refl, true, none, some, List, [], ◌∷◌, ◌++◌, arith, take, drop, codes, map,
}
use ignis_test.Wire.Bytes.{be, of_be, crc32}
use ignis_test.Wire.Packet.{
  hello, ping, type_code, type_of_code, Packet, ok, err, crc_mismatch, unknown_type, invalid_magic,
  fits, pack_header, encode_packet, unpack, check_header, read_header, buffer_exceeded,
}
use ignis_test.Wire.Parser.{new, read_next, drain_all, feed, feed_all}
use ignis_test.Wire.Chunks.{concat, feed_all-eq-drain_all}
use ignis_test.Wire.RoundTrip.{stream, encoded, IsSendable, feed_all-stream, feed-encode_packet}
use ignis_test.Wire.Bounds.{IsBounded, IsBounded-new, feed-IsBounded}
use ignis_test.Wire.SmallChunks.{feed_all-small_chunks, coalesced_refused}
use ignis_test.Wire.Frame.Sound.{IsFrame, decode_frame_payload_iff}
use ignis_test.Wire.Frame.{
  Json, encode_frame_payload, decode_frame_payload, is_broken_jpeg,
  decode_frame_payload-encode_frame_payload,
}

program : Unit {0}
unfolding be of_be crc32 type_code type_of_code fits pack_header encode_packet unpack check_header
    read_header read_next drain_all feed feed_all take drop
program = tt

abbrev greeting : Packet
greeting = record {
  packet_type = hello;
  flags = 0;
  sequence = 1;
  monotonic_ns = 10;
  payload = codes "{}";
}

abbrev poke : Packet
poke = record {
  packet_type = ping;
  flags = 0;
  sequence = 0x0102_0304_0506_0708;
  monotonic_ns = 9;
  payload = codes "abc";
}

abbrev both : List Packet
both = greeting ∷ poke ∷ []

-- The header is 32 bytes in network order.
network_order : take 8 (drop 12 (encoded poke)) ≡ 1 ∷ 2 ∷ 3 ∷ 4 ∷ 5 ∷ 6 ∷ 7 ∷ 8 ∷ []
unfolding program
network_order = refl

both_at_once : feed (new 100) (stream both) ≡ (new 100, ok both)
unfolding program
both_at_once = refl

wrong_crc : (feed (new 100) (pack_header poke ++ codes "abd")).1 ≡ err crc_mismatch
unfolding program
wrong_crc = refl

wrong_magic : (feed (new 100) (codes "NOPE" ++ drop 4 (encoded poke))).1 ≡ err invalid_magic
unfolding program
wrong_magic = refl

too_large : (feed (new 2) (encoded poke)).1 ≡ err buffer_exceeded
unfolding program
too_large = refl

type_99 :
    (feed (new 100) (take 5 (encoded poke) ++ (99 ∷ drop 6 (encoded poke)))).1 ≡ err unknown_type
unfolding program
type_99 = refl

both-IsSendable : (IsSendable 100 greeting) × ((IsSendable 100 poke) × Unit {0})
unfolding program
both-IsSendable = ((refl, omega arith), ((refl, omega arith), tt))

-- Chunks of 7, 20 and 42 bytes.
abbrev pieces : List (List ℕ)
pieces = take 7 (stream both) ∷ take 20 (drop 7 (stream both)) ∷ drop 20 (drop 7 (stream both)) ∷ []

feed_all-stream_example :
    feed_all pieces (new 100) ≡ record { parser = new 100; packets = both; stopped = none }
unfolding program
feed_all-stream_example = feed_all-stream 100 both pieces both-IsSendable refl refl

feed_all-eq-drain_all_example :
    drain_all (record { max_payload_bytes = 100; buffer = concat pieces; expected = none })
    ≡ ((feed_all pieces (new 100)).parser, ok (feed_all pieces (new 100)).packets)
unfolding program
feed_all-eq-drain_all_example = feed_all-eq-drain_all pieces (new 100) refl refl

abbrev small_pieces : List (List ℕ)
small_pieces =
    take 30 (stream both) ∷ take 30 (drop 30 (stream both)) ∷ drop 30 (drop 30 (stream both)) ∷ []

feed_all-small_chunks_example :
    feed_all small_pieces (new 32) ≡ record { parser = new 32; packets = both; stopped = none }
unfolding program
feed_all-small_chunks_example =
    feed_all-small_chunks 32 both small_pieces (omega arith)
      ((refl, omega arith), ((refl, omega arith), tt)) (omega arith) refl

feed-encode_packet_example : feed (new 3) (encoded poke) ≡ (new 3, ok (poke ∷ []))
unfolding program
feed-encode_packet_example = feed-encode_packet 3 poke (encoded poke) refl (omega arith)

feed-IsBounded_example : IsBounded 100 (feed (new 100) (take 40 (stream both))).0
feed-IsBounded_example = feed-IsBounded 100 (new 100) (take 40 (stream both)) (IsBounded-new 100)

-- Two packets of 3 and 2 bytes under a limit of 3.
coalesced_refused_example :
    (feed_all (map encoded both) (new 3)
      ≡ record { parser = new 3; packets = both; stopped = none })
    × (feed_all (stream both ∷ []) (new 3)
        ≡ record { parser = new 3; packets = []; stopped = some buffer_exceeded })
unfolding program
coalesced_refused_example =
    coalesced_refused 3 both ((refl, omega arith), ((refl, omega arith), tt)) (omega arith)

-- JSON that knows one text only.
abbrev only_braces : Json ℕ
only_braces = record { dumps = λ n. codes "{}"; loads = λ bytes. some 0; is_object = λ n. true }

abbrev jpeg : List ℕ
jpeg = 0xff ∷ 0xd8 ∷ 7 ∷ 0xff ∷ 0xd9 ∷ []

frame_program : Unit {0}
unfolding program encode_frame_payload decode_frame_payload is_broken_jpeg
frame_program = tt

decode_frame_payload-encode_frame_payload_example :
    decode_frame_payload only_braces (0 ∷ 0 ∷ 0 ∷ 2 ∷ codes "{}" ++ jpeg) ≡ ok (0, jpeg)
unfolding frame_program
decode_frame_payload-encode_frame_payload_example =
    decode_frame_payload-encode_frame_payload only_braces 0 jpeg
      (0 ∷ 0 ∷ 0 ∷ 2 ∷ codes "{}" ++ jpeg) refl refl (omega arith) refl refl

decode_frame_payload_iff_example :
    (decode_frame_payload only_braces (0 ∷ 0 ∷ 0 ∷ 2 ∷ codes "{}" ++ jpeg) ≡ ok (0, jpeg))
    ↔ IsFrame only_braces (0 ∷ 0 ∷ 0 ∷ 2 ∷ codes "{}" ++ jpeg) 0 jpeg
decode_frame_payload_iff_example =
    decode_frame_payload_iff only_braces (0 ∷ 0 ∷ 0 ∷ 2 ∷ codes "{}" ++ jpeg) jpeg 0
