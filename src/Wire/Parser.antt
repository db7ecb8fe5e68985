-- ===== src/Wire/Parser.antt =====
-- backend/app/protocol.py: `PacketParser`. A call of `feed` returns the parser after it, which
-- `self` is also when it raises, and the packets or the error.
use ignis_test.Prelude.{
  ℕ, zero, suc, ◌+◌, Option, none, some, List, [], ◌∷◌, ◌++◌, ltb, ◌==◌, if◌then◌else◌, length,
  take, drop,
}
use ignis_test.Wire.Bytes.{crc32}
use ignis_test.Wire.Packet.{
  WireError, buffer_exceeded, crc_mismatch, out_of_fuel, Result, ok, err, Packet, Header,
  header_size, read_header,
}

pub record Parser : Type 0 where
  pub max_payload_bytes : ℕ
  pub buffer : List ℕ
  pub expected : Option Header

-- `PacketParser(max_payload_bytes)`
abbrev pub new : ℕ → Parser
new max_payload_bytes = record {
  max_payload_bytes = max_payload_bytes;
  buffer = [];
  expected = none;
}

-- How one round of the `while True` in `feed` ends: at a `break`, at a `raise`, or with a packet.
pub data Step : Type 0 where
  wait : Step
  fail : WireError → Step
  emit : Packet → Step

abbrev packet_of : Header → List ℕ → Packet
packet_of h payload = record {
  packet_type = h.packet_type;
  flags = h.flags;
  sequence = h.sequence;
  monotonic_ns = h.monotonic_ns;
  payload = payload;
}

-- The second half of a round: `self._expected` is `h`.
unfoldable pub read_payload : Header → Parser → Parser × Step
read_payload h p =
    if ltb (length p.buffer) h.length then (record p { expected = some h }, wait) else (
      record p { buffer = drop h.length p.buffer; expected = none },
      if crc32 (take h.length p.buffer) == h.crc
          then emit (packet_of h (take h.length p.buffer))
          else fail crc_mismatch,
    )

unfoldable pub with_header : Result Header → Parser → Parser × Step
with_header (ok h) p = read_payload h p
with_header (err e) p = (p, fail e)

-- The first half: the header leaves the buffer before it is checked.
unfoldable pub read_first : Parser → Parser × Step
unfolding with_header
read_first p =
    if ltb (length p.buffer) header_size
    then (p, wait)
    else with_header (read_header p.max_payload_bytes (take header_size p.buffer))
        (record p { buffer = drop header_size p.buffer })

abbrev pub read_by : Option Header → Parser → Parser × Step
read_by none p = read_first p
read_by (some h) p = read_payload h p

-- One round of the loop.
unfoldable pub read_next : Parser → Parser × Step
unfolding read_first read_payload
read_next p = read_by p.expected p

abbrev pub prepend : Packet → Parser × Result (List Packet) → Parser × Result (List Packet)
prepend k (p, ok ks) = (p, ok (k ∷ ks))
prepend k (p, err e) = (p, err e)

-- What the loop does after a round. A raise drops the packets that the call had found.
abbrev pub proceed :
    (Parser → Parser × Result (List Packet)) → Parser × Step → Parser × Result (List Packet)
proceed rest (p, wait) = (p, ok [])
proceed rest (p, fail e) = (p, err e)
proceed rest (p, emit k) = prepend k (rest p)

unfoldable pub drain : ℕ → Parser → Parser × Result (List Packet)
drain zero p = (p, err out_of_fuel)
drain (suc fuel) p = proceed (drain fuel) (read_next p)

-- A round that goes on takes bytes, or the header that was waiting for an empty payload.
abbrev pub pending : Option Header → ℕ
pending none = 0
pending (some h) = 1

abbrev pub size : Parser → ℕ
size p = length p.buffer + pending p.expected

abbrev pub extend : Parser → List ℕ → Parser
extend p chunk = record p { buffer = p.buffer ++ chunk }

-- The loop of `feed` with fuel that it cannot use up.
unfoldable pub drain_all : Parser → Parser × Result (List Packet)
unfolding drain
drain_all p = drain (suc (size p)) p

unfoldable pub feed : Parser → List ℕ → Parser × Result (List Packet)
feed p chunk =
    if ltb (p.max_payload_bytes + header_size) (length p.buffer + length chunk)
    then (p, err buffer_exceeded)
    else drain_all (extend p chunk)

-- What a connection has been given when it ends: the parser, the packets of the calls that
-- returned, and the error of the call that raised.
pub record Delivery : Type 0 where
  pub parser : Parser
  pub packets : List Packet
  pub stopped : Option WireError

abbrev pub deliver : (Parser → Delivery) → Parser × Result (List Packet) → Delivery
deliver rest (p, ok ks) = let d = rest p in record d { packets = ks ++ d.packets }
deliver rest (p, err e) = record { parser = p; packets = []; stopped = some e }

-- `for packet in parser.feed(chunk)`, for each chunk that the connection reads.
unfoldable pub feed_all : List (List ℕ) → Parser → Delivery
feed_all [] p = record { parser = p; packets = []; stopped = none }
feed_all (chunk ∷ chunks) p = deliver (feed_all chunks) (feed p chunk)
