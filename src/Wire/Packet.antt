-- ===== src/Wire/Packet.antt =====
-- backend/app/protocol.py: packet types, the 32-byte header, and `encode_packet`.
-- A Python int that is packed is a natural; `struct.pack` raises on a value out of its field's range.
use ignis_test.Prelude.{
  ℕ, ◌^◌, ◌≤◌, ◌<◌, ◌≡◌, refl, Bool, true, ◌&&◌, Option, none, some, List, ◌++◌, arith, ltb, ◌==◌,
  if◌then◌else◌, length, length-append, take, drop, codes, list_eq,
}
use ignis_test.Wire.Bytes.{
  be, of_be, length-be, of_be-be, take-be, take-be_end, drop-be, crc32, crc32-lt,
}

pub data PacketType : Type 0 where
  hello hello_ack frame detections incident_update incident_timeline_event : PacketType
  health_update evidence_manifest log_event config_ack config_update : PacketType
  occupant_confirm occupant_cancel manual_reset call_status_update ping pong : PacketType

-- `int(packet_type)`
unfoldable pub type_code : PacketType → ℕ
type_code hello = 1
type_code hello_ack = 2
type_code frame = 10
type_code detections = 11
type_code incident_update = 12
type_code incident_timeline_event = 13
type_code health_update = 14
type_code evidence_manifest = 15
type_code log_event = 16
type_code config_ack = 20
type_code config_update = 100
type_code occupant_confirm = 101
type_code occupant_cancel = 102
type_code manual_reset = 103
type_code call_status_update = 104
type_code ping = 105
type_code pong = 106

-- `PacketType(raw_type)`, with `none` for its `ValueError`
unfoldable pub type_of_code : ℕ → Option PacketType
type_of_code n =
    if n == 1
    then some hello
    else if n == 2
    then some hello_ack
    else if n == 10
    then some frame
    else if n == 11
    then some detections
    else if n == 12
    then some incident_update
    else if n == 13
    then some incident_timeline_event
    else if n == 14
    then some health_update
    else if n == 15
    then some evidence_manifest
    else if n == 16
    then some log_event
    else if n == 20
    then some config_ack
    else if n == 100
    then some config_update
    else if n == 101
    then some occupant_confirm
    else if n == 102
    then some occupant_cancel
    else if n == 103
    then some manual_reset
    else if n == 104
    then some call_status_update
    else if n == 105
    then some ping
    else if n == 106
    then some pong
    else none

pub type_of_code-type_code : (t : PacketType) → type_of_code (type_code t) ≡ some t
unfolding type_of_code type_code
type_of_code-type_code hello = refl
type_of_code-type_code _ = refl

pub type_code-lt : (t : PacketType) → type_code t < 256
unfolding type_code
type_code-lt hello = omega arith
type_code-lt _ = omega arith

-- What this module raises: `ProtocolError` with its message, or `struct.error`.
-- `out_of_fuel` is no Python value: the loop of `feed` never returns it.
pub data WireError : Type 0 where
  buffer_exceeded invalid_magic unsupported_version unknown_type payload_too_large : WireError
  crc_mismatch field_out_of_range out_of_fuel : WireError
  invalid_json not_an_object : WireError
  truncated_length invalid_length invalid_metadata metadata_not_object invalid_jpeg : WireError

pub data Result {ℓ} (A : Type ℓ) : Type ℓ where
  ok : A → Result A
  err : WireError → Result A

pub record Packet : Type 0 where
  pub packet_type : PacketType
  pub flags : ℕ
  pub sequence : ℕ
  pub monotonic_ns : ℕ
  pub payload : List ℕ

-- The tuple that `HEADER.unpack` gives, once magic, version and type are checked.
pub record Header : Type 0 where
  pub packet_type : PacketType
  pub flags : ℕ
  pub length : ℕ
  pub sequence : ℕ
  pub monotonic_ns : ℕ
  pub crc : ℕ

abbrev pub magic : List ℕ
magic = codes "IGNS"

abbrev pub version : ℕ
version = 1

abbrev pub header_size : ℕ
header_size = 32

-- `HEADER.pack`, "!4sBBHIQQI"
unfoldable pub pack_header : Packet → List ℕ
pack_header p =
    magic
    ++ (be 1 version
        ++ (be 1 (type_code p.packet_type)
            ++ (be 2 p.flags
                ++ (be 4 (length p.payload)
                    ++ (be 8 p.sequence ++ (be 8 p.monotonic_ns ++ be 4 (crc32 p.payload)))))))

-- The ranges that `struct.pack` checks; type and CRC are always inside theirs.
unfoldable pub fits : Packet → Bool
fits p =
    ltb p.flags (2 ^ 16)
    && (ltb (length p.payload) (2 ^ 32) && (ltb p.sequence (2 ^ 64) && ltb p.monotonic_ns (2 ^ 64)))

unfoldable pub encode_packet : Packet → Result (List ℕ)
encode_packet p = if fits p then ok (pack_header p ++ p.payload) else err field_out_of_range

-- The eight fields of `HEADER.unpack`, one after the other.
pub record Fields : Type 0 where
  pub raw_magic : List ℕ
  pub raw_version : ℕ
  pub raw_type : ℕ
  pub flags : ℕ
  pub length : ℕ
  pub sequence : ℕ
  pub monotonic_ns : ℕ
  pub crc : ℕ

unfoldable pub unpack : List ℕ → Fields
unpack raw = record {
  raw_magic = take 4 raw;
  raw_version = of_be (take 1 (drop 4 raw));
  raw_type = of_be (take 1 (drop 1 (drop 4 raw)));
  flags = of_be (take 2 (drop 1 (drop 1 (drop 4 raw))));
  length = of_be (take 4 (drop 2 (drop 1 (drop 1 (drop 4 raw)))));
  sequence = of_be (take 8 (drop 4 (drop 2 (drop 1 (drop 1 (drop 4 raw))))));
  monotonic_ns = of_be (take 8 (drop 8 (drop 4 (drop 2 (drop 1 (drop 1 (drop 4 raw)))))));
  crc = of_be (take 4 (drop 8 (drop 8 (drop 4 (drop 2 (drop 1 (drop 1 (drop 4 raw))))))));
}

-- The checks that follow `HEADER.unpack` in `feed`, in their order.
unfoldable pub check_header : ℕ → Fields → Result Header
check_header max_payload_bytes f =
    if list_eq f.raw_magic magic
    then (if f.raw_version == version
        then elim (type_of_code f.raw_type) [
          | none ↦ err unknown_type
          | some packet_type ↦
              if ltb max_payload_bytes f.length
              then err payload_too_large
              else ok (record {
                packet_type = packet_type;
                flags = f.flags;
                length = f.length;
                sequence = f.sequence;
                monotonic_ns = f.monotonic_ns;
                crc = f.crc;
              })
        ]
        else err unsupported_version)
    else err invalid_magic

unfoldable pub read_header : ℕ → List ℕ → Result Header
read_header max_payload_bytes raw = check_header max_payload_bytes (unpack raw)

abbrev pub header_of : Packet → Header
header_of p = record {
  packet_type = p.packet_type;
  flags = p.flags;
  length = length p.payload;
  sequence = p.sequence;
  monotonic_ns = p.monotonic_ns;
  crc = crc32 p.payload;
}

pub length-pack_header : (p : Packet) → length (pack_header p) ≡ header_size
unfolding pack_header
length-pack_header p = simp (length-append, length-be) (omega arith)

take-magic : (rest : List ℕ) → take 4 (magic ++ rest) ≡ magic
unfolding take
take-magic rest = refl

drop-magic : (rest : List ℕ) → drop 4 (magic ++ rest) ≡ rest
unfolding drop
drop-magic rest = refl

abbrev pub fields_of : Packet → Fields
fields_of p = record {
  raw_magic = magic;
  raw_version = version;
  raw_type = type_code p.packet_type;
  flags = p.flags;
  length = length p.payload;
  sequence = p.sequence;
  monotonic_ns = p.monotonic_ns;
  crc = crc32 p.payload;
}

ruleset field_laws = (take-magic, drop-magic, take-be, take-be_end, drop-be)

-- The tests of `struct.pack`, as orders.
pub fits→lt :
    (p : Packet)
    → fits p ≡ true
    → (p.flags < 2 ^ 16)
      × (length p.payload < 2 ^ 32)
      × (p.sequence < 2 ^ 64)
      × (p.monotonic_ns < 2 ^ 64)
unfolding fits
fits→lt p f = ground arith

pub unpack-pack_header : (p : Packet) → fits p ≡ true → unpack (pack_header p) ≡ fields_of p
unfolding unpack pack_header
unpack-pack_header p f =
    let (flags, size, sequence, time) = fits→lt p f in
    simp field_laws (
      cc (
        of_be-be 1 version (omega arith),
        of_be-be 1 (type_code p.packet_type) (type_code-lt p.packet_type),
        of_be-be 2 p.flags flags,
        of_be-be 4 (length p.payload) size,
        of_be-be 8 p.sequence sequence,
        of_be-be 8 p.monotonic_ns time,
        of_be-be 4 (crc32 p.payload) (crc32-lt p.payload),
      ))

-- The header of an encoded packet is read back, where its payload is within the receiver's limit.
pub read_header-pack_header :
    (max_payload_bytes : ℕ) (p : Packet)
    → fits p ≡ true
    → length p.payload ≤ max_payload_bytes
    → read_header max_payload_bytes (pack_header p) ≡ ok (header_of p)
unfolding read_header
read_header-pack_header max_payload_bytes p f l =
    rw (unpack-pack_header p f)
      (unfold check_header in ground (arith, type_of_code-type_code p.packet_type))
