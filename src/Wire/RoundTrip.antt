-- ===== src/Wire/RoundTrip.antt =====
-- `encode_packet` and `PacketParser` agree: a stream of encoded packets is given back as it was.
use ignis_test.Prelude.{
  ℕ, ◌≤◌, ◌≡◌, refl, ◌∙◌, none, List, [], ◌∷◌, ◌++◌, arith, length, true, append_assoc, append-nil,
  take-append_exact, drop-append_exact, ==_refl, le→ltb_false, length-append, All,
}
use ignis_test.Wire.Bytes.{crc32}
use ignis_test.Wire.Packet.{
  Packet, ok, header_size, pack_header, fits, encode_packet, header_of, length-pack_header,
  read_header-pack_header,
}
use ignis_test.Wire.Parser.{
  new, wait, emit, read_next, read_payload, with_header, drain_all, extend, feed, feed_all,
}
use ignis_test.Wire.Rounds.{read_first_long}
use ignis_test.Wire.Stream.{drain_all-unroll}
use ignis_test.Wire.Chunks.{concat, feed_all-eq-drain_all, drain_all-settled, feed_fits}

abbrev pub encoded : Packet → List ℕ
encoded k = pack_header k ++ k.payload

-- The concatenation of the packets' encodings, as a sender writes them.
abbrev pub stream : List Packet → List ℕ
stream [] = []
stream (k ∷ ks) = encoded k ++ stream ks

-- `k` can be packed, and its payload is within the receiver's limit.
abbrev pub IsSendable : ℕ → Packet → Type 0
IsSendable max_payload_bytes k = (fits k ≡ true) × (length k.payload ≤ max_payload_bytes)

module _ (max_payload_bytes : ℕ) (k : Packet) (rest : List ℕ) where
  read_payload-header_of :
      read_payload (header_of k) (extend (new max_payload_bytes) (k.payload ++ rest))
      ≡ (extend (new max_payload_bytes) rest, emit k)
  unfolding read_payload
  read_payload-header_of = rw (
    le→ltb_false (length (k.payload ++ rest)) (length k.payload)
        (omega (arith, length-append k.payload rest)),
    take-append_exact (length k.payload) k.payload rest refl,
    drop-append_exact (length k.payload) k.payload rest refl,
    ==_refl (crc32 k.payload),
  )

  read_next-encoded :
      IsSendable max_payload_bytes k
      → read_next (extend (new max_payload_bytes) (pack_header k ++ (k.payload ++ rest)))
        ≡ (extend (new max_payload_bytes) rest, emit k)
  unfolding read_next
  read_next-encoded (f, l) =
      let raw = pack_header k in
      let tail = k.payload ++ rest in
      read_first_long (extend (new max_payload_bytes) (raw ++ tail))
        (omega (arith, length-append raw tail, length-pack_header k))
      ∙ rw
          (
            take-append_exact header_size raw tail (length-pack_header k),
            drop-append_exact header_size raw tail (length-pack_header k),
            read_header-pack_header max_payload_bytes k f l,
          )
          (unfold with_header in read_payload-header_of)

pub read_next-new :
    (max_payload_bytes : ℕ) → read_next (new max_payload_bytes) ≡ (new max_payload_bytes, wait)
unfolding read_next
read_next-new max_payload_bytes = refl

pub drain_all-stream :
    (max_payload_bytes : ℕ) (ks : List Packet)
    → All (IsSendable max_payload_bytes) ks
    → drain_all (extend (new max_payload_bytes) (stream ks)) ≡ (new max_payload_bytes, ok ks)
drain_all-stream max_payload_bytes [] h =
    drain_all-settled (new max_payload_bytes) (read_next-new max_payload_bytes)
drain_all-stream max_payload_bytes (k ∷ ks) h =
    drain_all-unroll (extend (new max_payload_bytes) (stream (k ∷ ks)))
    ∙ rw append_assoc (
        rw (
          read_next-encoded max_payload_bytes k (stream ks) h.0,
          drain_all-stream max_payload_bytes ks h.1,
        ))

-- A stream of encoded packets, however it is cut into chunks, is delivered as the packets that were
-- encoded, in order, and leaves the parser as new, unless a call of `feed` raises.
pub feed_all-stream :
    (max_payload_bytes : ℕ) (ks : List Packet) (chunks : List (List ℕ))
    → All (IsSendable max_payload_bytes) ks
    → concat chunks ≡ stream ks
    → (feed_all chunks (new max_payload_bytes)).stopped ≡ none
    → feed_all chunks (new max_payload_bytes)
      ≡ record { parser = new max_payload_bytes; packets = ks; stopped = none }
feed_all-stream max_payload_bytes ks chunks h cut s =
    let whole =
      feed_all-eq-drain_all chunks (new max_payload_bytes) (read_next-new max_payload_bytes) s in
    cc (drain_all-stream max_payload_bytes ks h)

pub feed-encoded :
    (max_payload_bytes : ℕ) (k : Packet)
    → fits k ≡ true
    → length k.payload ≤ max_payload_bytes
    → feed (new max_payload_bytes) (encoded k) ≡ (new max_payload_bytes, ok (k ∷ []))
feed-encoded max_payload_bytes k f l =
    let one : encoded k ++ [] ≡ encoded k = append-nil (encoded k) in
    feed_fits (new max_payload_bytes) (encoded k)
      (omega (arith, length-append (pack_header k) k.payload, length-pack_header k))
    ∙ rw one at (drain_all-stream max_payload_bytes (k ∷ []) ((f, l), tt))

pub encode_packet-ok :
    (k : Packet) (bytes : List ℕ)
    → encode_packet k ≡ ok bytes
    → (fits k ≡ true) × (bytes ≡ encoded k)
unfolding encode_packet
encode_packet-ok k bytes e = ground arith

-- One call of `feed` on the encoding of one packet that can be packed gives that packet back, and
-- leaves the parser as new.
pub feed-encode_packet :
    (max_payload_bytes : ℕ) (k : Packet) (bytes : List ℕ)
    → encode_packet k ≡ ok bytes
    → length k.payload ≤ max_payload_bytes
    → feed (new max_payload_bytes) bytes ≡ (new max_payload_bytes, ok (k ∷ []))
feed-encode_packet max_payload_bytes k bytes e l =
    let (f, same) = encode_packet-ok k bytes e in rw same (feed-encoded max_payload_bytes k f l)
