-- ===== src/Simulator/Fragments.antt =====
-- simulator/ignis_simulator/cli.py: `_send` with the fault "fragmented", against the parser of the
-- backend; and `packet` of simulator/ignis_simulator/protocol.py.
use ignis_test.Prelude.{
  ℕ, zero, suc, ◌+◌, ◌%◌, ◌^◌, ◌≤◌, ◌≡◌, refl, sym, ap, ◌∙◌, none, List, [], ◌∷◌, ◌++◌, ltb, ◌==◌,
  if◌then◌else◌, arith, true, length, length-append, take, drop, take-append-drop, Bool-cases, inl,
  inr, ltb_false→le, append-nil, codes, ◌&&◌,
}
use ignis_test.Wire.Bytes.{be, crc32}
use ignis_test.Wire.Packet
use ignis_test.Wire.Packet.{
  PacketType, type_code, Packet, Result, ok, err, field_out_of_range, header_size, pack_header,
  length-pack_header, fits,
}
use ignis_test.Wire.Parser.{new, feed_all}
use ignis_test.Wire.Chunks.{concat}
use ignis_test.Wire.RoundTrip.{encoded}
use ignis_test.Wire.Within.{feed_all-within}

-- `pattern[cursor % len(pattern)]`
unfoldable pub size_at : ℕ → ℕ
size_at cursor =
    let k = cursor % 7 in
    if k == 0
    then 1
    else if k == 1
    then 3
    else if k == 2
    then 7
    else if k == 3
    then 13
    else if k == 4
    then 31
    else if k == 5
    then 127
    else 521

-- The loop on its cursor; a round takes a byte at least, so as many rounds as bytes are enough.
unfoldable pub cut : ℕ → ℕ → List ℕ → List (List ℕ)
unfolding size_at
cut zero cursor payload = []
cut (suc fuel) cursor payload =
    let rest = cut fuel (cursor + size_at cursor) payload in
    if ltb cursor (length payload) then take (size_at cursor) (drop cursor payload) ∷ rest else []

-- What `_send` passes to `sendall`, one after the other.
unfoldable pub fragments : List ℕ → List (List ℕ)
unfolding cut
fragments payload = cut (length payload) 0 payload

size_at_pos : (cursor : ℕ) → 1 ≤ size_at cursor
unfolding size_at
size_at_pos cursor = ground arith

drop-nil : (n : ℕ) → drop {A = ℕ} n [] ≡ []
unfolding drop
drop-nil zero = refl
drop-nil (suc n) = refl

drop-drop : (m n : ℕ) (xs : List ℕ) → drop m (drop n xs) ≡ drop (n + m) xs
unfolding drop
drop-drop m zero xs = ap (λ k. drop k xs) (omega arith)
drop-drop m (suc n) [] = drop-nil m ∙ sym (drop-nil (suc n + m))
drop-drop m (suc n) (x ∷ xs) =
    drop-drop m n xs
    ∙ ap (λ k. drop k (x ∷ xs)) (let e : suc (n + m) ≡ suc n + m = omega arith in e)

drop_end : (n : ℕ) (xs : List ℕ) → length xs ≤ n → drop n xs ≡ []
unfolding drop
drop_end zero [] h = refl
drop_end zero (x ∷ xs) h = absurd (omega arith)
drop_end (suc n) [] h = refl
drop_end (suc n) (x ∷ xs) h = drop_end n xs (omega arith)

concat-cut :
    (fuel cursor : ℕ) (payload : List ℕ)
    → length payload ≤ cursor + fuel
    → concat (cut fuel cursor payload) ≡ drop cursor payload
unfolding cut
concat-cut zero cursor payload h = sym (drop_end cursor payload (omega arith))
concat-cut (suc fuel) cursor payload h = elim (Bool-cases (ltb cursor (length payload))) [
  | inl more ↦ rw more (
      rw (concat-cut fuel (cursor + size_at cursor) payload (omega (arith, size_at_pos cursor))) (
        ap (λ t. take (size_at cursor) (drop cursor payload) ++ t)
          (sym (drop-drop (size_at cursor) cursor payload))
        ∙ take-append-drop (size_at cursor) (drop cursor payload)))
  | inr done ↦ rw done (sym (drop_end cursor payload (ltb_false→le cursor (length payload) done)))
]

-- The fragments are the payload, whatever its length: the loop ends, loses nothing and repeats nothing.
pub concat-fragments : (payload : List ℕ) → concat (fragments payload) ≡ payload
unfolding fragments
concat-fragments payload =
    concat-cut (length payload) 0 payload (omega arith) ∙ (unfold drop in refl)

-- `packet`, whose flags are 0; `payload` is the JSON text or the bytes.
unfoldable pub packet : PacketType → List ℕ → ℕ → ℕ → Packet.Result (List ℕ)
packet packet_type payload sequence monotonic_ns =
    if ltb (length payload) (2 ^ 32) && (ltb sequence (2 ^ 64) && ltb monotonic_ns (2 ^ 64))
    then ok (
        (codes "IGNS"
          ++ (be 1 1
              ++ (be 1 (type_code packet_type)
                  ++ (be 2 0
                      ++ (be 4 (length payload)
                          ++ (be 8 sequence ++ (be 8 monotonic_ns ++ be 4 (crc32 payload))))))))
        ++ payload)
    else err field_out_of_range

abbrev packet_of : PacketType → List ℕ → ℕ → ℕ → Packet
packet_of packet_type payload sequence monotonic_ns = record {
  packet_type = packet_type;
  flags = 0;
  sequence = sequence;
  monotonic_ns = monotonic_ns;
  payload = payload;
}

packet-encoded :
    (t : PacketType) (payload : List ℕ) (sequence now : ℕ) (bytes : List ℕ)
    → packet t payload sequence now ≡ ok bytes
    → (fits (packet_of t payload sequence now) ≡ true)
      × (bytes ≡ encoded (packet_of t payload sequence now))
unfolding packet fits pack_header
packet-encoded t payload sequence now bytes e = ground arith

-- A packet of the simulator that is sent in fragments is parsed by a new parser of the backend as
-- the packet that was meant, and no fragment of it is refused, if its payload is within the limit.
pub feed_all-fragments :
    (limit : ℕ) (t : PacketType) (payload : List ℕ) (sequence now : ℕ) (bytes : List ℕ)
    → packet t payload sequence now ≡ ok bytes
    → length payload ≤ limit
    → feed_all (fragments bytes) (new limit) ≡ record {
      parser = new limit;
      packets = packet_of t payload sequence now ∷ [];
      stopped = none;
    }
feed_all-fragments limit t payload sequence now bytes e l =
    let k = packet_of t payload sequence now in
    let (f, same) = packet-encoded t payload sequence now bytes e in
    feed_all-within limit (k ∷ []) (fragments bytes) ((f, l), tt)
      (omega (
        arith,
        ap length (append-nil (encoded k)),
        length-append (pack_header k) payload,
        length-pack_header k,
      ))
      (concat-fragments bytes ∙ same ∙ sym (append-nil (encoded k)))
