-- ===== src/Device/Ack/Handshake.antt =====
-- The backend's HELLO_ACK as the device receives it, however the system cuts it.
use ignis_test.Prelude.{
  ℕ, zero, suc, ◌-◌, ◌≤◌, ◌≡◌, ◌≢◌, refl, sym, ap, ◌∙◌, Bool, true, Option, some, List, [], ◌∷◌,
  ◌++◌, ==_refl, length, length-take, length-drop, take, drop, take-append_exact, take-append_le,
  drop-append_exact, drop-append_le, take-append-drop, All, arith, append_assoc,
}
use ignis_test.Wire.Bytes.{crc32}
use ignis_test.Wire.Packet.{
  hello_ack, type_code, Packet, ok, fits, header_size, pack_header, length-pack_header, fields_of,
  unpack-pack_header, encode_packet,
}
use ignis_test.Wire.Chunks.{concat}
use ignis_test.Wire.RoundTrip.{encode_packet-ok}
use ignis_test.Device.Ack.{
  Socket, left_of, recv, Received, got, raised, preceded, receive_from, receive_exact, ack_of,
  ack_payload, ack_header, receive_ack,
}

abbrev pub AreFull : Socket → Type 0
AreFull = All (λ (piece : List ℕ). piece ≢ [])

-- What is left behind `front` on a socket.
abbrev pub Leaves : List ℕ → Socket → Type 0
Leaves back socket = (concat socket ≡ back) × AreFull socket

concat-left_of : (bs : List ℕ) (pieces : Socket) → concat (left_of bs pieces) ≡ bs ++ concat pieces
concat-left_of [] pieces = refl
concat-left_of (b ∷ bs) pieces = refl

AreFull-left_of : (bs : List ℕ) (pieces : Socket) → AreFull pieces → AreFull (left_of bs pieces)
AreFull-left_of [] pieces full = full
AreFull-left_of (b ∷ bs) pieces full = (λ e. cc, full)

-- The bytes that two ways to cut a stream have in common.
cut_short :
    (chunk rest front back : List ℕ)
    → chunk ++ rest ≡ front ++ back
    → length chunk ≤ length front
    → (chunk ++ drop (length chunk) front ≡ front) × (rest ≡ drop (length chunk) front ++ back)
cut_short chunk rest front back e l =
    let same : chunk ≡ take (length chunk) front =
      sym (take-append_exact (length chunk) chunk rest refl)
      ∙ (ap (take (length chunk)) e ∙ take-append_le (length chunk) front back l) in
    (
      ap (λ t. t ++ drop (length chunk) front) same ∙ take-append-drop (length chunk) front,
      sym (drop-append_exact (length chunk) chunk rest refl)
          ∙ (ap (drop (length chunk)) e ∙ drop-append_le (length chunk) front back l),
    )

-- The socket gives `front` and leaves `back`.
abbrev Gives : List ℕ → List ℕ → Received (List ℕ) → Type 0
Gives front back (raised e) = ⊥
Gives front back (got bytes socket) = (bytes ≡ front) × Leaves back socket

Gives-preceded :
    (chunk rest front back : List ℕ) (r : Received (List ℕ))
    → chunk ++ rest ≡ front
    → Gives rest back r
    → Gives front back (preceded chunk r)
Gives-preceded chunk rest front back (raised e) same g = g
Gives-preceded chunk rest front back (got bytes socket) same (h, left) =
    (ap (λ t. chunk ++ t) h ∙ same, left)

receive_from-Gives :
    (fuel missing : ℕ) (front back : List ℕ) (socket : Socket)
    → missing ≤ fuel
    → length front ≡ missing
    → Leaves (front ++ back) socket
    → Gives front back (receive_from fuel missing socket)
unfolding receive_from recv take drop
receive_from-Gives zero missing [] back socket enough long left = (refl, left)
receive_from-Gives zero missing (x ∷ xs) back socket enough long left = absurd (omega arith)
receive_from-Gives (suc fuel) zero [] back socket enough long left = (refl, left)
receive_from-Gives (suc fuel) zero (x ∷ xs) back socket enough long left = absurd (omega arith)
receive_from-Gives (suc fuel) (suc m) [] back socket enough long left = absurd (omega arith)
receive_from-Gives (suc fuel) (suc m) (x ∷ xs) back [] enough long left =
    absurd (let e = left.0 in cc)
receive_from-Gives (suc fuel) (suc m) (x ∷ xs) back ([] ∷ pieces) enough long left =
    absurd (left.1.0 refl)
receive_from-Gives (suc fuel) (suc m) (x ∷ xs) back ((b ∷ bs) ∷ pieces) enough long left =
    let chunk = b ∷ take m bs in
    let front = x ∷ xs in
    let short : length chunk ≤ suc m = omega (arith, length-take m bs) in
    let whole : chunk ++ concat (left_of (drop m bs) pieces) ≡ front ++ back =
      ap (λ t. b ∷ t)
        (ap (λ t. take m bs ++ t) (concat-left_of (drop m bs) pieces)
          ∙ (sym (append_assoc (take m bs) (drop m bs) (concat pieces))
              ∙ ap (λ t. t ++ concat pieces) (take-append-drop m bs)))
      ∙ left.0 in
    let (same, rest) =
      cut_short chunk (concat (left_of (drop m bs) pieces)) front back whole
        (omega (arith, long, short)) in
    Gives-preceded chunk (drop (length chunk) front) front back _ same (
      receive_from-Gives fuel (suc m - length chunk) (drop (length chunk) front) back
        (left_of (drop m bs) pieces) (omega arith)
        (omega (arith, length-drop (length chunk) front, long))
        (rest, AreFull-left_of (drop m bs) pieces left.1.1))

receive_exact-Gives :
    (front back : List ℕ) (socket : Socket)
    → Leaves (front ++ back) socket
    → Gives front back (receive_exact (length front) socket)
unfolding receive_exact
receive_exact-Gives front back socket left =
    receive_from-Gives (length front) (length front) front back socket (omega arith) refl left

module _ {J : Type 0} (loads : List ℕ → Option J) (is_accepted : J → Bool) where
  abbrev pub Accepts : J → List ℕ → Received J → Type 0
  Accepts value back (raised e) = ⊥
  Accepts value back (got v socket) = (v ≡ value) × Leaves back socket

  ack_payload-Accepts :
      (k : Packet) (back : List ℕ) (value : J) (r : Received (List ℕ))
      → loads k.payload ≡ some value
      → is_accepted value ≡ true
      → Gives k.payload back r
      → Accepts value back (ack_payload loads is_accepted (fields_of k) r)
  ack_payload-Accepts k back value (raised e) parsed accepted g = absurd g
  ack_payload-Accepts k back value (got bytes socket) parsed accepted g =
      rw (g.0, ==_refl (crc32 k.payload), parsed, accepted) (refl, g.1)

  ack_of-Accepts :
      (k : Packet) (back : List ℕ) (value : J) (socket : Socket)
      → k.packet_type ≡ hello_ack
      → loads k.payload ≡ some value
      → is_accepted value ≡ true
      → Leaves (k.payload ++ back) socket
      → Accepts value back (ack_of loads is_accepted (fields_of k) socket)
  ack_of-Accepts k back value socket acknowledges parsed accepted left =
      rw (acknowledges, ==_refl (type_code hello_ack))
        (ack_payload-Accepts k back value _ parsed accepted
          (receive_exact-Gives k.payload back socket left))

  ack_header-Accepts :
      (k : Packet) (back : List ℕ) (value : J) (r : Received (List ℕ))
      → fits k ≡ true
      → k.packet_type ≡ hello_ack
      → loads k.payload ≡ some value
      → is_accepted value ≡ true
      → Gives (pack_header k) (k.payload ++ back) r
      → Accepts value back (ack_header loads is_accepted r)
  ack_header-Accepts k back value (raised e) f acknowledges parsed accepted g = absurd g
  ack_header-Accepts k back value (got header socket) f acknowledges parsed accepted g =
      rw (g.0, unpack-pack_header k f)
        (ack_of-Accepts k back value socket acknowledges parsed accepted g.1)

  -- A HELLO_ACK that the backend encodes is accepted by the device, where its payload is JSON that says
  -- so, in whatever pieces, none of them empty, the system hands over what arrives; and what follows
  -- it stays on the socket.
  pub receive_ack-encode_packet :
      (k : Packet) (bytes back : List ℕ) (value : J) (socket : Socket)
      → encode_packet k ≡ ok bytes
      → k.packet_type ≡ hello_ack
      → loads k.payload ≡ some value
      → is_accepted value ≡ true
      → Leaves (bytes ++ back) socket
      → Accepts value back (receive_ack loads is_accepted socket)
  unfolding receive_ack
  receive_ack-encode_packet k bytes back value socket e acknowledges parsed accepted (all, full) =
      let (f, same) = encode_packet-ok k bytes e in
      let split : concat socket ≡ pack_header k ++ (k.payload ++ back) =
        all ∙ (ap (λ t. t ++ back) same ∙ append_assoc (pack_header k) k.payload back) in
      let given = receive_exact-Gives (pack_header k) (k.payload ++ back) socket (split, full) in
      ack_header-Accepts k back value (receive_exact header_size socket) f acknowledges parsed
        accepted (rw (length-pack_header k) at given)
