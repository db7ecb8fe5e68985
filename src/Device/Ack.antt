-- ===== src/Device/Ack.antt =====
-- poc/pi/ignis_poc/protocol.py: `receive_exact` and `receive_ack`, on a socket that is what will still
-- arrive on it, in the pieces in which the system hands it over; behind the last one, or at an
-- empty one, the peer has closed. A timeout of the socket is not among the outcomes here: it is one
-- of the failures of `Dial`.
pub mod Handshake
use ignis_test.Prelude.{
  ℕ, zero, suc, ◌+◌, ◌-◌, ◌≤◌, ◌<◌, ◌≡◌, ◌≢◌, refl, sym, ap, ◌∙◌, Bool, true, false, not, ◌&&◌,
  Option, none, some, List, [], ◌∷◌, ◌++◌, ◌==◌, list_eq, length, length-append, length-take,
  length-drop, take, drop, if◌then◌else◌, All, Bool-cases, inl, inr, arith, codes,
}
use ignis_test.Wire.Bytes.{crc32}
use ignis_test.Wire.Packet
use ignis_test.Wire.Packet.{
  PacketType, hello_ack, type_code, Packet, ok, Fields, unpack, header_size, pack_header,
}
use ignis_test.Wire.Chunks.{concat}

abbrev pub Socket : Type 0
Socket = List (List ℕ)

-- What stays of a piece is still to be read.
abbrev pub left_of : List ℕ → Socket → Socket
left_of [] pieces = pieces
left_of (b ∷ bs) pieces = (b ∷ bs) ∷ pieces

-- `connection.recv(n)`
unfoldable pub recv : ℕ → Socket → List ℕ × Socket
recv n [] = ([], [])
recv n (piece ∷ pieces) = (take n piece, left_of (drop n piece) pieces)

pub data AckError : Type 0 where
  closed invalid_ack crc_failed not_json rejected : AckError

pub data Received (A : Type 0) : Type 0 where
  got : A → Socket → Received A
  raised : AckError → Received A

abbrev pub preceded : List ℕ → Received (List ℕ) → Received (List ℕ)
preceded chunk (got rest socket) = got (chunk ++ rest) socket
preceded chunk (raised e) = raised e

abbrev pub extended : (ℕ → Socket → Received (List ℕ)) → ℕ → List ℕ × Socket → Received (List ℕ)
extended more missing ([], socket) = raised closed
extended more missing (b ∷ bs, socket) = preceded (b ∷ bs) (more (missing - length (b ∷ bs)) socket)

-- The loop of `receive_exact` on the number of bytes that are missing. A round adds a byte or
-- raises, so as many rounds as bytes are enough.
unfoldable pub receive_from : ℕ → ℕ → Socket → Received (List ℕ)
unfolding recv
receive_from zero missing socket = got [] socket
receive_from (suc fuel) zero socket = got [] socket
receive_from (suc fuel) (suc m) socket = extended (receive_from fuel) (suc m) (recv (suc m) socket)

unfoldable pub receive_exact : ℕ → Socket → Received (List ℕ)
unfolding receive_from
receive_exact length socket = receive_from length length socket

module _ {J : Type 0} (loads : List ℕ → Option J) (is_accepted : J → Bool) where
  abbrev pub accepted_by : Socket → Option J → Received J
  accepted_by socket none = raised not_json
  accepted_by socket (some value) = if is_accepted value then got value socket else raised rejected

  abbrev pub ack_payload : Fields → Received (List ℕ) → Received J
  ack_payload f (raised e) = raised e
  ack_payload f (got payload socket) =
      if crc32 payload == f.crc then accepted_by socket (loads payload) else raised crc_failed

  abbrev pub ack_of : Fields → Socket → Received J
  ack_of f socket =
      if list_eq f.raw_magic (codes "IGNS")
        && (f.raw_version == 1 && f.raw_type == type_code hello_ack)
      then ack_payload f (receive_exact f.length socket)
      else raised invalid_ack

  abbrev pub ack_header : Received (List ℕ) → Received J
  ack_header (raised e) = raised e
  ack_header (got header socket) = ack_of (unpack header) socket

  -- `loads` is `json.loads`, and `is_accepted` is `isinstance(value, dict) and value.get("accepted")`.
  unfoldable pub receive_ack : Socket → Received J
  unfolding receive_exact
  receive_ack socket = ack_header (receive_exact header_size socket)
