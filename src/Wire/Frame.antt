-- ===== src/Wire/Frame.antt =====
-- backend/app/protocol.py: JSON payloads and the payload of a FRAME packet.
-- `json` is a parameter: `dumps` gives the bytes of a value, `loads` reads bytes (`none` for text that
-- is not UTF-8 or not JSON), `is_object` is `isinstance(value, dict)`.
pub mod Sound
use ignis_test.Prelude.{
  ℕ, ◌+◌, ◌-◌, ◌^◌, ◌≤◌, ◌<◌, ◌≡◌, refl, none, some, List, [], ◌∷◌, ◌++◌, arith, length,
  length-append, ltb, leb, Option, Bool, true, false, ◌||◌, not, if◌then◌else◌, take, drop,
  take-append_exact, drop-append_exact, list_eq, ◌==◌, take-append-drop,
}
use ignis_test.Wire.Bytes.{be, of_be, length-be, of_be-be, take-be, drop-be}
use ignis_test.Wire.Packet.{
  WireError, Packet, Result, ok, err, field_out_of_range, invalid_json, not_an_object,
  truncated_length, invalid_length, invalid_metadata, metadata_not_object, invalid_jpeg,
}

pub record Json (J : Type 0) : Type 0 where
  pub dumps : J → List ℕ
  pub loads : List ℕ → Option J
  pub is_object : J → Bool

-- `len(jpeg) < 4 or not jpeg.startswith(b"\xff\xd8") or not jpeg.endswith(b"\xff\xd9")`
unfoldable pub is_broken_jpeg : List ℕ → Bool
is_broken_jpeg jpeg =
    ltb (length jpeg) 4
    || (not (list_eq (take 2 jpeg) (0xff ∷ 0xd8 ∷ []))
        || not (list_eq (drop (length jpeg - 2) jpeg) (0xff ∷ 0xd9 ∷ [])))

jpeg_room : (jpeg : List ℕ) → is_broken_jpeg jpeg ≡ false → 4 ≤ length jpeg
unfolding is_broken_jpeg
jpeg_room jpeg h = ground arith

module _ {J : Type 0} (json : Json J) where
  abbrev object_or : WireError → WireError → Option J → Result J
  object_or unreadable other none = err unreadable
  object_or unreadable other (some value) = if json.is_object value then ok value else err other

  -- `Packet.json`
  unfoldable pub packet_json : Packet → Result J
  packet_json k = object_or invalid_json not_an_object (json.loads k.payload)

  unfoldable pub encode_frame_payload : J → List ℕ → Result (List ℕ)
  encode_frame_payload metadata jpeg =
      let encoded = json.dumps metadata in
      if ltb (length encoded) (2 ^ 32)
      then ok (be 4 (length encoded) ++ (encoded ++ jpeg))
      else err field_out_of_range

  abbrev pub with_metadata : List ℕ → Option J → Result (J × List ℕ)
  with_metadata jpeg none = err invalid_metadata
  with_metadata jpeg (some metadata) =
      if json.is_object metadata
      then (if is_broken_jpeg jpeg then err invalid_jpeg else ok (metadata, jpeg))
      else err metadata_not_object

  unfoldable pub decode_frame_payload : List ℕ → Result (J × List ℕ)
  decode_frame_payload payload =
      let size = of_be (take 4 payload) in
      if ltb (length payload) 4
      then err truncated_length
      else if size == 0 || leb (length payload) (4 + size)
      then err invalid_length
      else with_metadata (drop size (drop 4 payload)) (json.loads (take size (drop 4 payload)))

  encoded_frame :
      (metadata : J) (jpeg bytes : List ℕ)
      → encode_frame_payload metadata jpeg ≡ ok bytes
      → (length (json.dumps metadata) < 2 ^ 32)
        × (bytes ≡ be 4 (length (json.dumps metadata)) ++ (json.dumps metadata ++ jpeg))
  unfolding encode_frame_payload
  encoded_frame metadata jpeg bytes e = ground arith

  decode_framed :
      (d jpeg : List ℕ)
      → length d < 2 ^ 32
      → 0 < length d
      → 4 ≤ length jpeg
      → decode_frame_payload (be 4 (length d) ++ (d ++ jpeg)) ≡ with_metadata jpeg (json.loads d)
  unfolding decode_frame_payload
  decode_framed d jpeg small pos room =
      let field = be 4 (length d) in
      rw
        (
          take-be 4 (length d) (d ++ jpeg),
          of_be-be 4 (length d) small,
          drop-be 4 (length d) (d ++ jpeg),
          take-append_exact (length d) d jpeg refl,
          drop-append_exact (length d) d jpeg refl,
        )
        (ground
          (arith, length-append field (d ++ jpeg), length-append d jpeg, length-be 4 (length d)))

  -- Metadata that JSON gives back and a JPEG with its markers survive the round trip.
  pub decode_frame_payload-encode_frame_payload :
      (metadata : J) (jpeg bytes : List ℕ)
      → json.loads (json.dumps metadata) ≡ some metadata
      → json.is_object metadata ≡ true
      → 0 < length (json.dumps metadata)
      → is_broken_jpeg jpeg ≡ false
      → encode_frame_payload metadata jpeg ≡ ok bytes
      → decode_frame_payload bytes ≡ ok (metadata, jpeg)
  decode_frame_payload-encode_frame_payload metadata jpeg bytes loaded object pos whole e =
      let (small, same) = encoded_frame metadata jpeg bytes e in
      rw (same, decode_framed (json.dumps metadata) jpeg small pos (jpeg_room jpeg whole), loaded)
        (rw (object, whole))
