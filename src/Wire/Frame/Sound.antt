-- ===== src/Wire/Frame/Sound.antt =====
-- Which payloads `decode_frame_payload` accepts.
use ignis_test.Prelude.{
  ℕ, suc, ◌+◌, ◌-◌, ◌≤◌, ◌<◌, ◌≡◌, refl, sym, ap, ◌∙◌, ◌↔◌, Bool, true, false, ◌||◌, Option, none,
  some, List, [], ◌∷◌, ◌++◌, arith, length, length-append, length-drop, length-take, take, drop,
  ltb, leb, ◌==◌, take-append_exact, drop-append_exact, take-append-drop, list_eq_iff,
  if◌then◌else◌,
}
use ignis_test.Wire.Bytes.{of_be}
use ignis_test.Wire.Packet.{WireError, Result, ok, err}
use ignis_test.Wire.Frame.{Json, is_broken_jpeg, with_metadata, decode_frame_payload}

-- The markers of a JPEG around whatever is between them.
abbrev pub IsMarked : List ℕ → Type 0
IsMarked jpeg = (body : List ℕ) × (jpeg ≡ 0xff ∷ 0xd8 ∷ (body ++ 0xff ∷ 0xd9 ∷ []))

IsMarked-unbroken : (jpeg : List ℕ) → is_broken_jpeg jpeg ≡ false → IsMarked jpeg
unfolding is_broken_jpeg take
IsMarked-unbroken [] h = absurd (ground arith)
IsMarked-unbroken (a ∷ []) h = absurd (ground arith)
IsMarked-unbroken (a ∷ b ∷ []) h = absurd (ground arith)
IsMarked-unbroken (a ∷ b ∷ c ∷ []) h = absurd (ground arith)
IsMarked-unbroken (a ∷ b ∷ c ∷ d ∷ more) h =
    let jpeg = a ∷ b ∷ c ∷ d ∷ more in
    let rest = c ∷ d ∷ more in
    let start : a ∷ b ∷ [] ≡ 0xff ∷ 0xd8 ∷ [] =
      (list_eq_iff (a ∷ b ∷ []) (0xff ∷ 0xd8 ∷ [])).0 (ground arith) in
    let end : drop (length jpeg - 2) jpeg ≡ 0xff ∷ 0xd9 ∷ [] =
      (list_eq_iff (drop (length jpeg - 2) jpeg) (0xff ∷ 0xd9 ∷ [])).0 (ground arith) in
    let size : length jpeg - 2 ≡ suc (suc (length more)) = omega arith in
    let tail : drop (length more) rest ≡ 0xff ∷ 0xd9 ∷ [] =
      unfold drop in (ap (λ k. drop k jpeg) (sym size) ∙ end) in
    (
      take (length more) rest,
      ap (λ t. t ++ rest) start
          ∙ ap (λ t. 0xff ∷ 0xd8 ∷ t)
              (sym (take-append-drop (length more) rest)
                ∙ ap (λ t. take (length more) rest ++ t) tail),
    )

unbroken-IsMarked : (jpeg : List ℕ) → IsMarked jpeg → is_broken_jpeg jpeg ≡ false
unfolding is_broken_jpeg take
unbroken-IsMarked jpeg (body, same) =
    let whole = 0xff ∷ 0xd8 ∷ (body ++ 0xff ∷ 0xd9 ∷ []) in
    let long : length whole ≡ 4 + length body =
      omega (arith, length-append body (0xff ∷ 0xd9 ∷ [])) in
    let size : length whole - 2 ≡ suc (suc (length body)) = omega (arith, long) in
    let end : drop (length whole - 2) whole ≡ 0xff ∷ 0xd9 ∷ [] =
      ap (λ k. drop k whole) size
      ∙ (unfold drop in drop-append_exact (length body) body (0xff ∷ 0xd9 ∷ []) refl) in
    rw same (rw end (ground (arith, long)))

marked_room : (jpeg : List ℕ) → IsMarked jpeg → 4 ≤ length jpeg
marked_room jpeg (body, same) = rw same (omega (arith, length-append body (0xff ∷ 0xd9 ∷ [])))

if_err :
    {A : Type 0} (b : Bool) (x : WireError) (r : Result A) (y : A)
    → (if b then err x else r) ≡ ok y
    → (b ≡ false) × (r ≡ ok y)
if_err true x r y e = absurd (cc)
if_err false x r y e = (refl, e)

module _ {J : Type 0} (json : Json J) where
  -- A payload is four bytes of a length, as many bytes of JSON, one at least, which are an object,
  -- and a JPEG with its markers.
  pub record IsFrame (payload : List ℕ) (metadata : J) (jpeg : List ℕ) : Type 0 where
    pub field : List ℕ
    pub encoded : List ℕ
    pub framed : payload ≡ field ++ (encoded ++ jpeg)
    pub four : length field ≡ 4
    pub sized : of_be field ≡ length encoded
    pub filled : 0 < length encoded
    pub loaded : json.loads encoded ≡ some metadata
    pub object : json.is_object metadata ≡ true
    pub marked : IsMarked jpeg

  metadata_accepted :
      (rest jpeg : List ℕ) (metadata : J) (o : Option J)
      → with_metadata json rest o ≡ ok (metadata, jpeg)
      → (o ≡ some metadata)
        × (json.is_object metadata ≡ true)
        × (is_broken_jpeg rest ≡ false)
        × (rest ≡ jpeg)
  metadata_accepted rest jpeg metadata none e = absurd (cc)
  metadata_accepted rest jpeg metadata (some m) e = ground arith

  accepted-IsFrame :
      (payload jpeg : List ℕ) (metadata : J)
      → decode_frame_payload json payload ≡ ok (metadata, jpeg)
      → IsFrame payload metadata jpeg
  unfolding decode_frame_payload
  accepted-IsFrame payload jpeg metadata e =
      let size = of_be (take 4 payload) in
      let (long, e1) = if_err (ltb (length payload) 4) _ _ _ e in
      let (room, e2) = if_err (size == 0 || leb (length payload) (4 + size)) _ _ _ e1 in
      let (loaded, object, whole, same) =
        metadata_accepted (drop size (drop 4 payload)) jpeg metadata _ e2 in
      record {
        field = take 4 payload;
        encoded = take size (drop 4 payload);
        framed =
            sym (take-append-drop 4 payload)
            ∙ ap (λ t. take 4 payload ++ t)
                (sym (take-append-drop size (drop 4 payload))
                  ∙ ap (λ t. take size (drop 4 payload) ++ t) same);
        four = ground (arith, length-take 4 payload);
        sized = ground (arith, length-take size (drop 4 payload), length-drop 4 payload);
        filled = ground (arith, length-take size (drop 4 payload), length-drop 4 payload);
        loaded = loaded;
        object = object;
        marked = IsMarked-unbroken jpeg (rw same at whole);
      }

  IsFrame-accepted :
      (payload jpeg : List ℕ) (metadata : J)
      → IsFrame payload metadata jpeg
      → decode_frame_payload json payload ≡ ok (metadata, jpeg)
  unfolding decode_frame_payload
  IsFrame-accepted payload jpeg metadata f =
      let rest = f.encoded ++ jpeg in
      let room : 4 ≤ length jpeg = marked_room jpeg f.marked in
      rw
        (
          f.framed,
          take-append_exact 4 f.field rest f.four,
          drop-append_exact 4 f.field rest f.four,
          f.sized,
          take-append_exact (length f.encoded) f.encoded jpeg refl,
          drop-append_exact (length f.encoded) f.encoded jpeg refl,
          f.loaded,
          f.object,
          unbroken-IsMarked jpeg f.marked,
        )
        (ground
          (arith, room, f.filled, f.four, length-append f.field rest, length-append f.encoded jpeg))

  -- A frame is accepted exactly where it is four bytes of a length, as many bytes, one at least, that
  -- JSON reads as the object, and a JPEG that begins and ends with its markers.
  pub decode_frame_payload_iff :
      (payload jpeg : List ℕ) (metadata : J)
      → (decode_frame_payload json payload ≡ ok (metadata, jpeg)) ↔ IsFrame payload metadata jpeg
  decode_frame_payload_iff payload jpeg metadata =
      (accepted-IsFrame payload jpeg metadata, IsFrame-accepted payload jpeg metadata)
