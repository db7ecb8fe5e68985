-- ===== src/Wire/Bytes.antt =====
-- The fixed-width fields of `struct`'s network order, and `zlib.crc32`, over lists of bytes.
use Prim.Native.Nat.{bit_xor}
use native.Mathlib.Nat.{pow-suc}
use mathlib.Core.List.{foldl, foldl-append}
use ignis_test.Prelude.{
  ℕ, zero, suc, ◌+◌, ◌*◌, ◌/◌, ◌%◌, ◌^◌, ◌<◌, ◌≡◌, refl, List, [], ◌∷◌, ◌++◌, arith, ◌==◌,
  if◌then◌else◌, length, length-append, take, drop, take-append_exact, drop-append_exact, codes,
  append-nil,
}

-- `value` in `width` bytes, the high byte first.
unfoldable pub be : ℕ → ℕ → List ℕ
be zero value = []
be (suc width) value = be width (value / 256) ++ (value % 256) ∷ []

-- The number that a big-endian field stands for.
unfoldable pub of_be : List ℕ → ℕ
of_be bytes = foldl (λ acc b. acc * 256 + b) 0 bytes

pub length-be : (width value : ℕ) → length (be width value) ≡ width
unfolding be
length-be zero value = refl
length-be (suc width) value = omega (
  arith,
  length-append (be width (value / 256)) ((value % 256) ∷ []),
  length-be width (value / 256),
)

-- A field that holds its value gives it back.
pub of_be-be : (width value : ℕ) → value < 256 ^ width → of_be (be width value) ≡ value
unfolding be of_be
of_be-be zero value h = omega arith
of_be-be (suc width) value h =
    rw foldl-append (omega (arith, of_be-be width (value / 256) (omega (arith, pow-suc 256 width))))

-- Reading a field off the front of what follows it.
pub take-be :
    (width value : ℕ) (rest : List ℕ) → take width (be width value ++ rest) ≡ be width value
take-be width value rest = take-append_exact width (be width value) rest (length-be width value)

pub drop-be : (width value : ℕ) (rest : List ℕ) → drop width (be width value ++ rest) ≡ rest
drop-be width value rest = drop-append_exact width (be width value) rest (length-be width value)

-- The same where nothing follows.
pub take-be_end : (width value : ℕ) → take width (be width value) ≡ be width value
take-be_end width value = rw append-nil at (take-be width value [])

-- One bit, then one byte, of the reflected CRC-32 division.
crc_bit : ℕ → ℕ
crc_bit c = if c % 2 == 1 then bit_xor (c / 2) 0xEDB8_8320 else c / 2

crc_byte : ℕ → ℕ → ℕ
unfolding crc_bit
crc_byte c b =
    crc_bit (crc_bit (crc_bit (crc_bit (crc_bit (crc_bit (crc_bit (crc_bit (bit_xor c b))))))))

-- `zlib.crc32(payload) & 0xFFFFFFFF`
unfoldable pub crc32 : List ℕ → ℕ
unfolding crc_byte
crc32 payload = bit_xor (foldl crc_byte 0xFFFF_FFFF payload) 0xFFFF_FFFF % 2 ^ 32

pub crc32-lt : (payload : List ℕ) → crc32 payload < 2 ^ 32
unfolding crc32
crc32-lt payload = omega arith

crc_check : crc32 (codes "123456789") ≡ 0xCBF4_3926
unfolding crc32
crc_check = refl

be_check : be 4 0x0102_0304 ≡ 1 ∷ 2 ∷ 3 ∷ 4 ∷ []
unfolding be
be_check = refl
