-- ===== src/Protocol/Struct.antt =====
-- The `struct` formats of mosec/protocol.py: "!H" and "!I", big-endian and unsigned.
use mosec.Prelude.{
  ℕ, ◌+◌, ◌*◌, ◌/◌, ◌%◌, ◌<◌, ◌≡◌, refl, [], ◌∷◌, arith, ltb, lt→ltb, if◌then◌else◌, length,
}
use mosec.Errors.{Bytes, Result, ok, raised, failed, struct_error}

abbrev pub u16_mod : ℕ
u16_mod = 65536

abbrev pub u32_mod : ℕ
u32_mod = 4294967296

unfoldable pub bytes_u16 : ℕ → Bytes
bytes_u16 n = (n / 256) ∷ (n % 256) ∷ []

unfoldable pub bytes_u32 : ℕ → Bytes
bytes_u32 n = (n / 16777216) ∷ (n / 65536 % 256) ∷ (n / 256 % 256) ∷ (n % 256) ∷ []

-- `struct.pack` raises `struct.error` on a number that does not fit.
unfoldable pub pack_u16 : ℕ → Result Bytes
pack_u16 n = if ltb n u16_mod then ok (bytes_u16 n) else raised (failed struct_error)

unfoldable pub pack_u32 : ℕ → Result Bytes
pack_u32 n = if ltb n u32_mod then ok (bytes_u32 n) else raised (failed struct_error)

-- `struct.unpack` raises `struct.error` on a buffer of another length.
unfoldable pub unpack_u16 : Bytes → Result ℕ
unpack_u16 (a ∷ b ∷ []) = ok (a * 256 + b)
unpack_u16 _ = raised (failed struct_error)

unfoldable pub unpack_u32 : Bytes → Result ℕ
unpack_u32 (a ∷ b ∷ c ∷ d ∷ []) = ok (a * 16777216 + b * 65536 + c * 256 + d)
unpack_u32 _ = raised (failed struct_error)

pub unpack_u16-bytes_u16 : (n : ℕ) → unpack_u16 (bytes_u16 n) ≡ ok n
unfolding unpack_u16 bytes_u16
unpack_u16-bytes_u16 n = ground arith

pub unpack_u32-bytes_u32 : (n : ℕ) → unpack_u32 (bytes_u32 n) ≡ ok n
unfolding unpack_u32 bytes_u32
unpack_u32-bytes_u32 n = ground arith

pub pack_u16-ok : (n : ℕ) → n < u16_mod → pack_u16 n ≡ ok (bytes_u16 n)
unfolding pack_u16
pack_u16-ok n h = rw (lt→ltb n u16_mod h)

pub pack_u32-ok : (n : ℕ) → n < u32_mod → pack_u32 n ≡ ok (bytes_u32 n)
unfolding pack_u32
pack_u32-ok n h = rw (lt→ltb n u32_mod h)

pub length-bytes_u16 : (n : ℕ) → length (bytes_u16 n) ≡ 2
unfolding bytes_u16
length-bytes_u16 n = refl

pub length-bytes_u32 : (n : ℕ) → length (bytes_u32 n) ≡ 4
unfolding bytes_u32
length-bytes_u32 n = refl
