-- ===== src/Storage/Endian.antt =====
-- `binary.BigEndian`: the four bytes of a `uint32`.
use agidb_on_chain.Base.{ℕ, ◌+◌, ◌*◌, ◌/◌, ◌%◌, ◌^◌, ◌<◌, ◌≡◌, [], ◌∷◌, Bytes, get_or, arith}

-- `PutUint32(b, v)`
unfoldable pub put_uint32 : ℕ → Bytes
put_uint32 v = (v / 2 ^ 24 % 256) ∷ (v / 2 ^ 16 % 256) ∷ (v / 2 ^ 8 % 256) ∷ (v % 256) ∷ []

-- `Uint32(h[i:])`
unfoldable pub uint32_at : Bytes → ℕ → ℕ
uint32_at h i =
    get_or h i 0 * 2 ^ 24
    + get_or h (i + 1) 0 * 2 ^ 16
    + get_or h (i + 2) 0 * 2 ^ 8
    + get_or h (i + 3) 0

-- the number that the four bytes stand for
pub put_uint32_digits :
    (v : ℕ)
    → v < 2 ^ 32
    → v / 2 ^ 24 % 256 * 2 ^ 24 + v / 2 ^ 16 % 256 * 2 ^ 16 + v / 2 ^ 8 % 256 * 2 ^ 8 + v % 256 ≡ v
put_uint32_digits v h = omega arith
