-- ===== src/Memory.antt =====
-- The memory that the code works on: a page is a buffer of bytes, and `memcpy`, `memmove` and
-- `memset` of the C library act on it at byte offsets. An `int` is its 32-bit pattern, a number
-- below 2 ^ 32, stored little-endian.
pub mod Laws
pub mod Words
use cs143_p.Base.{
  ℕ, ◌+◌, ◌*◌, ◌/◌, ◌%◌, ◌^◌, ◌<◌, List, [], ◌∷◌, ◌++◌, Option, none, some, Bool, ltb, leb, length,
  take, drop, replicate, checked, ◌>>=◌, ◌&&◌,
}

abbrev pub Buffer : Type 0
Buffer = List ℕ

-- PageFile::PAGE_SIZE.
abbrev pub page_size : ℕ
page_size = 1024

-- The pattern of the `int` -1.
abbrev pub minus_one : ℕ
minus_one = 0xffff_ffff

abbrev pub IsInt : ℕ → Type 0
IsInt w = w < 2 ^ 32

-- The order of the bit patterns after the sign bit is flipped: `a < b` on two `int`s.
abbrev pub slt : ℕ → ℕ → Bool
slt a b = ltb ((a + 2 ^ 31) % 2 ^ 32) ((b + 2 ^ 31) % 2 ^ 32)

abbrev pub sle : ℕ → ℕ → Bool
sle a b = leb ((a + 2 ^ 31) % 2 ^ 32) ((b + 2 ^ 31) % 2 ^ 32)

abbrev pub int_bytes : ℕ → Buffer
int_bytes w = w % 256 ∷ w / 256 % 256 ∷ w / 65536 % 256 ∷ w / 16777216 % 256 ∷ []

abbrev pub int_head : Buffer → Option ℕ
int_head (a ∷ b ∷ c ∷ d ∷ rest) = some (a + 256 * b + 65536 * c + 16777216 * d)
int_head _ = none

-- memcpy(&x, buf + off, sizeof(int)).
unfoldable pub load_int : Buffer → ℕ → Option ℕ
load_int buf off = int_head (drop off buf)

-- memcpy(buf + off, bytes, the number of bytes).
unfoldable pub write_at : Buffer → ℕ → List ℕ → Option Buffer
write_at buf off bytes =
    checked (leb (off + length bytes) (length buf))
      (take off buf ++ (bytes ++ drop (off + length bytes) buf))

-- memcpy(buf + off, &w, sizeof(int)).
abbrev pub store_int : Buffer → ℕ → ℕ → Option Buffer
store_int buf off w = write_at buf off (int_bytes w)

-- The bytes that memcpy(dst, buf + off, n) reads.
unfoldable pub read_at : Buffer → ℕ → ℕ → Option (List ℕ)
read_at buf off n = checked (leb (off + n) (length buf)) (take n (drop off buf))

-- memmove(buf + dst, buf + src, n).
unfoldable pub move_within : Buffer → ℕ → ℕ → ℕ → Option Buffer
unfolding read_at write_at
move_within buf dst src n = do bytes ← read_at buf src n; write_at buf dst bytes

-- memset(buf + off, byte, n).
unfoldable pub fill : Buffer → ℕ → ℕ → ℕ → Option Buffer
unfolding write_at
fill buf off byte n = write_at buf off (replicate n byte)
