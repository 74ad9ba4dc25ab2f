-- ===== src/CString.antt =====
-- The functions of the C library on strings, which are lists of bytes without their final NUL.
use cs143_p.Base.{
  ℕ, ◌+◌, ◌-◌, ◌*◌, ◌%◌, ◌^◌, List, [], ◌∷◌, Bool, ltb, leb, ◌==◌, ◌&&◌, ◌||◌, if◌then◌else◌, ◌<◌,
  arith,
}

pub data Sign : Type 0 where
  negative null positive : Sign

-- The sign of strcmp(a, b), which compares unsigned bytes.
unfoldable pub strcmp : List ℕ → List ℕ → Sign
strcmp [] [] = null
strcmp [] (d ∷ b) = negative
strcmp (c ∷ a) [] = positive
strcmp (c ∷ a) (d ∷ b) = if ltb c d then negative else if ltb d c then positive else strcmp a b

abbrev pub is_space : ℕ → Bool
is_space c = c == 32 || (leb 9 c && leb c 13)

abbrev pub is_digit : ℕ → Bool
is_digit c = leb b'0' c && leb c b'9'

-- The decimal digits at the front, behind those already read.
unfoldable pub digits_from : ℕ → List ℕ → ℕ
digits_from acc [] = acc
digits_from acc (c ∷ s) = if is_digit c then digits_from (acc * 10 + (c - b'0')) s else acc

-- The 32-bit pattern of atoi(s), by the GNU library's conversion of a `long` to an `int`. For numbers
-- that do not fit a `long` the C standard leaves atoi undefined.
unfoldable pub atoi_sign : List ℕ → ℕ
atoi_sign [] = 0
atoi_sign (c ∷ s) =
    if c == b'-'
    then (2 ^ 32 - digits_from 0 s % 2 ^ 32) % 2 ^ 32
    else if c == b'+'
    then digits_from 0 s % 2 ^ 32
    else digits_from 0 (c ∷ s) % 2 ^ 32

unfoldable pub atoi : List ℕ → ℕ
atoi [] = 0
atoi (c ∷ s) = if is_space c then atoi s else atoi_sign (c ∷ s)

atoi_sign-lt : (s : List ℕ) → atoi_sign s < 2 ^ 32
unfolding atoi_sign
atoi_sign-lt [] = omega arith
atoi_sign-lt (c ∷ s) = ground arith

-- atoi returns an `int`.
pub atoi-lt : (s : List ℕ) → atoi s < 2 ^ 32
unfolding atoi
atoi-lt [] = omega arith
atoi-lt (c ∷ s) = ground (arith, atoi_sign-lt (c ∷ s), atoi-lt s)
