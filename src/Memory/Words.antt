-- ===== src/Memory/Words.antt =====
-- Integers through their four bytes.
use cs143_p.Base.{ℕ, ◌+◌, ◌≡◌, refl, ap, ◌++◌, some, arith, drop, drop-drop, replicate}
use cs143_p.Memory.{Buffer, IsInt, int_bytes, int_head, load_int, minus_one}

pub int_head-int_bytes : (w : ℕ) (rest : Buffer) → IsInt w → int_head (int_bytes w ++ rest) ≡ some w
int_head-int_bytes w rest h = ap some (omega arith)

-- What is read at an offset depends on the bytes from there on.
pub load_int-drop :
    (buf : Buffer) (off i n : ℕ) {rest : Buffer}
    → off ≡ i + n
    → drop i buf ≡ rest
    → load_int buf off ≡ int_head (drop n rest)
unfolding load_int
load_int-drop buf off i n e h = ap int_head (rw (drop-drop off i n buf e, h))

pub int_bytes-minus_one : int_bytes minus_one ≡ replicate 4 255
int_bytes-minus_one = refl
