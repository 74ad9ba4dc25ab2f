-- ===== src/RecordFile/Page.antt =====
-- The slots of a page: what writeSlot writes and what readSlot finds.
use cs143_p.Base.{
  ℕ, zero, suc, ◌+◌, ◌-◌, ◌≤◌, ◌≡◌, refl, ap, sym, ◌∙◌, List, [], ◌∷◌, ◌++◌, some, arith, length,
  take, drop, Bool-cases, inl, inr, leb, le→leb, length-append, length-take, length-drop, drop-drop,
  drop-append, drop-append_add, append_assoc, take-drop-append,
}
use cs143_p.Memory.{Buffer, write_at}
use cs143_p.RecordFile.{until_nul, c_string, stored_bytes, max_value_length}

-- What a value is after it has been stored: cut to 99 bytes, and at its first NUL.
unfoldable pub stored_value : List ℕ → List ℕ
stored_value value = until_nul (take (max_value_length - 1) value)

-- A string with a NUL behind it is read back up to its own first NUL.
pub c_string-until_nul : (s rest : List ℕ) → c_string (s ++ (0 ∷ rest)) ≡ some (until_nul s)
unfolding c_string until_nul
c_string-until_nul [] rest = refl
c_string-until_nul (c ∷ s) rest = ground (arith, c_string-until_nul s rest)

pub until_nul_idem : (s : List ℕ) → until_nul (until_nul s) ≡ until_nul s
unfolding until_nul
until_nul_idem [] = refl
until_nul_idem (c ∷ s) = ground (arith, until_nul_idem s)

pub take_short : (n : ℕ) (s : List ℕ) → length s ≤ n → take n s ≡ s
take_short zero [] h = refl
take_short zero (c ∷ s) h = absurd (omega arith)
take_short (suc n) [] h = refl
take_short (suc n) (c ∷ s) h = ap (◌∷◌ c) (take_short n s (omega arith))

pub length-until_nul : (s : List ℕ) → length (until_nul s) ≤ length s
unfolding until_nul
length-until_nul [] = omega arith
length-until_nul (c ∷ s) = ground (arith, length-until_nul s)

-- What is stored is read back as the stored value.
pub c_string-stored_bytes :
    (value rest : List ℕ) → c_string (stored_bytes value ++ rest) ≡ some (stored_value value)
unfolding stored_bytes stored_value
c_string-stored_bytes value rest = elim (Bool-cases (leb max_value_length (length value))) [
  | inl long ↦
      rw (long, append_assoc (take 99 value) (0 ∷ []) rest)
        (c_string-until_nul (take 99 value) rest)
  | inr short ↦
      rw (short, append_assoc (until_nul value) (0 ∷ []) rest, take_short 99 value (ground arith))
        (c_string-until_nul (until_nul value) rest ∙ ap some (until_nul_idem value))
]

pub length-stored_bytes : (value : List ℕ) → length (stored_bytes value) ≤ max_value_length
unfolding stored_bytes
length-stored_bytes value = elim (Bool-cases (leb max_value_length (length value))) [
  | inl long ↦ rw long (omega (arith, length-append (take 99 value) (0 ∷ []), length-take 99 value))
  | inr short ↦
      rw short (ground (arith, length-append (until_nul value) (0 ∷ []), length-until_nul value))
]

-- A buffer in which the bytes from `off` on are replaced.
abbrev pub overwritten : Buffer → List ℕ → ℕ → Buffer
overwritten buf bytes off = take off buf ++ (bytes ++ drop (off + length bytes) buf)

-- A write inside a buffer: the parts before and behind it stay.
module _ (buf bytes : Buffer) (off : ℕ) (fits : off + length bytes ≤ length buf) where
  front-length : off ≡ length (take off buf)
  front-length = omega (arith, length-take off buf)

  pub write_at-overwritten : write_at buf off bytes ≡ some (overwritten buf bytes off)
  unfolding write_at
  write_at-overwritten = rw (le→leb (off + length bytes) (length buf) fits)

  pub length-overwritten : length (overwritten buf bytes off) ≡ length buf
  length-overwritten = omega (
    arith,
    front-length,
    length-append (take off buf) (bytes ++ drop (off + length bytes) buf),
    length-append bytes (drop (off + length bytes) buf),
    length-drop (off + length bytes) buf,
  )

  pub drop-overwritten :
      drop off (overwritten buf bytes off) ≡ bytes ++ drop (off + length bytes) buf
  drop-overwritten =
      drop-append off (take off buf) (bytes ++ drop (off + length bytes) buf) front-length

  pub behind-overwritten :
      (j : ℕ) → off + length bytes ≤ j → drop j (overwritten buf bytes off) ≡ drop j buf
  behind-overwritten j h =
      drop-append_add j (j - off) (take off buf) (bytes ++ drop (off + length bytes) buf)
        (omega (arith, front-length))
      ∙ drop-append_add (j - off) (j - off - length bytes) bytes (drop (off + length bytes) buf)
          (omega arith)
      ∙ sym (drop-drop j (off + length bytes) (j - off - length bytes) buf (omega arith))

  pub before-overwritten :
      (j n : ℕ) → j + n ≤ off → take n (drop j (overwritten buf bytes off)) ≡ take n (drop j buf)
  before-overwritten j n h =
      take-drop-append j n off buf (bytes ++ drop (off + length bytes) buf) h (omega arith)
