-- ===== src/LoadLine/Fields.antt =====
-- parseLoadLine on the lines of a load file: it reads back a printed key and a quoted value.
use cs143_p.Base.{
  ℕ, zero, suc, ◌+◌, ◌-◌, ◌*◌, ◌/◌, ◌%◌, ◌^◌, ◌≤◌, ◌<◌, ◌≡◌, ◌≢◌, refl, ap, ◌∙◌, List, [], ◌∷◌,
  ◌++◌, append_assoc, length, length-append, some, true, ltb, if◌then◌else◌, arith, All, All-append,
  Bool-cases, inl, inr, ==_ne,
}
use native.Mathlib.Nat.{pow-suc}
use cs143_p.CString.{atoi, atoi_sign, digits_from}
use cs143_p.Memory.{IsInt}
use cs143_p.Rc.{success}
use cs143_p.RecordFile.{until_nul}
use cs143_p.LoadLine.{
  is_blank, is_quote, skip_blanks, after_char, before_char, parse_value, parse_after,
  parse_load_line,
}

-- The decimal digits of a number below 10 ^ rounds.
unfoldable pub show_digits : ℕ → ℕ → List ℕ
show_digits zero n = (b'0' + n % 10) ∷ []
show_digits (suc rounds) n =
    let front = show_digits rounds (n / 10) in
    if ltb n 10 then (b'0' + n) ∷ [] else front ++ ((b'0' + n % 10) ∷ [])

-- The decimal form of an `int`.
unfoldable pub show_int : ℕ → List ℕ
show_int w = if ltb w (2 ^ 31) then show_digits 10 w else b'-' ∷ show_digits 10 (2 ^ 32 - w)

abbrev Digits : List ℕ → Type 0
Digits s = All (λ c. (b'0' ≤ c) × (c ≤ b'9')) s

show_digits-Digits : (r n : ℕ) → Digits (show_digits r n)
unfolding show_digits
show_digits-Digits zero n = (omega arith, tt)
show_digits-Digits (suc r) n = elim (Bool-cases (ltb n 10)) [
  | inl small ↦ rw small (ground arith, tt)
  | inr large ↦ rw large (
      All-append (λ c. (b'0' ≤ c) × (c ≤ b'9')) (show_digits r (n / 10)) ((b'0' + n % 10) ∷ [])
        (show_digits-Digits r (n / 10)) (omega arith, tt))
]

show_digits-some : (r n : ℕ) → 0 < length (show_digits r n)
unfolding show_digits
show_digits-some zero n = omega arith
show_digits-some (suc r) n =
    ground (arith, length-append (show_digits r (n / 10)) ((b'0' + n % 10) ∷ []))

digits_from-one :
    (acc d : ℕ) (rest : List ℕ)
    → d < 10
    → digits_from acc ((b'0' + d) ∷ rest) ≡ digits_from (acc * 10 + d) rest
unfolding digits_from
digits_from-one acc d rest h = ground arith

pub digits_from-show_digits :
    (r n : ℕ) (rest : List ℕ)
    → n < 10 ^ suc r
    → digits_from 0 (show_digits r n ++ rest) ≡ digits_from n rest
unfolding show_digits
digits_from-show_digits zero n rest h =
    digits_from-one 0 (n % 10) rest (omega arith) ∙ ap (λ (k : ℕ). digits_from k rest) (omega arith)
digits_from-show_digits (suc r) n rest h = elim (Bool-cases (ltb n 10)) [
  | inl small ↦
      rw small
        (digits_from-one 0 n rest (ground arith) ∙ ap (λ (k : ℕ). digits_from k rest) (omega arith))
  | inr large ↦ rw large (
      ap (digits_from 0) (append_assoc (show_digits r (n / 10)) ((b'0' + n % 10) ∷ []) rest)
      ∙ digits_from-show_digits r (n / 10) ((b'0' + n % 10) ∷ rest)
          (omega (arith, pow-suc 10 (suc r)))
      ∙ digits_from-one (n / 10) (n % 10) rest (omega arith)
      ∙ ap (λ (k : ℕ). digits_from k rest) (omega arith))
]

digits_from-comma : (n : ℕ) (rest : List ℕ) → digits_from n (b',' ∷ rest) ≡ n
unfolding digits_from
digits_from-comma n rest = refl

atoi-digit :
    (s rest : List ℕ)
    → Digits s
    → 0 < length s
    → atoi (s ++ rest) ≡ digits_from 0 (s ++ rest) % 2 ^ 32
unfolding atoi atoi_sign
atoi-digit [] rest v h = absurd (omega arith)
atoi-digit (c ∷ s) rest v h = ground (arith, v.0)

atoi-minus : (s : List ℕ) → atoi (b'-' ∷ s) ≡ (2 ^ 32 - digits_from 0 s % 2 ^ 32) % 2 ^ 32
unfolding atoi atoi_sign
atoi-minus s = refl

-- atoi reads the decimal form of every `int` back, up to a comma.
pub atoi-show_int : (w : ℕ) (rest : List ℕ) → IsInt w → atoi (show_int w ++ (b',' ∷ rest)) ≡ w
unfolding show_int
atoi-show_int w rest h = elim (Bool-cases (ltb w (2 ^ 31))) [
  | inl positive ↦ rw positive (
      atoi-digit (show_digits 10 w) (b',' ∷ rest) (show_digits-Digits 10 w) (show_digits-some 10 w)
      ∙ ap (λ (k : ℕ). k % 2 ^ 32)
          (digits_from-show_digits 10 w (b',' ∷ rest) (omega arith) ∙ digits_from-comma w rest)
      ∙ omega arith)
  | inr negative ↦
      let m = 2 ^ 32 - w in
      rw negative (
        atoi-minus (show_digits 10 m ++ (b',' ∷ rest))
        ∙ ap (λ (k : ℕ). (2 ^ 32 - k % 2 ^ 32) % 2 ^ 32)
            (digits_from-show_digits 10 m (b',' ∷ rest) (omega arith) ∙ digits_from-comma m rest)
        ∙ ground arith)
]

-- The characters of a printed key: none is a blank, a comma or a NUL.
abbrev IsKeyChar : ℕ → Type 0
IsKeyChar c = (c ≢ 32) × (c ≢ 9) × (c ≢ b',') × (c ≢ 0)

key_chars : (s : List ℕ) → Digits s → All IsKeyChar s
key_chars [] v = tt
key_chars (c ∷ s) v = (
  (
    λ e. omega (arith, v.0, e),
    λ e. omega (arith, v.0, e),
    λ e. omega (arith, v.0, e),
    λ e. omega (arith, v.0, e),
  ),
  key_chars s v.1,
)

show_int-IsKeyChar : (w : ℕ) → All IsKeyChar (show_int w)
unfolding show_int
show_int-IsKeyChar w = elim (Bool-cases (ltb w (2 ^ 31))) [
  | inl positive ↦ rw positive (key_chars (show_digits 10 w) (show_digits-Digits 10 w))
  | inr negative ↦ rw negative (
    (λ e. omega (arith, e), λ e. omega (arith, e), λ e. omega (arith, e), λ e. omega (arith, e)),
    key_chars (show_digits 10 (2 ^ 32 - w)) (show_digits-Digits 10 (2 ^ 32 - w)),
  )
]

show_int-some : (w : ℕ) → 0 < length (show_int w)
unfolding show_int
show_int-some w = ground (arith, show_digits-some 10 w)

skip_over :
    (blanks rest : List ℕ)
    → All (λ c. is_blank c ≡ true) blanks
    → skip_blanks (blanks ++ rest) ≡ skip_blanks rest
unfolding skip_blanks
skip_over [] rest v = refl
skip_over (c ∷ blanks) rest v = rw v.0 (skip_over blanks rest v.1)

skip_none : (s rest : List ℕ) → All IsKeyChar s → 0 < length s → skip_blanks (s ++ rest) ≡ s ++ rest
unfolding skip_blanks
skip_none [] rest v h = absurd (omega arith)
skip_none (c ∷ s) rest v h = ground (arith, v.0)

after_comma : (s rest : List ℕ) → All IsKeyChar s → after_char b',' (s ++ (b',' ∷ rest)) ≡ some rest
unfolding after_char
after_comma [] rest v = refl
after_comma (c ∷ s) rest v = rw (==_ne c b',' v.0.2) (after_comma s rest v.1)

no_nul : (s : List ℕ) → All (λ c. c ≢ 0) s → until_nul s ≡ s
unfolding until_nul
no_nul [] v = refl
no_nul (c ∷ s) v = rw (==_ne c 0 v.0) (ap (◌∷◌ c) (no_nul s v.1))

before_quote : (q : ℕ) (v rest : List ℕ) → All (λ c. c ≢ q) v → before_char q (v ++ (q ∷ rest)) ≡ v
unfolding before_char
before_quote q [] rest h = ground arith
before_quote q (c ∷ v) rest h = rw (==_ne c q h.0) (ap (◌∷◌ c) (before_quote q v rest h.1))

skip_quote : (q : ℕ) (rest : List ℕ) → is_quote q ≡ true → skip_blanks (q ∷ rest) ≡ q ∷ rest
unfolding skip_blanks
skip_quote q rest h = ground arith

-- parseLoadLine on a line with a comma, given what its parts return.
parse-parts :
    (line start rest : List ℕ) (key : ℕ) (value : List ℕ)
    → skip_blanks (until_nul line) ≡ start
    → after_char b',' start ≡ some rest
    → parse_load_line line key value
      ≡ record { rc = success; key = atoi start; value = parse_value (skip_blanks rest) }
unfolding parse_load_line parse_after
parse-parts line start rest key value begin comma =
    ap (λ (s : List ℕ). parse_after s value (after_char b',' s)) begin
    ∙ ap (parse_after start value) comma

-- A line of a printed key, a comma and a value in quotes of either kind, with blanks in front of
-- each and anything behind, gives back the key and the value, if the value holds no such quote and
-- the line no NUL.
pub parse_load_line-quoted :
    (w q : ℕ) (b1 b2 v rest value : List ℕ) (key : ℕ)
    → IsInt w
    → is_quote q ≡ true
    → All (λ c. is_blank c ≡ true) b1
    → All (λ c. is_blank c ≡ true) b2
    → All (λ c. c ≢ q) v
    → All (λ c. c ≢ 0) (b1 ++ (show_int w ++ (b',' ∷ (b2 ++ (q ∷ (v ++ (q ∷ rest)))))))
    → parse_load_line (b1 ++ (show_int w ++ (b',' ∷ (b2 ++ (q ∷ (v ++ (q ∷ rest))))))) key value
      ≡ record { rc = success; key = w; value = v }
parse_load_line-quoted w q b1 b2 v rest value key int quote blank1 blank2 inside clean =
    parse-parts line from_key behind key value
      (ap skip_blanks (no_nul line clean)
        ∙ skip_over b1 from_key blank1
        ∙ skip_none (show_int w) (b',' ∷ behind) (show_int-IsKeyChar w) (show_int-some w))
      (after_comma (show_int w) behind (show_int-IsKeyChar w))
    ∙ ap (λ (k : ℕ). record { rc = success; key = k; value = parse_value (skip_blanks behind) })
        (atoi-show_int w behind int)
    ∙ ap (λ (s : List ℕ). record { rc = success; key = w; value = parse_value s })
        (skip_over b2 (q ∷ (v ++ (q ∷ rest))) blank2 ∙ skip_quote q (v ++ (q ∷ rest)) quote)
    ∙ ap (λ (s : List ℕ). record { rc = success; key = w; value = s }) unquoted
  where
    behind : List ℕ
    behind = b2 ++ (q ∷ (v ++ (q ∷ rest)))

    from_key : List ℕ
    from_key = show_int w ++ (b',' ∷ behind)

    line : List ℕ
    line = b1 ++ from_key

    unquoted : parse_value (q ∷ (v ++ (q ∷ rest))) ≡ v
    unquoted = unfold parse_value in rw (quote) (before_quote q v rest inside)
