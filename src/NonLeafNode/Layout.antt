-- ===== src/NonLeafNode/Layout.antt =====
-- What the bytes of a non-leaf page stand for: a first child, pairs of a key and the child behind
-- it, and 0xff up to the end.
use cs143_p.Base.{
  ℕ, ◌-◌, ◌*◌, ◌<◌, ◌≡◌, ◌≢◌, refl, ap, ◌∙◌, length-append, length-replicate, sym, List, [], ◌∷◌,
  ◌++◌, arith, length, replicate, All, replicate-append,
}
use cs143_p.Memory.{Buffer, IsInt, int_bytes, minus_one, page_size}
use cs143_p.NonLeafNode.{pair_size}

pub record Pair : Type 0 where
  pub key : ℕ
  pub pid : ℕ

abbrev pub pair_key : Pair → ℕ
pair_key e = e.key

abbrev pub pair_bytes : Pair → Buffer
pair_bytes e = int_bytes e.key ++ int_bytes e.pid

abbrev pub pairs_bytes : List Pair → Buffer
pairs_bytes [] = []
pairs_bytes (e ∷ es) = pair_bytes e ++ pairs_bytes es

-- The first child, the pairs, and padding of the given length.
abbrev pub node_bytes : ℕ → List Pair → ℕ → Buffer
node_bytes first es padding = int_bytes first ++ (pairs_bytes es ++ replicate padding 255)

abbrev pub node_page : ℕ → List Pair → Buffer
node_page first es = node_bytes first es (page_size - 4 - pair_size * length es)

-- A pair that a node can hold: -1 marks the end, both as a key and as a pid.
pub record IsPair (e : Pair) : Type 0 where
  pub key_int : IsInt e.key
  pub pid_int : IsInt e.pid
  pub key_set : e.key ≢ minus_one
  pub pid_set : e.pid ≢ minus_one

-- The page holds this first child and these pairs, with a free pair behind them.
pub record IsNode (buf : Buffer) (first : ℕ) (es : List Pair) : Type 0 where
  pub shape : buf ≡ node_page first es
  pub room : length es < 127
  pub first_int : IsInt first
  pub first_set : first ≢ minus_one
  pub pairs : All IsPair es

pub length-pairs_bytes : (es : List Pair) → length (pairs_bytes es) ≡ pair_size * length es
length-pairs_bytes [] = omega arith
length-pairs_bytes (e ∷ es) = omega (arith, length-pairs_bytes es)

pub pairs_bytes-append :
    (xs ys : List Pair) → pairs_bytes (xs ++ ys) ≡ pairs_bytes xs ++ pairs_bytes ys
pairs_bytes-append [] ys = refl
pairs_bytes-append (x ∷ xs) ys = ap (◌++◌ (pair_bytes x)) (pairs_bytes-append xs ys)

-- The padding of a page that holds `n` pairs, with twelve bytes split off.
pub padding_split :
    (n : ℕ)
    → n < 127
    → replicate {A = ℕ} (1020 - 8 * n) 255 ≡ replicate 12 255 ++ replicate (1008 - 8 * n) 255
padding_split n h = sym (replicate-append 12 (1008 - 8 * n) (1020 - 8 * n) 255 (omega arith))

pub as_page :
    {buf : Buffer} {first : ℕ} {es : List Pair}
    → IsNode buf first es
    → IsNode (node_page first es) first es
as_page l = record {
  shape = refl;
  room = l.room;
  first_int = l.first_int;
  first_set = l.first_set;
  pairs = l.pairs;
}

pub length-IsNode :
    {buf : Buffer} {first : ℕ} {es : List Pair} → IsNode buf first es → length buf ≡ page_size
length-IsNode {first = first} {es} l =
    let padding = replicate {A = ℕ} (1020 - 8 * length es) 255 in
    ap length l.shape
    ∙ omega (
      arith,
      l.room,
      length-pairs_bytes es,
      length-append (int_bytes first) (pairs_bytes es ++ padding),
      length-append (pairs_bytes es) padding,
      length-replicate {A = ℕ} (1020 - 8 * length es) 255,
    )
