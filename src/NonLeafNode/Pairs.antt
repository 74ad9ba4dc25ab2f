-- ===== src/NonLeafNode/Pairs.antt =====
-- The writes into a non-leaf page: a pair, and the shift of the pairs behind it.
use cs143_p.Base.{
  ℕ, ◌+◌, ◌-◌, ◌*◌, ◌≡◌, refl, ap, ◌∙◌, sym, List, [], ◌∷◌, ◌++◌, some, arith, length, replicate,
  take, drop, length-append, length-take, length-drop, take-append-drop, append_assoc,
  take-append_add, take-replicate, length-replicate, replicate-append, ◌>>=◌,
}
use cs143_p.Memory.{Buffer, int_bytes, write_at, page_size}
use cs143_p.Memory.Laws.{write_at-parts, move_within_up}
use cs143_p.NonLeafNode.{write_pair, shift_and_write}
use cs143_p.NonLeafNode.Layout.{
  Pair, pair_bytes, pairs_bytes, node_bytes, length-pairs_bytes, pairs_bytes-append,
}

-- Eight bytes are replaced by the pair.
pub write_pair-parts :
    (a m c : Buffer) (ind : ℕ) (e : Pair)
    → ind ≡ length a
    → length m ≡ 8
    → write_pair (a ++ (m ++ c)) ind e.key e.pid ≡ some (a ++ (pair_bytes e ++ c))
unfolding write_pair
write_pair-parts a m c ind e h k =
    rw (key_written, ◌>>=◌)
      (ap (λ (b : Buffer). write_at b (ind + 4) (int_bytes e.pid))
          (sym (append_assoc a (int_bytes e.key) (drop 4 m ++ c)))
        ∙ write_at-parts (a ++ int_bytes e.key) (drop 4 m) c (int_bytes e.pid) (ind + 4)
            (omega (arith, length-append a (int_bytes e.key))) (omega (arith, length-drop 4 m))
        ∙ ap some (append_assoc a (int_bytes e.key) (int_bytes e.pid ++ c)))
  where
    key_written :
        write_at (a ++ (m ++ c)) ind (int_bytes e.key)
        ≡ some (a ++ (int_bytes e.key ++ (drop 4 m ++ c)))
    key_written =
        ap (λ (b : Buffer). write_at (a ++ b) ind (int_bytes e.key))
          (ap (λ (b : Buffer). b ++ c) (sym (take-append-drop 4 m))
            ∙ append_assoc (take 4 m) (drop 4 m) c)
        ∙ write_at-parts a (take 4 m) (drop 4 m ++ c) (int_bytes e.key) ind h
            (omega (arith, length-take 4 m))

shift_and_write-parts :
    (a m c : Buffer) (ind : ℕ) (e : Pair)
    → ind ≡ length a
    → length m ≡ 8
    → length c + ind + 8 ≡ page_size
    → shift_and_write (a ++ (m ++ c)) ind e.key e.pid
      ≡ some (a ++ (pair_bytes e ++ take (length c) (m ++ c)))
unfolding shift_and_write
shift_and_write-parts a m c ind e h k t =
    let n : page_size - (ind + 8) ≡ length c = omega arith in
    rw (n, move_within_up a m c (ind + 8) ind (length c) h (omega arith) refl)
      (write_pair-parts a m (take (length c) (m ++ c)) ind e h k)

module _ (first : ℕ) (xs ys : List Pair) (padding rest ind : ℕ) (e : Pair)
    (free : padding ≡ rest + 8) (total : 4 + 8 * length xs + 8 * length ys + padding ≡ page_size)
    (here : ind ≡ 4 + 8 * length xs) where
  abbrev before : Buffer
  before = int_bytes first ++ pairs_bytes xs

  before-length : ind ≡ length before
  before-length =
      omega (arith, length-append (int_bytes first) (pairs_bytes xs), length-pairs_bytes xs)

  joined :
      before ++ (pair_bytes e ++ (pairs_bytes ys ++ replicate rest 255))
      ≡ node_bytes first (xs ++ (e ∷ ys)) rest
  joined =
      ap (λ (b : Buffer). int_bytes first ++ b)
        (sym (
          ap (λ (b : Buffer). b ++ replicate rest 255) (pairs_bytes-append xs (e ∷ ys))
          ∙ append_assoc (pairs_bytes xs) (pairs_bytes (e ∷ ys)) (replicate rest 255)))

  -- The pairs behind `xs` move up by one, into the padding.
  pub shift_and_write-node_bytes :
      shift_and_write (node_bytes first (xs ++ ys) padding) ind e.key e.pid
      ≡ some (node_bytes first (xs ++ (e ∷ ys)) rest)
  shift_and_write-node_bytes =
      ap (λ (b : Buffer). shift_and_write b ind e.key e.pid) split
      ∙ shift_and_write-parts before (take 8 above) (drop 8 above) ind e before-length
          (omega (arith, length-take 8 above, size)) (omega (arith, length-drop 8 above, size))
      ∙ ap (λ (b : Buffer). some (before ++ (pair_bytes e ++ b))) moved
      ∙ ap some joined
    where
      above : Buffer
      above = pairs_bytes ys ++ replicate padding 255

      size : length above ≡ 8 * length ys + padding
      size = omega (
        arith,
        length-append (pairs_bytes ys) (replicate padding 255),
        length-pairs_bytes ys,
        length-replicate {A = ℕ} padding 255,
      )

      split : node_bytes first (xs ++ ys) padding ≡ before ++ (take 8 above ++ drop 8 above)
      split =
          ap (λ (b : Buffer). int_bytes first ++ (b ++ replicate padding 255))
            (pairs_bytes-append xs ys)
          ∙ ap (λ (b : Buffer). int_bytes first ++ b)
              (append_assoc (pairs_bytes xs) (pairs_bytes ys) (replicate padding 255))
          ∙ ap (λ (b : Buffer). before ++ b) (sym (take-append-drop 8 above))

      moved :
          take (length (drop 8 above)) (take 8 above ++ drop 8 above)
          ≡ pairs_bytes ys ++ replicate rest 255
      moved =
          ap (take (length (drop 8 above))) (take-append-drop 8 above)
          ∙ take-append_add (length (drop 8 above)) rest (pairs_bytes ys) (replicate padding 255)
              (omega (arith, length-drop 8 above, size, length-pairs_bytes ys))
          ∙ ap (λ (b : Buffer). pairs_bytes ys ++ b) (take-replicate rest padding 255 (omega arith))

  -- At the free pair nothing is shifted.
  pub write_pair-node_bytes :
      ys ≡ []
      → write_pair (node_bytes first xs padding) ind e.key e.pid
        ≡ some (node_bytes first (xs ++ (e ∷ [])) rest)
  write_pair-node_bytes none_behind =
      ap (λ (b : Buffer). write_pair (before ++ b) ind e.key e.pid)
        (sym (replicate-append 8 rest padding 255 (omega arith)))
      ∙ write_pair-parts before (replicate 8 255) (replicate rest 255) ind e before-length refl
      ∙ ap
          (λ (l : List Pair).
            some (before ++ (pair_bytes e ++ (pairs_bytes l ++ replicate rest 255))))
          (sym none_behind)
      ∙ ap some joined
      ∙ ap (λ (l : List Pair). some (node_bytes first (xs ++ (e ∷ l)) rest)) none_behind
