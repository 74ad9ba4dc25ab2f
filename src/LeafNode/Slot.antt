-- ===== src/LeafNode/Slot.antt =====
-- The writes into a leaf page: a slot, the shift of the slots behind it, the next pointer.
use cs143_p.Base.{
  ℕ, ◌+◌, ◌-◌, ◌*◌, ◌≡◌, refl, ap, ◌∙◌, sym, List, [], ◌∷◌, ◌++◌, some, arith, length, replicate,
  take, drop, length-append, length-take, length-drop, take-append-drop, append_assoc,
  take-append_add, take-append, replicate-append, length-replicate, ◌>>=◌, Option, drop-append,
  drop-append_add,
}
use cs143_p.Memory.{Buffer, IsInt, int_bytes, minus_one, write_at, page_size, fill}
use cs143_p.Memory.Laws.{write_at-parts, move_within_up}
use cs143_p.Memory.Words.{int_head-int_bytes, load_int-drop}
use cs143_p.RecordId.{rid_bytes}
use cs143_p.LeafNode.{write_slot, shift_and_write, get_next_node_ptr, set_next_node_ptr}
use cs143_p.LeafNode.Layout.{
  Entry, entry_bytes, entries_bytes, leaf_bytes, length-entries_bytes, entries_bytes-append,
}

-- Twelve bytes are replaced by the pair.
pub write_slot-parts :
    (a m c : Buffer) (ind : ℕ) (e : Entry)
    → ind ≡ length a
    → length m ≡ 12
    → write_slot (a ++ (m ++ c)) ind e.key e.rid ≡ some (a ++ (entry_bytes e ++ c))
unfolding write_slot
write_slot-parts a m c ind e h k =
    rw (rid_written, ◌>>=◌)
      (ap (λ (b : Buffer). write_at b (ind + 8) (int_bytes e.key))
          (sym (append_assoc a (rid_bytes e.rid) (drop 8 m ++ c)))
        ∙ write_at-parts (a ++ rid_bytes e.rid) (drop 8 m) c (int_bytes e.key) (ind + 8)
            (omega (arith, length-append a (rid_bytes e.rid))) (omega (arith, length-drop 8 m))
        ∙ ap some (append_assoc a (rid_bytes e.rid) (int_bytes e.key ++ c)))
  where
    rid_written :
        write_at (a ++ (m ++ c)) ind (rid_bytes e.rid)
        ≡ some (a ++ (rid_bytes e.rid ++ (drop 8 m ++ c)))
    rid_written =
        ap (λ (b : Buffer). write_at (a ++ b) ind (rid_bytes e.rid))
          (ap (λ (b : Buffer). b ++ c) (sym (take-append-drop 8 m))
            ∙ append_assoc (take 8 m) (drop 8 m) c)
        ∙ write_at-parts a (take 8 m) (drop 8 m ++ c) (rid_bytes e.rid) ind h
            (omega (arith, length-take 8 m))

shift_and_write-parts :
    (a m c : Buffer) (ind : ℕ) (e : Entry)
    → ind ≡ length a
    → length m ≡ 12
    → length c + ind + 12 ≡ page_size
    → shift_and_write (a ++ (m ++ c)) ind e.key e.rid
      ≡ some (a ++ (entry_bytes e ++ take (length c) (m ++ c)))
unfolding shift_and_write
shift_and_write-parts a m c ind e h k t =
    let n : page_size - (ind + 12) ≡ length c = omega arith in
    rw (n, move_within_up a m c (ind + 12) ind (length c) h (omega arith) refl)
      (write_slot-parts a m (take (length c) (m ++ c)) ind e h k)

-- What is left of the padding and the pointer when the last twelve bytes fall off.
pub take_padding :
    (k padding rest next : ℕ)
    → k ≡ rest + 4
    → padding ≡ rest + 12
    → take k (replicate padding 255 ++ int_bytes next) ≡ replicate rest 255 ++ int_bytes minus_one
take_padding k padding rest next ek ep =
    ap (λ (b : Buffer). take k (b ++ int_bytes next))
      (sym (replicate-append k 8 padding 255 (omega arith)))
    ∙ ap (take k) (append_assoc (replicate k 255) (replicate 8 255) (int_bytes next))
    ∙ take-append k (replicate k 255) (replicate 8 255 ++ int_bytes next)
        (omega (arith, length-replicate {A = ℕ} k 255))
    ∙ sym (replicate-append rest 4 k 255 ek)

-- The entries behind `xs` move up by one slot, over the last twelve bytes of the page: the padding
-- is one slot shorter, and the pointer is lost.
pub shift_and_write-leaf_bytes :
    (xs ys : List Entry) (padding rest next ind : ℕ) (e : Entry)
    → padding ≡ rest + 12
    → 12 * length xs + 12 * length ys + padding + 4 ≡ page_size
    → ind ≡ 12 * length xs
    → shift_and_write (leaf_bytes (xs ++ ys) padding next) ind e.key e.rid
      ≡ some (leaf_bytes (xs ++ (e ∷ ys)) rest minus_one)
shift_and_write-leaf_bytes xs ys padding rest next ind e ep total ei =
    ap (λ (b : Buffer). shift_and_write b ind e.key e.rid) split
    ∙ shift_and_write-parts (entries_bytes xs) (take 12 above) (drop 12 above) ind e
        (omega (arith, length-entries_bytes xs)) (omega (arith, length-take 12 above, size))
        (omega (arith, length-drop 12 above, size))
    ∙ ap (λ (b : Buffer). some (entries_bytes xs ++ (entry_bytes e ++ b))) moved
    ∙ ap some joined
  where
    tail : Buffer
    tail = replicate padding 255 ++ int_bytes next

    above : Buffer
    above = entries_bytes ys ++ tail

    size : length above ≡ 12 * length ys + padding + 4
    size = omega (
      arith,
      length-append (entries_bytes ys) tail,
      length-append (replicate padding 255) (int_bytes next),
      length-entries_bytes ys,
      length-replicate {A = ℕ} padding 255,
    )

    split :
        leaf_bytes (xs ++ ys) padding next ≡ entries_bytes xs ++ (take 12 above ++ drop 12 above)
    split =
        ap (λ (b : Buffer). b ++ tail) (entries_bytes-append xs ys)
        ∙ append_assoc (entries_bytes xs) (entries_bytes ys) tail
        ∙ ap (λ (b : Buffer). entries_bytes xs ++ b) (sym (take-append-drop 12 above))

    moved :
        take (length (drop 12 above)) (take 12 above ++ drop 12 above)
        ≡ entries_bytes ys ++ (replicate rest 255 ++ int_bytes minus_one)
    moved =
        ap (take (length (drop 12 above))) (take-append-drop 12 above)
        ∙ take-append_add (length (drop 12 above)) (rest + 4) (entries_bytes ys) tail
            (omega (arith, length-drop 12 above, size, length-entries_bytes ys))
        ∙ ap (λ (b : Buffer). entries_bytes ys ++ b)
            (take_padding (rest + 4) padding rest next refl ep)

    joined :
        entries_bytes xs
          ++ (entry_bytes e ++ (entries_bytes ys ++ (replicate rest 255 ++ int_bytes minus_one)))
        ≡ leaf_bytes (xs ++ (e ∷ ys)) rest minus_one
    joined = sym (
        ap (λ (b : Buffer). b ++ (replicate rest 255 ++ int_bytes minus_one))
          (entries_bytes-append xs (e ∷ ys))
        ∙ append_assoc (entries_bytes xs) (entries_bytes (e ∷ ys))
            (replicate rest 255 ++ int_bytes minus_one))

-- setNextNodePtr replaces the pointer, and nothing else.
pub set_next_node_ptr-leaf_bytes :
    (es : List Entry) (padding next pid : ℕ)
    → 12 * length es + padding + 4 ≡ page_size
    → set_next_node_ptr (leaf_bytes es padding next) pid ≡ some (leaf_bytes es padding pid)
unfolding set_next_node_ptr fill
set_next_node_ptr-leaf_bytes es padding next pid total =
    ap
      (λ (b : Buffer).
        write_at b 1020 (replicate 4 0) >>= λ (c : Buffer). write_at c 1020 (int_bytes pid))
      (regroup next)
    ∙ ap (λ (o : Option Buffer). o >>= λ (c : Buffer). write_at c 1020 (int_bytes pid))
        (write_at-parts before (int_bytes next) [] (replicate 4 0) 1020 size refl)
    ∙ write_at-parts before (replicate 4 0) [] (int_bytes pid) 1020 size refl
    ∙ ap some (sym (regroup pid))
  where
    before : Buffer
    before = entries_bytes es ++ replicate padding 255

    size : 1020 ≡ length before
    size = omega (
      arith,
      length-append (entries_bytes es) (replicate padding 255),
      length-entries_bytes es,
      length-replicate {A = ℕ} padding 255,
    )

    regroup : (p : ℕ) → leaf_bytes es padding p ≡ before ++ (int_bytes p ++ [])
    regroup p = sym (append_assoc (entries_bytes es) (replicate padding 255) (int_bytes p))

-- getNextNodePtr reads the pointer.
pub get_next_node_ptr-leaf_bytes :
    (es : List Entry) (padding next : ℕ)
    → 12 * length es + padding + 4 ≡ page_size
    → IsInt next
    → get_next_node_ptr (leaf_bytes es padding next) ≡ some next
unfolding get_next_node_ptr
get_next_node_ptr-leaf_bytes es padding next total h =
    load_int-drop (leaf_bytes es padding next) 1020 1020 0 refl (
      drop-append_add 1020 padding (entries_bytes es) (replicate padding 255 ++ int_bytes next)
        (omega (arith, length-entries_bytes es))
      ∙ drop-append padding (replicate padding 255) (int_bytes next)
          (sym (length-replicate padding 255)))
    ∙ int_head-int_bytes next [] h
