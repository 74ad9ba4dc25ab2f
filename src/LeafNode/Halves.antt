-- ===== src/LeafNode/Halves.antt =====
-- insertAndSplit of a leaf: the two pages, the key for the parent, and the refusal.
use mathlib.Core.List.{Perm}
use cs143_p.Base.{
  ℕ, suc, ◌+◌, ◌-◌, ◌*◌, ◌/◌, ◌≤◌, ◌<◌, ◌≡◌, refl, ap, ◌∙◌, sym, subst, List, [], ◌∷◌, ◌++◌, some,
  arith, length, replicate, All, take, drop, ◌>>=◌, take-append-drop, length-take, length-append,
  drop-cons, append_assoc, length-replicate, replicate-append, drop-append, ==_ne,
}
use cs143_p.Memory.{Buffer, int_bytes, minus_one, load_int, read_at, write_at, fill}
use cs143_p.Memory.Laws.{write_at-parts, read_at-parts}
use cs143_p.Rc.{success, invalid_attribute}
use cs143_p.RecordId.{RecordId}
use cs143_p.LeafNode.{
  Split, insert_and_split, move_half, insert_unbounded, get_key_count, get_next_node_ptr,
  set_next_node_ptr,
}
use cs143_p.LeafNode.Layout.{
  Entry, entry_key, entries_bytes, leaf_page, IsEntry, IsLeaf, length-entries_bytes,
  entries_bytes-append,
}
use cs143_p.LeafNode.Count.{get_key_count_lem}
use cs143_p.LeafNode.Search.{load_key-drop}
use cs143_p.LeafNode.Slot.{set_next_node_ptr-leaf_bytes, get_next_node_ptr-leaf_bytes}
use cs143_p.LeafNode.Insert.{insert_unbounded-leaf_page}
use cs143_p.Ordered.{
  All-append_parts, insert_sorted, rank, IsSorted, insert_sorted-Perm, length-insert_sorted,
  insert_sorted-IsSorted, IsSorted-append_separated, IsSorted-append_parts,
}

-- The slots from the middle one on move to an empty sibling.
module _ (xs ys : List Entry) (y : Entry) (p q ind size : ℕ)
    (room : length xs + suc (length ys) < 85) (at_middle : ind ≡ 12 * length xs)
    (to_end : size ≡ 12 * (length xs + suc (length ys))) where
  node : Buffer
  node = leaf_page (xs ++ (y ∷ ys)) p

  upper : Buffer
  upper = entries_bytes (y ∷ ys)

  padding : ℕ
  padding = 1020 - 12 * length (xs ++ (y ∷ ys))

  after : Buffer
  after = replicate padding 255 ++ int_bytes p

  upper-length : size - ind ≡ length upper
  unfolding upper
  upper-length = omega (arith, length-entries_bytes (y ∷ ys))

  node-parts : node ≡ entries_bytes xs ++ (upper ++ after)
  unfolding node upper after padding
  node-parts =
      ap (λ (b : Buffer). b ++ after) (entries_bytes-append xs (y ∷ ys))
      ∙ append_assoc (entries_bytes xs) (entries_bytes (y ∷ ys)) after

  middle_key : IsEntry y → load_int node (ind + 8) ≡ some y.key
  unfolding upper
  middle_key v = load_key-drop node ind y (entries_bytes ys ++ after) v (
      ap (drop ind) node-parts
      ∙ drop-append ind (entries_bytes xs) (upper ++ after)
          (omega (arith, at_middle, length-entries_bytes xs)))

  upper_read : read_at node ind (size - ind) ≡ some upper
  upper_read =
      ap (λ (b : Buffer). read_at b ind (size - ind)) node-parts
      ∙ read_at-parts (entries_bytes xs) upper after ind (size - ind)
          (omega (arith, at_middle, length-entries_bytes xs)) upper-length

  sibling_written : write_at (leaf_page [] q) 0 upper ≡ some (leaf_page (y ∷ ys) q)
  unfolding upper
  sibling_written =
      ap (λ (b : Buffer). write_at (b ++ int_bytes q) 0 upper)
        (sym (replicate-append used free 1020 255 (omega arith)))
      ∙ ap (λ (b : Buffer). write_at b 0 upper)
          (append_assoc (replicate used 255) (replicate free 255) (int_bytes q))
      ∙ write_at-parts [] (replicate used 255) (replicate free 255 ++ int_bytes q) upper 0 refl
          (omega (arith, length-entries_bytes (y ∷ ys), length-replicate {A = ℕ} used 255))
    where
      used : ℕ
      used = 12 * length (y ∷ ys)

      free : ℕ
      free = 1020 - 12 * length (y ∷ ys)

  node_cleared : fill node ind 255 (size - ind) ≡ some (leaf_page xs p)
  unfolding fill padding after
  node_cleared =
      ap (λ (b : Buffer). write_at b ind cleared) node-parts
      ∙ write_at-parts (entries_bytes xs) upper after cleared ind
          (omega (arith, at_middle, length-entries_bytes xs))
          (omega (arith, upper-length, length-replicate {A = ℕ} (size - ind) 255))
      ∙ ap (λ (b : Buffer). some (entries_bytes xs ++ b))
          (sym (append_assoc cleared (replicate padding 255) (int_bytes p)))
      ∙ ap (λ (b : Buffer). some (entries_bytes xs ++ (b ++ int_bytes p)))
          (replicate-append (size - ind) padding (1020 - 12 * length xs) 255
            (omega (arith, at_middle, to_end, length-append xs (y ∷ ys))))
    where
      cleared : Buffer
      cleared = replicate (size - ind) 255

  move_half-pages :
      IsEntry y
      → move_half (leaf_page (xs ++ (y ∷ ys)) p) (leaf_page [] q) ind size
        ≡ some (record {
          rc = success;
          node = leaf_page xs p;
          sibling = leaf_page (y ∷ ys) q;
          sibling_key = y.key;
        })
  unfolding move_half node
  move_half-pages v =
      rw (middle_key v, ◌>>=◌, upper_read, ◌>>=◌, sibling_written, ◌>>=◌, node_cleared)

-- insertAndSplit, given what its parts return.
split-parts :
    (buf sibling s node : Buffer) (e : Entry) (n next sibling_key : ℕ) {r : Split}
    → get_key_count sibling ≡ some 0
    → get_next_node_ptr buf ≡ some next
    → set_next_node_ptr sibling next ≡ some s
    → insert_unbounded buf e.key e.rid ≡ some node
    → get_key_count node ≡ some n
    → move_half node s (n / 2 * 12) (n * 12) ≡ some r
    → insert_and_split buf e.key e.rid sibling sibling_key ≡ some r
unfolding insert_and_split
split-parts buf sibling s node e n next sibling_key a b c d f g =
    rw (a, ◌>>=◌, b, ◌>>=◌, c, ◌>>=◌, d, ◌>>=◌, f, ◌>>=◌, g)

-- What a split must leave: two leaves with the old entries and the new one between them, cut in
-- the middle, the upper one with the old pointer, and the first key of the upper one.
pub record IsSplit (e : Entry) (es : List Entry) (next : ℕ) (s : Split) : Type 0 where
  pub lower : List Entry
  pub first : Entry
  pub others : List Entry
  pub succeeded : s.rc ≡ success
  pub node_page : IsLeaf s.node lower minus_one
  pub sibling_page : IsLeaf s.sibling (first ∷ others) next
  pub key_out : s.sibling_key ≡ first.key
  pub in_order : insert_sorted entry_key e es ≡ lower ++ (first ∷ others)
  pub same_entries : Perm (lower ++ (first ∷ others)) (e ∷ es)
  pub lower_size : length lower ≡ (length es + 1) / 2
  pub sorted :
      IsSorted entry_key es → IsSorted entry_key lower × IsSorted entry_key (first ∷ others)
  pub separated :
      IsSorted entry_key es
      → All (λ x. rank x.key ≤ rank first.key) lower
        × All (λ x. rank first.key ≤ rank x.key) (first ∷ others)

module _ (buf sibling : Buffer) (e : Entry) (es : List Entry) (next q sibling_key : ℕ)
    (l : IsLeaf buf es next) (empty : IsLeaf sibling [] q) (entry : IsEntry e)
    (some_entries : 0 < length es) (room : length es < 84) where
  split-at :
      (xs ys : List Entry) (y : Entry)
      → insert_sorted entry_key e es ≡ xs ++ (y ∷ ys)
      → length xs ≡ (length es + 1) / 2
      → (s : Split) × (insert_and_split buf e.key e.rid sibling sibling_key ≡ some s)
        × IsSplit e es next s
  split-at xs ys y cut half =
      let (wrote, page) = insert_unbounded-leaf_page e l entry some_entries room in
      let page' : IsLeaf (leaf_page (xs ++ (y ∷ ys)) minus_one) (xs ++ (y ∷ ys)) minus_one =
        subst (λ (g : List Entry). IsLeaf (leaf_page g minus_one) g minus_one) cut page in
      let n : suc (length es) ≡ length xs + suc (length ys) =
        omega
          (arith, length-insert_sorted entry_key e es, ap length cut, length-append xs (y ∷ ys)) in
      let (left, right) = All-append_parts IsEntry xs (y ∷ ys) page'.entries in
      let sorted' = λ (s : IsSorted entry_key es).
        subst (IsSorted entry_key) cut (insert_sorted-IsSorted entry_key e es s) in
      (
        record {
          rc = success;
          node = leaf_page xs minus_one;
          sibling = leaf_page (y ∷ ys) next;
          sibling_key = y.key;
        },
        split-parts buf sibling (leaf_page [] next) (leaf_page (xs ++ (y ∷ ys)) minus_one) e
            (length xs + suc (length ys)) next sibling_key (get_key_count_lem empty)
            (ap get_next_node_ptr l.shape
              ∙ get_next_node_ptr-leaf_bytes es (1020 - 12 * length es) next (omega arith)
                  l.next_int)
            (ap (λ (b : Buffer). set_next_node_ptr b next) empty.shape
              ∙ set_next_node_ptr-leaf_bytes [] 1020 q next refl)
            (wrote ∙ ap (λ (g : List Entry). some (leaf_page g minus_one)) cut)
            (get_key_count_lem page' ∙ ap some (length-append xs (y ∷ ys)))
            (move_half-pages xs ys y minus_one next ((length xs + suc (length ys)) / 2 * 12)
              ((length xs + suc (length ys)) * 12) (omega arith) (omega arith) (omega arith)
              right.0),
        record {
          lower = xs;
          first = y;
          others = ys;
          succeeded = refl;
          node_page = record {
            shape = refl;
            room = omega arith;
            entries = left;
            next_int = omega arith;
          };
          sibling_page = record {
            shape = refl;
            room = omega arith;
            entries = right;
            next_int = l.next_int;
          };
          key_out = refl;
          in_order = cut;
          same_entries =
              subst (λ (g : List Entry). Perm g (e ∷ es)) cut (insert_sorted-Perm entry_key e es);
          lower_size = half;
          sorted = λ s. IsSorted-append_parts entry_key xs (y ∷ ys) (sorted' s);
          separated = λ s. IsSorted-append_separated entry_key xs ys y (sorted' s);
        },
      )

-- insertAndSplit of a pair whose parts are `int`s other than -1, with an empty sibling, succeeds
-- on every leaf of 1 to 83 entries, without leaving the two pages: the old entries and the new one
-- are divided in the middle, the upper half moves to the sibling, which takes over the pointer,
-- the leaf's own pointer becomes -1, and the first key of the sibling is returned. If the old
-- entries were sorted, so are both halves, and that key separates them.
pub insert_and_split-IsSplit :
    {buf sibling : Buffer} {es : List Entry} {next q : ℕ} (e : Entry) (sibling_key : ℕ)
    → IsLeaf buf es next
    → IsLeaf sibling [] q
    → IsEntry e
    → 0 < length es
    → length es < 84
    → (s : Split) × (insert_and_split buf e.key e.rid sibling sibling_key ≡ some s)
      × IsSplit e es next s
insert_and_split-IsSplit {buf} {sibling} {es} {next} {q} e sibling_key l empty entry some_entries
      room =
    let m = (length es + 1) / 2 in
    let grown = insert_sorted entry_key e es in
    let (y, ys, cut) = drop-cons m grown (omega (arith, length-insert_sorted entry_key e es)) in
    split-at buf sibling e es next q sibling_key l empty entry some_entries room (take m grown) ys y
      (sym (take-append-drop m grown) ∙ ap (λ (t : List Entry). take m grown ++ t) cut)
      (omega (arith, length-take m grown, length-insert_sorted entry_key e es))

-- insertAndSplit refuses a sibling that is a leaf with entries, and changes neither the nodes nor
-- the key.
pub insert_and_split-refused :
    {sibling : Buffer} {xs : List Entry} {q : ℕ} (buf : Buffer) (key : ℕ) (rid : RecordId)
    (sibling_key : ℕ)
    → IsLeaf sibling xs q
    → 0 < length xs
    → insert_and_split buf key rid sibling sibling_key
      ≡ some (record {
        rc = invalid_attribute;
        node = buf;
        sibling = sibling;
        sibling_key = sibling_key;
      })
unfolding insert_and_split
insert_and_split-refused {xs} buf key rid sibling_key l h =
    rw (get_key_count_lem l, ◌>>=◌, ==_ne (length xs) 0 (omega arith))
