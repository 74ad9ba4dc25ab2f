-- ===== src/NonLeafNode/Halves.antt =====
-- insertAndSplit of a non-leaf node: the two pages, the key that goes up, and the refusal.
use mathlib.Core.List.{Perm}
use cs143_p.Base.{
  ℕ, suc, ◌+◌, ◌-◌, ◌*◌, ◌/◌, ◌≤◌, ◌<◌, ◌≡◌, refl, ap, ◌∙◌, sym, subst, List, [], ◌∷◌, ◌++◌, some,
  arith, length, replicate, All, take, drop, ◌>>=◌, take-append-drop, length-take, length-append,
  drop-cons, append_assoc, length-replicate, replicate-append, drop-append, ==_ne, le→leb,
}
use cs143_p.Memory.{Buffer, int_bytes, load_int, read_at, write_at, fill}
use cs143_p.Memory.Laws.{write_at-parts, read_at-parts}
use cs143_p.Ordered.{
  rank, IsSorted, insert_sorted, insert_sorted-Perm, length-insert_sorted, insert_sorted-IsSorted,
  IsSorted-append_separated, IsSorted-append_parts, All-append_parts,
}
use cs143_p.Rc.{success, invalid_attribute}
use cs143_p.NonLeafNode.{
  Split, insert_and_split, move_half, insert_unbounded, get_key_count, new_node,
}
use cs143_p.NonLeafNode.Layout.{
  Pair, pair_key, pairs_bytes, node_page, IsPair, IsNode, length-pairs_bytes, pairs_bytes-append,
}
use cs143_p.NonLeafNode.Count.{get_key_count_pairs, get_key_count_new, load_first}
use cs143_p.NonLeafNode.Insert.{insert_unbounded-node_page}

-- The middle pair gives up its key, and its child becomes the first one of the new node.
module _ (first : ℕ) (xs ys : List Pair) (m : Pair) (ind size : ℕ)
    (room : length xs + suc (length ys) < 127) (at_middle : ind ≡ 8 * length xs)
    (to_end : size ≡ 8 * (length xs + suc (length ys)) + 4) where
  abbrev node : Buffer
  node = node_page first (xs ++ (m ∷ ys))

  abbrev before : Buffer
  before = int_bytes first ++ pairs_bytes xs

  abbrev upper : Buffer
  upper = int_bytes m.pid ++ pairs_bytes ys

  abbrev padding : ℕ
  padding = 1020 - 8 * length (xs ++ (m ∷ ys))

  before-length : ind + 4 ≡ length before
  before-length =
      omega
        (arith, at_middle, length-append (int_bytes first) (pairs_bytes xs), length-pairs_bytes xs)

  upper-length : length upper ≡ 4 + 8 * length ys
  upper-length =
      omega (arith, length-append (int_bytes m.pid) (pairs_bytes ys), length-pairs_bytes ys)

  node-parts : node ≡ before ++ (int_bytes m.key ++ (upper ++ replicate padding 255))
  node-parts =
      ap (λ (b : Buffer). int_bytes first ++ b)
        (ap (λ (b : Buffer). b ++ replicate padding 255) (pairs_bytes-append xs (m ∷ ys))
          ∙ append_assoc (pairs_bytes xs) (pairs_bytes (m ∷ ys)) (replicate padding 255))

  middle_key : IsPair m → load_int node (ind + 4) ≡ some m.key
  middle_key v = load_first node (ind + 4) m.key (upper ++ replicate padding 255) v.key_int (
      ap (drop (ind + 4)) node-parts
      ∙ drop-append (ind + 4) before (int_bytes m.key ++ (upper ++ replicate padding 255))
          before-length)

  upper_read : read_at node (ind + 8) (size - (ind + 8)) ≡ some upper
  upper_read =
      ap (λ (b : Buffer). read_at b (ind + 8) (size - (ind + 8)))
        (node-parts ∙ sym (append_assoc before (int_bytes m.key) (upper ++ replicate padding 255)))
      ∙ read_at-parts (before ++ int_bytes m.key) upper (replicate padding 255) (ind + 8)
          (size - (ind + 8)) (omega (arith, before-length, length-append before (int_bytes m.key)))
          (omega (arith, upper-length, at_middle, to_end))

  sibling_written : write_at new_node 0 upper ≡ some (node_page m.pid ys)
  sibling_written =
      ap (λ (b : Buffer). write_at b 0 upper)
        (sym (replicate-append (4 + 8 * length ys) (1020 - 8 * length ys) 1024 255 (omega arith)))
      ∙ write_at-parts [] (replicate (4 + 8 * length ys) 255) (replicate (1020 - 8 * length ys) 255)
          upper 0 refl
          (omega (arith, upper-length, length-replicate {A = ℕ} (4 + 8 * length ys) 255))

  node_cleared : fill node (ind + 4) 255 (size - (ind + 4)) ≡ some (node_page first xs)
  unfolding fill
  node_cleared =
      ap (λ (b : Buffer). write_at b (ind + 4) cleared)
        (node-parts
          ∙ ap (λ (b : Buffer). before ++ b)
              (sym (append_assoc (int_bytes m.key) upper (replicate padding 255))))
      ∙ write_at-parts before (int_bytes m.key ++ upper) (replicate padding 255) cleared (ind + 4)
          before-length
          (omega (
            arith,
            upper-length,
            at_middle,
            to_end,
            length-append (int_bytes m.key) upper,
            length-replicate {A = ℕ} (size - (ind + 4)) 255,
          ))
      ∙ ap (λ (b : Buffer). some (before ++ b))
          (replicate-append (size - (ind + 4)) padding (1020 - 8 * length xs) 255
            (omega (arith, at_middle, to_end, length-append xs (m ∷ ys))))
    where
      cleared : Buffer
      cleared = replicate (size - (ind + 4)) 255

  move_half-pages :
      IsPair m
      → move_half (node_page first (xs ++ (m ∷ ys))) new_node ind size
        ≡ some (record {
          rc = success;
          node = node_page first xs;
          sibling = node_page m.pid ys;
          mid_key = m.key;
        })
  unfolding move_half
  move_half-pages v = rw (
    middle_key v,
    ◌>>=◌,
    le→leb (ind + 8) size (omega (arith, at_middle, to_end)),
    upper_read,
    ◌>>=◌,
    sibling_written,
    ◌>>=◌,
    node_cleared,
  )

-- insertAndSplit, given what its parts return.
split-parts :
    (buf sibling node : Buffer) (e : Pair) (n mid_key : ℕ) {r : Split}
    → get_key_count sibling ≡ some 0
    → insert_unbounded buf e.key e.pid ≡ some node
    → get_key_count node ≡ some n
    → move_half node sibling (n / 2 * 8) (n * 8 + 4) ≡ some r
    → insert_and_split buf e.key e.pid sibling mid_key ≡ some r
unfolding insert_and_split
split-parts buf sibling node e n mid_key a d f g = rw (a, ◌>>=◌, d, ◌>>=◌, f, ◌>>=◌, g)

-- What a split must leave: two nodes that hold the old pairs and the new one, but for the middle
-- one, whose key goes up and whose child is the first one of the new node.
pub record IsSplit (e : Pair) (first : ℕ) (es : List Pair) (s : Split) : Type 0 where
  pub lower : List Pair
  pub middle : Pair
  pub upper : List Pair
  pub succeeded : s.rc ≡ success
  pub lower_page : IsNode s.node first lower
  pub upper_page : IsNode s.sibling middle.pid upper
  pub key_out : s.mid_key ≡ middle.key
  pub middle_pair : IsPair middle
  pub in_order : insert_sorted pair_key e es ≡ lower ++ (middle ∷ upper)
  pub same_pairs : Perm (lower ++ (middle ∷ upper)) (e ∷ es)
  pub lower_size : length lower ≡ (length es + 1) / 2
  pub sorted : IsSorted pair_key es → IsSorted pair_key lower × IsSorted pair_key upper
  pub separated :
      IsSorted pair_key es
      → All (λ x. rank x.key ≤ rank middle.key) lower
        × All (λ x. rank middle.key ≤ rank x.key) upper

module _ (buf : Buffer) (e : Pair) (first : ℕ) (es : List Pair) (mid_key : ℕ)
    (l : IsNode buf first es) (pair : IsPair e) (some_pairs : 0 < length es)
    (room : length es < 126) where
  split-at :
      (xs ys : List Pair) (m : Pair)
      → insert_sorted pair_key e es ≡ xs ++ (m ∷ ys)
      → length xs ≡ (length es + 1) / 2
      → (s : Split) × (insert_and_split buf e.key e.pid new_node mid_key ≡ some s)
        × IsSplit e first es s
  split-at xs ys m cut half =
      let (wrote, page) = insert_unbounded-node_page e l pair some_pairs room in
      let page' : IsNode (node_page first (xs ++ (m ∷ ys))) first (xs ++ (m ∷ ys)) =
        subst (λ (g : List Pair). IsNode (node_page first g) first g) cut page in
      let n : suc (length es) ≡ length xs + suc (length ys) =
        omega
          (arith, length-insert_sorted pair_key e es, ap length cut, length-append xs (m ∷ ys)) in
      let total = length xs + suc (length ys) in
      let (left, right) = All-append_parts IsPair xs (m ∷ ys) page'.pairs in
      let sorted' = λ (s : IsSorted pair_key es).
        subst (IsSorted pair_key) cut (insert_sorted-IsSorted pair_key e es s) in
      (
        record {
          rc = success;
          node = node_page first xs;
          sibling = node_page m.pid ys;
          mid_key = m.key;
        },
        split-parts buf new_node (node_page first (xs ++ (m ∷ ys))) e total mid_key
            get_key_count_new (wrote ∙ ap (λ (g : List Pair). some (node_page first g)) cut)
            (get_key_count_pairs page' ∙ ap some (length-append xs (m ∷ ys)))
            (move_half-pages first xs ys m (total / 2 * 8) (total * 8 + 4) (omega arith)
              (omega arith) (omega arith) right.0),
        record {
          lower = xs;
          middle = m;
          upper = ys;
          succeeded = refl;
          lower_page = record {
            shape = refl;
            room = omega arith;
            first_int = l.first_int;
            first_set = l.first_set;
            pairs = left;
          };
          upper_page = record {
            shape = refl;
            room = omega arith;
            first_int = right.0.pid_int;
            first_set = right.0.pid_set;
            pairs = right.1;
          };
          key_out = refl;
          middle_pair = right.0;
          in_order = cut;
          same_pairs =
              subst (λ (g : List Pair). Perm g (e ∷ es)) cut (insert_sorted-Perm pair_key e es);
          lower_size = half;
          sorted =
              λ s. let (a, b) = IsSorted-append_parts pair_key xs (m ∷ ys) (sorted' s) in (a, b.1);
          separated =
              λ s. let (a, b) = IsSorted-append_separated pair_key xs ys m (sorted' s) in (a, b.1);
        },
      )

-- insertAndSplit of a pair of `int`s other than -1, with a new sibling, succeeds on every node of
-- 1 to 125 pairs, without leaving the two pages. The middle one of the pairs leaves the nodes: its
-- key is returned, and its child is the first child of the sibling; the pairs before it stay,
-- those behind it move. If the old pairs were sorted, so are both parts, and the returned key
-- separates them.
pub insert_and_split-IsSplit_nonleaf :
    {buf : Buffer} {first : ℕ} {es : List Pair} (e : Pair) (mid_key : ℕ)
    → IsNode buf first es
    → IsPair e
    → 0 < length es
    → length es < 126
    → (s : Split) × (insert_and_split buf e.key e.pid new_node mid_key ≡ some s)
      × IsSplit e first es s
insert_and_split-IsSplit_nonleaf {buf} {first} {es} e mid_key l pair some_pairs room =
    let h = (length es + 1) / 2 in
    let grown = insert_sorted pair_key e es in
    let (m, ys, cut) = drop-cons h grown (omega (arith, length-insert_sorted pair_key e es)) in
    split-at buf e first es mid_key l pair some_pairs room (take h grown) ys m
      (sym (take-append-drop h grown) ∙ ap (λ (t : List Pair). take h grown ++ t) cut)
      (omega (arith, length-take h grown, length-insert_sorted pair_key e es))

-- insertAndSplit refuses a sibling that is a node with pairs, and changes neither the nodes nor
-- the key.
pub insert_and_split-refused_nonleaf :
    {sibling : Buffer} {first : ℕ} {xs : List Pair} (buf : Buffer) (key pid mid_key : ℕ)
    → IsNode sibling first xs
    → 0 < length xs
    → insert_and_split buf key pid sibling mid_key
      ≡ some (record { rc = invalid_attribute; node = buf; sibling = sibling; mid_key = mid_key })
unfolding insert_and_split
insert_and_split-refused_nonleaf {xs} buf key pid mid_key l h =
    rw (get_key_count_pairs l, ◌>>=◌, ==_ne (length xs) 0 (omega arith))
