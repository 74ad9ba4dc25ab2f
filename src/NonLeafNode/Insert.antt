-- ===== src/NonLeafNode/Insert.antt =====
-- insert and _insert of a non-leaf node: the pairs of the new page, on every branch.
use mathlib.Core.List.{Perm}
use cs143_p.Base.{
  ℕ, suc, ◌+◌, ◌-◌, ◌*◌, ◌<◌, ◌≡◌, ◌≢◌, inl, inr, refl, ap, ◌∙◌, sym, ap₂, take-length, List, [],
  ◌∷◌, ◌++◌, some, arith, length, replicate, All, take, drop, drop-length, ◌>>=◌, take-append-drop,
  length-take, length-drop, ==_ne,
}
use cs143_p.Memory.{Buffer, IsInt, minus_one}
use cs143_p.Ordered.{
  insert_sorted, position, position-le, insert_sorted-position, IsSorted, insert_sorted-Perm,
  length-insert_sorted, All-insert_sorted, insert_sorted-IsSorted,
}
use cs143_p.Rc.{success, node_full}
use cs143_p.NonLeafNode.{
  Place, before_pair, free_pair, place_loop, rounds, insert, insert_unbounded, insert_at,
  get_key_count, minus_two,
}
use cs143_p.NonLeafNode.Layout.{Pair, pair_key, node_bytes, node_page, as_page, IsPair, IsNode}
use cs143_p.NonLeafNode.Count.{get_key_count_pairs, page_parts}
use cs143_p.NonLeafNode.Search.{place_loop_lem}
use cs143_p.NonLeafNode.Pairs.{shift_and_write-node_bytes, write_pair-node_bytes}

module _ (e : Pair) (first : ℕ) (es : List Pair) (valid : All IsPair es)
    (room : length es < 126) where
  abbrev pos : ℕ
  pos = position pair_key e.key es

  cut : length (take pos es) ≡ pos
  cut = omega (arith, length-take pos es, position-le pair_key e.key es)

  grown-page :
      some (node_bytes first (take pos es ++ (e ∷ drop pos es)) (1012 - 8 * length es))
      ≡ some (node_page first (insert_sorted pair_key e es))
  grown-page =
      ap (λ (l : List Pair). some (node_bytes first l (1012 - 8 * length es)))
        (sym (insert_sorted-position pair_key e es))
      ∙ ap (λ (k : ℕ). some (node_bytes first (insert_sorted pair_key e es) k))
          (omega (arith, length-insert_sorted pair_key e es))

  insert_before :
      insert_at (node_page first es) e.key e.pid (before_pair (4 + 8 * pos))
      ≡ some (node_page first (insert_sorted pair_key e es))
  unfolding insert_at
  insert_before =
      ap
        (λ (l : List Pair).
          insert_at (node_bytes first l (1020 - 8 * length es)) e.key e.pid
            (before_pair (4 + 8 * pos)))
        (sym (take-append-drop pos es))
      ∙ shift_and_write-node_bytes first (take pos es) (drop pos es) (1020 - 8 * length es)
          (1012 - 8 * length es) (4 + 8 * pos) e (omega arith)
          (omega (arith, cut, length-drop pos es, position-le pair_key e.key es))
          (ap (λ (k : ℕ). 4 + 8 * k) (sym cut))
      ∙ grown-page

  insert_free :
      pos ≡ length es
      → insert_at (node_page first es) e.key e.pid (free_pair (4 + 8 * pos))
        ≡ some (node_page first (insert_sorted pair_key e es))
  unfolding insert_at
  insert_free last =
      write_pair-node_bytes first es [] (1020 - 8 * length es) (1012 - 8 * length es) (4 + 8 * pos)
        e (omega arith) (omega arith) (ap (λ (k : ℕ). 4 + 8 * k) last) refl
      ∙ ap (λ (l : List Pair). some (node_bytes first l (1012 - 8 * length es))) at_end
      ∙ grown-page
    where
      at_end : es ++ (e ∷ []) ≡ take pos es ++ (e ∷ drop pos es)
      at_end =
          ap₂ (λ (l r : List Pair). l ++ (e ∷ r)) (sym (take-length es)) (sym (drop-length es))
          ∙ ap (λ (k : ℕ). take k es ++ (e ∷ drop k es)) (sym last)

  -- The loop and the write behind it, whatever way the loop ends.
  search_and_insert :
      (place : Place) × (place_loop rounds (node_page first es) e.key minus_two 4 ≡ some place)
      × (insert_at (node_page first es) e.key e.pid place
          ≡ some (node_page first (insert_sorted pair_key e es)))
  search_and_insert =
      elim (place_loop_lem rounds (node_page first es) es (replicate (1008 - 8 * length es) 255)
        e.key minus_two 4 (omega arith) valid (λ z. omega arith)
        (ap (drop 4) (page_parts first es (omega arith)))) [
          | inl found ↦ (before_pair (4 + 8 * pos), found, insert_before)
          | inr (last, found) ↦ (free_pair (4 + 8 * pos), found, insert_free last)
        ]

  grown-IsNode :
      IsPair e
      → IsInt first
      → first ≢ minus_one
      → IsNode (node_page first (insert_sorted pair_key e es)) first (insert_sorted pair_key e es)
  grown-IsNode pair int set = record {
    shape = refl;
    room = omega (arith, length-insert_sorted pair_key e es);
    first_int = int;
    first_set = set;
    pairs = All-insert_sorted pair_key IsPair e es pair valid;
  }

-- What an insertion into a non-leaf node must leave: the same first child, the old pairs and the
-- new one, still sorted if they were.
pub record Inserted (e : Pair) (first : ℕ) (es : List Pair) (buf : Buffer) : Type 0 where
  pub pairs : List Pair
  pub page : IsNode buf first pairs
  pub in_order : pairs ≡ insert_sorted pair_key e es
  pub same_pairs : Perm pairs (e ∷ es)
  pub sorted : IsSorted pair_key es → IsSorted pair_key pairs

-- insert, given what its parts return.
module _ (buf : Buffer) (e : Pair) {b : Buffer} (n : ℕ) (place : Place)
    (count : get_key_count buf ≡ some (suc n))
    (found : place_loop rounds buf e.key minus_two 4 ≡ some place)
    (wrote : insert_at buf e.key e.pid place ≡ some b) where
  insert-more : suc n < 70 → insert buf e.key e.pid ≡ some (success, b)
  unfolding insert
  insert-more room = rw (
    count,
    ◌>>=◌,
    ==_ne (suc n) 70 (omega arith),
    ==_ne (suc n) 0 (omega arith),
    found,
    ◌>>=◌,
    wrote,
  )

  insert_unbounded-more : insert_unbounded buf e.key e.pid ≡ some b
  unfolding insert_unbounded
  insert_unbounded-more = rw (count, ◌>>=◌, ==_ne (suc n) 0 (omega arith), found, ◌>>=◌, wrote)

-- On the page of a node with 1 to 69 pairs, with a pair of `int`s other than -1, insert succeeds
-- without leaving the page, and the new page holds the same first child and exactly the old pairs
-- and the new one, sorted if the old ones were.
pub insert-Inserted_nonleaf :
    {buf : Buffer} {first : ℕ} {es : List Pair} (e : Pair)
    → IsNode buf first es
    → IsPair e
    → 0 < length es
    → length es < 70
    → (buf' : Buffer) × (insert buf e.key e.pid ≡ some (success, buf')) × Inserted e first es buf'
insert-Inserted_nonleaf {es = []} e l pair some_pairs room = absurd (omega arith)
insert-Inserted_nonleaf {first} {es = x ∷ xs} e l pair some_pairs room =
    let (place, found, wrote) = search_and_insert e first (x ∷ xs) l.pairs (omega arith) in
    (
      node_page first (insert_sorted pair_key e (x ∷ xs)),
      ap (λ (b : Buffer). insert b e.key e.pid) l.shape
          ∙ insert-more (node_page first (x ∷ xs)) e (length xs) place
              (get_key_count_pairs (as_page l)) found wrote room,
      record {
        pairs = insert_sorted pair_key e (x ∷ xs);
        in_order = refl;
        page = grown-IsNode e first (x ∷ xs) l.pairs (omega arith) pair l.first_int l.first_set;
        same_pairs = insert_sorted-Perm pair_key e (x ∷ xs);
        sorted = insert_sorted-IsSorted pair_key e (x ∷ xs);
      },
    )

-- A node with 70 pairs refuses every pair, and is left as it is.
pub insert_full_nonleaf :
    {buf : Buffer} {first : ℕ} {es : List Pair} (key pid : ℕ)
    → IsNode buf first es
    → length es ≡ 70
    → insert buf key pid ≡ some (node_full, buf)
unfolding insert
insert_full_nonleaf key pid l full = rw (get_key_count_pairs l, ◌>>=◌, full)

-- _insert takes the pair also above 70 pairs.
pub insert_unbounded-node_page :
    {buf : Buffer} {first : ℕ} {es : List Pair} (e : Pair)
    → IsNode buf first es
    → IsPair e
    → 0 < length es
    → length es < 126
    → (insert_unbounded buf e.key e.pid ≡ some (node_page first (insert_sorted pair_key e es)))
      × IsNode (node_page first (insert_sorted pair_key e es)) first (insert_sorted pair_key e es)
insert_unbounded-node_page {es = []} e l pair some_pairs room = absurd (omega arith)
insert_unbounded-node_page {first} {es = x ∷ xs} e l pair some_pairs room =
    let (place, found, wrote) = search_and_insert e first (x ∷ xs) l.pairs room in
    (
      ap (λ (b : Buffer). insert_unbounded b e.key e.pid) l.shape
          ∙ insert_unbounded-more (node_page first (x ∷ xs)) e (length xs) place
              (get_key_count_pairs (as_page l)) found wrote,
      grown-IsNode e first (x ∷ xs) l.pairs room pair l.first_int l.first_set,
    )
