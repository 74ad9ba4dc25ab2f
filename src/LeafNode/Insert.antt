-- ===== src/LeafNode/Insert.antt =====
-- insert and _insert of a leaf: the entries of the new page, on every branch.
use mathlib.Core.List.{Perm}
use cs143_p.Base.{
  ℕ, suc, ◌-◌, ◌*◌, ◌<◌, ◌≡◌, refl, ap, ◌∙◌, sym, List, [], ◌∷◌, ◌++◌, some, arith, length,
  replicate, All, take, drop, ◌>>=◌, take-append-drop, length-take, length-drop, ==_ne,
}
use cs143_p.Memory.{Buffer, IsInt, int_bytes, minus_one}
use cs143_p.Rc.{success, node_full}
use cs143_p.RecordId.{RecordId}
use cs143_p.LeafNode.{
  Place, before_slot, shift_and_write, place_loop, rounds, insert, insert_unbounded, insert_at,
  insert_unbounded_at, write_slot, get_key_count,
}
use cs143_p.LeafNode.Layout.{
  Entry, entry_key, entries_bytes, leaf_bytes, leaf_page, as_page, IsEntry, IsLeaf,
}
use cs143_p.LeafNode.Count.{get_key_count_lem, padding_split}
use cs143_p.LeafNode.Search.{place_loop_lem}
use cs143_p.Ordered.{
  insert_sorted, position, position-le, insert_sorted-position, IsSorted, insert_sorted-Perm,
  length-insert_sorted, All-insert_sorted, insert_sorted-IsSorted,
}
use cs143_p.LeafNode.Slot.{
  write_slot-parts, shift_and_write-leaf_bytes, set_next_node_ptr-leaf_bytes,
  get_next_node_ptr-leaf_bytes,
}

module _ (e : Entry) (es : List Entry) (next : ℕ) (valid : All IsEntry es) where
  place_in_leaf :
      (fuel : ℕ)
      → length es < 85
      → length es < fuel
      → place_loop fuel (leaf_page es next) e.key 0 0
        ≡ some (before_slot (12 * position entry_key e.key es))
  place_in_leaf fuel room enough =
      place_loop_lem fuel (leaf_page es next) es
        (replicate (1008 - 12 * length es) 255 ++ int_bytes next) e.key 0 0 enough valid
        (λ z. omega arith)
        (ap (λ (b : Buffer). entries_bytes es ++ b)
          (padding_split (length es) (int_bytes next) room))
      ∙ ap (λ (k : ℕ). some (before_slot k)) (omega arith)

  shifted :
      length es < 84
      → shift_and_write (leaf_page es next) (12 * position entry_key e.key es) e.key e.rid
        ≡ some (leaf_page (insert_sorted entry_key e es) minus_one)
  shifted room =
      ap (λ (l : List Entry). shift_and_write (leaf_bytes l padding next) ind e.key e.rid)
        (sym (take-append-drop pos es))
      ∙ shift_and_write-leaf_bytes (take pos es) (drop pos es) padding (1008 - 12 * length es) next
          ind e (omega arith)
          (omega (arith, cut, length-drop pos es, position-le entry_key e.key es))
          (ap (λ (k : ℕ). 12 * k) (sym cut))
      ∙ ap (λ (l : List Entry). some (leaf_bytes l (1008 - 12 * length es) minus_one))
          (sym (insert_sorted-position entry_key e es))
      ∙ ap (λ (k : ℕ). some (leaf_bytes (insert_sorted entry_key e es) k minus_one))
          (omega (arith, length-insert_sorted entry_key e es))
    where
      pos : ℕ
      pos = position entry_key e.key es

      ind : ℕ
      ind = 12 * pos

      padding : ℕ
      padding = 1020 - 12 * length es

      cut : length (take pos es) ≡ pos
      cut = omega (arith, length-take pos es, position-le entry_key e.key es)

  insert_at-leaf :
      length es < 84
      → IsInt next
      → insert_at (leaf_page es next) e.key e.rid (before_slot (12 * position entry_key e.key es))
        ≡ some (leaf_page (insert_sorted entry_key e es) next)
  unfolding insert_at
  insert_at-leaf room int =
      let grown = insert_sorted entry_key e es in
      rw
        (
          get_next_node_ptr-leaf_bytes es (1020 - 12 * length es) next (omega arith) int,
          ◌>>=◌,
          shifted room,
          ◌>>=◌,
        )
        (set_next_node_ptr-leaf_bytes grown (1020 - 12 * length grown) minus_one next
          (omega (arith, length-insert_sorted entry_key e es)))

  grown-IsLeaf :
      (p : ℕ)
      → IsEntry e
      → length es < 84
      → IsInt p
      → IsLeaf (leaf_page (insert_sorted entry_key e es) p) (insert_sorted entry_key e es) p
  grown-IsLeaf p entry room int = record {
    shape = refl;
    room = omega (arith, length-insert_sorted entry_key e es);
    entries = All-insert_sorted entry_key IsEntry e es entry valid;
    next_int = int;
  }

-- The first pair of an empty leaf.
write_first :
    (e : Entry) (next : ℕ)
    → write_slot (leaf_page [] next) 0 e.key e.rid ≡ some (leaf_page (e ∷ []) next)
write_first e next =
    write_slot-parts [] (replicate 12 255) (replicate 1008 255 ++ int_bytes next) 0 e refl refl

-- insert, given what its parts return.
module _ (buf : Buffer) (e : Entry) where
  insert-first :
      {b : Buffer}
      → get_key_count buf ≡ some 0
      → write_slot buf 0 e.key e.rid ≡ some b
      → insert buf e.key e.rid ≡ some (success, b)
  unfolding insert
  insert-first count wrote = rw (count, ◌>>=◌, wrote)

  insert-more :
      {b : Buffer} (n : ℕ) (place : Place)
      → get_key_count buf ≡ some (suc n)
      → suc n < 70
      → place_loop rounds buf e.key 0 0 ≡ some place
      → insert_at buf e.key e.rid place ≡ some b
      → insert buf e.key e.rid ≡ some (success, b)
  unfolding insert
  insert-more n place count room found wrote = rw (
    count,
    ◌>>=◌,
    ==_ne (suc n) 70 (omega arith),
    ==_ne (suc n) 0 (omega arith),
    found,
    ◌>>=◌,
    wrote,
  )

  insert_unbounded-first :
      {b : Buffer}
      → get_key_count buf ≡ some 0
      → write_slot buf 0 e.key e.rid ≡ some b
      → insert_unbounded buf e.key e.rid ≡ some b
  unfolding insert_unbounded
  insert_unbounded-first count wrote = rw (count, ◌>>=◌, wrote)

  insert_unbounded-more :
      {b : Buffer} (n : ℕ) (place : Place)
      → get_key_count buf ≡ some (suc n)
      → place_loop rounds buf e.key 0 0 ≡ some place
      → insert_unbounded_at buf e.key e.rid place ≡ some b
      → insert_unbounded buf e.key e.rid ≡ some b
  unfolding insert_unbounded
  insert_unbounded-more n place count found wrote =
      rw (count, ◌>>=◌, ==_ne (suc n) 0 (omega arith), found, ◌>>=◌, wrote)

insert-page :
    (e : Entry) (es : List Entry) (next : ℕ)
    → IsLeaf (leaf_page es next) es next
    → length es < 70
    → insert (leaf_page es next) e.key e.rid
      ≡ some (success, leaf_page (insert_sorted entry_key e es) next)
unfolding insert_sorted
insert-page e [] next l room =
    insert-first (leaf_page [] next) e (get_key_count_lem l) (write_first e next)
insert-page e (x ∷ xs) next l room =
    let place = before_slot (12 * position entry_key e.key (x ∷ xs)) in
    insert-more (leaf_page (x ∷ xs) next) e (length xs) place (get_key_count_lem l) room
      (place_in_leaf e (x ∷ xs) next l.entries rounds (omega arith) (omega arith))
      (insert_at-leaf e (x ∷ xs) next l.entries (omega arith) l.next_int)

insert_unbounded-page :
    (e : Entry) (x : Entry) (xs : List Entry) (next : ℕ)
    → IsLeaf (leaf_page (x ∷ xs) next) (x ∷ xs) next
    → length (x ∷ xs) < 84
    → insert_unbounded (leaf_page (x ∷ xs) next) e.key e.rid
      ≡ some (leaf_page (insert_sorted entry_key e (x ∷ xs)) minus_one)
unfolding insert_unbounded_at
insert_unbounded-page e x xs next l room =
    let place = before_slot (12 * position entry_key e.key (x ∷ xs)) in
    insert_unbounded-more (leaf_page (x ∷ xs) next) e (length xs) place (get_key_count_lem l)
      (place_in_leaf e (x ∷ xs) next l.entries rounds (omega arith) (omega arith))
      (shifted e (x ∷ xs) next l.entries room)

-- What an insertion into a leaf must leave: the page of a leaf that holds the old entries and the
-- new one, still sorted if they were, and the given pointer.
pub record Inserted (e : Entry) (es : List Entry) (next : ℕ) (buf : Buffer) : Type 0 where
  pub entries : List Entry
  pub page : IsLeaf buf entries next
  pub in_order : entries ≡ insert_sorted entry_key e es
  pub same_entries : Perm entries (e ∷ es)
  pub sorted : IsSorted entry_key es → IsSorted entry_key entries

Inserted-page :
    (e : Entry) (es : List Entry) (next p : ℕ)
    → IsLeaf (leaf_page es next) es next
    → IsEntry e
    → length es < 84
    → IsInt p
    → Inserted e es p (leaf_page (insert_sorted entry_key e es) p)
Inserted-page e es next p l entry room int = record {
  entries = insert_sorted entry_key e es;
  page = grown-IsLeaf e es next l.entries p entry room int;
  in_order = refl;
  same_entries = insert_sorted-Perm entry_key e es;
  sorted = insert_sorted-IsSorted entry_key e es;
}

-- On the page of a leaf with fewer than 70 entries, with a pair whose parts are `int`s other than
-- -1, insert succeeds without leaving the page, and the new page holds exactly the old entries and
-- the new one, sorted if the old ones were, and the same pointer to the next leaf.
pub insert-Inserted :
    {buf : Buffer} {es : List Entry} {next : ℕ} (e : Entry)
    → IsLeaf buf es next
    → IsEntry e
    → length es < 70
    → (buf' : Buffer) × (insert buf e.key e.rid ≡ some (success, buf')) × Inserted e es next buf'
insert-Inserted {es} {next} e l entry room = (
  leaf_page (insert_sorted entry_key e es) next,
  ap (λ (b : Buffer). insert b e.key e.rid) l.shape ∙ insert-page e es next (as_page l) room,
  Inserted-page e es next next (as_page l) entry (omega arith) l.next_int,
)

-- A leaf with 70 entries refuses every pair, and is left as it is.
pub insert_full :
    {buf : Buffer} {es : List Entry} {next : ℕ} (key : ℕ) (rid : RecordId)
    → IsLeaf buf es next
    → length es ≡ 70
    → insert buf key rid ≡ some (node_full, buf)
unfolding insert
insert_full key rid l full = rw (get_key_count_lem l, ◌>>=◌, full)

-- _insert on a page that is not empty takes the pair also above 70 entries; the pointer to the next
-- leaf is overwritten by -1.
pub insert_unbounded-leaf_page :
    {buf : Buffer} {es : List Entry} {next : ℕ} (e : Entry)
    → IsLeaf buf es next
    → IsEntry e
    → 0 < length es
    → length es < 84
    → (insert_unbounded buf e.key e.rid ≡ some (leaf_page (insert_sorted entry_key e es) minus_one))
      × IsLeaf
          (leaf_page (insert_sorted entry_key e es) minus_one)
          (insert_sorted entry_key e es)
          minus_one
insert_unbounded-leaf_page {es = []} e l entry some_entries room = absurd (omega arith)
insert_unbounded-leaf_page {es = x ∷ xs} {next} e l entry some_entries room = (
  ap (λ (b : Buffer). insert_unbounded b e.key e.rid) l.shape
      ∙ insert_unbounded-page e x xs next (as_page l) room,
  grown-IsLeaf e (x ∷ xs) next l.entries minus_one entry room (omega arith),
)
