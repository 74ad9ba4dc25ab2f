-- ===== src/NonLeafNode/Child.antt =====
-- locateChildPtr: the child whose key range holds the search key; and initializeRoot.
use cs143_p.Base.{
  ℕ, zero, suc, ◌+◌, ◌-◌, ◌*◌, ◌<◌, ◌≤◌, ◌≡◌, ◌≢◌, refl, ap, ◌∙◌, sym, List, [], ◌∷◌, ◌++◌, some,
  arith, length, replicate, All, drop, drop-drop, ◌>>=◌, Bool-cases, inl, inr, if◌then◌else◌,
  append-nil,
}
use cs143_p.Memory.{Buffer, IsInt, int_bytes, minus_one, slt, page_size, fill, write_at}
use cs143_p.Memory.Laws.{write_at-parts}
use cs143_p.Ordered.{rank, IsSorted}
use cs143_p.Rc.{success}
use cs143_p.NonLeafNode.{child_loop, locate_child_ptr, rounds, minus_two, initialize_root}
use cs143_p.NonLeafNode.Layout.{Pair, pair_key, pair_bytes, pairs_bytes, node_page, IsPair, IsNode}
use cs143_p.NonLeafNode.Count.{load_first, load_second, page_parts}

-- The child in front of the first larger key, or the last one.
unfoldable pub child_of : ℕ → ℕ → List Pair → ℕ
child_of key first [] = first
child_of key first (e ∷ es) = if slt key e.key then first else child_of key e.pid es

-- The child behind the last pair.
abbrev pub last_child : ℕ → List Pair → ℕ
last_child first [] = first
last_child first (e ∷ es) = last_child e.pid es

-- `pid` is the child between the keys that are at most `key` and those that are larger.
pub record IsChild (key first : ℕ) (es : List Pair) (pid : ℕ) : Type 0 where
  pub left : List Pair
  pub right : List Pair
  pub parts : es ≡ left ++ right
  pub between : pid ≡ last_child first left
  pub at_most : All (λ e. rank e.key ≤ rank key) left
  pub larger : All (λ e. rank key < rank e.key) right

child_loop_lem :
    (fuel : ℕ) (buf : Buffer) (es : List Pair) (rest : Buffer) (key pid curr p ind : ℕ)
    → length es < fuel
    → All IsPair es
    → curr ≢ minus_one
    → p ≢ minus_one
    → IsInt p
    → drop ind buf ≡ int_bytes p ++ (pairs_bytes es ++ (replicate 12 255 ++ rest))
    → child_loop fuel buf key pid curr ind ≡ some (success, child_of key p es)
unfolding child_loop child_of
child_loop_lem zero buf es rest key pid curr p ind h v c sp hp d = absurd (omega arith)
child_loop_lem (suc fuel) buf [] rest key pid curr p ind h v c sp hp d = ground (
  arith,
  load_first buf ind p (replicate 12 255 ++ rest) hp d,
  load_second buf ind p minus_one (replicate 8 255 ++ rest),
)
child_loop_lem (suc fuel) buf (e ∷ es) rest key pid curr p ind h v c sp hp d =
    let after = pairs_bytes es ++ (replicate 12 255 ++ rest) in
    ground (
      arith,
      load_first buf ind p (pair_bytes e ++ after) hp d,
      load_second buf ind p e.key (int_bytes e.pid ++ after) v.0.key_int d,
      child_loop_lem fuel buf es rest key pid p e.pid (ind + 8) (omega arith) v.1 sp v.0.pid_set
          v.0.pid_int (drop-drop (ind + 8) ind 8 buf refl ∙ ap (λ (b : Buffer). drop 8 b) d),
    )

All-larger :
    (key : ℕ) (x : Pair) (es : List Pair)
    → rank key < rank x.key
    → All (λ y. rank x.key ≤ rank y.key) es
    → All (λ y. rank key < rank y.key) es
All-larger key x [] h v = tt
All-larger key x (e ∷ es) h v = (omega arith, All-larger key x es h v.1)

pub child_of-IsChild :
    (key first : ℕ) (es : List Pair)
    → IsSorted pair_key es
    → IsChild key first es (child_of key first es)
unfolding child_of
child_of-IsChild key first [] s = record {
  left = [];
  right = [];
  parts = refl;
  between = refl;
  at_most = tt;
  larger = tt;
}
child_of-IsChild key first (e ∷ es) s = elim (Bool-cases (slt key e.key)) [
  | inl less ↦
      let below : rank key < rank e.key = ground arith in
      rw less (record {
        left = [];
        right = e ∷ es;
        parts = refl;
        between = refl;
        at_most = tt;
        larger = (below, All-larger key e es below s.0);
      })
  | inr more ↦ rw more (further (child_of-IsChild key e.pid es s.1) (ground arith))
]
  where
    further :
        {pid : ℕ}
        → IsChild key e.pid es pid
        → rank e.key ≤ rank key
        → IsChild key first (e ∷ es) pid
    further c above = record {
      left = e ∷ c.left;
      right = c.right;
      parts = ap (◌∷◌ e) c.parts;
      between = c.between;
      at_most = (above, c.at_most);
      larger = c.larger;
    }

pub child_ptr :
    (key pid : ℕ) {buf : Buffer} {first : ℕ} {es : List Pair}
    → IsNode buf first es
    → locate_child_ptr buf key pid ≡ some (success, child_of key first es)
unfolding locate_child_ptr
child_ptr key pid {buf} {first} {es} l =
    child_loop_lem rounds buf es (replicate (1008 - 8 * length es) 255) key pid minus_two first 0
      (omega (arith, l.room)) l.pairs (λ z. omega arith) l.first_set l.first_int
      (l.shape ∙ page_parts first es l.room)

-- On a node with sorted keys locateChildPtr always succeeds, and returns the child that stands
-- behind every key up to the search key and in front of every larger one.
pub locate_child_ptr-IsChild :
    {buf : Buffer} {first : ℕ} {es : List Pair} (key pid : ℕ)
    → IsNode buf first es
    → IsSorted pair_key es
    → (child : ℕ) × (locate_child_ptr buf key pid ≡ some (success, child))
      × IsChild key first es child
locate_child_ptr-IsChild {first} {es} key pid l s =
    (child_of key first es, child_ptr key pid l, child_of-IsChild key first es s)

clear_page :
    (buf : Buffer)
    → length buf ≡ page_size
    → fill buf 0 255 page_size ≡ some (replicate page_size 255)
unfolding fill
clear_page buf h =
    ap (λ (b : Buffer). write_at b 0 (replicate page_size 255)) (sym (append-nil buf))
    ∙ write_at-parts [] buf [] (replicate page_size 255) 0 refl (sym h)

-- initializeRoot makes any page of 1024 bytes a node with the two children and the key between
-- them, if these are `int`s other than -1.
pub initialize_root-IsNode :
    (buf : Buffer) (first key pid : ℕ)
    → length buf ≡ page_size
    → IsInt first
    → first ≢ minus_one
    → IsPair (record { key = key; pid = pid })
    → (buf' : Buffer) × (initialize_root buf first key pid ≡ some buf')
      × IsNode buf' first (record { key = key; pid = pid } ∷ [])
unfolding initialize_root
initialize_root-IsNode buf first key pid h int set pair = (
  node_page first (record { key = key; pid = pid } ∷ []),
  rw
      (
        clear_page buf h,
        ◌>>=◌,
        write_at-parts [] (replicate 4 255) (replicate 1020 255) (int_bytes first) 0 refl refl,
        ◌>>=◌,
        write_at-parts (int_bytes first) (replicate 4 255) (replicate 1016 255) (int_bytes key) 4
            refl refl,
        ◌>>=◌,
      )
      (write_at-parts (int_bytes first ++ int_bytes key) (replicate 4 255) (replicate 1012 255)
        (int_bytes pid) 8 refl refl),
  record { shape = refl; room = omega arith; first_int = int; first_set = set; pairs = (pair, tt) },
)
