-- ===== src/BTreeIndex/Leaves.antt =====
-- The insertion into a leaf of the tree.
use cs143_p.Base.{
  ℕ, ◌-◌, ◌*◌, ◌^◌, ◌≤◌, ◌<◌, ◌≡◌, ◌≢◌, ◌⊎◌, inl, inr, refl, ap, subst, sym, ◌∙◌, List, [], ◌∷◌,
  ◌++◌, some, arith, length, replicate, All, Bool-cases, ltb, ◌==◌, ==_ne, ==_refl, false,
  length-append,
}
use cs143_p.Memory.{Buffer, minus_one, page_size}
use cs143_p.Ordered.{rank, insert_sorted, length-insert_sorted, All-insert_sorted, All-append_parts}
use cs143_p.Ordered.Strict.{
  IsIncreasing, IsSorted-IsIncreasing, IsIncreasing-append_parts, IsIncreasing-append_separated,
}
use cs143_p.Rc.{success, node_full}
use cs143_p.PageFile.{read}
use cs143_p.PageFile.Os.{System, Laws}
use cs143_p.PageFile.Usable.{Reliable}
use cs143_p.LeafNode
use cs143_p.LeafNode.Layout.{
  Entry, entry_key, IsEntry, IsLeaf, leaf_page, new_node-IsLeaf, length-IsLeaf,
}
use cs143_p.LeafNode.Slot.{set_next_node_ptr-leaf_bytes}
use cs143_p.LeafNode.Insert.{Inserted, insert-Inserted, insert_full}
use cs143_p.LeafNode.Halves.{insert_and_split-IsSplit}
use cs143_p.BTreeIndex.{fetch_new_page}
use cs143_p.BTreeIndex.Insertion.{Descent, write_node, insert_in_leaf}
use cs143_p.BTreeIndex.Regions.{InRange}
use cs143_p.BTreeIndex.Placed.{View, IsAt, LeafAt, Grows, next_of, limit}
use cs143_p.BTreeIndex.Pages.{
  Sees, read-Sees, write-Replaced, fetch_new_page-Fetched, write-Halved, Halved, add_page,
  start_leaf, other_page,
}
use cs143_p.BTreeIndex.Outcome.{Outcome}
use cs143_p.BTreeIndex.Rounds.{insert_in_leaf-room, insert_in_leaf-full}

-- A leaf that may be empty, as that of a new index is.
pub record HasLeaf (v : View) (lo hi pid : ℕ) (es : List Entry) : Type 0 where
  pub place : IsAt v 0 lo pid
  pub start : v.leaf_from lo ≡ pid
  pub leaf : IsLeaf (v.pages pid) es (next_of v hi)
  pub few : length es ≤ 70
  pub range : InRange lo hi es

pub LeafAt-HasLeaf :
    (v : View) (lo hi pid : ℕ) (es : List Entry) → LeafAt v lo hi pid es → HasLeaf v lo hi pid es
LeafAt-HasLeaf v lo hi pid es t = record {
  place = t.place;
  start = t.start;
  leaf = t.leaf.leaf;
  few = t.leaf.few;
  range = t.range;
}

InRange-under :
    (lo hi k : ℕ) (es : List Entry)
    → InRange lo hi es
    → All (λ e. rank e.key < k) es
    → InRange lo k es
InRange-under lo hi k [] v w = tt
InRange-under lo hi k (e ∷ es) v w = ((v.0.0, w.0), InRange-under lo hi k es v.1 w.1)

InRange-over :
    (lo hi k : ℕ) (es : List Entry)
    → InRange lo hi es
    → All (λ e. k ≤ rank e.key) es
    → InRange k hi es
InRange-over lo hi k [] v w = tt
InRange-over lo hi k (e ∷ es) v w = ((w.0, v.0.1), InRange-over lo hi k es v.1 w.1)

lower_lt :
    (lo hi k : ℕ) (es : List Entry)
    → 0 < length es
    → InRange lo hi es
    → All (λ e. rank e.key < k) es
    → lo < k
lower_lt lo hi k [] h v w = absurd (omega arith)
lower_lt lo hi k (e ∷ es) h v w = omega (arith, v.0.0, w.0)

module _ (os : System) where
  module _ (laws : Laws os) {fd : ℕ} (rel : Reliable os laws fd) (writing : rel.Writing) where
    open laws use {page_at}

    module _ (v : View) (lo hi pid : ℕ) (es : List Entry) (e : Entry) (d : Descent os)
        (s : Sees os laws rel v d.index.pf d.store) (h : HasLeaf v lo hi pid es)
        (above : lo ≤ rank e.key) (below : rank e.key < hi) (bounded : hi ≤ limit)
        (entry : IsEntry e) (distinct : IsIncreasing entry_key (insert_sorted entry_key e es)) where
      all_in : InRange lo hi (insert_sorted entry_key e es)
      all_in =
          All-insert_sorted entry_key (λ x. (lo ≤ rank x.key) × (rank x.key < hi)) e es
            (above, below) h.range

      -- The leaf has room.
      grown :
          (b : Buffer)
          → Inserted e es (next_of v hi) b
          → length es < 70
          → let r = read os d.index.pf pid LeafNode.new_node d.store in
            Sees os laws rel v d.index.pf r.store
            → Outcome os laws rel v 0 lo hi pid
                (insert_sorted entry_key e es)
                d
                (write_node os pid b (record d { rc = success; store = r.store }))
      unfolding write_node
      grown b i room s' =
          let r = read os d.index.pf pid LeafNode.new_node d.store in
          let leaf' = subst (λ (xs : List Entry). IsLeaf b xs (next_of v hi)) i.in_order i.page in
          let w =
            write-Replaced os laws rel writing v d.index.pf pid b r.store s' h.place.in_file
              (length-IsLeaf leaf') in
          let d' = write_node os pid b (record d { rc = success; store = r.store }) in
          let view : View = record v { pages = page_at d'.store.system fd } in
          record {
            view = view;
            grows = record {
              longer = omega arith;
              other_pages = λ q f outside.
                  w.others q f
                    (other_page v 0 lo hi pid q h.place (omega (arith, above, below)) outside);
              same_heights = λ q f. refl;
              same_lowers = λ q f. refl;
              other_leaves = λ x o. refl;
            };
            sees = record { usable = w.usable; same_pages = refl; same_end = w.same_end };
            used = omega arith;
            same_root = refl;
            same_height = refl;
            result = inl (
              refl,
              record {
                place = record {
                  in_file = h.place.in_file;
                  not_first = h.place.not_first;
                  height_at = h.place.height_at;
                  lower_at = h.place.lower_at;
                };
                start = h.start;
                leaf = record {
                  leaf =
                      subst (λ (p : Buffer). IsLeaf p (insert_sorted entry_key e es) (next_of v hi))
                        (sym w.page) leaf';
                  some_entry = omega (arith, length-insert_sorted entry_key e es);
                  few = omega (arith, room, length-insert_sorted entry_key e es);
                  sorted = IsSorted-IsIncreasing entry_key (insert_sorted entry_key e es) distinct;
                };
                range = all_in;
              },
            );
          }

      -- The two halves of a full leaf, in the view that has the new page.
      module _ (lower : List Entry) (first : Entry) (others : List Entry)
          (in_order : insert_sorted entry_key e es ≡ lower ++ (first ∷ others)) (n sibling : Buffer)
          (lower_page : IsLeaf n lower v.end_pid)
          (upper_page : IsLeaf sibling (first ∷ others) (next_of v hi))
          (some_lower : 0 < length lower) (few_lower : length lower ≤ 70)
          (few_upper : length (first ∷ others) ≤ 70) (d' : Descent os)
          (w : Halved os laws rel writing v pid n sibling d'.index.pf d'.store) where
        k : ℕ
        k = rank first.key

        abbrev cut_view : View
        cut_view = start_leaf (add_page v (page_at d'.store.system fd) 0 k) k v.end_pid

        ranges : InRange lo hi lower × InRange lo hi (first ∷ others)
        ranges =
            All-append_parts (λ x. (lo ≤ rank x.key) × (rank x.key < hi)) lower (first ∷ others)
              (subst (InRange lo hi) in_order all_in)

        separated :
            All (λ x. rank x.key < rank first.key) lower
            × All (λ x. rank first.key ≤ rank x.key) (first ∷ others)
        separated =
            IsIncreasing-append_separated entry_key lower others first
              (subst (IsIncreasing entry_key) in_order distinct)

        increasing : IsIncreasing entry_key lower × IsIncreasing entry_key (first ∷ others)
        increasing =
            IsIncreasing-append_parts entry_key lower (first ∷ others)
              (subst (IsIncreasing entry_key) in_order distinct)

        above_k : lo < k
        unfolding k
        above_k = lower_lt lo hi (rank first.key) lower some_lower ranges.0 separated.0

        below_k : k < hi
        unfolding k
        below_k = ranges.1.0.1

        old_page : (q : ℕ) → q < v.end_pid → (q == v.end_pid) ≡ false
        old_page q f = ==_ne q v.end_pid (λ e. omega (arith, e, f))

        cut-Grows : Grows v cut_view 0 lo hi
        cut-Grows = record {
          longer = omega arith;
          other_pages = λ q f outside.
              w.others q f
                (other_page v 0 lo hi pid q h.place (omega (arith, above, below)) outside);
          same_heights = λ q f. rw (old_page q f) refl;
          same_lowers = λ q f. rw (old_page q f) refl;
          other_leaves = λ x outside. rw (==_ne x k (beside x outside)) refl;
        }
          where
            beside : (x : ℕ) → (x ≤ lo) ⊎ (hi ≤ x) → x ≢ k
            beside x outside same = elim outside [
              | inl low ↦ omega (arith, low, same, above_k)
              | inr high ↦ omega (arith, high, same, below_k)
            ]

        cut-lower : LeafAt cut_view lo k pid lower
        unfolding k
        cut-lower = record {
          place = record {
            in_file = omega (arith, h.place.in_file);
            not_first = h.place.not_first;
            height_at = rw (old_page pid h.place.in_file) h.place.height_at;
            lower_at = rw (old_page pid h.place.in_file) h.place.lower_at;
          };
          start = rw (==_ne lo k (λ e. omega (arith, e, above_k))) h.start;
          leaf = record {
            leaf =
                subst (λ (next : ℕ). IsLeaf (page_at d'.store.system fd pid) lower next)
                  {x = v.end_pid} (sym next)
                  (subst (λ (p : Buffer). IsLeaf p lower v.end_pid) (sym w.page) lower_page);
            some_entry = some_lower;
            few = few_lower;
            sorted = IsSorted-IsIncreasing entry_key lower increasing.0;
          };
          range = InRange-under lo hi (rank first.key) lower ranges.0 separated.0;
        }
          where
            next : next_of cut_view k ≡ v.end_pid
            next = rw (==_ne k limit (λ e. omega (arith, e, below_k, bounded)), ==_refl k) refl

        cut-upper : LeafAt cut_view k hi v.end_pid (first ∷ others)
        unfolding k
        cut-upper = record {
          place = record {
            in_file = omega arith;
            not_first = omega (arith, h.place.in_file);
            height_at = rw (==_refl v.end_pid) refl;
            lower_at = rw (==_refl v.end_pid) refl;
          };
          start = rw (==_refl k) refl;
          leaf = record {
            leaf =
                subst
                  (λ (next : ℕ).
                    IsLeaf (page_at d'.store.system fd v.end_pid) (first ∷ others) next)
                  (sym next)
                  (subst (λ (p : Buffer). IsLeaf p (first ∷ others) (next_of v hi)) (sym w.new_page)
                    upper_page);
            some_entry = omega arith;
            few = few_upper;
            sorted = IsSorted-IsIncreasing entry_key (first ∷ others) increasing.1;
          };
          range = InRange-over lo hi (rank first.key) (first ∷ others) ranges.1 separated.1;
        }
          where
            next : next_of cut_view hi ≡ next_of v hi
            next = rw (==_ne hi k (λ e. omega (arith, e, below_k))) refl

        cut-Outcome :
            v.end_pid < 2 ^ 21
            → d'.rc ≡ node_full
            → d'.split_key ≡ first.key
            → d'.split_pid ≡ v.end_pid
            → d'.index.root_pid ≡ d.index.root_pid
            → d'.index.tree_height ≡ d.index.tree_height
            → Outcome os laws rel v 0 lo hi pid (insert_sorted entry_key e es) d d'
        unfolding k
        cut-Outcome room full key_out pid_out same_root same_height = record {
          view = cut_view;
          grows = cut-Grows;
          sees = record { usable = w.usable; same_pages = refl; same_end = w.same_end };
          used = omega arith;
          same_root = same_root;
          same_height = same_height;
          result = inr (record {
            is_full = full;
            left = lower;
            right = first ∷ others;
            parts = in_order;
            above = rw key_out above_k;
            below = rw key_out below_k;
            pair =
                rw (key_out, pid_out)
                  (record {
                    key_int = upper_page.entries.0.key_int;
                    pid_int = omega (arith, room);
                    key_set = upper_page.entries.0.key_set;
                    pid_set = λ e. omega (arith, e, room);
                  });
            lower = rw key_out cut-lower;
            upper = rw (key_out, pid_out) cut-upper;
          });
        }

      -- _insert at a leaf of the tree ends with the new entry in it, or in one of its halves.
      pub insert_in_leaf-Outcome :
          v.end_pid < 2 ^ 21
          → (d' : Descent os) × (insert_in_leaf os pid e.key e.rid d ≡ some d')
            × Outcome os laws rel v 0 lo hi pid (insert_sorted entry_key e es) d d'
      unfolding write_node
      insert_in_leaf-Outcome room =
          let r = read os d.index.pf pid LeafNode.new_node d.store in
          let seen =
            read-Sees os laws rel v d.index.pf pid LeafNode.new_node d.store s h.place.in_file in
          let leaf : IsLeaf r.buffer es (next_of v hi) =
            subst (λ (p : Buffer). IsLeaf p es (next_of v hi)) (sym seen.page) h.leaf in
          elim (Bool-cases (ltb (length es) 70)) [
            | inl more ↦
                let (b, added, i) = insert-Inserted e leaf entry (ground arith) in
                (
                  write_node os pid b (record d { rc = success; store = r.store }),
                  insert_in_leaf-room os pid e d added,
                  grown b i (ground arith) seen.sees,
                )
            | inr full ↦
                let at_most : length es ≡ 70 = ground (arith, h.few) in
                let f = fetch_new_page os d.index r.store in
                let fetched =
                  fetch_new_page-Fetched os laws rel writing v d.index r.store seen.sees room in
                let (sp, split, is) =
                  insert_and_split-IsSplit e d.split_key leaf new_node-IsLeaf entry
                    (omega (arith, at_most)) (omega (arith, at_most)) in
                let n = leaf_page is.lower v.end_pid in
                let size : length (is.lower ++ (is.first ∷ is.others)) ≡ 71 =
                  ap length (sym is.in_order)
                  ∙ length-insert_sorted entry_key e es
                  ∙ omega (arith, at_most) in
                let sum = length-append is.lower (is.first ∷ is.others) in
                let lower_page : IsLeaf n is.lower v.end_pid = record {
                  shape = refl;
                  room = is.node_page.room;
                  entries = is.node_page.entries;
                  next_int = omega (arith, room);
                } in
                let linked : LeafNode.set_next_node_ptr sp.node v.end_pid ≡ some n =
                  ap (λ (b : Buffer). LeafNode.set_next_node_ptr b v.end_pid) is.node_page.shape
                  ∙ set_next_node_ptr-leaf_bytes is.lower (1020 - 12 * length is.lower) minus_one
                      v.end_pid (omega (arith, is.node_page.room)) in
                let d' = write_node os pid n (
                  write_node os v.end_pid sp.sibling (record d {
                    rc = node_full;
                    split_key = is.first.key;
                    split_pid = v.end_pid;
                    index = f.1;
                    store = f.2;
                  })) in
                let w =
                  write-Halved os laws rel writing v f.1.pf f.2 pid n sp.sibling
                    (replicate page_size 255) fetched.appends h.place.in_file
                    (length-IsLeaf lower_page) (length-IsLeaf is.sibling_page) in
                (
                  d',
                  insert_in_leaf-full os pid e d (insert_full e.key e.rid leaf at_most)
                      fetched.new_page split linked is.key_out,
                  cut-Outcome is.lower is.first is.others is.in_order n sp.sibling lower_page
                      is.sibling_page (omega (arith, is.lower_size, at_most))
                      (omega (arith, is.lower_size, at_most))
                      (omega (arith, is.lower_size, at_most, size, sum)) d' w room refl refl refl
                      fetched.same_root fetched.same_height,
                )
          ]
