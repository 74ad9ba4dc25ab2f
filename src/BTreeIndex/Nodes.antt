-- ===== src/BTreeIndex/Nodes.antt =====
-- The insertion below a node of the tree: the pair for the new sibling of its child.
use cs143_p.Base.{
  ℕ, suc, ◌+◌, ◌^◌, ◌≤◌, ◌<◌, ◌≡◌, ◌⊎◌, inl, inr, refl, ap, subst, sym, ◌∙◌, List, ◌∷◌, ◌++◌, some,
  arith, length, length-append, replicate, Bool-cases, ltb, false, ◌==◌, ==_ne, ==_refl,
}
use cs143_p.Memory.{Buffer, minus_one, page_size}
use cs143_p.Ordered.{rank, insert_sorted, length-insert_sorted}
use cs143_p.Ordered.Strict.{insert_sorted-middle}
use cs143_p.Rc.{success, node_full}
use cs143_p.PageFile.Os.{System, Laws}
use cs143_p.PageFile.Usable.{Reliable}
use cs143_p.LeafNode.Layout.{Entry, entry_key}
use cs143_p.NonLeafNode
use cs143_p.NonLeafNode.Layout.{Pair, pair_key, IsNode, length-IsNode}
use cs143_p.NonLeafNode.Insert.{Inserted, insert-Inserted_nonleaf, insert_full_nonleaf}
use cs143_p.NonLeafNode.Halves.{IsSplit, insert_and_split-IsSplit_nonleaf}
use cs143_p.BTreeIndex.{fetch_new_page}
use cs143_p.BTreeIndex.Insertion.{Descent, write_node, insert_in_nonleaf}
use cs143_p.BTreeIndex.Regions.{PartsIn, PartsIn-map, Focus, Halves, PartsIn-Halves}
use cs143_p.BTreeIndex.Placed.{
  View, IsAt, IsTreeNode, Placed, Placed-Same, Same, Same-part, Grows, Grows-beside, Grows-wider,
}
use cs143_p.BTreeIndex.Pages.{
  write-Replaced, fetch_new_page-Fetched, write-Halved, Halved, add_page, other_page,
}
use cs143_p.BTreeIndex.Outcome.{Cut, Outcome}
use cs143_p.BTreeIndex.Rounds.{
  insert_in_nonleaf-done, insert_in_nonleaf-room, insert_in_nonleaf-full,
}

module _ (os : System) where
  module _ (laws : Laws os) {fd : ℕ} (rel : Reliable os laws fd) (writing : rel.Writing) where
    open laws use {page_at}

    module _ (v : View) (height lo hi pid child first : ℕ) (ps : List Pair) (es : List Entry)
        (e : Entry) (d c : Descent os) (at : IsAt v (suc height) lo pid)
        (node : IsTreeNode (v.pages pid) first ps) (lt : lo < hi)
        (f : Focus (Placed v height) lo hi e.key child first ps es)
        (o : Outcome os laws rel v height f.low f.high child
          (insert_sorted entry_key e f.here)
          d
          c) where
      all : List Entry
      all = insert_sorted entry_key e es

      in_parts : f.before ++ (insert_sorted entry_key e f.here ++ f.after) ≡ all
      unfolding all
      in_parts = sym (
          ap (insert_sorted entry_key e) f.parts
          ∙ insert_sorted-middle entry_key e f.before f.here f.after f.smaller f.larger)

      below : Grows v o.view (suc height) lo hi
      below = Grows-wider lo hi o.grows f.low_in f.high_in

      kept :
          (a b p : ℕ) (xs : List Entry)
          → lo ≤ a
          → b ≤ hi
          → (b ≤ f.low) ⊎ (f.high ≤ a)
          → Placed v height a b p xs
          → Placed o.view height a b p xs
      kept a b p xs l u beside t = Placed-Same height a b p xs (Grows-beside a b o.grows beside) t

      at' : IsAt o.view (suc height) lo pid
      at' = record {
        in_file = omega (arith, at.in_file, o.grows.longer);
        not_first = at.not_first;
        height_at = o.grows.same_heights pid at.in_file ∙ at.height_at;
        lower_at = o.grows.same_lowers pid at.in_file ∙ at.lower_at;
      }

      same_page : o.view.pages pid ≡ v.pages pid
      same_page = o.grows.other_pages pid at.in_file (inl (omega (arith, at.height_at)))

      -- The child was not cut.
      nothing_cut :
          c.rc ≡ success
          → Placed o.view height f.low f.high child (insert_sorted entry_key e f.here)
          → Outcome os laws rel v (suc height) lo hi pid all d c
      nothing_cut ok t = record {
        view = o.view;
        grows = below;
        sees = o.sees;
        used = omega (arith, o.used);
        same_root = o.same_root;
        same_height = o.same_height;
        result = inl (
          ok,
          (
            at',
            (
              first,
              ps,
              subst (λ (b : Buffer). IsTreeNode b first ps) (sym same_page) node,
              subst (PartsIn (Placed o.view height) lo hi first ps) in_parts
                  (f.replaced (Placed o.view height) (insert_sorted entry_key e f.here) kept t),
            ),
          ),
        );
      }

      module _
          (cut : Cut os laws rel o.view height f.low f.high child
            (insert_sorted entry_key e f.here)
            c) where
        q : Pair
        q = record { key = c.split_key; pid = c.split_pid }

        parts' : PartsIn (Placed o.view height) lo hi first (insert_sorted pair_key q ps) all
        unfolding q
        parts' =
            subst (PartsIn (Placed o.view height) lo hi first (insert_sorted pair_key q ps))
              (ap (λ (xs : List Entry). f.before ++ (xs ++ f.after)) (sym cut.parts) ∙ in_parts)
              (f.divided (Placed o.view height) q cut.left cut.right kept cut.above cut.below
                cut.lower cut.upper)

        -- The node has room for the pair.
        pair_added :
            (b : Buffer)
            → Inserted q first ps b
            → length ps < 70
            → Outcome os laws rel v
                (suc height)
                lo
                hi
                pid
                all
                d
                (write_node os pid b (record c { rc = success }))
        unfolding write_node
        pair_added b i room =
            let node' = subst (λ (xs : List Pair). IsNode b first xs) i.in_order i.page in
            let w =
              write-Replaced os laws rel writing o.view c.index.pf pid b c.store o.sees at'.in_file
                (length-IsNode node') in
            let d' = write_node os pid b (record c { rc = success }) in
            let view : View = record o.view { pages = page_at d'.store.system fd } in
            let same : Same o.view view height lo hi = record {
              longer = omega arith;
              same_pages = λ p n f t l u.
                  w.others p f (λ e. omega (arith, t, ap o.view.height_of e, at'.height_at));
              same_heights = λ p f. refl;
              same_lowers = λ p f. refl;
              same_leaves = λ x l u. refl;
            } in
            record {
              view = view;
              grows = record {
                longer = below.longer;
                other_pages = λ p f outside.
                    w.others p (omega (arith, f, below.longer))
                      (other_page v (suc height) lo hi pid p at lt outside)
                    ∙ below.other_pages p f outside;
                same_heights = below.same_heights;
                same_lowers = below.same_lowers;
                other_leaves = below.other_leaves;
              };
              sees = record { usable = w.usable; same_pages = refl; same_end = w.same_end };
              used = omega (arith, o.used);
              same_root = o.same_root;
              same_height = o.same_height;
              result = inl (
                refl,
                (
                  record {
                    in_file = at'.in_file;
                    not_first = at'.not_first;
                    height_at = at'.height_at;
                    lower_at = at'.lower_at;
                  },
                  (
                    first,
                    insert_sorted pair_key q ps,
                    record {
                      node =
                          subst (λ (p : Buffer). IsNode p first (insert_sorted pair_key q ps))
                            (sym w.page) node';
                      some_pair = omega (arith, length-insert_sorted pair_key q ps);
                      few = omega (arith, room, length-insert_sorted pair_key q ps);
                    },
                    PartsIn-map (Placed o.view height) (Placed view height) lo hi first
                        (insert_sorted pair_key q ps) all
                        (λ a b p xs l u t.
                          Placed-Same height a b p xs (Same-part height a b same (omega arith) l u)
                            t)
                        parts',
                  ),
                ),
              );
            }

        -- The node is cut at its middle pair.
        module _ (s : NonLeafNode.Split) (i : IsSplit q first ps s) (size : length ps ≡ 70)
            (d' : Descent os)
            (w : Halved os laws rel writing o.view pid s.node s.sibling d'.index.pf d'.store) where
          k : ℕ
          k = rank i.middle.key

          abbrev cut_view : View
          cut_view = add_page o.view (page_at d'.store.system fd) (suc height) k

          old_page : (p : ℕ) → p < o.view.end_pid → (p == o.view.end_pid) ≡ false
          old_page p f = ==_ne p o.view.end_pid (λ e. omega (arith, e, f))

          cut-Same : Same o.view cut_view height lo hi
          cut-Same = record {
            longer = omega arith;
            same_pages = λ p n f t l u.
                w.others p f (λ e. omega (arith, t, ap o.view.height_of e, at'.height_at));
            same_heights = λ p f. rw (old_page p f) refl;
            same_lowers = λ p f. rw (old_page p f) refl;
            same_leaves = λ x l u. refl;
          }

          cut-Grows : Grows v cut_view (suc height) lo hi
          cut-Grows = record {
            longer = omega (arith, below.longer);
            other_pages = λ p f outside.
                w.others p (omega (arith, f, below.longer))
                  (other_page v (suc height) lo hi pid p at lt outside)
                ∙ below.other_pages p f outside;
            same_heights =
                λ p f. rw (old_page p (omega (arith, f, below.longer))) (below.same_heights p f);
            same_lowers =
                λ p f. rw (old_page p (omega (arith, f, below.longer))) (below.same_lowers p f);
            other_leaves = below.other_leaves;
          }

          halves : Halves (Placed o.view height) lo hi first i.lower i.middle i.upper all
          halves = PartsIn-Halves (Placed o.view height) lo hi first i.lower i.middle i.upper all (
              subst (λ (xs : List Pair). PartsIn (Placed o.view height) lo hi first xs all)
                i.in_order parts')

          upper_size : length i.upper ≡ 35
          upper_size = omega (
            arith,
            size,
            i.lower_size,
            ap length i.in_order,
            length-insert_sorted pair_key q ps,
            length-append i.lower (i.middle ∷ i.upper),
          )

          cut-lower : Placed cut_view (suc height) lo k pid halves.left
          unfolding k
          cut-lower = (
            record {
              in_file = omega (arith, at'.in_file);
              not_first = at'.not_first;
              height_at = rw (old_page pid at'.in_file) at'.height_at;
              lower_at = rw (old_page pid at'.in_file) at'.lower_at;
            },
            (
              first,
              i.lower,
              record {
                node = subst (λ (b : Buffer). IsNode b first i.lower) (sym w.page) i.lower_page;
                some_pair = omega (arith, size, i.lower_size);
                few = omega (arith, size, i.lower_size);
              },
              PartsIn-map (Placed o.view height) (Placed cut_view height) lo (rank i.middle.key)
                  first i.lower halves.left
                  (λ a b p xs l u t.
                    Placed-Same height a b p xs
                      (Same-part height a b cut-Same (omega arith) l
                        (omega (arith, u, halves.below)))
                      t)
                  halves.lower,
            ),
          )

          cut-upper : Placed cut_view (suc height) k hi o.view.end_pid halves.right
          unfolding k
          cut-upper = (
            record {
              in_file = omega arith;
              not_first = omega (arith, at'.in_file);
              height_at = rw (==_refl o.view.end_pid) refl;
              lower_at = rw (==_refl o.view.end_pid) refl;
            },
            (
              i.middle.pid,
              i.upper,
              record {
                node =
                    subst (λ (b : Buffer). IsNode b i.middle.pid i.upper) (sym w.new_page)
                      i.upper_page;
                some_pair = omega (arith, upper_size);
                few = omega (arith, upper_size);
              },
              PartsIn-map (Placed o.view height) (Placed cut_view height) (rank i.middle.key) hi
                  i.middle.pid i.upper halves.right
                  (λ a b p xs l u t.
                    Placed-Same height a b p xs
                      (Same-part height a b cut-Same (omega arith) (omega (arith, l, halves.above))
                        u)
                      t)
                  halves.upper,
            ),
          )

          cut-Outcome :
              o.view.end_pid < 2 ^ 21
              → d'.rc ≡ node_full
              → d'.split_key ≡ i.middle.key
              → d'.split_pid ≡ o.view.end_pid
              → d'.index.root_pid ≡ d.index.root_pid
              → d'.index.tree_height ≡ d.index.tree_height
              → Outcome os laws rel v (suc height) lo hi pid all d d'
          unfolding k halves
          cut-Outcome room full key_out pid_out same_root same_height = record {
            view = cut_view;
            grows = cut-Grows;
            sees = record { usable = w.usable; same_pages = refl; same_end = w.same_end };
            used = omega (arith, o.used);
            same_root = same_root;
            same_height = same_height;
            result = inr (record {
              is_full = full;
              left = halves.left;
              right = halves.right;
              parts = halves.parts;
              above = rw key_out halves.above;
              below = rw key_out halves.below;
              pair =
                  rw (key_out, pid_out)
                    (record {
                      key_int = i.middle_pair.key_int;
                      pid_int = omega (arith, room);
                      key_set = i.middle_pair.key_set;
                      pid_set = λ e. omega (arith, e, room);
                    });
              lower = rw key_out cut-lower;
              upper = rw (key_out, pid_out) cut-upper;
            });
          }

      -- _insert at a node of the tree, behind the insertion below one of its children.
      pub insert_in_nonleaf-Outcome :
          (buffer : Buffer)
          → IsNode buffer first ps
          → v.end_pid + suc height + 1 ≤ 2 ^ 21
          → (d' : Descent os) × (insert_in_nonleaf os pid buffer c ≡ some d')
            × Outcome os laws rel v (suc height) lo hi pid (insert_sorted entry_key e es) d d'
      unfolding all q write_node
      insert_in_nonleaf-Outcome buffer held room = elim o.result [
        | inl (ok, t) ↦ (c, insert_in_nonleaf-done os pid buffer c ok, nothing_cut ok t)
        | inr cut ↦ elim (Bool-cases (ltb (length ps) 70)) [
          | inl more ↦
              let (b, added, i) =
                insert-Inserted_nonleaf (q cut) held cut.pair node.some_pair (ground arith) in
              (
                write_node os pid b (record c { rc = success }),
                insert_in_nonleaf-room os pid buffer c cut.is_full added,
                pair_added cut b i (ground arith),
              )
          | inr full ↦
              let size : length ps ≡ 70 = ground (arith, node.few) in
              let room' : o.view.end_pid < 2 ^ 21 = omega (arith, room, o.used) in
              let f' = fetch_new_page os c.index c.store in
              let fetched =
                fetch_new_page-Fetched os laws rel writing o.view c.index c.store o.sees room' in
              let (sp, split, i) =
                insert_and_split-IsSplit_nonleaf (q cut) minus_one held cut.pair node.some_pair
                  (omega (arith, size)) in
              let d' = write_node os pid sp.node (
                write_node os o.view.end_pid sp.sibling (record c {
                  rc = node_full;
                  split_key = i.middle.key;
                  split_pid = o.view.end_pid;
                  index = f'.1;
                  store = f'.2;
                })) in
              let w =
                write-Halved os laws rel writing o.view f'.1.pf f'.2 pid sp.node sp.sibling
                  (replicate page_size 255) fetched.appends at'.in_file (length-IsNode i.lower_page)
                  (length-IsNode i.upper_page) in
              (
                d',
                insert_in_nonleaf-full os pid buffer c cut.is_full
                    (insert_full_nonleaf c.split_key c.split_pid held size) fetched.new_page split
                    i.key_out,
                cut-Outcome cut sp i size d' w room' refl refl refl
                    (fetched.same_root ∙ o.same_root) (fetched.same_height ∙ o.same_height),
              )
        ]
      ]
