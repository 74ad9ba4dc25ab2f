-- ===== src/BTreeIndex/Roots.antt =====
-- The index as the list of its entries, and the growth of the tree at its root.
use cs143_p.Base.{
  ℕ, suc, ◌+◌, ◌*◌, ◌%◌, ◌^◌, ◌≤◌, ◌<◌, ◌≡◌, ◌⊎◌, refl, ap, subst, sym, ◌∙◌, List, [], ◌∷◌, ◌++◌,
  some, arith, length, drop, replicate, false, ◌==◌, ==_ne, ==_refl, ◌>>=◌,
}
use cs143_p.Memory.{Buffer, int_bytes, page_size}
use cs143_p.Ordered.{rank}
use cs143_p.Rc.{success}
use cs143_p.PageFile.{Store, write}
use cs143_p.PageFile.Os.{System, Laws}
use cs143_p.PageFile.Coherence.{Coherent}
use cs143_p.PageFile.Usable.{OnlyReads, Reliable, Usable}
use cs143_p.LeafNode.Layout.{Entry}
use cs143_p.NonLeafNode
use cs143_p.NonLeafNode.Layout.{IsNode, length-IsNode}
use cs143_p.NonLeafNode.Child.{initialize_root-IsNode}
use cs143_p.BTreeIndex.{BTreeIndex, IndexResult, fetch_new_page, commit_metadata}
use cs143_p.BTreeIndex.Metadata.{metadata_page, committed, commit_metadata-write}
use cs143_p.BTreeIndex.Insertion.{Descent, grow_root}
use cs143_p.BTreeIndex.Placed.{View, Placed, Placed-IsAt, Placed-Same, Same, Same-part, limit}
use cs143_p.BTreeIndex.Pages.{
  OnlyReads-Sees, Sees, write-Replaced, fetch_new_page-Fetched, add_page,
}
use cs143_p.BTreeIndex.Outcome.{Cut}

-- What the first page holds: the root, the height, and 255 behind them.
abbrev pub metadata_of : ℕ → ℕ → Buffer
metadata_of root height = int_bytes root ++ (int_bytes height ++ replicate 1016 255)

-- The file has room for two more pages at each level.
abbrev pub HasRoom : BTreeIndex → Type 0
HasRoom index = index.pf.epid + 2 * index.tree_height + 3 < 2 ^ 21

module _ (os : System) where
  -- grow_root, given what its parts return.
  grow_root-parts :
      (d : Descent os) {new_pid height : ℕ} {root : Buffer}
      → let f = fetch_new_page os d.index d.store in
        f.0 ≡ new_pid
        → f.1.buffer ≡ replicate page_size 255
        → NonLeafNode.initialize_root NonLeafNode.new_node f.1.root_pid d.split_key d.split_pid
          ≡ some root
        → (f.1.tree_height + 1) % 2 ^ 32 ≡ height
        → let w = write os f.1.pf new_pid root f.2 in
          let grown = record f.1 { pf = w.file; root_pid = new_pid; tree_height = height } in
          grow_root os d ≡ commit_metadata os grown w.store
  unfolding grow_root
  grow_root-parts d at cleared made tall = rw (made, ◌>>=◌, at, tall) refl

  module _ (laws : Laws os) {fd : ℕ} (rel : Reliable os laws fd) where
    open laws use {page_at}

    -- The pages of the index below its root hold the entries, in order, and its first page holds the root
    -- and the height.
    pub record HasTree (index : BTreeIndex) (st : Store os) (es : List Entry) : Type 0 where
      pub view : View
      pub sees : Sees os laws rel view index.pf st
      pub height : ℕ
      pub tall : index.tree_height ≡ suc height
      pub recorded : view.pages 0 ≡ metadata_of index.root_pid index.tree_height
      pub first_place : limit ≤ view.lower_of 0
      pub tree : Placed view height 0 limit index.root_pid es

    -- Reads on any descriptors leave the tree as it was.
    pub OnlyReads-HasTree :
        {index : BTreeIndex} {st st' : Store os} {es : List Entry}
        → HasTree index st es
        → Coherent os laws st'
        → OnlyReads os st.system st'.system
        → HasTree index st' es
    OnlyReads-HasTree {index} {st} {st'} h c kept = record {
      view = h.view;
      sees = OnlyReads-Sees os laws rel h.view index.pf st st' h.sees c kept;
      height = h.height;
      tall = h.tall;
      recorded = h.recorded;
      first_place = h.first_place;
      tree = h.tree;
    }

    -- The index holds the entries: it has no page yet, or a tree.
    pub record HasNone (index : BTreeIndex) (st : Store os) : Type 0 where
      pub usable : Usable os laws rel index.pf st
      pub no_pages : index.pf.epid ≡ 0
      pub no_height : index.tree_height ≡ 0

    abbrev pub HasEntries : BTreeIndex → Store os → List Entry → Type 0
    HasEntries index st es = ((es ≡ []) × HasNone index st) ⊎ HasTree index st es

    module _ (writing : rel.Writing) where
      -- A new root over the two halves of the old one.
      pub grow_root-HasTree :
          (v : View) (height root : ℕ) (es : List Entry) (d : Descent os)
          → Sees os laws rel v d.index.pf d.store
          → d.index.root_pid ≡ root
          → d.index.tree_height ≡ suc height
          → limit ≤ v.lower_of 0
          → v.end_pid + height + 1 < 2 ^ 21
          → Cut os laws rel v height 0 limit root es d
          → (g : IndexResult os) × (grow_root os d ≡ some g)
            × HasTree (record g { rc = success }).index g.store es
      grow_root-HasTree v height root es d s at_root tall first room cut =
          let f = fetch_new_page os d.index d.store in
          let fetched =
            fetch_new_page-Fetched os laws rel writing v d.index d.store s (omega (arith, room)) in
          let at = Placed-IsAt v height 0 (rank d.split_key) root cut.left cut.lower in
          let (b, made, node) =
            initialize_root-IsNode NonLeafNode.new_node root d.split_key d.split_pid refl
              (omega (arith, at.in_file, room)) (λ e. omega (arith, e, at.in_file, room))
              cut.pair in
          let made' : NonLeafNode.initialize_root NonLeafNode.new_node f.1.root_pid d.split_key
                d.split_pid
              ≡ some b =
            ap
              (λ (r : ℕ).
                NonLeafNode.initialize_root NonLeafNode.new_node r d.split_key d.split_pid)
              (fetched.same_root ∙ at_root)
            ∙ made in
          let w = write os f.1.pf v.end_pid b f.2 in
          let v1 : View = record v { pages = page_at f.2.system fd; end_pid = suc v.end_pid } in
          let r1 =
            write-Replaced os laws rel writing v1 f.1.pf v.end_pid b f.2
              (record {
                usable = fetched.appends.usable;
                same_pages = refl;
                same_end = fetched.appends.same_end;
              })
              (omega arith) (length-IsNode node) in
          let v2 : View = record v1 { pages = page_at w.store.system fd } in
          let grown : BTreeIndex = record f.1 {
            pf = w.file;
            root_pid = v.end_pid;
            tree_height = suc (suc height);
          } in
          let c = write os w.file 0 (metadata_page grown) w.store in
          let whole : length f.1.buffer ≡ page_size = ap length fetched.cleared in
          let first_page : metadata_page grown ≡ metadata_of v.end_pid (suc (suc height)) =
            ap (λ (p : Buffer). int_bytes v.end_pid ++ (int_bytes (suc (suc height)) ++ drop 8 p))
              fetched.cleared in
          let r2 =
            write-Replaced os laws rel writing v2 w.file 0 (metadata_page grown) w.store
              (record { usable = r1.usable; same_pages = refl; same_end = r1.same_end })
              (omega arith) (ap length first_page) in
          let view = add_page v (page_at c.store.system fd) (suc height) 0 in
          let old : (q : ℕ) → q < v.end_pid → (q == v.end_pid) ≡ false =
            λ q h. ==_ne q v.end_pid (λ e. omega (arith, e, h)) in
          let same : Same v view height 0 limit = record {
            longer = omega arith;
            same_pages = λ q p h t l u.
                r2.others q (omega (arith, h)) (λ e. omega (arith, e, p))
                ∙ r1.others q (omega (arith, h)) (λ e. omega (arith, e, h))
                ∙ fetched.appends.others q h;
            same_heights = λ q h. rw (old q h) refl;
            same_lowers = λ q h. rw (old q h) refl;
            same_leaves = λ x l u. refl;
          } in
          (
            committed os grown c,
            grow_root-parts d fetched.new_page fetched.cleared made' (
                  ap (λ (t : ℕ). (t + 1) % 2 ^ 32) (fetched.same_height ∙ tall)
                  ∙ omega (arith, room))
                ∙ commit_metadata-write os grown w.store whole,
            record {
              view = view;
              sees = record { usable = r2.usable; same_pages = refl; same_end = r2.same_end };
              height = suc height;
              tall = refl;
              recorded = r2.page ∙ first_page;
              first_place = rw (old 0 (omega (arith, at.in_file))) first;
              tree = (
                record {
                  in_file = omega arith;
                  not_first = omega (arith, at.in_file);
                  height_at = rw (==_refl v.end_pid) refl;
                  lower_at = rw (==_refl v.end_pid) refl;
                },
                (
                  root,
                  record { key = d.split_key; pid = d.split_pid } ∷ [],
                  record {
                    node =
                        subst
                          (λ (p : Buffer).
                            IsNode p root (record { key = d.split_key; pid = d.split_pid } ∷ []))
                          (sym (
                            r2.others v.end_pid (omega arith) (λ e. omega (arith, e, at.in_file))
                            ∙ r1.page))
                          node;
                    some_pair = omega arith;
                    few = omega arith;
                  },
                  (
                    cut.left,
                    cut.right,
                    cut.parts,
                    cut.above,
                    cut.below,
                    Placed-Same height 0 (rank d.split_key) root cut.left
                        (Same-part height 0 (rank d.split_key) same (omega arith) (omega arith)
                          (omega (arith, cut.below)))
                        cut.lower,
                    Placed-Same height (rank d.split_key) limit d.split_pid cut.right
                        (Same-part height (rank d.split_key) limit same (omega arith) (omega arith)
                          (omega arith))
                        cut.upper,
                  ),
                ),
              );
            },
          )
