-- ===== src/BTreeIndex/Locates.antt =====
-- locate on a tree.
use cs143_p.Base.{
  ℕ, zero, suc, ◌+◌, ◌<◌, ◌≡◌, refl, subst, sym, ◌∙◌, List, [], append-nil, some, arith, ==_refl,
  ==_ne, ◌>>=◌,
}
use cs143_p.Memory.{Buffer, minus_one}
use cs143_p.Rc.{success}
use cs143_p.PageFile.{Store, read}
use cs143_p.PageFile.Os.{System, Laws}
use cs143_p.PageFile.Usable.{Reliable, Usable, read-Usable}
use cs143_p.LeafNode
use cs143_p.LeafNode.Layout.{Entry, IsLeaf}
use cs143_p.LeafNode.Locate.{locate-IsLowerBound}
use cs143_p.NonLeafNode
use cs143_p.NonLeafNode.Layout.{IsNode}
use cs143_p.NonLeafNode.Child.{child_of, child_ptr}
use cs143_p.BTreeIndex.{BTreeIndex, IndexCursor}
use cs143_p.BTreeIndex.Lookup.{Located, locate_in_leaf, locate_from, locate_key}
use cs143_p.BTreeIndex.Tree.{Covers, child_of-ForKey, Finds, Finds-below}

module _ (os : System) where
  -- One round of _locate, given what its parts return.
  pub locate_from-leaf :
      (fuel : ℕ) (index : BTreeIndex) (pid depth key i : ℕ) (cursor : IndexCursor) (st : Store os)
      → depth ≡ index.tree_height
      → LeafNode.locate (read os index.pf pid LeafNode.new_node st).buffer key cursor.eid
        ≡ some (success, i)
      → locate_from os (suc fuel) index pid depth key cursor st
        ≡ some (record {
          rc = success;
          cursor = record { pid = pid; eid = i };
          store = (read os index.pf pid LeafNode.new_node st).store;
        })
  unfolding locate_from locate_in_leaf
  locate_from-leaf fuel index pid depth key i cursor st at found =
      rw (at, ==_refl index.tree_height, found, ◌>>=◌) refl

  pub locate_from-child :
      (fuel : ℕ) (index : BTreeIndex) (pid depth key child : ℕ) (cursor : IndexCursor)
      (st : Store os)
      → depth < index.tree_height
      → NonLeafNode.locate_child_ptr
          (read os index.pf pid NonLeafNode.new_node st).buffer
          key
          minus_one
        ≡ some (success, child)
      → locate_from os (suc fuel) index pid depth key cursor st
        ≡ locate_from os fuel index child
            (depth + 1)
            key
            cursor
            (read os index.pf pid NonLeafNode.new_node st).store
  unfolding locate_from
  locate_from-child fuel index pid depth key child cursor st above found =
      rw (==_ne depth index.tree_height (omega (arith, above)), found, ◌>>=◌) refl

  module _ (laws : Laws os) {fd : ℕ} (rel : Reliable os laws fd) where
    open laws use {page_at}

    -- What locate leaves on a tree.
    pub record Locates (index : BTreeIndex) (key : ℕ) (es : List Entry) (st : Store os)
        (d : Located os) : Type 0 where
      pub succeeded : d.rc ≡ success
      pub finds : Finds (page_at st.system index.pf.fd) key es d.cursor
      pub in_file : d.cursor.pid < index.pf.epid
      pub files_kept : page_at d.store.system ≡ page_at st.system
      pub usable : Usable os laws rel index.pf d.store

    -- The tree of an index, in its file.
    abbrev pub IsTreeAt : BTreeIndex → Store os → ℕ → ℕ → List Entry → Type 0
    IsTreeAt index st height pid es =
        Covers (page_at st.system index.pf.fd) index.pf.epid height pid es

    locate_from-Locates :
        (fuel height : ℕ) (index : BTreeIndex) (pid depth key : ℕ) (cursor : IndexCursor)
        (st : Store os) (es : List Entry)
        → Usable os laws rel index.pf st
        → IsTreeAt index st height pid es
        → depth + height ≡ index.tree_height
        → height < fuel
        → (d : Located os) × (locate_from os fuel index pid depth key cursor st ≡ some d)
          × Locates index key es st d
    locate_from-Locates zero height index pid depth key cursor st es u t h enough =
        absurd (omega arith)
    locate_from-Locates (suc fuel) zero index pid depth key cursor st es u (within, (next, leaf)) h
          enough =
        let r = read os index.pf pid LeafNode.new_node st in
        let v = read-Usable os laws rel index.pf pid LeafNode.new_node st u within in
        let read_leaf : IsLeaf r.buffer es next =
          subst (λ (b : Buffer). IsLeaf b es next) (sym v.reads_page.page) leaf.leaf in
        let (i, found, bound) = locate-IsLowerBound key cursor.eid read_leaf leaf.some_entry in
        (
          record { rc = success; cursor = record { pid = pid; eid = i }; store = r.store },
          locate_from-leaf fuel index pid depth key i cursor st (omega (arith, h)) found,
          record {
            succeeded = refl;
            finds = record {
              before = [];
              here = es;
              after = [];
              next = next;
              parts = sym (append-nil es);
              smaller = tt;
              larger = tt;
              leaf = leaf;
              bound = bound;
            };
            in_file = within;
            files_kept = v.reads_page.files_kept;
            usable = v.usable;
          },
        )
    locate_from-Locates (suc fuel) (suc height) index pid depth key cursor st es u
          (within, (first, ps, node, parts)) h enough =
        let r = read os index.pf pid NonLeafNode.new_node st in
        let v = read-Usable os laws rel index.pf pid NonLeafNode.new_node st u within in
        let read_node : IsNode r.buffer first ps =
          subst (λ (b : Buffer). IsNode b first ps) (sym v.reads_page.page) node in
        let k =
          child_of-ForKey (Covers (page_at st.system index.pf.fd) index.pf.epid height) key first ps
            es parts in
        let below =
          subst
            (λ (f : ℕ → ℕ → Buffer).
              Covers (f index.pf.fd) index.pf.epid height (child_of key first ps) k.here)
            (sym v.reads_page.files_kept) k.child in
        let (d, ran, l) =
          locate_from-Locates fuel height index (child_of key first ps) (depth + 1) key cursor
            r.store k.here v.usable below (omega (arith, h)) (omega (arith, enough)) in
        let finds =
          subst (λ (f : ℕ → ℕ → Buffer). Finds (f index.pf.fd) key k.here d.cursor)
            v.reads_page.files_kept l.finds in
        (
          d,
          locate_from-child fuel index pid depth key (child_of key first ps) cursor st
                (omega (arith, h)) (child_ptr key minus_one read_node)
              ∙ ran,
          record {
            succeeded = l.succeeded;
            finds = Finds-below k finds;
            in_file = l.in_file;
            files_kept = l.files_kept ∙ v.reads_page.files_kept;
            usable = l.usable;
          },
        )

    -- On an index whose root is a tree of the height that it keeps, locate with every key ends
    -- within that number of levels and succeeds: in the leaf whose keys are between the smaller
    -- ones before it and the larger ones behind it, at the first entry of that leaf that is not
    -- below the key, or behind its last one. It leaves the file as it was.
    pub locate_key-Locates :
        (height : ℕ) (index : BTreeIndex) (key : ℕ) (cursor : IndexCursor) (st : Store os)
        (es : List Entry)
        → Usable os laws rel index.pf st
        → index.tree_height ≡ suc height
        → IsTreeAt index st height index.root_pid es
        → (d : Located os) × (locate_key os index key cursor st ≡ some d)
          × Locates index key es st d
    unfolding locate_key
    locate_key-Locates height index key cursor st es u h t =
        rw (==_ne index.tree_height 0 (omega (arith, h))) (
          locate_from-Locates index.tree_height height index index.root_pid 1 key cursor st es u t
            (omega (arith, h)) (omega (arith, h)))
