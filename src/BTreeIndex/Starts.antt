-- ===== src/BTreeIndex/Starts.antt =====
-- locate with the key of an entry, and the entries behind the cursor.
use cs143_p.Base.{
  ℕ, zero, suc, ◌+◌, ◌≤◌, ◌<◌, ◌≡◌, refl, subst, sym, ◌∙◌, List, [], append-nil, some, arith,
  get_elem?, ==_ne,
}
use cs143_p.Memory.{Buffer, minus_one}
use cs143_p.Ordered.{rank}
use cs143_p.Rc.{success}
use cs143_p.PageFile.{Store}
use cs143_p.PageFile.Os.{System, Laws}
use cs143_p.PageFile.Usable.{Reliable, OnlyReads, read-OnlyReads}
use cs143_p.LeafNode
use cs143_p.LeafNode.Layout.{Entry, IsLeaf}
use cs143_p.LeafNode.Locate.{locate-IsLowerBound}
use cs143_p.NonLeafNode
use cs143_p.NonLeafNode.Layout.{IsNode}
use cs143_p.NonLeafNode.Child.{child_of, child_ptr}
use cs143_p.BTreeIndex.{BTreeIndex, IndexCursor}
use cs143_p.BTreeIndex.Lookup.{Located, locate_from, locate_key}
use cs143_p.BTreeIndex.Locates.{locate_from-leaf, locate_from-child}
use cs143_p.BTreeIndex.Placed.{View, Placed, Placed-range, next_of, limit}
use cs143_p.BTreeIndex.Pages.{Sees, read-Sees}
use cs143_p.BTreeIndex.Roots.{HasTree}
use cs143_p.BTreeIndex.Chain.{Placed-Chained}
use cs143_p.BTreeIndex.Reach.{child_of-Aside, Reaches, Reaches-below, FromKey, Reaches-FromKey}

module _ (os : System) (laws : Laws os) {fd : ℕ} (rel : Reliable os laws fd) where
  -- What locate leaves.
  record Started (v : View) (index : BTreeIndex) (hi key : ℕ) (es : List Entry) (st : Store os)
      (d : Located os) : Type 1 where
    succeeded : d.rc ≡ success
    reaches : Reaches v hi key es d.cursor
    sees : Sees os laws rel v index.pf d.store
    only_reads : OnlyReads os st.system d.store.system

  locate_from-Started :
      (fuel height : ℕ) (v : View) (index : BTreeIndex) (lo hi pid depth key : ℕ)
      (cursor : IndexCursor) (st : Store os) (es : List Entry)
      → Sees os laws rel v index.pf st
      → Placed v height lo hi pid es
      → lo ≤ rank key
      → rank key < hi
      → depth + height ≡ index.tree_height
      → height < fuel
      → (d : Located os) × (locate_from os fuel index pid depth key cursor st ≡ some d)
        × Started v index hi key es st d
  locate_from-Started zero height v index lo hi pid depth key cursor st es s t above below h
        enough =
      absurd (omega (arith, enough))
  locate_from-Started (suc fuel) zero v index lo hi pid depth key cursor st es s t above below h
        enough =
      let r = read-Sees os laws rel v index.pf pid LeafNode.new_node st s t.place.in_file in
      let (i, found, bound) =
        locate-IsLowerBound key cursor.eid
          (subst (λ (b : Buffer). IsLeaf b es (next_of v hi)) (sym r.page) t.leaf.leaf)
          t.leaf.some_entry in
      (
        _,
        locate_from-leaf os fuel index pid depth key i cursor st (omega (arith, h)) found,
        record {
          succeeded = refl;
          reaches = record {
            low = lo;
            high = hi;
            before = [];
            here = es;
            later = [];
            parts = sym (append-nil es);
            smaller = tt;
            larger = tt;
            leaf = t;
            chain = refl;
            bound = bound;
          };
          sees = r.sees;
          only_reads = read-OnlyReads os index.pf pid LeafNode.new_node st;
        },
      )
  locate_from-Started (suc fuel) (suc height) v index lo hi pid depth key cursor st es s
        (at, (first, ps, node, parts)) above below h enough =
      let r = read-Sees os laws rel v index.pf pid NonLeafNode.new_node st s at.in_file in
      let a =
        child_of-Aside v (Placed v height) (Placed-range v height) (Placed-Chained v height) lo hi
          key first ps es above below parts in
      let child =
        child_ptr key minus_one
          (subst (λ (b : Buffer). IsNode b first ps) (sym r.page) node.node) in
      let (d, ran, k) =
        locate_from-Started fuel height v index a.low a.high (child_of key first ps) (depth + 1) key
          cursor _ a.here r.sees a.child a.key_low a.key_high (omega (arith, h))
          (omega (arith, enough)) in
      (
        d,
        locate_from-child os fuel index pid depth key (child_of key first ps) cursor st
              (omega (arith, h)) child
            ∙ ran,
        record {
          succeeded = k.succeeded;
          reaches = Reaches-below a k.reaches;
          sees = k.sees;
          only_reads = λ P seeks reads p.
              k.only_reads P seeks reads
                (read-OnlyReads os index.pf pid NonLeafNode.new_node st P seeks reads p);
        },
      )

  -- What locate leaves for the key of an entry.
  pub record Starts (v : View) (index : BTreeIndex) (key : ℕ) (es : List Entry) (st : Store os)
      (d : Located os) : Type 1 where
    pub succeeded : d.rc ≡ success
    pub from_key : FromKey v key es d.cursor
    pub sees : Sees os laws rel v index.pf d.store
    pub only_reads : OnlyReads os st.system d.store.system

  -- On an index that holds a list of entries, locate with the key of one of them succeeds: behind the
  -- cursor that it leaves, along the chain of the leaves, stand exactly the entries of the list from the
  -- first one on that is not below the key. The pages stay as they are.
  pub locate_key-Starts :
      (index : BTreeIndex) (st : Store os) (es : List Entry) (e : Entry) (j : ℕ)
      (cursor : IndexCursor)
      → (h : HasTree os laws rel index st es) → get_elem? es j ≡ some e
      → (d : Located os) × (locate_key os index e.key cursor st ≡ some d)
        × Starts h.view index e.key es st d
  unfolding locate_key
  locate_key-Starts index st es e j cursor h at =
      let tall = h.tall in
      let (d, ran, k) =
        locate_from-Started index.tree_height h.height h.view index 0 limit index.root_pid 1 e.key
          cursor st es h.sees h.tree (omega arith) (omega arith) (omega (arith, tall))
          (omega (arith, tall)) in
      rw (==_ne index.tree_height 0 (omega (arith, tall))) (
        d,
        ran,
        record {
          succeeded = k.succeeded;
          from_key = Reaches-FromKey h.view es d.cursor e j k.reaches at;
          sees = k.sees;
          only_reads = k.only_reads;
        },
      )
