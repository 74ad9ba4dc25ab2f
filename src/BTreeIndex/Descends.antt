-- ===== src/BTreeIndex/Descends.antt =====
-- _insert on a tree, by induction on the height.
use cs143_p.Base.{
  ℕ, zero, suc, ◌+◌, ◌^◌, ◌≤◌, ◌<◌, ◌≡◌, refl, ap, subst, sym, ◌∙◌, List, ◌++◌, some, arith, ==_ne,
  ==_refl, ◌>>=◌,
}
use cs143_p.Memory.{Buffer, minus_one}
use cs143_p.Ordered.{rank, insert_sorted}
use cs143_p.Ordered.Strict.{IsIncreasing, IsIncreasing-append_parts, insert_sorted-middle}
use cs143_p.Rc.{success}
use cs143_p.RecordId.{RecordId}
use cs143_p.PageFile.{read}
use cs143_p.PageFile.Os.{System, Laws}
use cs143_p.PageFile.Usable.{Reliable}
use cs143_p.LeafNode.Layout.{Entry, entry_key, IsEntry}
use cs143_p.NonLeafNode
use cs143_p.NonLeafNode.Layout.{IsNode}
use cs143_p.NonLeafNode.Child.{child_of, child_ptr}
use cs143_p.BTreeIndex.Insertion.{Descent, insert_in_leaf, insert_in_nonleaf, insert_from}
use cs143_p.BTreeIndex.Regions.{child_of-Focus}
use cs143_p.BTreeIndex.Placed.{View, Placed, Placed-range, PartsIn-lt, limit}
use cs143_p.BTreeIndex.Pages.{Sees, read-Sees}
use cs143_p.BTreeIndex.Outcome.{Outcome, Outcome-index}
use cs143_p.BTreeIndex.Leaves.{LeafAt-HasLeaf, insert_in_leaf-Outcome}
use cs143_p.BTreeIndex.Nodes.{insert_in_nonleaf-Outcome}

module _ (os : System) where
  -- One round of _insert, given what its parts return.
  pub insert_from-leaf :
      (fuel pid depth key : ℕ) (rid : RecordId) (d : Descent os)
      → depth ≡ d.index.tree_height
      → insert_from os (suc fuel) pid depth key rid d ≡ insert_in_leaf os pid key rid d
  unfolding insert_from
  insert_from-leaf fuel pid depth key rid d at = rw (at, ==_refl d.index.tree_height) refl

  insert_from-child :
      (fuel pid depth key child : ℕ) (rid : RecordId) (d c : Descent os)
      → let r = read os d.index.pf pid NonLeafNode.new_node d.store in
        depth < d.index.tree_height
        → NonLeafNode.locate_child_ptr r.buffer key minus_one ≡ some (success, child)
        → insert_from os fuel child (depth + 1) key rid (record d { rc = success; store = r.store })
          ≡ some c
        → insert_from os (suc fuel) pid depth key rid d ≡ insert_in_nonleaf os pid r.buffer c
  unfolding insert_from
  insert_from-child fuel pid depth key child rid d c above found below =
      rw (==_ne depth d.index.tree_height (omega (arith, above)), found, ◌>>=◌, below, ◌>>=◌) refl

  module _ (laws : Laws os) {fd : ℕ} (rel : Reliable os laws fd) (writing : rel.Writing) where
    -- _insert of a new key below a page of the tree ends within the height of the tree, with the entry
    -- in its place.
    pub insert_from-Outcome :
        (fuel height : ℕ) (v : View) (lo hi pid depth : ℕ) (es : List Entry) (e : Entry)
        (d : Descent os)
        → Sees os laws rel v d.index.pf d.store
        → Placed v height lo hi pid es
        → lo ≤ rank e.key
        → rank e.key < hi
        → hi ≤ limit
        → IsEntry e
        → IsIncreasing entry_key (insert_sorted entry_key e es)
        → depth + height ≡ d.index.tree_height
        → height < fuel
        → v.end_pid + height + 1 ≤ 2 ^ 21
        → (d' : Descent os) × (insert_from os fuel pid depth e.key e.rid d ≡ some d')
          × Outcome os laws rel v height lo hi pid (insert_sorted entry_key e es) d d'
    insert_from-Outcome zero height v lo hi pid depth es e d s t above below bounded entry distinct
          tall enough room =
        absurd (omega (arith, enough))
    insert_from-Outcome (suc fuel) zero v lo hi pid depth es e d s t above below bounded entry
          distinct tall enough room =
        let (d', ran, o) =
          insert_in_leaf-Outcome os laws rel writing v lo hi pid es e d s
            (LeafAt-HasLeaf v lo hi pid es t) above below bounded entry distinct
            (omega (arith, room)) in
        (d', insert_from-leaf fuel pid depth e.key e.rid d (omega (arith, tall)) ∙ ran, o)
    insert_from-Outcome (suc fuel) (suc height) v lo hi pid depth es e d s
          (at, (first, ps, node, parts)) above below bounded entry distinct tall enough room =
        let r = read os d.index.pf pid NonLeafNode.new_node d.store in
        let seen =
          read-Sees os laws rel v d.index.pf pid NonLeafNode.new_node d.store s at.in_file in
        let held : IsNode r.buffer first ps =
          subst (λ (b : Buffer). IsNode b first ps) (sym seen.page) node.node in
        let child = child_of e.key first ps in
        let f =
          child_of-Focus (Placed v height) (Placed-range v height) lo hi e.key first ps es above
            below parts in
        let inside : insert_sorted entry_key e es
            ≡ f.before ++ (insert_sorted entry_key e f.here ++ f.after) =
          ap (insert_sorted entry_key e) f.parts
          ∙ insert_sorted-middle entry_key e f.before f.here f.after f.smaller f.larger in
        let later =
          IsIncreasing-append_parts entry_key f.before (insert_sorted entry_key e f.here ++ f.after)
            (subst (IsIncreasing entry_key) inside distinct) in
        let here =
          IsIncreasing-append_parts entry_key (insert_sorted entry_key e f.here) f.after later.1 in
        let d1 : Descent os = record d { rc = success; store = r.store } in
        let (c, ran, o) =
          insert_from-Outcome fuel height v f.low f.high child (depth + 1) f.here e d1 seen.sees
            f.child f.key_low f.key_high (omega (arith, f.high_in, bounded)) entry here.0
            (omega (arith, tall)) (omega (arith, enough)) (omega (arith, room)) in
        let lt = PartsIn-lt (Placed v height) lo hi first ps es node.some_pair parts in
        let (d', done, o') =
          insert_in_nonleaf-Outcome os laws rel writing v height lo hi pid child first ps es e d1 c
            at node lt f o r.buffer held (omega (arith, room)) in
        (
          d',
          insert_from-child fuel pid depth e.key child e.rid d c (omega (arith, tall))
                (child_ptr e.key minus_one held) ran
              ∙ done,
          Outcome-index os laws rel refl o',
        )
