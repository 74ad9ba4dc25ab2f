-- ===== src/BTreeIndex/Outcome.antt =====
-- What an insertion below a page of the tree leaves.
use cs143_p.Base.{ℕ, ◌+◌, ◌≤◌, ◌<◌, ◌≡◌, ◌⊎◌, ap, ◌∙◌, List, ◌++◌}
use cs143_p.Ordered.{rank}
use cs143_p.Rc.{success, node_full}
use cs143_p.PageFile.Os.{System, Laws}
use cs143_p.PageFile.Usable.{Reliable}
use cs143_p.LeafNode.Layout.{Entry}
use cs143_p.NonLeafNode.Layout.{IsPair}
use cs143_p.BTreeIndex.{BTreeIndex}
use cs143_p.BTreeIndex.Insertion.{Descent}
use cs143_p.BTreeIndex.Placed.{View, Placed, Grows}
use cs143_p.BTreeIndex.Pages.{Sees}

module _ (os : System) (laws : Laws os) {fd : ℕ} (rel : Reliable os laws fd) where
  -- The page holds the entries up to a key, and a new page the others; the key and the new page are
  -- the output parameters.
  pub record Cut (v : View) (height lo hi pid : ℕ) (es : List Entry) (d : Descent os) : Type 0 where
    pub is_full : d.rc ≡ node_full
    pub left : List Entry
    pub right : List Entry
    pub parts : es ≡ left ++ right
    pub above : lo < rank d.split_key
    pub below : rank d.split_key < hi
    pub pair : IsPair (record { key = d.split_key; pid = d.split_pid })
    pub lower : Placed v height lo (rank d.split_key) pid left
    pub upper : Placed v height (rank d.split_key) hi d.split_pid right

  -- The page and those below it hold the entries, or the page is cut in two. Each level takes one new
  -- page at most.
  pub record Outcome (v : View) (height lo hi pid : ℕ) (es : List Entry) (d d' : Descent os)
      : Type 0 where
    pub view : View
    pub grows : Grows v view height lo hi
    pub sees : Sees os laws rel view d'.index.pf d'.store
    pub used : view.end_pid ≤ v.end_pid + height + 1
    pub same_root : d'.index.root_pid ≡ d.index.root_pid
    pub same_height : d'.index.tree_height ≡ d.index.tree_height
    pub result :
        ((d'.rc ≡ success) × Placed view height lo hi pid es) ⊎ Cut view height lo hi pid es d'

  -- The outcome does not depend on the code and the store that the descent starts with.
  pub Outcome-index :
      {v : View} {height lo hi pid : ℕ} {es : List Entry} {d d1 d' : Descent os}
      → d1.index ≡ d.index
      → Outcome v height lo hi pid es d1 d'
      → Outcome v height lo hi pid es d d'
  Outcome-index e o = record {
    view = o.view;
    grows = o.grows;
    sees = o.sees;
    used = o.used;
    same_root = o.same_root ∙ ap (λ (i : BTreeIndex). i.root_pid) e;
    same_height = o.same_height ∙ ap (λ (i : BTreeIndex). i.tree_height) e;
    result = o.result;
  }
