-- ===== src/Tests/Trees.antt =====
-- An index with a root and two leaves, and what is found in it.
use cs143_p.Base.{ℕ, ◌^◌, ◌<◌, ◌≡◌, refl, ◌∙◌, [], ◌∷◌, some, arith, get_elem?, ◌==◌, if◌then◌else◌}
use cs143_p.Memory.{Buffer, minus_one}
use cs143_p.PageFile.{Store, empty_cache}
use cs143_p.PageFile.Coherence.{empty_cache-Coherent}
use cs143_p.PageFile.Usable.{Usable}
use cs143_p.LeafNode.Layout.{Entry, IsEntry, leaf_page}
use cs143_p.NonLeafNode.Layout.{IsNode, node_page}
use cs143_p.BTreeIndex.{BTreeIndex, IndexCursor}
use cs143_p.BTreeIndex.Lookup.{Located, locate_key, Forward, read_forward}
use cs143_p.BTreeIndex.Tree.{IsTreeLeaf}
use cs143_p.BTreeIndex.Locates.{IsTreeAt, Locates, locate_key-Locates}
use cs143_p.BTreeIndex.Roots.{metadata_of}
use cs143_p.BTreeIndex.Found.{read_forward-locate_key}
use cs143_p.Tests.Leaf.{low, high, rid, IsEntry-of}
use cs143_p.Tests.NonLeaf.{pair, IsPair-of}
use cs143_p.Tests.Pages.{disk, disk_laws, every-IsPage, page_at-disk, whole_page-id}
use cs143_p.Tests.Files.{reliable_disk, disk-Ready}

-- Page 1 is the root, with the leaves 3 and 4; page 0 is that of the metadata.
abbrev pub tree_pages : ℕ → Buffer
tree_pages p =
    if p == 0
    then metadata_of 1 2
    else if p == 1
    then node_page 3 (pair 8 ∷ [])
    else if p == 3
    then leaf_page (low ∷ []) 4
    else leaf_page (high ∷ []) minus_one

abbrev pub tree : BTreeIndex
tree = record { pf = record { fd = 3; epid = 5 }; buffer = []; root_pid = 1; tree_height = 2 }

abbrev pub tree_store : Store disk
tree_store = record {
  system = record { contents = λ d p. tree_pages p; offset = 0 };
  cache = empty_cache;
  clock = 0;
  read_count = 0;
  write_count = 0;
}

pub tree-Usable : Usable disk disk_laws reliable_disk tree.pf tree_store
tree-Usable = record {
  same_fd = refl;
  coherent = empty_cache-Coherent disk disk_laws tree_store refl;
  is_open = record { has_pages = λ p h. every-IsPage tree_store.system 3 p; small = omega arith };
  ready = disk-Ready 3 tree_store.system;
}

pub IsTreeLeaf-one :
    {page : Buffer} (e : Entry) (next : ℕ)
    → page ≡ leaf_page (e ∷ []) next
    → IsEntry e
    → next < 2 ^ 32
    → IsTreeLeaf page (e ∷ []) next
IsTreeLeaf-one e next shape v small = record {
  leaf = record { shape = shape; room = omega arith; entries = (v, tt); next_int = small };
  some_entry = omega arith;
  few = omega arith;
  sorted = (tt, tt);
}

pub root-IsNode : IsNode (disk_laws.page_at tree_store.system 3 1) 3 (pair 8 ∷ [])
root-IsNode = record {
  shape = page_at-disk tree_store.system 3 1 ∙ whole_page-id (node_page 3 (pair 8 ∷ [])) refl;
  room = omega arith;
  first_int = omega arith;
  first_set = λ e. omega (arith, e);
  pairs = (IsPair-of 8 (omega arith), tt);
}

tree-IsTreeAt : IsTreeAt disk disk_laws reliable_disk tree tree_store 1 1 (low ∷ high ∷ [])
tree-IsTreeAt = (
  omega arith,
  (
    3,
    pair 8 ∷ [],
    root-IsNode,
    (
      low ∷ [],
      high ∷ [],
      refl,
      (omega arith, tt),
      (omega arith, tt),
      (
        omega arith,
        (
          4,
          IsTreeLeaf-one low 4
              (page_at-disk tree_store.system 3 3 ∙ whole_page-id (leaf_page (low ∷ []) 4) refl)
              (IsEntry-of 3 (omega arith)) (omega arith),
        ),
      ),
      (
        omega arith,
        (
          minus_one,
          IsTreeLeaf-one high minus_one
              (page_at-disk tree_store.system 3 4
                ∙ whole_page-id (leaf_page (high ∷ []) minus_one) refl)
              (IsEntry-of 8 (omega arith)) (omega arith),
        ),
      ),
    ),
  ),
)

abbrev nowhere : IndexCursor
nowhere = record { pid = minus_one; eid = 0 }

locate_key-Locates_example :
    (d : Located disk) × (locate_key disk tree 5 nowhere tree_store ≡ some d)
    × Locates disk disk_laws reliable_disk tree 5 (low ∷ high ∷ []) tree_store d
locate_key-Locates_example =
    locate_key-Locates disk disk_laws reliable_disk 1 tree 5 nowhere tree_store (low ∷ high ∷ [])
      tree-Usable refl tree-IsTreeAt

read_forward-locate_key_example :
    (d : Located disk) × (locate_key disk tree 8 nowhere tree_store ≡ some d)
    × ((f : Forward disk) × (read_forward disk tree d.cursor 0 rid d.store ≡ some f)
        × (f.key ≡ 8)
        × ((i : ℕ) × (get_elem? (low ∷ high ∷ []) i ≡ some (record { rid = f.rid; key = f.key }))))
read_forward-locate_key_example =
    read_forward-locate_key disk disk_laws reliable_disk 1 tree nowhere 0 rid tree_store
      (low ∷ high ∷ []) high 1 tree-Usable refl tree-IsTreeAt refl
