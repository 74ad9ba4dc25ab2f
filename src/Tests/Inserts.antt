-- ===== src/Tests/Inserts.antt =====
-- An entry more in the index with a root and two leaves.
use cs143_p.Base.{ℕ, ◌≡◌, inr, refl, ◌∙◌, [], ◌∷◌, some, arith, get_elem?, ◌==◌, if◌then◌else◌}
use cs143_p.Memory.{minus_one}
use cs143_p.Ordered.{rank, insert_sorted}
use cs143_p.Ordered.Strict.{IsIncreasing}
use cs143_p.Rc.{success}
use cs143_p.LeafNode.Layout.{entry_key, leaf_page}
use cs143_p.BTreeIndex.{IndexCursor, IndexResult}
use cs143_p.BTreeIndex.Insertion.{insert_key}
use cs143_p.BTreeIndex.Placed.{View, LeafAt, limit}
use cs143_p.BTreeIndex.Roots.{metadata_of, HasTree}
use cs143_p.BTreeIndex.Inserts.{insert_key-HasTree}
use cs143_p.BTreeIndex.Returns.{IsFound, locate_key-insert_key}
use cs143_p.Tests.Leaf.{low, added, high, IsEntry-of}
use cs143_p.Tests.NonLeaf.{pair}
use cs143_p.Tests.Pages.{disk, disk_laws, page_at-disk, whole_page-id}
use cs143_p.Tests.Files.{reliable_disk, disk-Writing}
use cs143_p.Tests.Trees.{tree, tree_store, tree-Usable, IsTreeLeaf-one, root-IsNode}

abbrev view : View
view = record {
  pages = disk_laws.page_at tree_store.system 3;
  end_pid = 5;
  height_of = λ q. if q == 1 then 1 else 0;
  lower_of = λ q. if q == 0 then limit else if q == 4 then rank 8 else 0;
  leaf_from = λ x. if x == rank 8 then 4 else 3;
}

low_leaf : LeafAt view 0 (rank 8) 3 (low ∷ [])
low_leaf = record {
  place = record {
    in_file = omega arith;
    not_first = omega arith;
    height_at = refl;
    lower_at = refl;
  };
  start = refl;
  leaf =
      IsTreeLeaf-one low 4
        (page_at-disk tree_store.system 3 3 ∙ whole_page-id (leaf_page (low ∷ []) 4) refl)
        (IsEntry-of 3 (omega arith)) (omega arith);
  range = ((omega arith, omega arith), tt);
}

high_leaf : LeafAt view (rank 8) limit 4 (high ∷ [])
high_leaf = record {
  place = record {
    in_file = omega arith;
    not_first = omega arith;
    height_at = refl;
    lower_at = refl;
  };
  start = refl;
  leaf =
      IsTreeLeaf-one high minus_one
        (page_at-disk tree_store.system 3 4 ∙ whole_page-id (leaf_page (high ∷ []) minus_one) refl)
        (IsEntry-of 8 (omega arith)) (omega arith);
  range = ((omega arith, omega arith), tt);
}

tree-HasTree : HasTree disk disk_laws reliable_disk tree tree_store (low ∷ high ∷ [])
tree-HasTree = record {
  view = view;
  sees = record { usable = tree-Usable; same_pages = refl; same_end = refl };
  height = 1;
  tall = refl;
  recorded = page_at-disk tree_store.system 3 0 ∙ whole_page-id (metadata_of 1 2) refl;
  first_place = omega arith;
  tree = (
    record { in_file = omega arith; not_first = omega arith; height_at = refl; lower_at = refl },
    (
      3,
      pair 8 ∷ [],
      record { node = root-IsNode; some_pair = omega arith; few = omega arith },
      (low ∷ [], high ∷ [], refl, omega arith, omega arith, low_leaf, high_leaf),
    ),
  );
}

abbrev cursor : IndexCursor
cursor = record { pid = 0; eid = 0 }

three-IsIncreasing : IsIncreasing entry_key (insert_sorted entry_key added (low ∷ high ∷ []))
unfolding insert_sorted
three-IsIncreasing = ((omega arith, (omega arith, tt)), ((omega arith, tt), (tt, tt)))

insert_key-HasTree_example :
    (r : IndexResult disk) × (insert_key disk tree 5 added.rid tree_store ≡ some r)
    × (r.rc ≡ success)
    × HasTree disk disk_laws reliable_disk r.index r.store
        (insert_sorted entry_key added (low ∷ high ∷ []))
insert_key-HasTree_example =
    insert_key-HasTree disk disk_laws reliable_disk disk-Writing tree tree_store (low ∷ high ∷ [])
      added (inr tree-HasTree) (IsEntry-of 5 (omega arith)) three-IsIncreasing (omega arith)

locate_key-insert_key_example :
    (r : IndexResult disk) × (insert_key disk tree 5 added.rid tree_store ≡ some r)
    × (r.rc ≡ success)
    × IsFound disk disk_laws reliable_disk r.index r.store added cursor 0 low.rid
    × ((i : ℕ) × (get_elem? (insert_sorted entry_key added (low ∷ high ∷ [])) i ≡ some added))
unfolding insert_sorted
locate_key-insert_key_example =
    locate_key-insert_key disk disk_laws reliable_disk tree tree_store (low ∷ high ∷ []) added added
      1 cursor 0 low.rid disk-Writing (inr tree-HasTree) (IsEntry-of 5 (omega arith))
      three-IsIncreasing (omega arith) refl
