-- ===== src/Tests/NonLeaf.antt =====
-- A non-leaf node with two pairs and a full one.
use cs143_p.Base.{ℕ, zero, suc, ◌<◌, ◌≡◌, refl, List, [], ◌∷◌, ◌++◌, some, arith, replicate, All}
use cs143_p.Memory.{Buffer}
use cs143_p.Rc.{success}
use cs143_p.NonLeafNode.{Split, new_node, insert, insert_and_split, locate_child_ptr}
use cs143_p.NonLeafNode.Layout.{Pair, node_page, IsPair, IsNode}
use cs143_p.NonLeafNode.Insert.{Inserted, insert-Inserted_nonleaf}
use cs143_p.NonLeafNode.Halves.{IsSplit, insert_and_split-IsSplit_nonleaf}
use cs143_p.NonLeafNode.Print.{push_children, shown_pairs, children, push_children-IsNode}
use cs143_p.NonLeafNode.Child.{IsChild, locate_child_ptr-IsChild}

abbrev pub pair : ℕ → Pair
pair k = record { key = k; pid = 4 }

abbrev two_pairs : List Pair
two_pairs = pair 3 ∷ pair 8 ∷ []

abbrev full_pairs : List Pair
full_pairs = replicate 70 (pair 3)

pub IsPair-of : (key : ℕ) → key < 100 → IsPair (pair key)
IsPair-of key h = record {
  key_int = omega arith;
  pid_int = omega arith;
  key_set = λ e. omega (arith, e);
  pid_set = λ e. omega (arith, e);
}

All-replicate_pair : (n : ℕ) (e : Pair) → IsPair e → All IsPair (replicate n e)
All-replicate_pair zero e v = tt
All-replicate_pair (suc n) e v = (v, All-replicate_pair n e v)

two-IsNode : IsNode (node_page 1 two_pairs) 1 two_pairs
two-IsNode = record {
  shape = refl;
  room = omega arith;
  first_int = omega arith;
  first_set = λ e. omega (arith, e);
  pairs = (IsPair-of 3 (omega arith), (IsPair-of 8 (omega arith), tt));
}

full-IsNode : IsNode (node_page 1 full_pairs) 1 full_pairs
full-IsNode = record {
  shape = refl;
  room = omega arith;
  first_int = omega arith;
  first_set = λ e. omega (arith, e);
  pairs = All-replicate_pair 70 (pair 3) (IsPair-of 3 (omega arith));
}

insert-Inserted_nonleaf_example :
    (buf' : Buffer) × (insert (node_page 1 two_pairs) 5 4 ≡ some (success, buf'))
    × Inserted (pair 5) 1 two_pairs buf'
insert-Inserted_nonleaf_example =
    insert-Inserted_nonleaf (pair 5) two-IsNode (IsPair-of 5 (omega arith)) (omega arith)
      (omega arith)

insert_and_split-IsSplit_nonleaf_example :
    (s : Split) × (insert_and_split (node_page 1 full_pairs) 5 4 new_node 0 ≡ some s)
    × IsSplit (pair 5) 1 full_pairs s
insert_and_split-IsSplit_nonleaf_example =
    insert_and_split-IsSplit_nonleaf (pair 5) 0 full-IsNode (IsPair-of 5 (omega arith))
      (omega arith) (omega arith)

locate_child_ptr-IsChild_example :
    (child : ℕ) × (locate_child_ptr (node_page 1 two_pairs) 5 0 ≡ some (success, child))
    × IsChild 5 1 two_pairs child
locate_child_ptr-IsChild_example =
    locate_child_ptr-IsChild 5 0 two-IsNode ((omega arith, tt), (tt, tt))

push_children-IsNode_example :
    push_children (node_page 1 two_pairs) (9 ∷ [])
    ≡ some (shown_pairs 1 two_pairs, (9 ∷ []) ++ children 1 two_pairs)
push_children-IsNode_example = push_children-IsNode (9 ∷ []) two-IsNode
