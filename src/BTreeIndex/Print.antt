-- ===== src/BTreeIndex/Print.antt =====
-- printTree of BTreeIndex: the nodes of the tree level by level.
use cs143_p.Base.{
  ℕ, zero, suc, ◌+◌, List, [], ◌∷◌, ◌++◌, Option, none, some, ◌==◌, if◌then◌else◌, ◌>>=◌,
}
use cs143_p.Memory.{Buffer, minus_one}
use cs143_p.PageFile.{Store, read}
use cs143_p.PageFile.Os.{System}
use cs143_p.LeafNode
use cs143_p.LeafNode.Print as LeafPrint
use cs143_p.NonLeafNode
use cs143_p.NonLeafNode.Print as NonLeafPrint
use cs143_p.BTreeIndex.{BTreeIndex}

-- What is printed: a line break behind each level, and the nodes.
pub data Printed : Type 0 where
  end_of_level : Printed
  leaf_node : List ℕ → ℕ → Printed
  nonleaf_node : List (ℕ × ℕ) → Printed

module _ (os : System) where
  -- The variables of the loop, in which the two node objects are used again for each node.
  pub record Printing : Type 0 where
    pub queue : List ℕ
    pub height : ℕ
    pub leaf : Buffer
    pub nonleaf : Buffer
    pub printed : List Printed
    pub store : Store os

  -- The round for the mark behind a level, unless it is the last one.
  unfoldable pub print_mark : ℕ → List ℕ → Printing → Printing
  print_mark p rest s = record s {
    queue = (p ∷ rest) ++ (minus_one ∷ []);
    height = s.height + 1;
    printed = s.printed ++ (end_of_level ∷ []);
  }

  -- The round for a node.
  unfoldable pub print_node : BTreeIndex → ℕ → List ℕ → Printing → Option Printing
  print_node index pid rest s =
      if s.height == index.tree_height
      then (let r = read os index.pf pid s.leaf s.store in
          do
            (keys, next) ← LeafPrint.print_buffer r.buffer
            some (record s {
              queue = rest;
              leaf = r.buffer;
              printed = s.printed ++ (leaf_node keys next ∷ []);
              store = r.store;
            }))
      else (let r = read os index.pf pid s.nonleaf s.store in
          do
            (pairs, q) ← NonLeafPrint.push_children r.buffer rest
            some (record s {
              queue = q;
              nonleaf = r.buffer;
              printed = s.printed ++ (nonleaf_node pairs ∷ []);
              store = r.store;
            }))

  -- The loop, which the mark behind the last level ends.
  unfoldable pub print_tree_loop : ℕ → BTreeIndex → Printing → Option Printing
  print_tree_loop zero index s = none
  print_tree_loop (suc fuel) index s =
      let next = λ (t : Printing). print_tree_loop fuel index t in
      elim s.queue [
        | [] ↦ some s
        | pid ∷ rest ↦
            if pid == minus_one
            then elim rest [
              | [] ↦ some (record s { queue = []; printed = s.printed ++ (end_of_level ∷ []) })
              | p ∷ more ↦ next (print_mark p more s)
            ]
            else (do t ← print_node index pid rest s; next t)
      ]

  unfoldable pub print_tree : ℕ → BTreeIndex → Store os → Option Printing
  print_tree fuel index st = print_tree_loop fuel index (record {
    queue = index.root_pid ∷ minus_one ∷ [];
    height = 1;
    leaf = LeafNode.new_node;
    nonleaf = NonLeafNode.new_node;
    printed = [];
    store = st;
  })
