-- ===== src/BTreeIndex/Insertion.antt =====
-- insert of BTreeIndex. A node is read into the page that its constructor makes; what reads and
-- writes of nodes return is not looked at.
use cs143_p.Base.{ℕ, zero, suc, ◌+◌, ◌%◌, ◌^◌, Option, none, some, ◌==◌, if◌then◌else◌, ◌>>=◌}
use cs143_p.Memory.{Buffer, minus_one}
use cs143_p.Rc.{Rc, success, is_nonzero, is_node_full}
use cs143_p.RecordId.{RecordId}
use cs143_p.PageFile.{Store, read, write}
use cs143_p.PageFile.Os.{System}
use cs143_p.LeafNode
use cs143_p.NonLeafNode
use cs143_p.BTreeIndex.{BTreeIndex, IndexResult, fetch_new_page, commit_metadata}

module _ (os : System) where
  -- What _insert leaves: its return code, the two output parameters, the index and the store.
  pub record Descent : Type 0 where
    pub rc : Rc
    pub split_key : ℕ
    pub split_pid : ℕ
    pub index : BTreeIndex
    pub store : Store os

  -- node.write(pid, pf).
  unfoldable pub write_node : ℕ → Buffer → Descent → Descent
  write_node pid node d =
      let w = write os d.index.pf pid node d.store in
      record d { index = record d.index { pf = w.file }; store = w.store }

  -- A full leaf is split: the sibling goes to a new page, and the leaf points to it.
  unfoldable pub split_leaf : ℕ → Buffer → ℕ → RecordId → Descent → Option Descent
  split_leaf pid node key rid d =
      let (split_pid, index, st) = fetch_new_page os d.index d.store in
      do
        s ← LeafNode.insert_and_split node key rid LeafNode.new_node d.split_key
        n ← LeafNode.set_next_node_ptr s.node split_pid
        let d' = record d {
          split_key = s.sibling_key;
          split_pid = split_pid;
          index = index;
          store = st;
        }
        some (write_node pid n (write_node split_pid s.sibling d'))

  -- _insert at a leaf.
  unfoldable pub insert_in_leaf : ℕ → ℕ → RecordId → Descent → Option Descent
  insert_in_leaf pid key rid d =
      let r = read os d.index.pf pid LeafNode.new_node d.store in
      do
        (rc, node) ← LeafNode.insert r.buffer key rid
        let d' = record d { rc = rc; store = r.store }
        if is_node_full rc then split_leaf pid node key rid d' else some (write_node pid node d')

  -- A full node is split; `midkey` is not initialised.
  unfoldable pub split_nonleaf : ℕ → Buffer → Descent → Option Descent
  split_nonleaf pid node d =
      let (new_pid, index, st) = fetch_new_page os d.index d.store in
      do
        s ← NonLeafNode.insert_and_split node d.split_key d.split_pid NonLeafNode.new_node minus_one
        let d' = record d { split_key = s.mid_key; split_pid = new_pid; index = index; store = st }
        some (write_node pid s.node (write_node new_pid s.sibling d'))

  -- _insert at a node, behind the call for its child: a child that was split has a new sibling.
  unfoldable pub insert_in_nonleaf : ℕ → Buffer → Descent → Option Descent
  insert_in_nonleaf pid node d =
      if is_node_full d.rc
      then (do
        (rc, n) ← NonLeafNode.insert node d.split_key d.split_pid
        let d' = record d { rc = rc }
        if is_node_full rc then split_nonleaf pid n d' else some (write_node pid n d'))
      else some d

  -- _insert: each round goes down by one level. The child pid is not initialised.
  unfoldable pub insert_from : ℕ → ℕ → ℕ → ℕ → RecordId → Descent → Option Descent
  insert_from zero pid depth key rid d = none
  insert_from (suc fuel) pid depth key rid d =
      let next = λ (p : ℕ) (e : Descent). insert_from fuel p (depth + 1) key rid e in
      if depth == d.index.tree_height
      then insert_in_leaf pid key rid d
      else (let r = read os d.index.pf pid NonLeafNode.new_node d.store in
          do
            (rc, child) ← NonLeafNode.locate_child_ptr r.buffer key minus_one
            let d' = record d { rc = rc; store = r.store }
            if is_nonzero rc
                then some d'
                else (do e ← next child d'; insert_in_nonleaf pid r.buffer e))

  -- insert into an index without a root: the metadata page and a leaf are written first.
  unfoldable pub make_root : BTreeIndex → Store os → Option (IndexResult os)
  make_root index st =
      let (md_pid, index1, st1) = fetch_new_page os (record index { tree_height = 1 }) st in
      let (root, index2, st2) = fetch_new_page os index1 st1 in
      commit_metadata os (record index2 { root_pid = root }) st2

  -- insert, when the root was split: a new root over the two halves.
  unfoldable pub grow_root : Descent → Option (IndexResult os)
  grow_root d =
      let (new_pid, index, st) = fetch_new_page os d.index d.store in
      do
        root ←
            NonLeafNode.initialize_root NonLeafNode.new_node index.root_pid d.split_key d.split_pid
        let w = write os index.pf new_pid root st
        let grown = record index {
          pf = w.file;
          root_pid = new_pid;
          tree_height = (index.tree_height + 1) % 2 ^ 32;
        }
        commit_metadata os grown w.store

  -- insert returns 0 whatever happened.
  unfoldable pub insert_key : BTreeIndex → ℕ → RecordId → Store os → Option (IndexResult os)
  insert_key index key rid st = do
    start ←
        if index.tree_height == 0
        then make_root index st
        else some (record { rc = success; index = index; store = st })
    d ← insert_from start.index.tree_height start.index.root_pid 1 key rid (record {
      rc = success;
      split_key = minus_one;
      split_pid = minus_one;
      index = start.index;
      store = start.store;
    })
    done ←
        if is_node_full d.rc
        then grow_root d
        else some (record { rc = success; index = d.index; store = d.store })
    some (record done { rc = success })
