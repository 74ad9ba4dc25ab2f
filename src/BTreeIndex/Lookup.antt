-- ===== src/BTreeIndex/Lookup.antt =====
-- locate and readForward of BTreeIndex. A node is read into the page that its constructor makes;
-- what the read returns is not looked at.
use cs143_p.Base.{ℕ, zero, suc, ◌+◌, ◌-◌, ◌%◌, ◌^◌, Option, none, some, ◌==◌, if◌then◌else◌, ◌>>=◌}
use cs143_p.Memory.{minus_one, slt}
use cs143_p.Rc.{Rc, no_such_record, is_nonzero}
use cs143_p.RecordId.{RecordId}
use cs143_p.PageFile.{Store, ReadResult, read}
use cs143_p.PageFile.Os.{System}
use cs143_p.LeafNode
use cs143_p.NonLeafNode
use cs143_p.BTreeIndex.{BTreeIndex, IndexCursor}

module _ (os : System) where
  -- What locate leaves: its return code, the cursor and the store.
  pub record Located : Type 0 where
    pub rc : Rc
    pub cursor : IndexCursor
    pub store : Store os

  -- _locate at a leaf.
  unfoldable pub locate_in_leaf : ℕ → ℕ → IndexCursor → ReadResult os → Option Located
  locate_in_leaf pid search_key cursor r = do
    (rc, eid) ← LeafNode.locate r.buffer search_key cursor.eid
    some (record {
      rc = rc;
      cursor = record { pid = if is_nonzero rc then cursor.pid else pid; eid = eid };
      store = r.store;
    })

  -- _locate: each round goes down by one level. The child pid is not initialised.
  unfoldable pub locate_from : ℕ → BTreeIndex → ℕ → ℕ → ℕ → IndexCursor → Store os → Option Located
  locate_from zero index pid depth search_key cursor st = none
  locate_from (suc fuel) index pid depth search_key cursor st =
      let next =
        λ (p : ℕ) (s : Store os). locate_from fuel index p (depth + 1) search_key cursor s in
      if depth == index.tree_height
      then locate_in_leaf pid search_key cursor (read os index.pf pid LeafNode.new_node st)
      else (let r = read os index.pf pid NonLeafNode.new_node st in
          do
            (rc, child) ← NonLeafNode.locate_child_ptr r.buffer search_key minus_one
            if is_nonzero rc
                then some (record { rc = rc; cursor = cursor; store = r.store })
                else next child r.store)

  unfoldable pub locate_key : BTreeIndex → ℕ → IndexCursor → Store os → Option Located
  locate_key index search_key cursor st =
      if index.tree_height == 0
      then some (record { rc = no_such_record; cursor = cursor; store = st })
      else locate_from index.tree_height index index.root_pid 1 search_key cursor st

  -- What readForward leaves; its return code is 0.
  pub record Forward : Type 0 where
    pub cursor : IndexCursor
    pub key : ℕ
    pub rid : RecordId
    pub store : Store os

  unfoldable pub read_forward : BTreeIndex → IndexCursor → ℕ → RecordId → Store os → Option Forward
  read_forward index cursor key rid st =
      let r = read os index.pf cursor.pid LeafNode.new_node st in
      do
        (rc, k, entry) ← LeafNode.read_entry r.buffer cursor.eid key rid
        key_count ← LeafNode.get_key_count r.buffer
        next_pid ← LeafNode.get_next_node_ptr r.buffer
        some (record {
          cursor =
              if slt cursor.eid ((key_count + 2 ^ 32 - 1) % 2 ^ 32)
              then record { pid = cursor.pid; eid = (cursor.eid + 1) % 2 ^ 32 }
              else record { pid = next_pid; eid = 0 };
          key = k;
          rid = entry;
          store = r.store;
        })
