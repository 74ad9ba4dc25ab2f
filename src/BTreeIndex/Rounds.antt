-- ===== src/BTreeIndex/Rounds.antt =====
-- _insert at a leaf and at a node, given what its parts return.
use cs143_p.Base.{ℕ, ◌≡◌, refl, some, ◌>>=◌}
use cs143_p.Memory.{Buffer, minus_one}
use cs143_p.Rc.{success, node_full}
use cs143_p.PageFile.{read}
use cs143_p.PageFile.Os.{System}
use cs143_p.LeafNode
use cs143_p.LeafNode.Layout.{Entry}
use cs143_p.NonLeafNode
use cs143_p.BTreeIndex.{fetch_new_page}
use cs143_p.BTreeIndex.Insertion.{
  Descent, write_node, split_leaf, insert_in_leaf, split_nonleaf, insert_in_nonleaf,
}

module _ (os : System) where
  pub insert_in_leaf-room :
      (pid : ℕ) (e : Entry) (d : Descent os) {b : Buffer}
      → LeafNode.insert (read os d.index.pf pid LeafNode.new_node d.store).buffer e.key e.rid
        ≡ some (success, b)
      → insert_in_leaf os pid e.key e.rid d
        ≡ some (
            write_node os pid b (record d {
              rc = success;
              store = (read os d.index.pf pid LeafNode.new_node d.store).store;
            }))
  unfolding insert_in_leaf
  insert_in_leaf-room pid e d added = rw (added, ◌>>=◌) refl

  pub insert_in_leaf-full :
      (pid : ℕ) (e : Entry) (d : Descent os) {s : LeafNode.Split} {n : Buffer} {key new_pid : ℕ}
      → let r = read os d.index.pf pid LeafNode.new_node d.store in
        let f = fetch_new_page os d.index r.store in
        LeafNode.insert r.buffer e.key e.rid ≡ some (node_full, r.buffer)
        → f.0 ≡ new_pid
        → LeafNode.insert_and_split r.buffer e.key e.rid LeafNode.new_node d.split_key ≡ some s
        → LeafNode.set_next_node_ptr s.node new_pid ≡ some n
        → s.sibling_key ≡ key
        → insert_in_leaf os pid e.key e.rid d
          ≡ some (
              write_node os pid n (
                write_node os new_pid s.sibling (record d {
                  rc = node_full;
                  split_key = key;
                  split_pid = new_pid;
                  index = f.1;
                  store = f.2;
                })))
  unfolding insert_in_leaf split_leaf
  insert_in_leaf-full pid e d refused at split linked key_out =
      rw (refused, ◌>>=◌, split, ◌>>=◌, at, linked, ◌>>=◌, key_out) refl

  pub insert_in_nonleaf-done :
      (pid : ℕ) (node : Buffer) (c : Descent os)
      → c.rc ≡ success
      → insert_in_nonleaf os pid node c ≡ some c
  unfolding insert_in_nonleaf
  insert_in_nonleaf-done pid node c ok = rw ok refl

  pub insert_in_nonleaf-room :
      (pid : ℕ) (node : Buffer) (c : Descent os) {n : Buffer}
      → c.rc ≡ node_full
      → NonLeafNode.insert node c.split_key c.split_pid ≡ some (success, n)
      → insert_in_nonleaf os pid node c ≡ some (write_node os pid n (record c { rc = success }))
  unfolding insert_in_nonleaf
  insert_in_nonleaf-room pid node c full added = rw (full, added, ◌>>=◌) refl

  pub insert_in_nonleaf-full :
      (pid : ℕ) (node : Buffer) (c : Descent os) {s : NonLeafNode.Split} {key new_pid : ℕ}
      → let f = fetch_new_page os c.index c.store in
        c.rc ≡ node_full
        → NonLeafNode.insert node c.split_key c.split_pid ≡ some (node_full, node)
        → f.0 ≡ new_pid
        → NonLeafNode.insert_and_split node c.split_key c.split_pid NonLeafNode.new_node minus_one
          ≡ some s
        → s.mid_key ≡ key
        → insert_in_nonleaf os pid node c
          ≡ some (
              write_node os pid s.node (
                write_node os new_pid s.sibling (record c {
                  rc = node_full;
                  split_key = key;
                  split_pid = new_pid;
                  index = f.1;
                  store = f.2;
                })))
  unfolding insert_in_nonleaf split_nonleaf
  insert_in_nonleaf-full pid node c full refused at split key_out =
      rw (full, refused, ◌>>=◌, split, ◌>>=◌, at, key_out) refl
