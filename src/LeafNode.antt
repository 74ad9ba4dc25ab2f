-- ===== src/LeafNode.antt =====
-- BTLeafNode of bruinbase/BTreeNode.h and bruinbase/BTreeNode.cc, over the bytes of its page
-- buffer. `none` is an access outside the buffer. The methods take the buffer and return the new
-- one beside the return code.
pub mod Layout
pub mod Count
pub mod Search
pub mod Slot
pub mod Insert
pub mod Halves
pub mod Locate
pub mod Print
use cs143_p.Base.{
  ℕ, zero, suc, ◌+◌, ◌-◌, ◌*◌, ◌/◌, Option, none, some, Bool, true, false, ◌==◌, ◌||◌, ◌>>=◌,
  if◌then◌else◌, replicate, drop, List,
}
use cs143_p.Memory.{
  Buffer, page_size, minus_one, slt, sle, load_int, store_int, write_at, read_at, move_within, fill,
}
use cs143_p.RecordId.{RecordId, load_rid, rid_bytes}
use cs143_p.Rc.{Rc, success, node_full, invalid_attribute}

abbrev pub max_leaf_key_count : ℕ
max_leaf_key_count = 70

-- RECORD_ID_SIZE + KEY_SIZE.
abbrev pub slot_size : ℕ
slot_size = 12

-- The loops read one slot of 12 bytes in each round, so they leave the page within 86 rounds.
abbrev pub rounds : ℕ
rounds = 86

-- The constructor: memset(buffer, 0xff, PAGE_SIZE).
abbrev pub new_node : Buffer
new_node = replicate page_size 255

-- The `foreach` of getKeyCount. Its macro reads four bytes as the key, and the next eight as the
-- rid, so that `rid.pid` here is the slot number of a stored entry.
unfoldable pub count_loop : ℕ → Buffer → ℕ → Option ℕ
count_loop zero tbuffer count = none
count_loop (suc fuel) tbuffer count =
    let next = count_loop fuel (drop slot_size tbuffer) (count + 1) in
    do
      key ← load_int tbuffer 0
      rid ← load_rid tbuffer 4
      if rid.pid == minus_one then some count else next

unfoldable pub get_key_count : Buffer → Option ℕ
get_key_count buf = count_loop rounds buf 0

unfoldable pub get_next_node_ptr : Buffer → Option ℕ
get_next_node_ptr buf = load_int buf (page_size - 4)

unfoldable pub set_next_node_ptr : Buffer → ℕ → Option Buffer
set_next_node_ptr buf pid = do
  cleared ← fill buf (page_size - 4) 0 4
  store_int cleared (page_size - 4) pid

-- How the `while` loop of insert and _insert ends: at a slot before which the pair goes, or
-- behind the slot whose pid is -1.
pub data Place : Type 0 where
  before_slot : ℕ → Place
  past_end : ℕ → Place

unfoldable pub place_loop : ℕ → Buffer → ℕ → ℕ → ℕ → Option Place
place_loop zero buf key curr_pid ind = none
place_loop (suc fuel) buf key curr_pid ind =
    let next = λ (p : ℕ). place_loop fuel buf key p (ind + slot_size) in
    if curr_pid == minus_one then some (past_end ind) else do
      curr_rid ← load_rid buf ind
      curr_key ← load_int buf (ind + 8)
      if slt key curr_key || curr_key == minus_one
          then some (before_slot ind)
          else next curr_rid.pid

-- The pair is written at `ind`: the rid first, then the key.
unfoldable pub write_slot : Buffer → ℕ → ℕ → RecordId → Option Buffer
write_slot buf ind key rid = do b ← write_at buf ind (rid_bytes rid); store_int b (ind + 8) key

-- The memmove that frees the slot at `ind`, and the write of the pair.
unfoldable pub shift_and_write : Buffer → ℕ → ℕ → RecordId → Option Buffer
shift_and_write buf ind key rid = do
  moved ← move_within buf (ind + slot_size) ind (page_size - (ind + slot_size))
  write_slot moved ind key rid

-- The end of insert: the pointer to the next leaf is saved across the move.
unfoldable pub insert_at : Buffer → ℕ → RecordId → Place → Option Buffer
insert_at buf key rid (before_slot ind) = do
  next_pid ← get_next_node_ptr buf
  b ← shift_and_write buf ind key rid
  set_next_node_ptr b next_pid
insert_at buf key rid (past_end ind) = write_slot buf ind key rid

unfoldable pub insert : Buffer → ℕ → RecordId → Option (Rc × Buffer)
insert buf key rid = do
  key_count ← get_key_count buf
  if key_count == max_leaf_key_count
      then some (node_full, buf)
      else if key_count == 0
      then (do b ← write_slot buf 0 key rid; some (success, b))
      else (do
        place ← place_loop rounds buf key 0 0
        b ← insert_at buf key rid place
        some (success, b))

-- The end of _insert, which does not keep the pointer.
unfoldable pub insert_unbounded_at : Buffer → ℕ → RecordId → Place → Option Buffer
insert_unbounded_at buf key rid (before_slot ind) = shift_and_write buf ind key rid
insert_unbounded_at buf key rid (past_end ind) = write_slot buf ind key rid

-- _insert: insert without the test for a full node.
unfoldable pub insert_unbounded : Buffer → ℕ → RecordId → Option Buffer
insert_unbounded buf key rid = do
  key_count ← get_key_count buf
  if key_count == 0
      then write_slot buf 0 key rid
      else (do place ← place_loop rounds buf key 0 0; insert_unbounded_at buf key rid place)

-- What insertAndSplit leaves: its return code, the two nodes and the output parameter.
pub record Split : Type 0 where
  pub rc : Rc
  pub node : Buffer
  pub sibling : Buffer
  pub sibling_key : ℕ

-- From the middle slot at `ind` on, the slots move to the sibling.
unfoldable pub move_half : Buffer → Buffer → ℕ → ℕ → Option Split
move_half node sibling ind size = do
  key ← load_int node (ind + 8)
  upper ← read_at node ind (size - ind)
  s ← write_at sibling 0 upper
  n ← fill node ind 255 (size - ind)
  some (record { rc = success; node = n; sibling = s; sibling_key = key })

unfoldable pub insert_and_split : Buffer → ℕ → RecordId → Buffer → ℕ → Option Split
insert_and_split buf key rid sibling sibling_key = do
  sibling_count ← get_key_count sibling
  if sibling_count == 0
      then (do
        next_pid ← get_next_node_ptr buf
        s ← set_next_node_ptr sibling next_pid
        node ← insert_unbounded buf key rid
        key_count ← get_key_count node
        move_half node s (key_count / 2 * slot_size) (key_count * slot_size))
      else some (record {
        rc = invalid_attribute;
        node = buf;
        sibling = sibling;
        sibling_key = sibling_key;
      })

-- The `while (count)` of locate, over the pointer `tbuffer`.
unfoldable pub locate_loop : ℕ → Buffer → ℕ → ℕ → Option ℕ
locate_loop zero tbuffer search_key entry = some entry
locate_loop (suc count) tbuffer search_key entry =
    let next = locate_loop count (drop slot_size tbuffer) search_key (entry + 1) in
    do key ← load_int tbuffer 8; if sle search_key key then some entry else next

-- locate: the return code, and the new value of `eid`.
unfoldable pub locate : Buffer → ℕ → ℕ → Option (Rc × ℕ)
locate buf search_key eid = do
  count ← get_key_count buf
  if count == 0
      then some (invalid_attribute, eid)
      else (do entry ← locate_loop count buf search_key 0; some (success, entry))

-- readEntry: the return code, and the new values of `key` and `rid`.
unfoldable pub read_entry : Buffer → ℕ → ℕ → RecordId → Option (Rc × ℕ × RecordId)
read_entry buf eid key rid =
    if sle max_leaf_key_count eid then some (invalid_attribute, key, rid) else do
      r ← load_rid buf (slot_size * eid)
      k ← load_int buf (slot_size * eid + 8)
      some (success, k, r)
