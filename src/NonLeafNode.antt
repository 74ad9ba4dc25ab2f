-- ===== src/NonLeafNode.antt =====
-- BTNonLeafNode of bruinbase/BTreeNode.h and bruinbase/BTreeNode.cc, over the bytes of its page
-- buffer: a first pid, and then pairs of a key and a pid. `none` is an access outside the buffer.
pub mod Layout
pub mod Count
pub mod Search
pub mod Pairs
pub mod Insert
pub mod Halves
pub mod Child
pub mod Print
use cs143_p.Base.{
  ℕ, zero, suc, ◌+◌, ◌-◌, ◌*◌, ◌/◌, Option, none, some, Bool, true, false, ◌==◌, ◌||◌, ◌>>=◌,
  if◌then◌else◌, leb, replicate,
}
use cs143_p.Memory.{
  Buffer, page_size, minus_one, slt, load_int, store_int, write_at, read_at, move_within, fill,
}
use cs143_p.Rc.{Rc, success, node_full, invalid_attribute, invalid_pid}

abbrev pub max_nonleaf_key_count : ℕ
max_nonleaf_key_count = 70

-- KEY_SIZE + PAGE_ID_SIZE.
abbrev pub pair_size : ℕ
pair_size = 8

-- The loops read eight bytes in each round, so they leave the page within 130 rounds.
abbrev pub rounds : ℕ
rounds = 130

-- The pattern of the `int` -2, with which the loops start.
abbrev pub minus_two : ℕ
minus_two = 0xffff_fffe

-- The constructor: memset(buffer, 0xff, PAGE_SIZE).
abbrev pub new_node : Buffer
new_node = replicate page_size 255

-- The loop of getKeyCount.
unfoldable pub count_loop : ℕ → Buffer → ℕ → ℕ → ℕ → Option ℕ
count_loop zero buf curr_pid ind num_keys = none
count_loop (suc fuel) buf curr_pid ind num_keys =
    let next = λ (p : ℕ). count_loop fuel buf p (ind + pair_size) (num_keys + 1) in
    if curr_pid == minus_one
    then some num_keys
    else do p ← load_int buf ind; k ← load_int buf (ind + 4); next p

unfoldable pub get_key_count : Buffer → Option ℕ
get_key_count buf = do
  num_keys ← count_loop rounds buf minus_two 0 0
  some (if num_keys == 1 then 0 else num_keys - 2)

-- How the `while` loop of insert and _insert ends: at a pair with a larger key, at a free pair, or
-- behind a pid that is -1.
pub data Place : Type 0 where
  before_pair : ℕ → Place
  free_pair : ℕ → Place
  past_end : ℕ → Place

unfoldable pub place_loop : ℕ → Buffer → ℕ → ℕ → ℕ → Option Place
place_loop zero buf key curr_pid ind = none
place_loop (suc fuel) buf key curr_pid ind =
    let next = λ (p : ℕ). place_loop fuel buf key p (ind + pair_size) in
    if curr_pid == minus_one then some (past_end ind) else do
      k ← load_int buf ind
      p ← load_int buf (ind + 4)
      if slt key k
          then some (before_pair ind)
          else if k == minus_one
          then some (free_pair ind)
          else next p

-- The pair is written at `ind`: the key first, then the pid.
unfoldable pub write_pair : Buffer → ℕ → ℕ → ℕ → Option Buffer
write_pair buf ind key pid = do b ← store_int buf ind key; store_int b (ind + 4) pid

-- The memmove that frees the pair at `ind`, and the write.
unfoldable pub shift_and_write : Buffer → ℕ → ℕ → ℕ → Option Buffer
shift_and_write buf ind key pid = do
  moved ← move_within buf (ind + pair_size) ind (page_size - (ind + pair_size))
  write_pair moved ind key pid

-- The pid is written before the key: in an empty node, and behind the end.
unfoldable pub write_pid_key : Buffer → ℕ → ℕ → ℕ → Option Buffer
write_pid_key buf ind key pid = do b ← store_int buf ind pid; store_int b (ind + 4) key

unfoldable pub insert_at : Buffer → ℕ → ℕ → Place → Option Buffer
insert_at buf key pid (before_pair ind) = shift_and_write buf ind key pid
insert_at buf key pid (free_pair ind) = write_pair buf ind key pid
insert_at buf key pid (past_end ind) = write_pid_key buf ind key pid

-- _insert: insert without the test for a full node.
unfoldable pub insert_unbounded : Buffer → ℕ → ℕ → Option Buffer
insert_unbounded buf key pid = do
  key_count ← get_key_count buf
  if key_count == 0
      then write_pid_key buf 0 key pid
      else (do place ← place_loop rounds buf key minus_two 4; insert_at buf key pid place)

unfoldable pub insert : Buffer → ℕ → ℕ → Option (Rc × Buffer)
insert buf key pid = do
  key_count ← get_key_count buf
  if key_count == max_nonleaf_key_count
      then some (node_full, buf)
      else if key_count == 0
      then (do b ← write_pid_key buf 0 key pid; some (success, b))
      else (do
        place ← place_loop rounds buf key minus_two 4
        b ← insert_at buf key pid place
        some (success, b))

-- What insertAndSplit leaves: its return code, the two nodes and the output parameter.
pub record Split : Type 0 where
  pub rc : Rc
  pub node : Buffer
  pub sibling : Buffer
  pub mid_key : ℕ

-- The middle key at `ind + 4` goes to the parent, and what is behind it to the sibling. A negative
-- number of bytes is an access outside the page.
unfoldable pub move_half : Buffer → Buffer → ℕ → ℕ → Option Split
move_half node sibling ind size = do
  key ← load_int node (ind + 4)
  upper ←
      if leb (ind + pair_size) size
      then read_at node (ind + pair_size) (size - (ind + pair_size))
      else none
  s ← write_at sibling 0 upper
  n ← fill node (ind + 4) 255 (size - (ind + 4))
  some (record { rc = success; node = n; sibling = s; mid_key = key })

unfoldable pub insert_and_split : Buffer → ℕ → ℕ → Buffer → ℕ → Option Split
insert_and_split buf key pid sibling mid_key = do
  sibling_count ← get_key_count sibling
  if sibling_count == 0
      then (do
        node ← insert_unbounded buf key pid
        key_count ← get_key_count node
        move_half node sibling (key_count / 2 * pair_size) (key_count * pair_size + 4))
      else some
          (record { rc = invalid_attribute; node = buf; sibling = sibling; mid_key = mid_key })

-- The loop of locateChildPtr; `pid` is the output parameter, which keeps its value on an error.
unfoldable pub child_loop : ℕ → Buffer → ℕ → ℕ → ℕ → ℕ → Option (Rc × ℕ)
child_loop zero buf search_key pid curr_pid ind = none
child_loop (suc fuel) buf search_key pid curr_pid ind =
    let next = λ (p : ℕ). child_loop fuel buf search_key pid p (ind + pair_size) in
    if curr_pid == minus_one then some (invalid_pid, pid) else do
      p ← load_int buf ind
      k ← load_int buf (ind + 4)
      if slt search_key k || k == minus_one then some (success, p) else next p

unfoldable pub locate_child_ptr : Buffer → ℕ → ℕ → Option (Rc × ℕ)
locate_child_ptr buf search_key pid = child_loop rounds buf search_key pid minus_two 0

unfoldable pub initialize_root : Buffer → ℕ → ℕ → ℕ → Option Buffer
initialize_root buf pid1 key pid2 = do
  cleared ← fill buf 0 255 page_size
  b1 ← store_int cleared 0 pid1
  b2 ← store_int b1 4 key
  store_int b2 8 pid2
