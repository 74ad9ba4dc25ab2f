-- ===== src/Rc.antt =====
-- The return codes of bruinbase/Bruinbase.h. `RC` is an `int`: 0 is success, the named codes are
-- negative, and `one` and `minus_one_code` are the two plain numbers that some functions return.
use cs143_p.Base.{Bool, true, false}

pub data Rc : Type 0 where
  success one minus_one_code : Rc
  file_open_failed file_close_failed file_seek_failed file_read_failed file_write_failed : Rc
  invalid_file_mode invalid_pid invalid_rid invalid_file_format node_full invalid_cursor : Rc
  no_such_record end_of_tree invalid_attribute : Rc

-- `rc < 0`.
abbrev pub is_negative : Rc → Bool
is_negative success = false
is_negative one = false
is_negative _ = true

-- `rc` as a condition: `rc != 0`.
abbrev pub is_nonzero : Rc → Bool
is_nonzero success = false
is_nonzero _ = true

-- `rc == RC_NODE_FULL`.
abbrev pub is_node_full : Rc → Bool
is_node_full node_full = true
is_node_full _ = false
