-- ===== src/BTreeIndex.antt =====
-- BTreeIndex of bruinbase/BTreeIndex.h and bruinbase/BTreeIndex.cc, over the page file and the
-- nodes. `none` is an access outside a page, or a descent that is out of fuel.
pub mod Insertion
pub mod Lookup
pub mod Forward
pub mod Tree
pub mod Regions
pub mod Placed
pub mod Pages
pub mod Outcome
pub mod Rounds
pub mod Leaves
pub mod Nodes
pub mod Descends
pub mod Roots
pub mod Inserts
pub mod Returns
pub mod Chain
pub mod Scan
pub mod Reach
pub mod Starts
pub mod Locates
pub mod Found
pub mod Print
pub mod Metadata
use cs143_p.Base.{
  ℕ, zero, suc, ◌+◌, ◌-◌, ◌%◌, ◌^◌, List, Option, none, some, Bool, true, false, ◌==◌,
  if◌then◌else◌, ◌>>=◌, replicate,
}
use cs143_p.Memory.{Buffer, page_size, minus_one, slt, load_int, store_int}
use cs143_p.Rc.{Rc, success, minus_one_code, no_such_record, is_nonzero, is_node_full}
use cs143_p.RecordId.{RecordId}
use cs143_p.PageFile.{
  PageFile, Store, new_page_file, end_pid, open_page_file, close_page_file, read, write,
}
use cs143_p.PageFile.Os.{System}
use cs143_p.LeafNode
use cs143_p.NonLeafNode

-- BTINDEX_MD_PID.
abbrev pub metadata_pid : ℕ
metadata_pid = 0

pub record IndexCursor : Type 0 where
  pub pid : ℕ
  pub eid : ℕ

-- The fields of a BTreeIndex.
pub record BTreeIndex : Type 0 where
  pub pf : PageFile
  pub buffer : Buffer
  pub root_pid : ℕ
  pub tree_height : ℕ

-- The constructor, which leaves `buffer` as it is.
abbrev pub new_index : Buffer → BTreeIndex
new_index buffer = record {
  pf = new_page_file;
  buffer = buffer;
  root_pid = minus_one;
  tree_height = 0;
}

module _ (os : System) where
  -- What a method leaves that has no output parameter.
  pub record IndexResult : Type 0 where
    pub rc : Rc
    pub index : BTreeIndex
    pub store : Store os

  -- The pid of the new page, which is written as empty.
  unfoldable pub fetch_new_page : BTreeIndex → Store os → ℕ × BTreeIndex × Store os
  fetch_new_page index st =
      let pid = end_pid index.pf in
      let cleared = replicate page_size 255 in
      let w = write os index.pf pid cleared st in
      (pid, record index { pf = w.file; buffer = cleared }, w.store)

  unfoldable pub read_metadata : BTreeIndex → Store os → Option IndexResult
  read_metadata index st =
      let r = read os index.pf metadata_pid index.buffer st in
      let index' = record index { buffer = r.buffer } in
      if is_nonzero r.rc
      then some (record { rc = minus_one_code; index = index'; store = r.store })
      else do
        root ← load_int r.buffer 0
        height ← load_int r.buffer 4
        some (record {
          rc = success;
          index = record index' { root_pid = root; tree_height = height };
          store = r.store;
        })

  unfoldable pub commit_metadata : BTreeIndex → Store os → Option IndexResult
  commit_metadata index st = do
    b1 ← store_int index.buffer 0 index.root_pid
    b2 ← store_int b1 4 index.tree_height
    let w = write os index.pf metadata_pid b2 st
    some (record { rc = w.rc; index = record index { pf = w.file; buffer = b2 }; store = w.store })

  -- open, when the page file is open; what read_metadata returns is not looked at.
  unfoldable pub open_opened : BTreeIndex → Store os → Option IndexResult
  open_opened index st =
      if end_pid index.pf == 0
      then some (record {
        rc = success;
        index = record index { root_pid = minus_one; tree_height = 0 };
        store = st;
      })
      else do r ← read_metadata index st; some (record r { rc = success })

  unfoldable pub open_index : BTreeIndex → List ℕ → ℕ → Store os → Option IndexResult
  open_index index indexname mode st =
      let r = open_page_file os index.pf indexname mode st in
      let index' = record index { pf = r.file } in
      if is_nonzero r.rc
      then some (record { rc = r.rc; index = index'; store = r.store })
      else open_opened index' r.store

  unfoldable pub close_index : BTreeIndex → Store os → IndexResult
  close_index index st =
      let r = close_page_file os index.pf st in
      record { rc = r.rc; index = record index { pf = r.file }; store = r.store }
