-- ===== src/Statements/Indexed.antt =====
-- print_tuples and select_from_index of SqlEngine, and select, which tries the index first.
use cs143_p.Base.{
  ℕ, zero, suc, ◌+◌, ◌%◌, ◌^◌, List, [], ◌++◌, Option, none, some, if◌then◌else◌, ◌>>=◌,
}
use cs143_p.CString.{Sign}
use cs143_p.Memory.{Buffer}
use cs143_p.Rc.{success, minus_one_code, is_negative, is_nonzero}
use cs143_p.RecordId.{RecordId}
use cs143_p.PageFile.{Store}
use cs143_p.PageFile.Os.{System}
use cs143_p.RecordFile.{RecordFile, new_record_file, open_record_file, read_record}
use cs143_p.Conditions.{SelCond, accept, skip, stop, preprocess, find_key, tuple_step}
use cs143_p.BTreeIndex.{BTreeIndex, IndexCursor, new_index, open_index, close_index}
use cs143_p.BTreeIndex.Lookup.{locate_key, read_forward}
use cs143_p.Statements.{Line, print_tuple, print_count, index_file, table_file}
use cs143_p.Statements.Select.{Done, select_from_table}

module _ (os : System) where
  -- The variables of the loop, and what was printed.
  pub record Walk : Type 0 where
    pub cursor : IndexCursor
    pub key : ℕ
    pub rid : RecordId
    pub value : List ℕ
    pub count : ℕ
    pub printed : List Line
    pub store : Store os

  abbrev pub accept_tuple : ℕ → Walk → Walk
  accept_tuple attr s = record s {
    count = (s.count + 1) % 2 ^ 32;
    printed = s.printed ++ print_tuple attr s.key s.value;
  }

  -- The loop ends when a rid cannot be read, or at a condition that ends it (`goto out`).
  unfoldable pub walk_loop :
      ℕ → BTreeIndex → RecordFile → ℕ → List SelCond → Buffer → Walk → Option Walk
  walk_loop zero index rf attr conds page s = none
  walk_loop (suc fuel) index rf attr conds page s =
      let next = λ (t : Walk). walk_loop fuel index rf attr conds page t in
      do
        f ← read_forward os index s.cursor s.key s.rid s.store
        r ← read_record os rf f.rid f.key s.value page f.store
        let t = record s {
          cursor = f.cursor;
          key = r.key;
          rid = f.rid;
          value = r.value;
          store = r.store;
        }
        if is_nonzero r.rc then some t else elim (tuple_step conds r.key r.value) [
          | accept ↦ next (accept_tuple attr t)
          | skip ↦ next t
          | stop ↦ some t
        ]

  -- `cursor` and `rid` are not initialised. The table file is not closed.
  unfoldable pub print_tuples :
      ℕ
      → BTreeIndex
      → ℕ
      → List ℕ
      → ℕ
      → List SelCond
      → IndexCursor
      → RecordId
      → Buffer
      → Store os
      → Option (Done os)
  print_tuples fuel index attr table key conds cursor rid page st = do
    o ← open_record_file os new_record_file (table_file table) b'r' page st
    if is_negative o.rc then some (record { rc = o.rc; printed = []; store = o.store }) else (do
      l ← locate_key os index key cursor o.store
      if is_nonzero l.rc
          then some (record { rc = minus_one_code; printed = []; store = l.store })
          else (do
            s ← walk_loop fuel index o.file attr conds page (record {
              cursor = l.cursor;
              key = key;
              rid = rid;
              value = [];
              count = 0;
              printed = [];
              store = l.store;
            })
            some (record {
              rc = success;
              printed = s.printed ++ print_count attr s.count;
              store = s.store;
            })))

  -- The code of print_tuples is not looked at.
  unfoldable pub select_from_index :
      ℕ
      → BTreeIndex
      → ℕ
      → List ℕ
      → List SelCond
      → IndexCursor
      → RecordId
      → Buffer
      → Store os
      → Option (Done os)
  select_from_index fuel index attr table conds cursor rid page st = do
    let merged = preprocess [] conds
    d ← print_tuples fuel index attr table (find_key merged 0) merged cursor rid page st
    let c = close_index os index d.store
    some (record { rc = c.rc; printed = d.printed; store = c.store })

  -- `fuel` is for the loop over the index.
  unfoldable pub select :
      ℕ
      → ℕ
      → List ℕ
      → List SelCond
      → ℕ
      → Sign
      → IndexCursor
      → RecordId
      → Buffer
      → Store os
      → Option (Done os)
  select fuel attr table conds key diff cursor rid page st = do
    o ← open_index os (new_index page) (index_file table) b'r' st
    if is_nonzero o.rc
        then select_from_table os attr table conds key diff page o.store
        else select_from_index fuel o.index attr table conds cursor rid page o.store
