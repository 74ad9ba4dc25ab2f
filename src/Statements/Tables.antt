-- ===== src/Statements/Tables.antt =====
-- load and select on a table without an index, from the open of the table to its close.
use cs143_p.Base.{
  ℕ, ◌+◌, ◌*◌, ◌^◌, ◌≤◌, ◌<◌, ◌≡◌, refl, ap, ap₂, ◌∙◌, List, [], ◌∷◌, ◌++◌, some, true, false,
  ◌>>=◌, length, arith, All,
}
use cs143_p.CString.{Sign}
use cs143_p.Memory.{Buffer}
use cs143_p.Rc.{success, is_nonzero}
use cs143_p.RecordId.{RecordId, records_per_page}
use cs143_p.PageFile.{Store, open_flags}
use cs143_p.PageFile.Os.{System, Laws, read_only, read_write}
use cs143_p.PageFile.Usable.{Reliable}
use cs143_p.RecordFile.{
  RecordFile, Result, new_record_file, origin, open_record_file, close_record_file,
}
use cs143_p.RecordFile.Slots.{Record}
use cs143_p.RecordFile.Contents.{Holds}
use cs143_p.RecordFile.Opening.{OnDisk, open_record_file-Holds}
use cs143_p.Conditions.{SelCond}
use cs143_p.BTreeIndex.{IndexResult, IndexCursor, new_index, open_index}
use cs143_p.Statements.{print_count, index_file, table_file}
use cs143_p.Statements.Select.{Scan, scan_loop, Done, finish_scan, select_from_table}
use cs143_p.Statements.Indexed.{select}
use cs143_p.Statements.Load.{Loading, load_loop, Loaded, finish_load, open_tree, load}
use cs143_p.Statements.Rows.{IsColumn, passing, rows, scan_loop-Scanned}
use cs143_p.Statements.Loaded.{loaded, load_loop-Holds}

length-passing : (conds : List SelCond) (rs : List Record) → length (passing conds rs) ≤ length rs
unfolding passing
length-passing conds [] = omega arith
length-passing conds (r ∷ rs) = ground (arith, length-passing conds rs)

module _ (os : System) where
  -- The variables of select before the first tuple.
  abbrev scan_start : ℕ → Sign → Store os → Scan os
  scan_start key diff st = record {
    rid = origin;
    key = key;
    value = [];
    count = 0;
    diff = diff;
    printed = [];
    store = st;
  }

  select_from_table-parts :
      (attr : ℕ) (table : List ℕ) (conds : List SelCond) (key : ℕ) (diff : Sign) (page : Buffer)
      (st : Store os) (o : Result os) (t : Scan os)
      → open_record_file os new_record_file (table_file table) b'r' page st ≡ some o
      → o.rc ≡ success
      → scan_loop os
          (o.file.erid.pid * records_per_page + o.file.erid.sid + 1)
          o.file
          attr
          conds
          page
          (scan_start key diff o.store)
        ≡ some (success, t)
      → select_from_table os attr table conds key diff page st
        ≡ some (finish_scan os o.file attr success t)
  unfolding select_from_table
  select_from_table-parts attr table conds key diff page st o t opened ok scanned =
      rw (opened, ◌>>=◌, ok, scanned, ◌>>=◌) refl

  select-parts :
      (fuel attr : ℕ) (table : List ℕ) (conds : List SelCond) (key : ℕ) (diff : Sign)
      (cursor : IndexCursor) (rid : RecordId) (page : Buffer) (st : Store os) (o : IndexResult os)
      → open_index os (new_index page) (index_file table) b'r' st ≡ some o
      → is_nonzero o.rc ≡ true
      → select os fuel attr table conds key diff cursor rid page st
        ≡ select_from_table os attr table conds key diff page o.store
  unfolding select
  select-parts fuel attr table conds key diff cursor rid page st o opened failed =
      rw (opened, ◌>>=◌, failed) refl

  load-parts :
      (table : List ℕ) (lines : List (List ℕ)) (key : ℕ) (page : Buffer) (st : Store os)
      (o : Result os) (t : Loading os)
      → open_record_file os new_record_file (table_file table) b'w' page st ≡ some o
      → o.rc ≡ success
      → load_loop os false lines page (record {
        file = o.file;
        tree = new_index page;
        key = key;
        value = [];
        rid = origin;
        store = o.store;
      })
        ≡ some (success, t)
      → load os table (some lines) false key page st ≡ some (finish_load os false success t)
  unfolding load open_tree
  load-parts table lines key page st o t opened ok ran =
      rw (opened, ◌>>=◌, ok, ◌>>=◌, ran, ◌>>=◌) refl

  module _ (laws : Laws os) {fd : ℕ} (rel : Reliable os laws fd) where
    -- What select is to print for the records of a table.
    record Prints (attr : ℕ) (conds : List SelCond) (rs : List Record) (d : Done os) : Type 0 where
      succeeded : d.rc ≡ success
      printed :
          d.printed ≡ rows attr (passing conds rs) ++ print_count attr (length (passing conds rs))

    select_from_table-Prints :
        (attr : ℕ) (table : List ℕ) (conds : List SelCond) (key : ℕ) (diff : Sign) (page : Buffer)
        (st : Store os) (rs : List Record)
        → All IsColumn conds
        → OnDisk os laws rel (table_file table) read_only st rs
        → (d : Done os) × (select_from_table os attr table conds key diff page st ≡ some d)
          × Prints attr conds rs d
    unfolding finish_scan open_flags
    select_from_table-Prints attr table conds key diff page st rs columns disk =
        let (o, opened, ok, h, same_fd) =
          open_record_file-Holds os laws rel (table_file table) b'r' read_only page st rs refl
            disk in
        let slots : o.file.erid.pid * records_per_page + o.file.erid.sid ≡ length rs =
          ap (λ (e : RecordId). e.pid * records_per_page + e.sid) h.end_place ∙ omega arith in
        let (t, scanned, out) =
          scan_loop-Scanned os o.file attr conds page laws rel rs columns
            (o.file.erid.pid * records_per_page + o.file.erid.sid + 1) key [] diff o.store h
            (omega (arith, slots)) in
        let count : t.count ≡ length (passing conds rs) =
          out.counted ∙ omega (arith, length-passing conds rs, h.room) in
        (
          finish_scan os o.file attr success t,
          select_from_table-parts attr table conds key diff page st o t opened ok scanned,
          record {
            succeeded = refl;
            printed = ap₂ (◌++◌) out.printed (ap (print_count attr) count);
          },
        )

    -- select on a table whose index cannot be opened, with conditions on its columns, ends without an
    -- error: it prints, in the order of the file, the lines of exactly the records that pass the
    -- conditions, and behind them, for "select count(*)", their number.
    pub select-Prints :
        (fuel attr : ℕ) (table : List ℕ) (conds : List SelCond) (key : ℕ) (diff : Sign)
        (cursor : IndexCursor) (rid : RecordId) (page : Buffer) (st : Store os) (rs : List Record)
        (o : IndexResult os)
        → open_index os (new_index page) (index_file table) b'r' st ≡ some o
        → is_nonzero o.rc ≡ true
        → All IsColumn conds
        → OnDisk os laws rel (table_file table) read_only o.store rs
        → (d : Done os) × (select os fuel attr table conds key diff cursor rid page st ≡ some d)
          × (d.rc ≡ success)
          × (d.printed
              ≡ rows attr (passing conds rs) ++ print_count attr (length (passing conds rs)))
    select-Prints fuel attr table conds key diff cursor rid page st rs o no_index failed columns
          disk =
        let (d, ran, p) =
          select_from_table-Prints attr table conds key diff page o.store rs columns disk in
        (
          d,
          select-parts fuel attr table conds key diff cursor rid page st o no_index failed ∙ ran,
          p.succeeded,
          p.printed,
        )

    -- load without an index into a table, open for writing, that holds a list of records and has room
    -- for the lines, succeeds: the file that it closes holds the old records and behind them one
    -- for each line.
    pub load-Holds :
        (table : List ℕ) (lines : List (List ℕ)) (key : ℕ) (page : Buffer) (st : Store os)
        (rs : List Record)
        → rel.Writing
        → OnDisk os laws rel (table_file table) read_write st rs
        → length rs + length lines < 2 ^ 24
        → (l : Loaded os) × (load os table (some lines) false key page st ≡ some l)
          × (l.rc ≡ success)
          × ((file : RecordFile) × (st' : Store os) × Holds os laws rel file st'
                (rs ++ loaded [] lines)
              × (l.store ≡ (close_record_file os file st').store))
    unfolding finish_load open_flags
    load-Holds table lines key page st rs writing disk room =
        let (o, opened, ok, h, same_fd) =
          open_record_file-Holds os laws rel (table_file table) b'w' read_write page st rs refl
            disk in
        let s : Loading os = record {
          file = o.file;
          tree = new_index page;
          key = key;
          value = [];
          rid = origin;
          store = o.store;
        } in
        let (t, ran, h') = load_loop-Holds os laws rel writing lines page s h room in
        (
          finish_load os false success t,
          load-parts table lines key page st o t opened ok ran,
          refl,
          (t.file, t.store, h', refl),
        )
