-- ===== src/Statements/Printed.antt =====
-- print_tuples of SqlEngine on an index of the table.
use cs143_p.Base.{
  ℕ, ◌%◌, ◌^◌, ◌≤◌, ◌<◌, ◌≡◌, refl, sym, subst, ap, ap₂, ◌∙◌, List, [], ◌∷◌, ◌++◌, some, false,
  ◌>>=◌, length, arith, All, get_elem?,
}
use cs143_p.Memory.{Buffer}
use cs143_p.Ordered.{rank}
use cs143_p.Rc.{success, is_negative, is_nonzero}
use cs143_p.RecordId.{RecordId}
use cs143_p.PageFile.{Store, open_flags}
use cs143_p.PageFile.Os.{System, Laws, read_only}
use cs143_p.PageFile.Usable.{Reliable}
use cs143_p.RecordFile.{Result, new_record_file, open_record_file}
use cs143_p.RecordFile.Opening.{OnDisk, opened_store, open_record_file-Opens}
use cs143_p.RecordFile.Slots.{Record}
use cs143_p.RecordFile.Contents.{OnlyReads-Holds}
use cs143_p.Conditions.{SelCond, preprocess, find_key}
use cs143_p.CString.{Sign}
use cs143_p.LeafNode.Layout.{Entry}
use cs143_p.BTreeIndex.{BTreeIndex, IndexCursor, IndexResult, new_index, open_index, close_index}
use cs143_p.BTreeIndex.Lookup.{Located, locate_key}
use cs143_p.BTreeIndex.Roots.{HasTree, OnlyReads-HasTree}
use cs143_p.BTreeIndex.Starts.{locate_key-Starts}
use cs143_p.Statements.{print_count, index_file, table_file}
use cs143_p.Statements.Select.{Done}
use cs143_p.Statements.Rows.{rows}
use cs143_p.Statements.Indexed.{Walk, walk_loop, print_tuples, select, select_from_index}
use cs143_p.Statements.Walked.{taken, Points, walk_loop-Walked}

-- The records of the entries behind some others.
record Behind (rs : List Record) (skipped rest : List Entry) (found : List Record) : Type 0 where
  first : List Record
  records : List Record
  parts : found ≡ first ++ records
  as_many : length first ≡ length skipped
  points : Points rs rest records

Points-Behind :
    (rs : List Record) (skipped rest : List Entry) (found : List Record)
    → Points rs (skipped ++ rest) found
    → Behind rs skipped rest found
Points-Behind rs [] rest found p = record {
  first = [];
  records = found;
  parts = refl;
  as_many = refl;
  points = p;
}
Points-Behind rs (e ∷ skipped) rest found (r, others, same, place, at, p) =
    let b = Points-Behind rs skipped rest others p in
    record {
      first = r ∷ b.first;
      records = b.records;
      parts = same ∙ ap (◌∷◌ r) b.parts;
      as_many = omega (arith, b.as_many);
      points = b.points;
    }

-- The records of the entries from the first one with the key on.
pub record FromRecord (key : ℕ) (es : List Entry) (found records : List Record) : Type 0 where
  pub skipped : List Entry
  pub rest : List Entry
  pub parts : es ≡ skipped ++ rest
  pub smaller : All (λ e. rank e.key < rank key) skipped
  pub from_key : (e : Entry) × (get_elem? rest 0 ≡ some e) × (e.key ≡ key)
  pub first : List Record
  pub cut : found ≡ first ++ records
  pub as_many : length first ≡ length skipped

length-rest : (xs ys : List Entry) → length ys ≤ length (xs ++ ys)
length-rest [] ys = omega arith
length-rest (x ∷ xs) ys = omega (arith, length-rest xs ys)

module _ (os : System) where
  print_tuples-parts :
      (fuel : ℕ) (index : BTreeIndex) (attr : ℕ) (table : List ℕ) (key : ℕ) (conds : List SelCond)
      (cursor : IndexCursor) (rid : RecordId) (page : Buffer) (st : Store os) (o : Result os)
      (l : Located os) (t : Walk os)
      → open_record_file os new_record_file (table_file table) b'r' page st ≡ some o
      → is_negative o.rc ≡ false
      → locate_key os index key cursor o.store ≡ some l
      → is_nonzero l.rc ≡ false
      → walk_loop os fuel index o.file attr conds page (record {
        cursor = l.cursor;
        key = key;
        rid = rid;
        value = [];
        count = 0;
        printed = [];
        store = l.store;
      })
        ≡ some t
      → print_tuples os fuel index attr table key conds cursor rid page st
        ≡ some (record {
          rc = success;
          printed = t.printed ++ print_count attr t.count;
          store = t.store;
        })
  unfolding print_tuples
  print_tuples-parts fuel index attr table key conds cursor rid page st o l t opened ok located
        found walked =
      rw (opened, ◌>>=◌, ok, located, ◌>>=◌, found, walked, ◌>>=◌) refl

  select-parts :
      (fuel attr : ℕ) (table : List ℕ) (conds : List SelCond) (key : ℕ) (diff : Sign)
      (cursor : IndexCursor) (rid : RecordId) (page : Buffer) (st : Store os) (o : IndexResult os)
      (d : Done os)
      → open_index os (new_index page) (index_file table) b'r' st ≡ some o
      → is_nonzero o.rc ≡ false
      → print_tuples os fuel o.index attr table
          (find_key (preprocess [] conds) 0)
          (preprocess [] conds)
          cursor
          rid
          page
          o.store
        ≡ some d
      → select os fuel attr table conds key diff cursor rid page st
        ≡ some (record {
          rc = (close_index os o.index d.store).rc;
          printed = d.printed;
          store = (close_index os o.index d.store).store;
        })
  unfolding select select_from_index
  select-parts fuel attr table conds key diff cursor rid page st o d opened ok printed =
      rw (opened, ◌>>=◌, ok, printed, ◌>>=◌) refl

  module _ (laws : Laws os) {fd fd' : ℕ} (rel : Reliable os laws fd)
      (rel' : Reliable os laws fd') where
    -- If the table holds a list of records, once it is open, and the index then holds entries, each
    -- with the rid of its record, print_tuples from the key of an entry, with more rounds than there
    -- are entries, ends without an error: it prints, in the order of the index, the lines of the
    -- records that its loop takes among those whose entries stand from the first one with the key on,
    -- and for "select count(*)" their number modulo 2 ^ 32.
    pub print_tuples-Prints :
        (fuel : ℕ) (index : BTreeIndex) (attr : ℕ) (table : List ℕ) (conds : List SelCond)
        (cursor : IndexCursor) (rid : RecordId) (page : Buffer) (st : Store os) (rs : List Record)
        (es : List Entry) (found : List Record) (e : Entry) (j : ℕ)
        → OnDisk os laws rel' (table_file table) read_only st rs
        → HasTree os laws rel index (opened_store os (table_file table) read_only st) es
        → Points rs es found
        → get_elem? es j ≡ some e
        → length es < fuel
        → (records : List Record) × FromRecord e.key es found records
          × ((d : Done os) × (print_tuples os fuel index attr table e.key conds cursor rid page st
                ≡ some d)
              × (d.rc ≡ success)
              × (d.printed
                  ≡ rows attr (taken conds records)
                    ++ print_count attr (length (taken conds records) % 2 ^ 32)))
    unfolding open_flags
    print_tuples-Prints fuel index attr table conds cursor rid page st rs es found e j disk there
          points at enough =
        let (o, h) =
          open_record_file-Opens os laws rel' (table_file table) b'r' read_only page st rs refl
            disk in
        let tree = OnlyReads-HasTree os laws rel there h.holds.usable.coherent h.only_reads in
        let (l, located, k) = locate_key-Starts os laws rel index o.store es e j cursor tree at in
        let from = k.from_key in
        let b =
          Points-Behind rs from.skipped from.rest found
            (subst (λ (x : List Entry). Points rs x found) from.parts points) in
        let shorter : length from.rest ≤ length es =
          subst (λ (x : List Entry). length from.rest ≤ length x) (sym from.parts)
            (length-rest from.skipped from.rest) in
        let (t, walked, w) =
          walk_loop-Walked os index o.file attr conds page laws rel rel' tree.view rs fuel from.rest
            b.records
            (record {
              cursor = l.cursor;
              key = e.key;
              rid = rid;
              value = [];
              count = 0;
              printed = [];
              store = l.store;
            })
            b.points (omega (arith, enough, shorter))
            (record {
              at = from.at;
              sees = k.sees;
              holds =
                  OnlyReads-Holds os laws rel' o.store l.store h.holds k.sees.usable.coherent
                    k.only_reads;
              small = omega arith;
            }) in
        let count : t.count ≡ length (taken conds b.records) % 2 ^ 32 = omega (arith, w.counted) in
        (
          b.records,
          record {
            skipped = from.skipped;
            rest = from.rest;
            parts = from.parts;
            smaller = from.smaller;
            from_key = from.from_key;
            first = b.first;
            cut = b.parts;
            as_many = b.as_many;
          },
          (
            record {
              rc = success;
              printed = t.printed ++ print_count attr t.count;
              store = t.store;
            },
            print_tuples-parts fuel index attr table e.key conds cursor rid page st o l t h.ran
                (ap is_negative h.succeeded) located (ap is_nonzero k.succeeded) walked,
            refl,
            ap₂ (◌++◌) w.printed (ap (print_count attr) count),
          ),
        )

    -- select on a table with an index that opens: if the table holds a list of records, once it is
    -- open, the index then holds entries, each with the rid of its record, one of them has the key
    -- that find_key starts from, and there are more rounds than entries, it ends, and prints, in the
    -- order of the index, the lines of the records that the loop takes by the merged conditions among
    -- those whose entries stand from the first one with the key on, and for "select count(*)" their
    -- number modulo 2 ^ 32.
    pub select_from_index-Prints :
        (fuel attr : ℕ) (table : List ℕ) (conds : List SelCond) (key : ℕ) (diff : Sign)
        (cursor : IndexCursor) (rid : RecordId) (page : Buffer) (st : Store os) (o : IndexResult os)
        (rs : List Record) (es : List Entry) (found : List Record) (e : Entry) (j : ℕ)
        → open_index os (new_index page) (index_file table) b'r' st ≡ some o
        → o.rc ≡ success
        → OnDisk os laws rel' (table_file table) read_only o.store rs
        → HasTree os laws rel o.index (opened_store os (table_file table) read_only o.store) es
        → Points rs es found
        → get_elem? es j ≡ some e
        → find_key (preprocess [] conds) 0 ≡ e.key
        → length es < fuel
        → (records : List Record) × FromRecord e.key es found records
          × ((d : Done os) × (select os fuel attr table conds key diff cursor rid page st ≡ some d)
              × (d.printed
                  ≡ rows attr (taken (preprocess [] conds) records)
                    ++ print_count attr (length (taken (preprocess [] conds) records) % 2 ^ 32)))
    select_from_index-Prints fuel attr table conds key diff cursor rid page st o rs es found e j
          opened ok disk there points at starts enough =
        let (records, from, (d, ran, done, printed)) =
          print_tuples-Prints fuel o.index attr table (preprocess [] conds) cursor rid page o.store
            rs es found e j disk there points at enough in
        let ran' =
          subst
            (λ (k : ℕ).
              print_tuples os fuel o.index attr table k (preprocess [] conds) cursor rid page
                o.store
              ≡ some d)
            (sym starts) ran in
        (
          records,
          from,
          (
            _,
            select-parts fuel attr table conds key diff cursor rid page st o d opened
                (ap is_nonzero ok) ran',
            printed,
          ),
        )
