-- ===== src/Statements/Select.antt =====
-- select of SqlEngine over the table file, when there is no index.
use cs143_p.Base.{
  ℕ, zero, suc, ◌+◌, ◌*◌, ◌%◌, ◌^◌, List, [], ◌∷◌, ◌++◌, Option, none, some, ◌==◌, if◌then◌else◌,
  ◌>>=◌,
}
use cs143_p.CString.{Sign, atoi, strcmp}
use cs143_p.Memory.{Buffer}
use cs143_p.Rc.{Rc, success, is_negative}
use cs143_p.RecordId.{RecordId, next_rid, rid_lt, records_per_page}
use cs143_p.PageFile.{Store}
use cs143_p.PageFile.Os.{System}
use cs143_p.RecordFile.{
  RecordFile, new_record_file, origin, end_rid, open_record_file, close_record_file, read_record,
}
use cs143_p.Conditions.{SelCond, key_diff, sign_passes, scan_passes}
use cs143_p.Statements.{Line, print_tuple, print_count, table_file}

-- The `diff` behind the loop over the conditions, which the next tuple starts with.
unfoldable pub last_diff : List SelCond → Sign → ℕ → List ℕ → Sign
last_diff [] diff key value = diff
last_diff (c ∷ conds) diff key value =
    let d =
      if c.attr == 1
      then key_diff key (atoi c.value)
      else if c.attr == 2
      then strcmp value c.value
      else diff in
    let rest = last_diff conds d key value in if sign_passes c.comp d then rest else d

module _ (os : System) where
  -- The variables of the scan, and what was printed.
  pub record Scan : Type 0 where
    pub rid : RecordId
    pub key : ℕ
    pub value : List ℕ
    pub count : ℕ
    pub diff : Sign
    pub printed : List Line
    pub store : Store os

  -- The body of the loop behind the read.
  unfoldable pub scan_tuple : ℕ → List SelCond → Scan → Scan
  scan_tuple attr conds s =
      let passes = scan_passes conds s.diff s.key s.value in
      record s {
        rid = next_rid s.rid;
        count = if passes then (s.count + 1) % 2 ^ 32 else s.count;
        diff = last_diff conds s.diff s.key s.value;
        printed = if passes then s.printed ++ print_tuple attr s.key s.value else s.printed;
      }

  -- The loop, which an error of a read leaves.
  unfoldable pub scan_loop : ℕ → RecordFile → ℕ → List SelCond → Buffer → Scan → Option (Rc × Scan)
  scan_loop zero rf attr conds page s = none
  scan_loop (suc fuel) rf attr conds page s =
      let next = λ (t : Scan). scan_loop fuel rf attr conds page t in
      if rid_lt s.rid (end_rid rf)
      then (do
        f ← read_record os rf s.rid s.key s.value page s.store
        let t = record s { key = f.key; value = f.value; store = f.store }
        if is_negative f.rc then some (f.rc, t) else next (scan_tuple attr conds t))
      else some (success, s)

  -- What a statement leaves.
  pub record Done : Type 0 where
    pub rc : Rc
    pub printed : List Line
    pub store : Store os

  -- The end of select; the code of close is not looked at.
  unfoldable pub finish_scan : RecordFile → ℕ → Rc → Scan → Done
  finish_scan rf attr rc s = record {
    rc = rc;
    printed = if is_negative rc then s.printed else s.printed ++ print_count attr s.count;
    store = (close_record_file os rf s.store).store;
  }

  -- select behind the failed open of the index. `key`, `value` and `diff` are not initialised
  -- before the first tuple. The rounds are one more than there are slots before the end.
  unfoldable pub select_from_table :
      ℕ → List ℕ → List SelCond → ℕ → Sign → Buffer → Store os → Option Done
  select_from_table attr table conds key diff page st = do
    o ← open_record_file os new_record_file (table_file table) b'r' page st
    if is_negative o.rc then some (record { rc = o.rc; printed = []; store = o.store }) else (do
      (rc, s) ←
          scan_loop (o.file.erid.pid * records_per_page + o.file.erid.sid + 1) o.file attr conds
            page
            (record {
              rid = origin;
              key = key;
              value = [];
              count = 0;
              diff = diff;
              printed = [];
              store = o.store;
            })
      some (finish_scan o.file attr rc s))
