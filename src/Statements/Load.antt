-- ===== src/Statements/Load.antt =====
-- load of SqlEngine. `lines` is what getline returns of the load file.
use cs143_p.Base.{ℕ, List, [], ◌∷◌, Option, none, some, Bool, if◌then◌else◌, ◌>>=◌}
use cs143_p.Memory.{Buffer}
use cs143_p.Rc.{Rc, success, minus_one_code, is_negative, is_nonzero}
use cs143_p.RecordId.{RecordId}
use cs143_p.PageFile.{Store}
use cs143_p.PageFile.Os.{System}
use cs143_p.RecordFile.{
  RecordFile, new_record_file, origin, open_record_file, close_record_file, append,
}
use cs143_p.LoadLine.{parse_load_line}
use cs143_p.BTreeIndex.{BTreeIndex, IndexResult, new_index, open_index, close_index}
use cs143_p.BTreeIndex.Insertion.{insert_key}
use cs143_p.Statements.{index_file, table_file}

module _ (os : System) where
  -- The variables of the loop.
  pub record Loading : Type 0 where
    pub file : RecordFile
    pub tree : BTreeIndex
    pub key : ℕ
    pub value : List ℕ
    pub rid : RecordId
    pub store : Store os

  -- The insertion into the index, where there is one.
  unfoldable pub index_line : Bool → BTreeIndex → ℕ → RecordId → Store os → Option (IndexResult os)
  index_line index tree key rid st =
      if index
      then insert_key os tree key rid st
      else some (record { rc = success; index = tree; store = st })

  -- The loop: an error of append ends load with its code, one of the index ends the loop.
  unfoldable pub load_loop : Bool → List (List ℕ) → Buffer → Loading → Option (Rc × Loading)
  load_loop index [] page s = some (success, s)
  load_loop index (line ∷ lines) page s =
      let next = λ (t : Loading). load_loop index lines page t in
      let p = parse_load_line line s.key s.value in
      do
        a ← append os s.file p.key p.value s.rid page s.store
        let t = record s {
          file = a.file;
          key = p.key;
          value = p.value;
          rid = a.rid;
          store = a.store;
        }
        if is_negative a.rc then some (a.rc, t) else (do
          i ← index_line index s.tree p.key a.rid a.store
          let u = record t { tree = i.index; store = i.store }
          if is_nonzero i.rc then some (success, u) else next u)

  -- What load leaves.
  pub record Loaded : Type 0 where
    pub rc : Rc
    pub store : Store os

  -- The files are closed only if no append failed.
  unfoldable pub finish_load : Bool → Rc → Loading → Loaded
  finish_load index rc s =
      let st = if index then (close_index os s.tree s.store).store else s.store in
      if is_negative rc
      then record { rc = rc; store = s.store }
      else record { rc = success; store = (close_record_file os s.file st).store }

  -- The open of the index, whose code is not looked at.
  unfoldable pub open_tree : Bool → List ℕ → Buffer → Store os → Option (IndexResult os)
  open_tree index table page st =
      if index
      then open_index os (new_index page) (index_file table) b'w' st
      else some (record { rc = success; index = new_index page; store = st })

  -- `none` for the lines if the load file cannot be opened. `key` is not initialised.
  unfoldable pub load :
      List ℕ → Option (List (List ℕ)) → Bool → ℕ → Buffer → Store os → Option Loaded
  load table none index key page st = some (record { rc = minus_one_code; store = st })
  load table (some lines) index key page st = do
    o ← open_record_file os new_record_file (table_file table) b'w' page st
    if is_negative o.rc then some (record { rc = o.rc; store = o.store }) else (do
      tree ← open_tree index table page o.store
      (rc, s) ← load_loop index lines page (record {
        file = o.file;
        tree = tree.index;
        key = key;
        value = [];
        rid = origin;
        store = tree.store;
      })
      some (finish_load index rc s))
