-- ===== src/Tests/Files.antt =====
-- A file with one record, and what read, append, load and select do on it.
use cs143_p.Base.{
  ℕ, zero, suc, ◌*◌, ◌/◌, ◌%◌, ◌≡◌, refl, ap, sym, subst, ◌∙◌, List, [], ◌∷◌, ◌++◌, some, length,
  arith, get_elem?, inl, false, All,
}
use cs143_p.CString.{null}
use cs143_p.Memory.{Buffer, page_size, load_int}
use cs143_p.Rc.{success}
use cs143_p.RecordId.{records_per_page, next_rid}
use cs143_p.PageFile.{Store, empty_cache}
use cs143_p.PageFile.Coherence.{empty_cache-Coherent}
use cs143_p.PageFile.Usable.{Reliable}
use cs143_p.RecordFile.{RecordFile, Found, Appended, origin, read_record, append, get_record_count}
use cs143_p.RecordFile.Page.{stored_value}
use cs143_p.RecordFile.Slots.{Record, HasRecord}
use cs143_p.RecordFile.Contents.{Holds, rid_at, Answers, read_record-Answers}
use cs143_p.RecordFile.{end_rid}
use cs143_p.RecordFile.Lost.{append_seek_failed}
use cs143_p.RecordFile.Growth.{append-Holds}
use cs143_p.Conditions.{SelCond, gt}
use cs143_p.BTreeIndex.{new_index}
use cs143_p.PageFile.{open_page_file, open_flags, open_with}
use cs143_p.RecordFile.{Result, new_record_file, open_record_file, close_record_file}
use cs143_p.RecordFile.Opening.{OnDisk, open_record_file-Holds}
use cs143_p.BTreeIndex.{IndexCursor, open_index}
use cs143_p.Memory.{minus_one}
use cs143_p.Rc.{file_open_failed, invalid_pid}
use cs143_p.PageFile.Os.{Mode, read_only, read_write}
use cs143_p.Statements.{index_file, table_file, print_count}
use cs143_p.Statements.Indexed.{select}
use cs143_p.Statements.Load.{load, Loaded}
use cs143_p.Statements.Select.{Done}
use cs143_p.Statements.Tables.{select-Prints, load-Holds}
use cs143_p.Statements.Select.{Scan, scan_loop}
use cs143_p.Statements.Load.{Loading, load_loop}
use cs143_p.Statements.Rows.{IsColumn, passing, rows, Scanned, scan_loop-Scanned}
use cs143_p.Statements.Loaded.{loaded, scan_loop-load_loop}
use cs143_p.Tests.Pages.{
  Disk, disk, stuck, disk_laws, disk_page, page_at-disk, every-IsPage, whole_page-id,
}
use cs143_p.Tests.Records.{seven, one_record, one-HasRecord}

pub reliable_at : (fd : ℕ) → Reliable disk disk_laws fd
reliable_at fd = record {
  Ready = λ s. Unit;
  Writing = Unit;
  reads = λ pid s ready has small. (
    disk_page s fd (pid * page_size / page_size),
    record { in_range = omega (arith, small); sought_ok = refl; read_ok = refl },
  );
  writes = λ pid buffer s writing ready small whole. record {
    in_range = omega (arith, small);
    whole_page = whole;
    sought_ok = refl;
    written_ok = refl;
  };
  seek_ready = λ d off s ready. tt;
  read_ready = λ d n s ready. tt;
  write_ready = λ d b s ready. tt;
}

abbrev pub reliable_disk : Reliable disk disk_laws 3
reliable_disk = reliable_at 3

abbrev one_record_file : RecordFile
one_record_file = record { pf = record { fd = 3; epid = 1 }; erid = rid_at 1 }

abbrev one_record_store : Store disk
one_record_store = record {
  system = record { contents = λ d p. one_record; offset = 0 };
  cache = empty_cache;
  clock = 0;
  read_count = 0;
  write_count = 0;
}

on_disk : (p : ℕ) → disk_laws.page_at one_record_store.system 3 p ≡ one_record
on_disk p = page_at-disk one_record_store.system 3 p ∙ whole_page-id one_record refl

pub only_seven :
    (i : ℕ) (r : Record)
    → get_elem? (seven ∷ []) i ≡ some r
    → HasRecord one_record (i % records_per_page) r
only_seven zero r e =
    let same : seven ≡ r = ground arith in subst (HasRecord one_record 0) same one-HasRecord
only_seven (suc i) r e = cc

pub one-count : get_record_count one_record ≡ some 1
unfolding get_record_count load_int
one-count = refl

pub disk-Ready : (fd : ℕ) (s : Disk) → (reliable_at fd).Ready s
unfolding reliable_at
disk-Ready fd s = tt

pub disk-Writing : reliable_disk.Writing
unfolding reliable_at
disk-Writing = tt

one-Holds : Holds disk disk_laws reliable_disk one_record_file one_record_store (seven ∷ [])
one-Holds = record {
  usable = record {
    same_fd = refl;
    coherent = empty_cache-Coherent disk disk_laws one_record_store refl;
    is_open = record {
      has_pages = λ p h. every-IsPage one_record_store.system 3 p;
      small = omega arith;
    };
    ready = disk-Ready 3 one_record_store.system;
  };
  end_place = refl;
  file_end = refl;
  room = omega arith;
  records = λ i r e.
      subst (λ (b : Buffer). HasRecord b (i % records_per_page) r)
        (sym (on_disk (i / records_per_page))) (only_seven i r e);
  counts = λ p h. ap get_record_count (on_disk p) ∙ one-count ∙ ap some (ground (arith, h));
}

read_record-Answers_example :
    (f : Found disk) × (read_record disk one_record_file origin 0 [] [] one_record_store ≡ some f)
    × Answers disk disk_laws reliable_disk (some seven) 0 [] f
    × Holds disk disk_laws reliable_disk one_record_file f.store (seven ∷ [])
read_record-Answers_example =
    read_record-Answers disk disk_laws reliable_disk origin 0 [] [] one-Holds (omega arith)
      (omega arith)

append-Holds_example :
    (a : Appended disk) × (append disk one_record_file 9 (b'b' ∷ []) origin [] one_record_store
      ≡ some a)
    × (a.rc ≡ success)
    × (a.rid ≡ rid_at 1)
    × Holds disk disk_laws reliable_disk a.file a.store
        ((seven ∷ []) ++ (record { key = 9; value = stored_value (b'b' ∷ []) } ∷ []))
append-Holds_example =
    append-Holds disk disk_laws reliable_disk disk-Writing 9 (b'b' ∷ []) origin [] one-Holds
      (omega arith) (omega arith)

abbrev nowhere : IndexCursor
nowhere = record { pid = minus_one; eid = 0 }

-- key > 5.
abbrev above_five : SelCond
above_five = record { attr = 1; comp = gt; value = b'5' ∷ []; int_value = 5 }

above-IsColumn : All IsColumn (above_five ∷ [])
above-IsColumn = (inl refl, tt)

abbrev scan_start : Scan disk
scan_start = record {
  rid = origin;
  key = 0;
  value = [];
  count = 0;
  diff = null;
  printed = [];
  store = one_record_store;
}

scan_loop-Scanned_example :
    (t : Scan disk) × (scan_loop disk 2 one_record_file 1 (above_five ∷ []) [] scan_start
      ≡ some (success, t))
    × Scanned disk one_record_file 1
        (above_five ∷ [])
        []
        disk_laws
        reliable_disk
        (seven ∷ [])
        above-IsColumn
        (seven ∷ [])
        scan_start
        t
scan_loop-Scanned_example =
    scan_loop-Scanned disk one_record_file 1 (above_five ∷ []) [] disk_laws reliable_disk
      (seven ∷ []) above-IsColumn 2 0 [] null one_record_store one-Holds (omega arith)

-- "9,b", and a line without a comma.
abbrev two_lines : List (List ℕ)
two_lines = (b'9' ∷ b',' ∷ b'b' ∷ []) ∷ (b'4' ∷ []) ∷ []

abbrev loading : Loading disk
loading = record {
  file = one_record_file;
  tree = new_index [];
  key = 0;
  value = [];
  rid = origin;
  store = one_record_store;
}

scan_loop-load_loop_example :
    (t : Loading disk) × (load_loop disk false two_lines [] loading ≡ some (success, t))
    × ((u : Scan disk) × (scan_loop disk 4 t.file 1 (above_five ∷ []) [] (record {
      rid = origin;
      key = 0;
      value = [];
      count = 0;
      diff = null;
      printed = [];
      store = t.store;
    })
          ≡ some (success, u))
        × (u.printed ≡ rows 1 (passing (above_five ∷ []) ((seven ∷ []) ++ loaded [] two_lines))))
scan_loop-load_loop_example =
    scan_loop-load_loop disk disk_laws reliable_disk disk-Writing two_lines [] loading one-Holds
      (omega arith) 1 4 0 (above_five ∷ []) above-IsColumn [] null (omega arith)

abbrev table : List ℕ
table = b't' ∷ []

one-OnDisk :
    (flags : Mode)
    → OnDisk disk disk_laws reliable_disk (table_file table) flags one_record_store (seven ∷ [])
one-OnDisk flags = record { opened = refl; valid = refl; sized = refl; holds = one-Holds }

r-Mode : open_flags b'r' ≡ some read_only
unfolding open_flags
r-Mode = refl

open_record_file-Holds_example :
    (r : Result disk) × (open_record_file disk new_record_file
        (table_file table)
        b'r'
        []
        one_record_store
      ≡ some r)
    × (r.rc ≡ success)
    × Holds disk disk_laws reliable_disk r.file r.store (seven ∷ [])
    × (r.file.pf.fd ≡ 3)
open_record_file-Holds_example =
    open_record_file-Holds disk disk_laws reliable_disk (table_file table) b'r' read_only []
      one_record_store (seven ∷ []) r-Mode (one-OnDisk read_only)

no_index :
    open_index disk (new_index []) (index_file table) b'r' one_record_store
    ≡ some (record { rc = file_open_failed; index = new_index []; store = one_record_store })
unfolding open_index open_page_file open_flags open_with
no_index = refl

select-Prints_example :
    (d : Done disk) × (select disk 5 4 table
        (above_five ∷ [])
        0
        null
        nowhere
        origin
        []
        one_record_store
      ≡ some d)
    × (d.rc ≡ success)
    × (d.printed
        ≡ rows 4 (passing (above_five ∷ []) (seven ∷ []))
          ++ print_count 4 (length (passing (above_five ∷ []) (seven ∷ []))))
select-Prints_example =
    select-Prints disk disk_laws reliable_disk 5 4 table (above_five ∷ []) 0 null nowhere origin []
      one_record_store (seven ∷ [])
      (record { rc = file_open_failed; index = new_index []; store = one_record_store }) no_index
      refl above-IsColumn (one-OnDisk read_only)

load-Holds_example :
    (l : Loaded disk) × (load disk table (some two_lines) false 0 [] one_record_store ≡ some l)
    × (l.rc ≡ success)
    × ((file : RecordFile) × (st' : Store disk) × Holds disk disk_laws reliable_disk file st'
          ((seven ∷ []) ++ loaded [] two_lines)
        × (l.store ≡ (close_record_file disk file st').store))
load-Holds_example =
    load-Holds disk disk_laws reliable_disk table two_lines 0 [] one_record_store (seven ∷ [])
      disk-Writing (one-OnDisk read_write) (omega arith)

-- A file with nine records on its only page, when every seek fails.
abbrev full_file : RecordFile
full_file = record { pf = record { fd = 3; epid = 1 }; erid = record { pid = 1; sid = 0 } }

abbrev stuck_store : Store stuck
stuck_store = record {
  system = one_record_store.system;
  cache = empty_cache;
  clock = 0;
  read_count = 0;
  write_count = 0;
}

append_seek_failed_example :
    (a : Appended stuck) × (append stuck full_file 9 (b'b' ∷ []) origin [] stuck_store ≡ some a)
    × (a.rc ≡ success)
    × (a.rid ≡ full_file.erid)
    × (end_rid a.file ≡ next_rid full_file.erid)
    × (a.store.system ≡ one_record_store.system)
    × (read_record stuck a.file a.rid 9 (b'b' ∷ []) [] a.store
        ≡ some (record { rc = invalid_pid; key = 9; value = b'b' ∷ []; store = a.store }))
    × (append stuck a.file 4 [] origin [] a.store
        ≡ some (record { rc = invalid_pid; file = a.file; rid = origin; store = a.store }))
append_seek_failed_example =
    append_seek_failed stuck full_file stuck_store 9 4 (b'b' ∷ []) [] origin origin [] refl
      (omega arith) refl (omega arith)
