-- ===== src/Tests/Indexed.antt =====
-- select on a table with one record and an index of it.
use cs143_p.Base.{
  All, true, ℕ, ◌%◌, ◌^◌, ◌≡◌, refl, ap, sym, subst, ◌∙◌, List, [], ◌∷◌, ◌++◌, some, length, arith,
  ◌==◌, if◌then◌else◌, ◌/◌, ◌>>=◌, replicate,
}
use cs143_p.CString.{null, atoi, atoi_sign, digits_from}
use cs143_p.Memory.{Buffer, minus_one}
use cs143_p.Rc.{success}
use cs143_p.RecordId.{records_per_page}
use cs143_p.PageFile.{
  PageFile, Store, empty_cache, open_page_file, open_flags, open_with, open_described,
  new_page_file, end_pid, read,
}
use cs143_p.PageFile.Os.{read_only}
use cs143_p.PageFile.Coherence.{empty_cache-Coherent}
use cs143_p.PageFile.Usable.{Usable, ReadsUsable, read-Usable}
use cs143_p.RecordFile.{origin, get_record_count}
use cs143_p.RecordFile.Slots.{Record, HasRecord}
use cs143_p.RecordFile.Opening.{OnDisk}
use cs143_p.Conditions.{SelCond, ge, preprocess, add_cond, merge_by, find_key, last_value}
use cs143_p.LeafNode.Layout.{Entry, IsEntry, leaf_page}
use cs143_p.BTreeIndex.{IndexCursor, IndexResult, new_index, open_index, open_opened, read_metadata}
use cs143_p.BTreeIndex.Metadata.{read_metadata-page}
use cs143_p.BTreeIndex.Placed.{View, limit}
use cs143_p.BTreeIndex.Roots.{metadata_of, HasTree}
use cs143_p.Statements.{index_file, table_file, print_count}
use cs143_p.Statements.Select.{Done}
use cs143_p.Statements.Rows.{rows}
use cs143_p.Statements.Indexed.{select}
use cs143_p.Statements.Walked.{taken}
use cs143_p.Conditions.Meaning.{key_holds}
use cs143_p.Conditions.Merge.{IsRange}
use cs143_p.Conditions.Start.{IsBound, has_lower}
use cs143_p.Statements.Ranged.{selected, meets_lower}
use cs143_p.Statements.Selects.{select_from_index-selected}
use cs143_p.Statements.Printed.{FromRecord, select_from_index-Prints}
use cs143_p.Tests.Pages.{disk, disk_laws, page_at-disk, every-IsPage, whole_page-id}
use cs143_p.Tests.Records.{seven, one_record}
use cs143_p.Tests.Files.{reliable_at, reliable_disk, disk-Ready, only_seven, one-count}
use cs143_p.Tests.Trees.{IsTreeLeaf-one}

abbrev entry : Entry
entry = record { rid = origin; key = 7 }

entry-IsEntry : IsEntry entry
entry-IsEntry = record {
  pid_int = omega arith;
  sid_int = omega arith;
  key_int = omega arith;
  pid_set = λ e. omega (arith, e);
  sid_set = λ e. omega (arith, e);
  key_set = λ e. omega (arith, e);
}

-- Descriptor 5 is that of the index, with a leaf as its root.
abbrev pages : ℕ → ℕ → Buffer
pages d p =
    if d == 5
    then (if p == 0 then metadata_of 1 1 else leaf_page (entry ∷ []) minus_one)
    else one_record

abbrev start : Store disk
start = record {
  system = record { contents = pages; offset = 0 };
  cache = empty_cache;
  clock = 0;
  read_count = 0;
  write_count = 0;
}

abbrev file : PageFile
file = record { fd = 5; epid = 2 }

start-Usable : Usable disk disk_laws (reliable_at 5) file start
start-Usable = record {
  same_fd = refl;
  coherent = empty_cache-Coherent disk disk_laws start refl;
  is_open = record { has_pages = λ p h. every-IsPage start.system 5 p; small = omega arith };
  ready = disk-Ready 5 start.system;
}

-- open of the index reads its first page.
first_page : ReadsUsable disk disk_laws (reliable_at 5) file 0 start (read disk file 0 [] start)
first_page = read-Usable disk disk_laws (reliable_at 5) file 0 [] start start-Usable (omega arith)

abbrev name : List ℕ
name = b'y' ∷ []

abbrev opened : IndexResult disk
opened = record {
  rc = success;
  index = record { pf = file; buffer = metadata_of 1 1; root_pid = 1; tree_height = 1 };
  store = (read disk file 0 [] start).store;
}

opened_file :
    open_page_file disk new_page_file (index_file name) b'r' start
    ≡ record { rc = success; file = file; store = start }
unfolding open_page_file open_flags open_with open_described
opened_file = refl

first_metadata :
    read_metadata disk
      (record { pf = file; buffer = []; root_pid = minus_one; tree_height = 0 })
      start
    ≡ some opened
first_metadata =
    read_metadata-page disk
      (record { pf = file; buffer = []; root_pid = minus_one; tree_height = 0 }) start 1 1
      (replicate 1016 255) (omega arith) (omega arith) first_page.reads_page.succeeded
      (first_page.reads_page.page
        ∙ (page_at-disk start.system 5 0 ∙ whole_page-id (metadata_of 1 1) refl))

opened_index : open_index disk (new_index []) (index_file name) b'r' start ≡ some opened
unfolding open_index open_opened end_pid
opened_index = rw (opened_file, first_metadata, ◌>>=◌) refl

same_pages : disk_laws.page_at opened.store.system ≡ disk_laws.page_at start.system
same_pages = first_page.reads_page.files_kept

page_of :
    (d p : ℕ) (b : Buffer)
    → disk_laws.page_at start.system d p ≡ b
    → disk_laws.page_at opened.store.system d p ≡ b
page_of d p b e = ap (λ (f : ℕ → ℕ → Buffer). f d p) same_pages ∙ e

on_disk : (p : ℕ) → disk_laws.page_at opened.store.system 3 p ≡ one_record
on_disk p = page_of 3 p one_record (page_at-disk start.system 3 p ∙ whole_page-id one_record refl)

one-OnDisk :
    OnDisk disk disk_laws reliable_disk (table_file name) read_only opened.store (seven ∷ [])
one-OnDisk = record {
  opened = refl;
  valid = refl;
  sized = refl;
  holds = record {
    usable = record {
      same_fd = refl;
      coherent = first_page.usable.coherent;
      is_open = record {
        has_pages = λ p h. every-IsPage opened.store.system 3 p;
        small = omega arith;
      };
      ready = disk-Ready 3 opened.store.system;
    };
    end_place = refl;
    file_end = refl;
    room = omega arith;
    records = λ i r e.
        subst (λ (b : Buffer). HasRecord b (i % records_per_page) r)
          (sym (on_disk (i / records_per_page))) (only_seven i r e);
    counts = λ p h. ap get_record_count (on_disk p) ∙ one-count ∙ ap some (ground (arith, h));
  };
}

abbrev view : View
view = record {
  pages = disk_laws.page_at opened.store.system 5;
  end_pid = 2;
  height_of = λ q. 0;
  lower_of = λ q. if q == 0 then limit else 0;
  leaf_from = λ x. 1;
}

tree-HasTree : HasTree disk disk_laws (reliable_at 5) opened.index opened.store (entry ∷ [])
tree-HasTree = record {
  view = view;
  sees = record { usable = first_page.usable; same_pages = refl; same_end = refl };
  height = 0;
  tall = refl;
  recorded =
      page_of 5 0 (metadata_of 1 1)
        (page_at-disk start.system 5 0 ∙ whole_page-id (metadata_of 1 1) refl);
  first_place = omega arith;
  tree = record {
    place = record {
      in_file = omega arith;
      not_first = omega arith;
      height_at = refl;
      lower_at = refl;
    };
    start = refl;
    leaf =
        IsTreeLeaf-one entry minus_one
          (page_of 5 1 (leaf_page (entry ∷ []) minus_one)
            (page_at-disk start.system 5 1 ∙ whole_page-id (leaf_page (entry ∷ []) minus_one) refl))
          entry-IsEntry (omega arith);
    range = ((omega arith, omega arith), tt);
  };
}

-- "key >= 7".
abbrev conds : List SelCond
conds = record { attr = 1; comp = ge; value = b'7' ∷ []; int_value = 0 } ∷ []

starts : find_key (preprocess [] conds) 0 ≡ 7
unfolding find_key preprocess add_cond merge_by last_value atoi atoi_sign digits_from
starts = refl

abbrev cursor : IndexCursor
cursor = record { pid = 0; eid = 0 }

select_from_index-Prints_example :
    (records : List Record) × FromRecord 7 (entry ∷ []) (seven ∷ []) records
    × ((d : Done disk) × (select disk 2 4 name conds 0 null cursor origin [] start ≡ some d)
        × (d.printed
            ≡ rows 4 (taken (preprocess [] conds) records)
              ++ print_count 4 (length (taken (preprocess [] conds) records) % 2 ^ 32)))
select_from_index-Prints_example =
    select_from_index-Prints disk disk_laws (reliable_at 5) reliable_disk 2 4 name conds 0 null
      cursor origin [] start opened (seven ∷ []) (entry ∷ []) (seven ∷ []) entry 0 opened_index refl
      one-OnDisk tree-HasTree
      (seven, [], refl, record { pid_small = omega arith; sid_small = omega arith }, refl, refl)
      refl starts (omega arith)

conds-IsRange : All IsRange conds
conds-IsRange = (record { on_key = refl; ordered = refl }, tt)

merged-IsBound : All IsBound (preprocess [] conds)
unfolding preprocess add_cond merge_by atoi atoi_sign digits_from
merged-IsBound = (record { number = omega arith; room = omega arith }, tt)

bounded : has_lower (preprocess [] conds) ≡ true
unfolding has_lower preprocess add_cond merge_by
bounded = refl

seven_meets : meets_lower conds 7 ≡ true
unfolding meets_lower key_holds atoi atoi_sign digits_from
seven_meets = refl

select_from_index-selected_example :
    (d : Done disk) × (select disk 2 4 name conds 0 null cursor origin [] start ≡ some d)
    × (d.printed
        ≡ rows 4 (selected conds (seven ∷ []))
          ++ print_count 4 (length (selected conds (seven ∷ [])) % 2 ^ 32))
select_from_index-selected_example =
    select_from_index-selected disk disk_laws (reliable_at 5) reliable_disk 2 4 name conds 0 null
      cursor origin [] start opened (seven ∷ []) (entry ∷ []) (seven ∷ []) entry 0 opened_index refl
      one-OnDisk tree-HasTree
      (seven, [], refl, record { pid_small = omega arith; sid_small = omega arith }, refl, refl)
      (refl, omega arith, tt) (tt, tt) refl starts conds-IsRange merged-IsBound bounded seven_meets
      (omega arith)
