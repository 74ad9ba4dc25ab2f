-- ===== src/Tests/Index.antt =====
-- The metadata page and a leaf of an index, on the disk in memory.
use cs143_p.Base.{ℕ, ◌*◌, ◌/◌, ◌<◌, ◌≡◌, refl, [], some, arith, replicate}
use cs143_p.Memory.{page_size, minus_one}
use cs143_p.Rc.{success}
use cs143_p.PageFile.{write}
use cs143_p.PageFile.Os.{Reads, Writes}
use cs143_p.BTreeIndex.{BTreeIndex, IndexResult, commit_metadata, read_metadata}
use cs143_p.BTreeIndex.Metadata.{SameMetadata, metadata_page, read_metadata-commit_metadata}
use cs143_p.Tests.Pages.{Disk, disk, disk_laws, disk_page, file, start, start-Coherent, file-IsOpen}

abbrev index : BTreeIndex
index = record { pf = file; buffer = replicate page_size 255; root_pid = 1; tree_height = 1 }

abbrev reader : BTreeIndex
reader = record { pf = file; buffer = []; root_pid = minus_one; tree_height = 0 }

metadata-Writes : Writes disk 3 0 (metadata_page index) start.system
metadata-Writes = record {
  in_range = omega arith;
  whole_page = refl;
  sought_ok = refl;
  written_ok = refl;
}

any-Reads :
    (fd pid : ℕ) (s : Disk)
    → pid < 100
    → Reads disk fd pid s (disk_page s fd (pid * page_size / page_size))
any-Reads fd pid s h = record { in_range = omega arith; sought_ok = refl; read_ok = refl }

read_metadata-commit_metadata_example :
    (c r : IndexResult disk) × (commit_metadata disk index start ≡ some c)
    × (read_metadata disk (record reader { pf = c.index.pf }) c.store ≡ some r)
    × (c.rc ≡ success)
    × (r.rc ≡ success)
    × SameMetadata index r.index
read_metadata-commit_metadata_example =
    let w = write disk file 0 (metadata_page index) start in
    read_metadata-commit_metadata disk disk_laws index reader start
      (disk_page w.store.system w.file.fd 0) start-Coherent (file-IsOpen start) refl (omega arith)
      (omega arith) metadata-Writes (any-Reads w.file.fd 0 w.store.system (omega arith))
