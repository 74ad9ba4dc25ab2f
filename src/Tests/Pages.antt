-- ===== src/Tests/Pages.antt =====
-- A disk in memory, on which every page exists, and runs of PageFile on it.
use cs143_p.Base.{
  ℕ, ◌+◌, ◌*◌, ◌/◌, ◌<◌, ◌≡◌, ◌≢◌, refl, ap, sym, ◌∙◌, List, [], ◌∷◌, ◌++◌, none, some, Bool, true,
  false, ◌==◌, ◌&&◌, ◌||◌, if◌then◌else◌, arith, length, replicate, take, length-take,
  length-append, length-replicate, ◌⊎◌, inl, inr, ==_ne, ==_refl,
}
use cs143_p.Memory.{Buffer, page_size, minus_one}
use cs143_p.Rc.{success, file_read_failed}
use cs143_p.PageFile.{PageFile, Store, close_page_file, empty_cache, victim, read, write, find_slot}
use cs143_p.PageFile.Os.{System, Laws, Writes, Reads, written}
use cs143_p.PageFile.Cache.{IsVictim, victim-IsVictim}
use cs143_p.PageFile.Coherence.{Coherent, IsOpen, empty_cache-Coherent}
use cs143_p.PageFile.Reads.{ReadsPage, read-ReadsPage}
use cs143_p.PageFile.Writes.{WritesPage, write-WritesPage, read-write}
use cs143_p.PageFile.Closed.{close_page_file_lem}
use cs143_p.PageFile.Stale.{read_failed_then_stale}

pub record Disk : Type 0 where
  pub contents : ℕ → ℕ → Buffer
  pub offset : ℕ

-- Bytes that are missing are zero.
pub whole_page : Buffer → Buffer
whole_page b = take page_size (b ++ replicate page_size 0)

abbrev pub disk_page : Disk → ℕ → ℕ → Buffer
disk_page s d p = whole_page (s.contents d p)

abbrev pub has : ℕ → List ℕ → Bool
has x [] = false
has x (c ∷ s) = c == x || has x s

-- The disk does not have "t.idx", but "y.idx", of two pages.
abbrev pub descriptor : List ℕ → ℕ
descriptor name = if has b'x' name then (if has b'y' name then 5 else minus_one) else 3

abbrev pub disk : System
disk = record {
  State = Disk;
  open_file = λ name flags s. (descriptor name, s);
  file_size = λ fd s. some (if fd == 5 then 2 * page_size else page_size);
  close_file = λ fd s. (true, s);
  seek_to = λ fd off s. (true, record s { offset = off });
  read_bytes =
      λ fd n s. (some (disk_page s fd (s.offset / page_size)), record s { offset = s.offset + n });
  write_bytes = λ fd b s. (
    some page_size,
    record {
      contents = λ d p. if d == fd && p == s.offset / page_size then b else s.contents d p;
      offset = s.offset + page_size;
    },
  );
}

length-whole_page : (b : Buffer) → length (whole_page b) ≡ page_size
unfolding whole_page
length-whole_page b = omega (
  arith,
  length-take page_size (b ++ replicate page_size 0),
  length-append b (replicate page_size 0),
  length-replicate {A = ℕ} page_size 0,
)

take_all : (b : Buffer) (rest : Buffer) → take (length b) (b ++ rest) ≡ b
take_all [] rest = refl
take_all (c ∷ b) rest = ap (◌∷◌ c) (take_all b rest)

pub whole_page-id : (b : Buffer) → length b ≡ page_size → whole_page b ≡ b
unfolding whole_page
whole_page-id b h =
    ap (λ (n : ℕ). take n (b ++ replicate page_size 0)) (sym h) ∙ take_all b (replicate page_size 0)

if_false : (b : Bool) (x y : Buffer) → (if b && false then x else y) ≡ y
if_false b x y = ground arith

pub disk_laws : Laws disk
disk_laws = record {
  page_at = disk_page;
  IsPage = λ s d p. Unit;
  seek_keeps = λ fd off s. refl;
  seek_keeps_pages = λ fd off s d p has. tt;
  read_keeps = λ fd n s. refl;
  read_keeps_pages = λ fd n s d p has. tt;
  read_page = λ fd pid s bytes has r.
      let at : pid * page_size / page_size ≡ pid = omega arith in
      page_read fd pid s bytes at r.read_ok;
  write_page = λ fd pid buffer s w. page_replaced fd pid buffer s w.whole_page;
  write_elsewhere = λ fd pid buffer s d p w has apart. page_kept fd pid buffer s d p apart;
  write_extends = λ fd pid buffer s p w h. tt;
  write_keeps_pages = λ fd pid buffer s d p w has. tt;
}
  where
    page_read :
        (fd pid : ℕ) (s : Disk) (bytes : List ℕ)
        → pid * page_size / page_size ≡ pid
        → some (disk_page s fd (pid * page_size / page_size)) ≡ some bytes
        → (bytes ≡ disk_page s fd pid) × (length bytes ≡ page_size)
    page_read fd pid s bytes at got =
        let same : bytes ≡ disk_page s fd pid = cc in
        (same, ap length same ∙ length-whole_page (s.contents fd pid))

    page_replaced :
        (fd pid : ℕ) (buffer : Buffer) (s : Disk)
        → length buffer ≡ page_size
        → disk_page (written disk fd pid buffer s) fd pid ≡ buffer
    page_replaced fd pid buffer s h =
        let at : pid * page_size / page_size ≡ pid = omega arith in
        rw (at, ==_refl fd, ==_refl pid) (whole_page-id buffer h)

    page_kept :
        (fd pid : ℕ) (buffer : Buffer) (s : Disk) (d p : ℕ)
        → (d ≢ fd) ⊎ (p ≢ pid)
        → disk_page (written disk fd pid buffer s) d p ≡ disk_page s d p
    page_kept fd pid buffer s d p apart =
        let at : pid * page_size / page_size ≡ pid = omega arith in
        rw at (elim apart [
          | inl other ↦ rw (==_ne d fd other) refl
          | inr other ↦
              rw (==_ne p pid other) (ap whole_page (if_false (d == fd) buffer (s.contents d p)))
        ])

abbrev pub file : PageFile
file = record { fd = 3; epid = 2 }

-- Nothing was read before, and page 1 of the file is full of sevens.
abbrev pub start : Store disk
start = record {
  system = record { contents = λ d p. replicate page_size 7; offset = 0 };
  cache = empty_cache;
  clock = 0;
  read_count = 0;
  write_count = 0;
}

abbrev ones : Buffer
ones = replicate page_size 1

pub start-Coherent : Coherent disk disk_laws start
start-Coherent = empty_cache-Coherent disk disk_laws start refl

pub file-IsOpen : (st : Store disk) → IsOpen disk disk_laws file st
unfolding disk_laws
file-IsOpen st = record { has_pages = λ pid h. tt; small = omega arith }

pub every-IsPage : (s : Disk) (d p : ℕ) → disk_laws.IsPage s d p
unfolding disk_laws
every-IsPage s d p = tt

pub page_at-disk : (s : Disk) (d p : ℕ) → disk_laws.page_at s d p ≡ disk_page s d p
unfolding disk_laws
page_at-disk s d p = refl

disk-Reads :
    (fd pid : ℕ) (s : Disk)
    → pid < 100
    → Reads disk fd pid s (disk_page s fd (pid * page_size / page_size))
disk-Reads fd pid s h = record { in_range = omega arith; sought_ok = refl; read_ok = refl }

disk-Writes : (fd pid : ℕ) (s : Disk) → pid < 100 → Writes disk fd pid ones s
disk-Writes fd pid s h = record {
  in_range = omega arith;
  whole_page = refl;
  sought_ok = refl;
  written_ok = refl;
}

victim-IsVictim_example : IsVictim empty_cache (victim empty_cache).0 (victim empty_cache).1
victim-IsVictim_example = victim-IsVictim empty_cache (omega arith)

read-ReadsPage_example : ReadsPage disk disk_laws file 1 start (read disk file 1 ones start)
read-ReadsPage_example =
    read-ReadsPage disk disk_laws file 1 ones start (disk_page start.system 3 1) start-Coherent
      (file-IsOpen start) (omega arith) (disk-Reads 3 1 start.system (omega arith))

write-WritesPage_example :
    WritesPage disk disk_laws file 1 ones start (write disk file 1 ones start)
write-WritesPage_example =
    write-WritesPage disk disk_laws file 1 ones start start-Coherent (file-IsOpen start)
      (omega arith) (disk-Writes 3 1 start.system (omega arith))

read-write_example :
    let r = write disk file 1 ones start in
    ((read disk r.file 1 [] r.store).rc ≡ success) × ((read disk r.file 1 [] r.store).buffer ≡ ones)
read-write_example =
    let r = write disk file 1 ones start in
    read-write disk disk_laws file 1 ones [] start (disk_page r.store.system r.file.fd 1)
      start-Coherent (file-IsOpen start) (omega arith) (disk-Writes 3 1 start.system (omega arith))
      (disk-Reads r.file.fd 1 r.store.system (omega arith))

-- The disk when every read fails.
abbrev failing : System
failing = record disk { read_bytes = λ fd n s. (none, s) }

abbrev failing_start : Store failing
failing_start = record {
  system = start.system;
  cache = empty_cache;
  clock = 0;
  read_count = 0;
  write_count = 0;
}

not_cached : find_slot 3 1 0 empty_cache ≡ none
unfolding find_slot
not_cached = refl

read_failed_then_stale_example :
    ((read failing file 1 ones failing_start).rc ≡ file_read_failed)
    × ((read failing file 1 [] (read failing file 1 ones failing_start).store).rc ≡ success)
    × ((read failing file 1 [] (read failing file 1 ones failing_start).store).buffer
        ≡ (victim empty_cache).1.buffer)
read_failed_then_stale_example =
    read_failed_then_stale failing file 1 ones [] failing_start (omega arith) (omega arith) refl
      not_cached refl refl (λ e. omega (arith, e))

-- The disk when every seek fails.
abbrev pub stuck : System
stuck = record disk { seek_to = λ fd off s. (false, s) }

close_page_file_lem_example :
    let r = close_page_file disk file start in
    (r.rc ≡ success)
    × (r.file ≡ record { fd = minus_one; epid = 0 })
    × ((pid : ℕ) → find_slot 3 pid 0 r.store.cache ≡ none)
    × ((d pid : ℕ) → d ≢ 3 → find_slot d pid 0 r.store.cache ≡ find_slot d pid 0 start.cache)
close_page_file_lem_example = close_page_file_lem disk file start refl refl
