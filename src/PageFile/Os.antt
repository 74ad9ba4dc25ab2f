-- ===== src/PageFile/Os.antt =====
-- The system calls that PageFile makes, as parameters of the model, with what the code relies on.
use cs143_p.Base.{ℕ, ◌*◌, ◌^◌, ◌<◌, ◌≤◌, ◌≡◌, ◌≢◌, ◌⊎◌, List, Option, some, Bool, true, length}
use cs143_p.Memory.{Buffer, page_size}

-- O_RDONLY, and O_RDWR | O_CREAT.
pub data Mode : Type 0 where
  read_only read_write : Mode

-- File descriptors and offsets are `int`s. A Boolean result says whether the call returned no
-- negative number.
pub record System : Type 1 where
  pub State : Type 0
  -- open(filename, flags, 0644): the descriptor, negative on an error.
  pub open_file : List ℕ → Mode → State → ℕ × State
  -- st_size of fstat(fd), unless the call fails.
  pub file_size : ℕ → State → Option ℕ
  -- close(fd).
  pub close_file : ℕ → State → Bool × State
  -- lseek(fd, offset, SEEK_SET).
  pub seek_to : ℕ → ℕ → State → Bool × State
  -- read(fd, buffer, n): the bytes that were read, unless the call fails.
  pub read_bytes : ℕ → ℕ → State → Option (List ℕ) × State
  -- write(fd, buffer, PAGE_SIZE): the number of bytes that were written, unless the call fails.
  pub write_bytes : ℕ → Buffer → State → Option ℕ × State

module _ (os : System) where
  open os use {State, seek_to, read_bytes, write_bytes}

  -- The state behind a seek to a page.
  abbrev pub sought : ℕ → ℕ → State → State
  sought fd pid s = (seek_to fd (pid * page_size) s).1

  -- The state behind a write at a page.
  abbrev pub written : ℕ → ℕ → Buffer → State → State
  written fd pid buffer s = (write_bytes fd buffer (sought fd pid s)).1

  -- A write of a whole page, at an offset that fits an `int`. The code takes a short one for it too.
  pub record Writes (fd pid : ℕ) (buffer : Buffer) (s : State) : Type 0 where
    pub in_range : pid * page_size < 2 ^ 31
    pub whole_page : length buffer ≡ page_size
    pub sought_ok : (seek_to fd (pid * page_size) s).0 ≡ true
    pub written_ok : (write_bytes fd buffer (sought fd pid s)).0 ≡ some page_size

  -- A read that did not fail.
  pub record Reads (fd pid : ℕ) (s : State) (bytes : List ℕ) : Type 0 where
    pub in_range : pid * page_size < 2 ^ 31
    pub sought_ok : (seek_to fd (pid * page_size) s).0 ≡ true
    pub read_ok : (read_bytes fd page_size (sought fd pid s)).0 ≡ some bytes

  -- What POSIX documents of files that only this program uses, and of which no two open descriptors
  -- name the same: `page_at` is the content of a page of an open file, and `IsPage` says that the
  -- file reaches over it.
  pub record Laws : Type 1 where
    pub page_at : State → ℕ → ℕ → Buffer
    pub IsPage : State → ℕ → ℕ → Type 0
    pub seek_keeps : (fd off : ℕ) (s : State) → page_at (seek_to fd off s).1 ≡ page_at s
    pub seek_keeps_pages :
        (fd off : ℕ) (s : State) (d p : ℕ) → IsPage s d p → IsPage (seek_to fd off s).1 d p
    pub read_keeps : (fd n : ℕ) (s : State) → page_at (read_bytes fd n s).1 ≡ page_at s
    pub read_keeps_pages :
        (fd n : ℕ) (s : State) (d p : ℕ) → IsPage s d p → IsPage (read_bytes fd n s).1 d p
    -- A read at a page that the file has returns the whole page.
    pub read_page :
        (fd pid : ℕ) (s : State) (bytes : List ℕ)
        → IsPage s fd pid
        → Reads fd pid s bytes
        → (bytes ≡ page_at s fd pid) × (length bytes ≡ page_size)
    -- A write at a page changes that page, and no other one.
    pub write_page :
        (fd pid : ℕ) (buffer : Buffer) (s : State)
        → Writes fd pid buffer s
        → page_at (written fd pid buffer s) fd pid ≡ buffer
    pub write_elsewhere :
        (fd pid : ℕ) (buffer : Buffer) (s : State) (d p : ℕ)
        → Writes fd pid buffer s
        → IsPage s d p
        → (d ≢ fd) ⊎ (p ≢ pid)
        → page_at (written fd pid buffer s) d p ≡ page_at s d p
    -- The file reaches over the written page, and over those before it.
    pub write_extends :
        (fd pid : ℕ) (buffer : Buffer) (s : State) (p : ℕ)
        → Writes fd pid buffer s
        → p ≤ pid
        → IsPage (written fd pid buffer s) fd p
    pub write_keeps_pages :
        (fd pid : ℕ) (buffer : Buffer) (s : State) (d p : ℕ)
        → Writes fd pid buffer s
        → IsPage s d p
        → IsPage (written fd pid buffer s) d p
