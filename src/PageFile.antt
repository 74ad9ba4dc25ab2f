-- ===== src/PageFile.antt =====
-- PageFile of bruinbase/PageFile.h and bruinbase/PageFile.cc, with its page cache. The system calls
-- are those of `Os`. `Store` is what all page files share: the system's state, and the static
-- members of the class. A method takes the object and the store and returns the new ones.
pub mod Os
pub mod Cache
pub mod Coherence
pub mod Reads
pub mod Writes
pub mod Stale
pub mod Usable
pub mod Closed
use cs143_p.Base.{
  ℕ, zero, suc, ◌+◌, ◌*◌, ◌/◌, ◌%◌, ◌^◌, List, [], ◌∷◌, Option, none, some, Bool, true, false, ◌==◌,
  ◌&&◌, ◌||◌, not, if◌then◌else◌, replicate, set, length, drop, ◌++◌,
}
use cs143_p.Memory.{Buffer, page_size, minus_one, slt, sle}
use cs143_p.Rc.{
  Rc, success, one, file_open_failed, file_close_failed, file_seek_failed, file_read_failed,
  file_write_failed, invalid_file_mode, invalid_pid, is_negative,
}
use Os.{System, Mode, read_only, read_write}

-- One entry of readCache; it is empty if `last_accessed` is 0.
pub record Slot : Type 0 where
  pub fd : ℕ
  pub pid : ℕ
  pub last_accessed : ℕ
  pub buffer : Buffer

abbrev pub cache_count : ℕ
cache_count = 10

abbrev pub empty_slot : Slot
empty_slot = record { fd = 0; pid = 0; last_accessed = 0; buffer = replicate page_size 0 }

abbrev pub empty_cache : List Slot
empty_cache = replicate cache_count empty_slot

-- The test of the loops over the cache.
abbrev pub holds : ℕ → ℕ → Slot → Bool
holds fd pid s = s.fd == fd && (s.pid == pid && not (s.last_accessed == 0))

abbrev pub clear : Slot → Slot
clear s = record s { fd = 0; pid = 0; last_accessed = 0 }

-- The first slot that holds the page, with its index.
unfoldable pub find_slot : ℕ → ℕ → ℕ → List Slot → Option (ℕ × Slot)
find_slot fd pid i [] = none
find_slot fd pid i (s ∷ cache) =
    if holds fd pid s then some (i, s) else find_slot fd pid (i + 1) cache

-- The loop of write: the first slot that holds the page is cleared.
unfoldable pub invalidate : ℕ → ℕ → List Slot → List Slot
invalidate fd pid [] = []
invalidate fd pid (s ∷ cache) =
    if holds fd pid s then clear s ∷ cache else s ∷ invalidate fd pid cache

-- The loop of close: every slot of the file is cleared.
unfoldable pub evict_file : ℕ → List Slot → List Slot
evict_file fd [] = []
evict_file fd (s ∷ cache) =
    (if s.fd == fd && not (s.last_accessed == 0) then clear s else s) ∷ evict_file fd cache

-- The loop of read that chooses the slot to evict, at index `i` with the choice `best` so far: the
-- first empty slot, or else the first one with the least time.
unfoldable pub victim_loop : ℕ → ℕ → Slot → List Slot → ℕ × Slot
victim_loop i best chosen [] = (best, chosen)
victim_loop i best chosen (s ∷ cache) =
    let smaller = slt s.last_accessed chosen.last_accessed in
    if s.last_accessed == 0
    then (i, s)
    else victim_loop (i + 1) (if smaller then i else best) (if smaller then s else chosen) cache

-- The choice starts at slot 0.
unfoldable pub victim : List Slot → ℕ × Slot
victim [] = (0, empty_slot)
victim (s ∷ cache) = victim_loop 0 0 s (s ∷ cache)

-- The fields of a PageFile.
pub record PageFile : Type 0 where
  pub fd : ℕ
  pub epid : ℕ

-- The constructor.
abbrev pub new_page_file : PageFile
new_page_file = record { fd = minus_one; epid = 0 }

unfoldable pub end_pid : PageFile → ℕ
end_pid pf = pf.epid

-- The flags for a mode character: r, R, w or W.
unfoldable pub open_flags : ℕ → Option Mode
open_flags mode =
    if mode == b'r' || mode == b'R'
    then some read_only
    else if mode == b'w' || mode == b'W'
    then some read_write
    else none

module _ (os : System) where
  open os use {State}

  pub record Store : Type 0 where
    pub system : State
    pub cache : List Slot
    pub clock : ℕ
    pub read_count : ℕ
    pub write_count : ℕ

  -- What a read leaves: its return code, the caller's buffer and the store.
  pub record ReadResult : Type 0 where
    pub rc : Rc
    pub buffer : Buffer
    pub store : Store

  -- What the other methods leave.
  pub record FileResult : Type 0 where
    pub rc : Rc
    pub file : PageFile
    pub store : Store

  unfoldable pub open_described : PageFile → ℕ → Store → FileResult
  open_described pf fd st = elim (os.file_size fd st.system) [
    | none ↦ record {
      rc = file_open_failed;
      file = record pf { fd = minus_one };
      store = record st { system = (os.close_file fd st.system).1 };
    }
    | some size ↦ record {
      rc = success;
      file = record { fd = fd; epid = size / page_size % 2 ^ 32 };
      store = st;
    }
  ]

  unfoldable pub open_with : PageFile → List ℕ → Mode → Store → FileResult
  open_with pf filename flags st =
      let (fd, system) = os.open_file filename flags st.system in
      if slt fd 0
      then record {
        rc = file_open_failed;
        file = record pf { fd = minus_one };
        store = record st { system = system };
      }
      else open_described pf fd (record st { system = system })

  unfoldable pub open_page_file : PageFile → List ℕ → ℕ → Store → FileResult
  open_page_file pf filename mode st =
      if slt 0 pf.fd
      then record { rc = file_open_failed; file = pf; store = st }
      else elim (open_flags mode) [
        | none ↦ record { rc = invalid_file_mode; file = pf; store = st }
        | some flags ↦ open_with pf filename flags st
      ]

  unfoldable pub close_page_file : PageFile → Store → FileResult
  close_page_file pf st =
      let (closed, system) = os.close_file pf.fd st.system in
      if sle pf.fd 0
      then record { rc = file_close_failed; file = pf; store = st }
      else if not closed
      then record { rc = file_close_failed; file = pf; store = record st { system = system } }
      else record {
        rc = success;
        file = record { fd = minus_one; epid = 0 };
        store = record st { system = system; cache = evict_file pf.fd st.cache };
      }

  -- The offset is an `int` product.
  unfoldable pub seek : PageFile → ℕ → State → Rc × State
  seek pf pid system =
      let (moved, system') = os.seek_to pf.fd (pid * page_size % 2 ^ 32) system in
      (if moved then success else file_seek_failed, system')

  -- `rc = seek(pid) < 0` gives `rc` the value of the comparison.
  abbrev pub compared : Rc → Rc
  compared rc = if is_negative rc then one else success

  -- write behind a seek that did not fail; how many bytes were written is not looked at.
  unfoldable pub write_here : PageFile → ℕ → Buffer → Store → FileResult
  write_here pf pid buffer st =
      let (written, system) = os.write_bytes pf.fd buffer st.system in
      elim written [
        | none ↦ record { rc = file_write_failed; file = pf; store = record st { system = system } }
        | some count ↦ record {
          rc = success;
          file = record pf { epid = if sle pf.epid pid then (pid + 1) % 2 ^ 32 else pf.epid };
          store = record st {
            system = system;
            cache = invalidate pf.fd pid st.cache;
            write_count = (st.write_count + 1) % 2 ^ 32;
          };
        }
      ]

  unfoldable pub write : PageFile → ℕ → Buffer → Store → FileResult
  write pf pid buffer st =
      let (rc, system) = seek pf pid st.system in
      let st' = record st { system = system } in
      if slt pid 0
      then record { rc = invalid_pid; file = pf; store = st }
      else if is_negative rc
      then record { rc = compared rc; file = pf; store = st' }
      else write_here pf pid buffer st'

  -- The slot is taken over for the page before the page is read into its buffer.
  abbrev pub claim : PageFile → ℕ → Store → ℕ → Slot → Store
  claim pf pid st i old =
      let now = (st.clock + 1) % 2 ^ 32 in
      record st {
        clock = now;
        cache = set st.cache i (record old { fd = pf.fd; pid = pid; last_accessed = now });
      }

  -- read, when the page is not in the cache and the seek did not fail. What a short read does not
  -- reach keeps its bytes.
  unfoldable pub read_through : PageFile → ℕ → Buffer → Store → ReadResult
  read_through pf pid buffer st =
      let (i, old) = victim st.cache in
      let claimed = claim pf pid st i old in
      let (got, system) = os.read_bytes pf.fd page_size st.system in
      elim got [
        | none ↦ record {
          rc = file_read_failed;
          buffer = buffer;
          store = record claimed { system = system };
        }
        | some bytes ↦
            let page = bytes ++ drop (length bytes) old.buffer in
            record {
              rc = success;
              buffer = page;
              store = record claimed {
                system = system;
                cache = set st.cache i (record {
                  fd = pf.fd;
                  pid = pid;
                  last_accessed = claimed.clock;
                  buffer = page;
                });
                read_count = (st.read_count + 1) % 2 ^ 32;
              };
            }
      ]

  -- read, when slot `i` holds the page.
  unfoldable pub read_cached : Store → ℕ → Slot → ReadResult
  read_cached st i s =
      let now = (st.clock + 1) % 2 ^ 32 in
      record {
        rc = success;
        buffer = s.buffer;
        store = record st {
          clock = now;
          cache = set st.cache i (record s { last_accessed = now });
        };
      }

  unfoldable pub read_missing : PageFile → ℕ → Buffer → Store → ReadResult
  read_missing pf pid buffer st =
      let (rc, system) = seek pf pid st.system in
      let st' = record st { system = system } in
      if is_negative rc
      then record { rc = compared rc; buffer = buffer; store = st' }
      else read_through pf pid buffer st'

  unfoldable pub read : PageFile → ℕ → Buffer → Store → ReadResult
  read pf pid buffer st =
      if slt pid 0 || sle pf.epid pid
      then record { rc = invalid_pid; buffer = buffer; store = st }
      else elim (find_slot pf.fd pid 0 st.cache) [
        | some (i, s) ↦ read_cached st i s
        | none ↦ read_missing pf pid buffer st
      ]
