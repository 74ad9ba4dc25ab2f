-- ===== src/RecordFile.antt =====
-- RecordFile of bruinbase/RecordFile.h and bruinbase/RecordFile.cc: records in the slots of the
-- pages of a page file. A string is the list of its bytes. `none` is an access outside a page.
pub mod Page
pub mod Slots
pub mod Contents
pub mod Appending
pub mod Growth
pub mod Opening
pub mod Lost
use cs143_p.Base.{
  ℕ, zero, suc, ◌+◌, ◌-◌, ◌*◌, ◌%◌, ◌^◌, List, [], ◌∷◌, ◌++◌, Option, none, some, Bool, true, false,
  ◌==◌, ◌||◌, leb, if◌then◌else◌, ◌>>=◌, length, take, drop, replicate,
}
use cs143_p.Memory.{Buffer, page_size, slt, sle, load_int, store_int, write_at}
use cs143_p.PageFile.{
  PageFile, Store, ReadResult, FileResult, new_page_file, end_pid, open_page_file, close_page_file,
  read, write,
}
use cs143_p.PageFile.Os.{System}
use cs143_p.Rc.{Rc, success, invalid_rid, is_negative}
use cs143_p.RecordId.{RecordId, records_per_page, next_rid, rid_ge}

abbrev pub max_value_length : ℕ
max_value_length = 100

abbrev pub origin : RecordId
origin = record { pid = 0; sid = 0 }

unfoldable pub get_record_count : Buffer → Option ℕ
get_record_count page = load_int page 0

unfoldable pub set_record_count : Buffer → ℕ → Option Buffer
set_record_count page count = store_int page 0 count

-- The offset that slotPtr adds to the page.
abbrev pub slot_offset : ℕ → ℕ
slot_offset n = 4 + (4 + max_value_length) * n

-- The bytes of a string up to its first NUL, which is what c_str() shows to strcpy.
unfoldable pub until_nul : List ℕ → List ℕ
until_nul [] = []
until_nul (c ∷ s) = if c == 0 then [] else c ∷ until_nul s

-- value.assign(ptr): the bytes up to a NUL, which has to come before the page ends.
unfoldable pub c_string : Buffer → Option (List ℕ)
c_string [] = none
c_string (c ∷ s) =
    let rest = c_string s in if c == 0 then some [] else do tail ← rest; some (c ∷ tail)

unfoldable pub read_slot : Buffer → ℕ → Option (ℕ × List ℕ)
read_slot page n = do
  key ← load_int page (slot_offset n)
  value ← c_string (drop (slot_offset n + 4) page)
  some (key, value)

-- The value and its final NUL: a string of 100 bytes or more is cut to 99. The code compares the size
-- as an `int`, which is the same below 2 ^ 31 bytes.
unfoldable pub stored_bytes : List ℕ → List ℕ
stored_bytes value =
    if leb max_value_length (length value)
    then take (max_value_length - 1) value ++ (0 ∷ [])
    else until_nul value ++ (0 ∷ [])

unfoldable pub write_slot : Buffer → ℕ → ℕ → List ℕ → Option Buffer
write_slot page n key value = do
  b ← store_int page (slot_offset n) key
  write_at b (slot_offset n + 4) (stored_bytes value)

-- The fields of a RecordFile.
pub record RecordFile : Type 0 where
  pub pf : PageFile
  pub erid : RecordId

-- The constructor.
abbrev pub new_record_file : RecordFile
new_record_file = record { pf = new_page_file; erid = origin }

unfoldable pub end_rid : RecordFile → RecordId
end_rid rf = rf.erid

-- The end of the records, when the last page of the file has been read.
unfoldable pub end_of_page : ℕ → ℕ → RecordId
end_of_page last count =
    if sle records_per_page count
    then record { pid = (last + 1) % 2 ^ 32; sid = 0 }
    else record { pid = last; sid = count }

-- The tests of read on the rid.
unfoldable pub out_of_range : RecordFile → RecordId → Bool
out_of_range rf rid =
    slt rid.pid 0
    || (slt rf.erid.pid rid.pid
        || (slt rid.sid 0 || (sle records_per_page rid.sid || rid_ge rid rf.erid)))

-- The new content of the page.
unfoldable pub append_to_page : Buffer → ℕ → ℕ → List ℕ → Option Buffer
append_to_page page sid key value = do
  b ← write_slot page sid key value
  set_record_count b ((sid + 1) % 2 ^ 32)

module _ (os : System) where
  pub record Result : Type 0 where
    pub rc : Rc
    pub file : RecordFile
    pub store : Store os

  -- open, from the read of the last page on.
  unfoldable pub open_last : PageFile → ℕ → ReadResult os → Option Result
  open_last pf last r =
      if is_negative r.rc
      then (let c = close_page_file os pf r.store in
          some
            (record { rc = r.rc; file = record { pf = c.file; erid = origin }; store = c.store }))
      else do
        count ← get_record_count r.buffer
        some (record {
          rc = success;
          file = record { pf = pf; erid = end_of_page last count };
          store = r.store;
        })

  -- `page` is the local array, which is not initialised.
  unfoldable pub open_record_file : RecordFile → List ℕ → ℕ → Buffer → Store os → Option Result
  open_record_file rf filename mode page st =
      let r = open_page_file os rf.pf filename mode st in
      let epid = end_pid r.file in
      let last = (epid + 2 ^ 32 - 1) % 2 ^ 32 in
      if is_negative r.rc
      then some (record { rc = r.rc; file = record rf { pf = r.file }; store = r.store })
      else if epid == 0
      then some
          (record { rc = success; file = record { pf = r.file; erid = origin }; store = r.store })
      else open_last r.file last (read os r.file last page r.store)

  unfoldable pub close_record_file : RecordFile → Store os → Result
  close_record_file rf st =
      let r = close_page_file os rf.pf st in
      record { rc = r.rc; file = record { pf = r.file; erid = origin }; store = r.store }

  -- What read leaves: its return code, the two output parameters and the store.
  pub record Found : Type 0 where
    pub rc : Rc
    pub key : ℕ
    pub value : List ℕ
    pub store : Store os

  unfoldable pub read_found : ℕ → ℕ → List ℕ → ReadResult os → Option Found
  read_found sid key value r =
      if is_negative r.rc
      then some (record { rc = r.rc; key = key; value = value; store = r.store })
      else do
        (k, v) ← read_slot r.buffer sid
        some (record { rc = success; key = k; value = v; store = r.store })

  unfoldable pub read_record : RecordFile → RecordId → ℕ → List ℕ → Buffer → Store os → Option Found
  read_record rf rid key value page st =
      if out_of_range rf rid
      then some (record { rc = invalid_rid; key = key; value = value; store = st })
      else read_found rid.sid key value (read os rf.pf rid.pid page st)

  -- What append leaves.
  pub record Appended : Type 0 where
    pub rc : Rc
    pub file : RecordFile
    pub rid : RecordId
    pub store : Store os

  -- append, when the page has been written.
  unfoldable pub append_written : RecordFile → RecordId → FileResult os → Appended
  append_written rf rid w =
      if is_negative w.rc
      then record { rc = w.rc; file = record rf { pf = w.file }; rid = rid; store = w.store }
      else record {
        rc = success;
        file = record { pf = w.file; erid = next_rid rf.erid };
        rid = rf.erid;
        store = w.store;
      }

  -- append, when the page has been read.
  unfoldable pub append_here :
      RecordFile → ℕ → List ℕ → RecordId → Buffer → Store os → Option Appended
  append_here rf key value rid page st = do
    b ← append_to_page page rf.erid.sid key value
    some (append_written rf rid (write os rf.pf rf.erid.pid b st))

  unfoldable pub append : RecordFile → ℕ → List ℕ → RecordId → Buffer → Store os → Option Appended
  append rf key value rid page st =
      let r = read os rf.pf rf.erid.pid page st in
      if slt 0 rf.erid.sid
      then (if is_negative r.rc
          then some (record { rc = r.rc; file = rf; rid = rid; store = r.store })
          else append_here rf key value rid r.buffer r.store)
      else append_here rf key value rid (replicate page_size 0) st
