-- ===== src/RecordFile/Lost.antt =====
-- append, when the seek to a new page fails.
use cs143_p.Base.{
  ℕ, ◌*◌, ◌%◌, ◌^◌, ◌<◌, ◌≡◌, refl, ap, sym, List, [], some, true, false, ◌>>=◌, ◌||◌, arith,
  replicate,
}
use cs143_p.Memory.{Buffer, IsInt, page_size, slt, sle}
use cs143_p.Rc.{success, invalid_pid}
use cs143_p.RecordId.{RecordId, next_rid, rid_ge}
use cs143_p.PageFile.{PageFile, Store, read}
use cs143_p.PageFile.Os.{System}
use cs143_p.PageFile.Stale.{write_seek_failed}
use cs143_p.RecordFile.{
  RecordFile, Appended, end_rid, out_of_range, read_record, read_found, append, append_here,
  append_written,
}
use cs143_p.RecordFile.Slots.{append_to_page-HasRecords}

positive : (pid : ℕ) → pid < 2 ^ 31 → slt pid 0 ≡ false
positive pid small = ground (arith, small)

module _ (os : System) where
  open os use {seek_to}

  read_past_end :
      (pf : PageFile) (page : Buffer) (st : Store os)
      → read os pf pf.epid page st ≡ record { rc = invalid_pid; buffer = page; store = st }
  unfolding read
  read_past_end pf page st =
      let past : (slt pf.epid 0 || sle pf.epid pf.epid) ≡ true = ground arith in rw past refl

  -- The end of the records is that of the file, in front of a page that does not exist.
  module _ (rf : RecordFile) (at_end : rf.erid ≡ record { pid = rf.pf.epid; sid = 0 })
      (small : rf.pf.epid < 2 ^ 31) (st : Store os)
      (failed : (seek_to rf.pf.fd (rf.pf.epid * page_size % 2 ^ 32) st.system).0 ≡ false) where
    -- The file and the store behind the append.
    ended : RecordFile
    ended = record rf { erid = record { pid = rf.pf.epid; sid = 1 } }

    behind : Store os
    behind = record st { system = (seek_to rf.pf.fd (rf.pf.epid * page_size % 2 ^ 32) st.system).1 }

    append-ended :
        (key : ℕ) (value : List ℕ) (rid : RecordId) (page : Buffer)
        → IsInt key
        → append os rf key value rid page st
          ≡ some (record { rc = success; file = ended; rid = rf.erid; store = behind })
    unfolding append append_here append_written next_rid ended behind
    append-ended key value rid page int =
        let (b, filled, whole, held, counted) =
          append_to_page-HasRecords (replicate page_size 0) key value [] refl (omega arith) int
            tt in
        rw
          (
            at_end,
            filled,
            ◌>>=◌,
            write_seek_failed os rf.pf rf.pf.epid b st (positive rf.pf.epid small) failed,
          )
          refl

    inside : out_of_range ended (record { pid = rf.pf.epid; sid = 0 }) ≡ false
    unfolding out_of_range rid_ge ended
    inside = ground (arith, small)

    read-ended :
        (key : ℕ) (value : List ℕ) (page : Buffer)
        → read_record os ended rf.erid key value page behind
          ≡ some (record { rc = invalid_pid; key = key; value = value; store = behind })
    unfolding read_record read_found ended
    read-ended key value page = rw (at_end, inside, read_past_end rf.pf page behind) refl

    append-refused :
        (key : ℕ) (value : List ℕ) (rid : RecordId) (page : Buffer)
        → append os ended key value rid page behind
          ≡ some (record { rc = invalid_pid; file = ended; rid = rid; store = behind })
    unfolding append ended
    append-refused key value rid page = rw (read_past_end rf.pf page behind) refl

  -- When the records end with the last page of the file, and the seek to the next page fails, append
  -- of an `int` reports success, and returns the rid of the end of the records and moves that end on;
  -- no page is written. The read at the rid that it returned fails with RC_INVALID_PID, and so does
  -- every further append to the file.
  pub append_seek_failed :
      (rf : RecordFile) (st : Store os) (key next_key : ℕ) (value next_value : List ℕ)
      (rid other : RecordId) (page : Buffer)
      → rf.erid ≡ record { pid = rf.pf.epid; sid = 0 }
      → rf.pf.epid < 2 ^ 31
      → (seek_to rf.pf.fd (rf.pf.epid * page_size % 2 ^ 32) st.system).0 ≡ false
      → IsInt key
      → (a : Appended os) × (append os rf key value rid page st ≡ some a)
        × (a.rc ≡ success)
        × (a.rid ≡ rf.erid)
        × (end_rid a.file ≡ next_rid rf.erid)
        × (a.store.system ≡ (seek_to rf.pf.fd (rf.pf.epid * page_size % 2 ^ 32) st.system).1)
        × (read_record os a.file a.rid key value page a.store
            ≡ some (record { rc = invalid_pid; key = key; value = value; store = a.store }))
        × (append os a.file next_key next_value other page a.store
            ≡ some (record { rc = invalid_pid; file = a.file; rid = other; store = a.store }))
  unfolding ended behind end_rid next_rid
  append_seek_failed rf st key next_key value next_value rid other page at_end small failed int = (
    record {
      rc = success;
      file = ended rf at_end small st failed;
      rid = rf.erid;
      store = behind rf at_end small st failed;
    },
    append-ended rf at_end small st failed key value rid page int,
    refl,
    refl,
    ap next_rid (sym at_end),
    refl,
    read-ended rf at_end small st failed key value page,
    append-refused rf at_end small st failed next_key next_value other page,
  )
