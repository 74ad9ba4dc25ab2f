-- ===== src/RecordFile/Contents.antt =====
-- A file of records as the list of its records.
use cs143_p.Base.{
  ℕ, ◌+◌, ◌-◌, ◌*◌, ◌/◌, ◌%◌, ◌^◌, ◌<◌, ◌≡◌, refl, sym, subst, ◌∙◌, List, Option, none, some, true,
  false, leb, ltb, ◌&&◌, Bool, if◌then◌else◌, ◌>>=◌, length, arith, get_elem?, get_elem?-some,
  get_elem?-none, get_elem?-lt, Bool-cases, inl, inr,
}
use cs143_p.Memory.{Buffer, IsInt}
use cs143_p.Rc.{success, invalid_rid}
use cs143_p.RecordId.{RecordId, rid_ge, records_per_page}
use cs143_p.RecordId.Order.{IsPlace, place}
use cs143_p.PageFile.{Store, ReadResult, read}
use cs143_p.PageFile.Os.{System, Laws}
use cs143_p.PageFile.Coherence.{Coherent}
use cs143_p.PageFile.Usable.{
  Reliable, Usable, ReadsUsable, read-Usable, OnlyReads, OnlyReads-page_at, OnlyReads-Usable,
  read-OnlyReads,
}
use cs143_p.RecordFile.{
  RecordFile, Found, out_of_range, read_record, read_found, read_slot, get_record_count,
}
use cs143_p.RecordFile.Slots.{Record, HasRecord, read_slot-HasRecord}

-- The rid of the record with this number.
abbrev pub rid_at : ℕ → RecordId
rid_at i = record { pid = i / records_per_page; sid = i % records_per_page }

-- The number of records on a page of a file of `n` records.
abbrev pub count_at : ℕ → ℕ → ℕ
count_at n p =
    if leb (records_per_page * p + records_per_page) n
    then records_per_page
    else n - records_per_page * p

-- The record with a number stands at its place.
pub HasRecord-at :
    (pages : ℕ → Buffer) (j q i : ℕ) (r : Record)
    → j / records_per_page ≡ q
    → j % records_per_page ≡ i
    → HasRecord (pages (j / records_per_page)) (j % records_per_page) r
    → HasRecord (pages q) i r
HasRecord-at pages j q i r e f h =
    subst (λ (k : ℕ). HasRecord (pages q) k r) f
      (subst (λ (k : ℕ). HasRecord (pages k) (j % records_per_page) r) e h)

out_of_range_lem :
    (rf : RecordFile) (rid : RecordId) (n : ℕ)
    → rf.erid ≡ rid_at n
    → n < 2 ^ 24
    → IsPlace rid
    → out_of_range rf rid ≡ leb n (place rid)
unfolding out_of_range rid_ge
out_of_range_lem rf rid n e small p = rw e (ground arith)

-- The fields are not negative, and there are nine slots to a page.
abbrev pub is_place : RecordId → Bool
is_place rid = ltb rid.pid (2 ^ 31) && ltb rid.sid records_per_page

-- The record that a rid names, if it names one.
abbrev pub record_at : List Record → RecordId → Option Record
record_at rs rid = if is_place rid then get_elem? rs (place rid) else none

out_of_range_outside :
    (rf : RecordFile) (rid : RecordId)
    → IsInt rid.pid
    → IsInt rid.sid
    → is_place rid ≡ false
    → out_of_range rf rid ≡ true
unfolding out_of_range rid_ge
out_of_range_outside rf rid h k outside = ground arith

module _ (os : System) (laws : Laws os) {fd : ℕ} (rel : Reliable os laws fd) where
  open laws use {page_at}

  -- The file holds exactly these records, in this order, nine to a page, and each page counts its own.
  pub record Holds (rf : RecordFile) (st : Store os) (rs : List Record) : Type 0 where
    pub usable : Usable os laws rel rf.pf st
    pub end_place : rf.erid ≡ rid_at (length rs)
    pub file_end : rf.pf.epid ≡ (length rs + 8) / records_per_page
    pub room : length rs < 2 ^ 24
    pub records :
        (i : ℕ) (r : Record)
        → get_elem? rs i ≡ some r
        → HasRecord (page_at st.system rf.pf.fd (i / records_per_page)) (i % records_per_page) r
    pub counts :
        (p : ℕ)
        → p < rf.pf.epid
        → get_record_count (page_at st.system rf.pf.fd p) ≡ some (count_at (length rs) p)

  -- As long as no page changes, the file holds the same.
  Holds-kept :
      {rf : RecordFile} {st st' : Store os} {rs : List Record}
      → Holds rf st rs
      → Usable os laws rel rf.pf st'
      → page_at st'.system ≡ page_at st.system
      → Holds rf st' rs
  Holds-kept {rf} h u kept = record {
    usable = u;
    end_place = h.end_place;
    file_end = h.file_end;
    room = h.room;
    records = λ i r e. rw kept (h.records i r e);
    counts = λ p k. rw kept (h.counts p k);
  }

  -- Reads on any descriptors leave the file as it was.
  pub OnlyReads-Holds :
      {rf : RecordFile} (st st' : Store os) {rs : List Record}
      → Holds rf st rs
      → Coherent os laws st'
      → OnlyReads os st.system st'.system
      → Holds rf st' rs
  OnlyReads-Holds {rf} st st' h c kept =
      Holds-kept h (OnlyReads-Usable os laws rel rf.pf st st' h.usable c kept)
        (OnlyReads-page_at os laws kept)

  -- A read of a page leaves the file as it was.
  pub read-Holds :
      {rf : RecordFile} {st : Store os} {rs : List Record} {pid : ℕ} {r : ReadResult os}
      → Holds rf st rs
      → ReadsUsable os laws rel rf.pf pid st r
      → Holds rf r.store rs
  read-Holds h u = Holds-kept h u.usable u.reads_page.files_kept

  -- What read must leave at a rid: the record with its number, or else an error, with the output
  -- parameters as they were. The file stays as it is.
  abbrev pub Answers : Option Record → ℕ → List ℕ → Found os → Type 0
  Answers none key value f = (f.rc ≡ invalid_rid) × (f.key ≡ key) × (f.value ≡ value)
  Answers (some r) key value f = (f.rc ≡ success) × (f.key ≡ r.key) × (f.value ≡ r.value)

  read_record-in :
      (rf : RecordFile) (rid : RecordId) (key : ℕ) (value : List ℕ) (page : Buffer) (st : Store os)
      {k : ℕ} {v : List ℕ}
      → out_of_range rf rid ≡ false
      → (read os rf.pf rid.pid page st).rc ≡ success
      → read_slot (read os rf.pf rid.pid page st).buffer rid.sid ≡ some (k, v)
      → read_record os rf rid key value page st
        ≡ some (record {
          rc = success;
          key = k;
          value = v;
          store = (read os rf.pf rid.pid page st).store;
        })
  unfolding read_record read_found
  read_record-in rf rid key value page st inside ok slot = rw (inside, ok, slot, ◌>>=◌) refl

  read_record-out :
      (rf : RecordFile) (rid : RecordId) (key : ℕ) (value : List ℕ) (page : Buffer) (st : Store os)
      → out_of_range rf rid ≡ true
      → read_record os rf rid key value page st
        ≡ some (record { rc = invalid_rid; key = key; value = value; store = st })
  unfolding read_record
  read_record-out rf rid key value page st outside = rw outside refl

  -- What read leaves at the rid of a record.
  pub record Fetches (rf : RecordFile) (rid : RecordId) (key : ℕ) (value : List ℕ) (page : Buffer)
      (st : Store os) (rs : List Record) (r : Record) (f : Found os) : Type 1 where
    pub ran : read_record os rf rid key value page st ≡ some f
    pub succeeded : f.rc ≡ success
    pub key_read : f.key ≡ r.key
    pub value_read : f.value ≡ r.value
    pub only_reads : OnlyReads os st.system f.store.system
    pub holds : Holds rf f.store rs

  pub read_record-Fetches :
      {rf : RecordFile} {st : Store os} {rs : List Record} (rid : RecordId) (key : ℕ)
      (value : List ℕ) (page : Buffer) (r : Record)
      → Holds rf st rs
      → IsPlace rid
      → get_elem? rs (place rid) ≡ some r
      → (f : Found os) × Fetches rf rid key value page st rs r f
  read_record-Fetches {rf} {st} {rs} rid key value page r h p found =
      let within : place rid < length rs = get_elem?-lt rs (place rid) {a = r} found in
      let u =
        read-Usable os laws rel rf.pf rid.pid page st h.usable
          (omega (arith, within, h.file_end, p.sid_small)) in
      let got = read os rf.pf rid.pid page st in
      (
        record { rc = success; key = r.key; value = r.value; store = got.store },
        record {
          ran =
              read_record-in rf rid key value page st
                (out_of_range_lem rf rid (length rs) h.end_place h.room p ∙ ground (arith, within))
                u.reads_page.succeeded (slot_read got u);
          succeeded = refl;
          key_read = refl;
          value_read = refl;
          only_reads = read-OnlyReads os rf.pf rid.pid page st;
          holds = read-Holds h u;
        },
      )
    where
      slot_read :
          (got : ReadResult os)
          → ReadsUsable os laws rel rf.pf rid.pid st got
          → read_slot got.buffer rid.sid ≡ some (r.key, r.value)
      slot_read got u =
          let page_no : place rid / records_per_page ≡ rid.pid = omega (arith, p.sid_small) in
          let slot_no : place rid % records_per_page ≡ rid.sid = omega (arith, p.sid_small) in
          let here =
            HasRecord-at (page_at st.system rf.pf.fd) (place rid) rid.pid rid.sid r page_no slot_no
              (h.records (place rid) r found) in
          read_slot-HasRecord got.buffer rid.sid r
            (subst (λ (b : Buffer). HasRecord b rid.sid r) (sym u.reads_page.page) here)

  read_record-in_file :
      {rf : RecordFile} {st : Store os} {rs : List Record} (rid : RecordId) (key : ℕ)
      (value : List ℕ) (page : Buffer)
      → Holds rf st rs
      → IsPlace rid
      → (f : Found os) × (read_record os rf rid key value page st ≡ some f)
        × Answers (get_elem? rs (place rid)) key value f
        × Holds rf f.store rs
  read_record-in_file {rf} {st} {rs} rid key value page h p =
      elim (Bool-cases (leb (length rs) (place rid))) [
        | inl behind ↦ (
          record { rc = invalid_rid; key = key; value = value; store = st },
          read_record-out rf rid key value page st
              (out_of_range_lem rf rid (length rs) h.end_place h.room p ∙ behind),
          rw (get_elem?-none rs (place rid) (ground arith)) (refl, refl, refl),
          h,
        )
        | inr before ↦
            let (r, found) = get_elem?-some rs (place rid) (ground arith) in
            let (f, g) = read_record-Fetches rid key value page r h p found in
            (f, g.ran, rw found (g.succeeded, g.key_read, g.value_read), g.holds)
      ]

  -- Behind a file that holds a list of records, read at every rid, of any two `int`s, succeeds with
  -- the record whose number the rid stands for, and is refused with RC_INVALID_RID if there is
  -- none: if a field is negative, the slot number is not below 9, or the number is not below that
  -- of the records. The output parameters are then as they were, and the file still holds the list.
  pub read_record-Answers :
      {rf : RecordFile} {st : Store os} {rs : List Record} (rid : RecordId) (key : ℕ)
      (value : List ℕ) (page : Buffer)
      → Holds rf st rs
      → IsInt rid.pid
      → IsInt rid.sid
      → (f : Found os) × (read_record os rf rid key value page st ≡ some f)
        × Answers (record_at rs rid) key value f
        × Holds rf f.store rs
  read_record-Answers {rf} {st} {rs} rid key value page h pid_int sid_int =
      elim (Bool-cases (is_place rid)) [
        | inl inside ↦ rw inside (
            read_record-in_file rid key value page h
              (record { pid_small = ground arith; sid_small = ground arith }))
        | inr outside ↦ rw outside (
          record { rc = invalid_rid; key = key; value = value; store = st },
          read_record-out rf rid key value page st
              (out_of_range_outside rf rid pid_int sid_int outside),
          (refl, refl, refl),
          h,
        )
      ]
