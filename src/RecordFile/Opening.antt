-- ===== src/RecordFile/Opening.antt =====
-- open: the end of the records is found again.
use cs143_p.Base.{
  ℕ, ◌+◌, ◌-◌, ◌*◌, ◌/◌, ◌%◌, ◌^◌, ◌<◌, ◌≡◌, refl, sym, subst, ap, ◌∙◌, List, some, true, false,
  ◌==◌, ◌>>=◌, length, arith, Bool-cases, inl, inr,
}
use cs143_p.Memory.{Buffer, page_size, slt}
use cs143_p.Rc.{success}
use cs143_p.RecordId.{RecordId, records_per_page}
use cs143_p.PageFile.{
  PageFile, Store, new_page_file, open_page_file, open_with, open_described, open_flags, end_pid,
  read,
}
use cs143_p.PageFile.Os.{System, Laws, Mode}
use cs143_p.PageFile.Usable.{Reliable, read-Usable, OnlyReads, read-OnlyReads}
use cs143_p.RecordFile.{
  Result, new_record_file, origin, open_record_file, open_last, end_of_page, get_record_count,
}
use cs143_p.RecordFile.Slots.{Record}
use cs143_p.RecordFile.Contents.{Holds, read-Holds, rid_at, count_at}

-- The number of pages that some records take.
abbrev pub pages_of : ℕ → ℕ
pages_of n = (n + 8) / records_per_page

end_of_page_lem :
    (n : ℕ)
    → 0 < n
    → n < 2 ^ 24
    → end_of_page (pages_of n - 1) (count_at n (pages_of n - 1)) ≡ rid_at n
unfolding end_of_page
end_of_page_lem n some_there small = ground arith

module _ (os : System) where
  -- The store behind a call of open.
  abbrev pub opened_store : List ℕ → Mode → Store os → Store os
  opened_store filename flags st = record st { system = (os.open_file filename flags st.system).1 }

  open_page_file-opened :
      (filename : List ℕ) (mode : ℕ) (flags : Mode) (st : Store os) (fd size : ℕ)
      → open_flags mode ≡ some flags
      → (os.open_file filename flags st.system).0 ≡ fd
      → slt fd 0 ≡ false
      → os.file_size fd (opened_store filename flags st).system ≡ some size
      → open_page_file os new_page_file filename mode st ≡ record {
        rc = success;
        file = record { fd = fd; epid = size / page_size % 2 ^ 32 };
        store = opened_store filename flags st;
      }
  unfolding open_page_file open_with open_described
  open_page_file-opened filename mode flags st fd size known opened valid sized =
      rw (known, opened, valid, open_described, sized)
        (ap
          (λ (d : ℕ). record {
            rc = success;
            file = record { fd = d; epid = size / page_size % 2 ^ 32 };
            store = opened_store filename flags st;
          })
          opened)

  -- open of a record file, given what its parts return.
  module _ (filename : List ℕ) (mode : ℕ) (page : Buffer) (st : Store os) (pf : PageFile)
      (st' : Store os)
      (opened : open_page_file os new_page_file filename mode st
        ≡ record { rc = success; file = pf; store = st' }) where
    open_record_file-empty :
        pf.epid ≡ 0
        → open_record_file os new_record_file filename mode page st
          ≡ some (record { rc = success; file = record { pf = pf; erid = origin }; store = st' })
    unfolding open_record_file end_pid
    open_record_file-empty e = rw (opened, e) refl

    open_record_file-last :
        (last : ℕ)
        → (pf.epid == 0) ≡ false
        → (pf.epid + 2 ^ 32 - 1) % 2 ^ 32 ≡ last
        → (read os pf last page st').rc ≡ success
        → (count : ℕ) → get_record_count (read os pf last page st').buffer ≡ some count
        → open_record_file os new_record_file filename mode page st
          ≡ some (record {
            rc = success;
            file = record { pf = pf; erid = end_of_page last count };
            store = (read os pf last page st').store;
          })
    unfolding open_record_file end_pid open_last
    open_record_file-last last e at got count counted = rw (opened, e, at, got, counted, ◌>>=◌) refl

  module _ (laws : Laws os) {fd : ℕ} (rel : Reliable os laws fd) where
    -- The named file holds the records, once it is open: the calls of open return the descriptor
    -- and a size of whole pages, and keep the other open files.
    pub record OnDisk (filename : List ℕ) (flags : Mode) (st : Store os) (rs : List Record)
        : Type 0 where
      pub opened : (os.open_file filename flags st.system).0 ≡ fd
      pub valid : slt 0 fd ≡ true
      pub sized :
          os.file_size fd (opened_store filename flags st).system
          ≡ some (page_size * pages_of (length rs))
      pub holds :
          Holds os laws rel
            (record {
              pf = record { fd = fd; epid = pages_of (length rs) };
              erid = rid_at (length rs);
            })
            (opened_store filename flags st)
            rs

    -- What open leaves.
    pub record Opens (filename : List ℕ) (mode : ℕ) (flags : Mode) (page : Buffer) (st : Store os)
        (rs : List Record) (r : Result os) : Type 1 where
      pub ran : open_record_file os new_record_file filename mode page st ≡ some r
      pub succeeded : r.rc ≡ success
      pub holds : Holds os laws rel r.file r.store rs
      pub same_fd : r.file.pf.fd ≡ fd
      pub only_reads : OnlyReads os (opened_store filename flags st).system r.store.system

    pub open_record_file-Opens :
        (filename : List ℕ) (mode : ℕ) (flags : Mode) (page : Buffer) (st : Store os)
        (rs : List Record)
        → open_flags mode ≡ some flags
        → OnDisk filename flags st rs
        → (r : Result os) × Opens filename mode flags page st rs r
    open_record_file-Opens filename mode flags page st rs known d =
        elim (Bool-cases (length rs == 0)) [
          | inl empty ↦
              let none_there : length rs ≡ 0 = ground arith in
              (
                record {
                  rc = success;
                  file = record { pf = pf; erid = origin };
                  store = opened_store filename flags st;
                },
                record {
                  ran =
                      open_record_file-empty filename mode page st pf
                        (opened_store filename flags st) opened (omega (arith, none_there));
                  succeeded = refl;
                  holds =
                      subst
                        (λ (e : RecordId).
                          Holds os laws rel (record { pf = pf; erid = e })
                            (opened_store filename flags st) rs)
                        (ap rid_at none_there) d.holds;
                  same_fd = refl;
                  only_reads = λ P seeks reads p. p;
                },
              )
          | inr more ↦
              let there : 0 < length rs = ground arith in
              let last = pages_of (length rs) - 1 in
              let before : last < pf.epid = omega (arith, there) in
              let u =
                read-Usable os laws rel pf last page (opened_store filename flags st) d.holds.usable
                  before in
              let r = read os pf last page (opened_store filename flags st) in
              (
                record {
                  rc = success;
                  file = record { pf = pf; erid = end_of_page last (count_at (length rs) last) };
                  store = r.store;
                },
                record {
                  ran =
                      open_record_file-last filename mode page st pf
                        (opened_store filename flags st) opened last (ground (arith, there))
                        (omega (arith, there, d.holds.room)) u.reads_page.succeeded
                        (count_at (length rs) last)
                        (ap get_record_count u.reads_page.page ∙ d.holds.counts last before);
                  succeeded = refl;
                  holds =
                      subst
                        (λ (e : RecordId).
                          Holds os laws rel (record { pf = pf; erid = e }) r.store rs)
                        (sym (end_of_page_lem (length rs) there d.holds.room))
                        (read-Holds os laws rel d.holds u);
                  same_fd = refl;
                  only_reads = read-OnlyReads os pf last page (opened_store filename flags st);
                },
              )
        ]
      where
        pf : PageFile
        pf = record { fd = fd; epid = pages_of (length rs) }

        opened :
            open_page_file os new_page_file filename mode st
            ≡ record { rc = success; file = pf; store = opened_store filename flags st }
        opened =
            open_page_file-opened filename mode flags st fd (page_size * pages_of (length rs)) known
              d.opened (ground (arith, d.valid)) d.sized
            ∙ ap
                (λ (e : ℕ). record {
                  rc = success;
                  file = record { fd = fd; epid = e };
                  store = opened_store filename flags st;
                })
                {x = page_size * pages_of (length rs) / page_size % 2 ^ 32}
                {y = pages_of (length rs)} (omega arith)

    -- open of a table that holds a list of records succeeds, finds the end of the records from the
    -- count of the last page, and leaves a file that holds the list.
    pub open_record_file-Holds :
        (filename : List ℕ) (mode : ℕ) (flags : Mode) (page : Buffer) (st : Store os)
        (rs : List Record)
        → open_flags mode ≡ some flags
        → OnDisk filename flags st rs
        → (r : Result os) × (open_record_file os new_record_file filename mode page st ≡ some r)
          × (r.rc ≡ success)
          × Holds os laws rel r.file r.store rs
          × (r.file.pf.fd ≡ fd)
    open_record_file-Holds filename mode flags page st rs known d =
        let (r, o) = open_record_file-Opens filename mode flags page st rs known d in
        (r, o.ran, o.succeeded, o.holds, o.same_fd)
