-- ===== src/PageFile/Writes.antt =====
-- write: it changes one page of the file, and the cache forgets it.
use cs143_p.Base.{
  ℕ, suc, ◌+◌, ◌%◌, ◌<◌, ◌^◌, ◌≡◌, ◌≢◌, ◌⊎◌, refl, ap, sym, ◌∙◌, List, [], ◌∷◌, All, arith, false,
  Bool-cases, inl, inr, ◌==◌, if◌then◌else◌, leb,
}
use cs143_p.Memory.{Buffer, slt, sle}
use cs143_p.Rc.{success}
use cs143_p.PageFile.{Slot, PageFile, Store, FileResult, invalidate, write, write_here, read}
use cs143_p.PageFile.Os.{sought, System, Laws, Reads, Writes, written}
use cs143_p.PageFile.Cache.{
  Avoids, invalidate-Avoids, count_holding-invalidate, length-invalidate, All-invalidate,
}
use cs143_p.PageFile.Coherence.{IsSlot, Coherent, IsOpen, clear-IsSlot}
use cs143_p.PageFile.Reads.{seek_page, read-ReadsPage}

module _ (os : System) (laws : Laws os) where
  open os use {State, write_bytes}
  open laws use {page_at, IsPage}

  -- What write promises of the page `pid` of an open file: the page is the buffer, every other page
  -- of every file is as it was, and the file reaches over the page.
  pub record WritesPage (pf : PageFile) (pid : ℕ) (buffer : Buffer) (st : Store os)
      (r : FileResult os) : Type 0 where
    pub succeeded : r.rc ≡ success
    pub page : page_at r.store.system pf.fd pid ≡ buffer
    pub others_kept :
        (d p : ℕ)
        → IsPage st.system d p
        → (d ≢ pf.fd) ⊎ (p ≢ pid)
        → page_at r.store.system d p ≡ page_at st.system d p
    pub same_file : r.file.fd ≡ pf.fd
    pub end_moved : r.file.epid ≡ (if leb pf.epid pid then suc pid else pf.epid)
    pub coherent : Coherent os laws r.store
    pub still_open : IsOpen os laws r.file r.store

  module _ (pf : PageFile) (pid : ℕ) (buffer : Buffer) (st : Store os) (c : Coherent os laws st)
      (o : IsOpen os laws pf st) (small : pid < 2 ^ 21)
      (writes : Writes os pf.fd pid buffer st.system) where
    after : State
    after = written os pf.fd pid buffer st.system

    remaining : List Slot
    remaining = invalidate pf.fd pid st.cache

    slots_after :
        (cache : List Slot)
        → All (IsSlot os laws st.system) cache
        → Avoids pf.fd pid cache
        → All (IsSlot os laws after) cache
    unfolding after
    slots_after [] v a = tt
    slots_after (s ∷ cache) v a = (
      record {
        whole = v.0.whole;
        in_file = λ n.
            laws.write_keeps_pages pf.fd pid buffer st.system s.fd s.pid writes (v.0.in_file n);
        fresh = λ n.
            v.0.fresh n
            ∙ sym (
                laws.write_elsewhere pf.fd pid buffer st.system s.fd s.pid writes (v.0.in_file n)
                  (apart n));
      },
      slots_after cache v.1 a.1,
    )
      where
        apart : s.last_accessed ≢ 0 → (s.fd ≢ pf.fd) ⊎ (s.pid ≢ pid)
        apart n = elim (Bool-cases (s.fd == pf.fd)) [
          | inl same ↦ inr (λ e. absurd (ground (arith, a.0)))
          | inr other ↦ inl (λ e. absurd (ground arith))
        ]

    Coherent-after : Coherent os laws (record st {
      system = after;
      cache = remaining;
      write_count = (st.write_count + 1) % 2 ^ 32;
    })
    unfolding after remaining
    Coherent-after = record {
      slots =
          slots_after remaining
            (All-invalidate (IsSlot os laws st.system) pf.fd pid st.cache
              (clear-IsSlot os laws st.system) c.slots)
            (invalidate-Avoids pf.fd pid st.cache (c.once pf.fd pid));
      once = λ d p. omega (arith, c.once d p, count_holding-invalidate d p pf.fd pid st.cache);
      size = length-invalidate pf.fd pid st.cache ∙ c.size;
    }

    end_after :
        (if sle pf.epid pid then (pid + 1) % 2 ^ 32 else pf.epid)
        ≡ (if leb pf.epid pid then suc pid else pf.epid)
    end_after = ground (arith, o.small)

    -- The object behind a successful write.
    grown : PageFile
    grown = record pf { epid = if sle pf.epid pid then (pid + 1) % 2 ^ 32 else pf.epid }

    IsOpen-after : IsOpen os laws grown (record st {
      system = after;
      cache = remaining;
      write_count = (st.write_count + 1) % 2 ^ 32;
    })
    unfolding after grown
    IsOpen-after = record {
      has_pages = λ p h. elim (Bool-cases (leb p pid)) [
        | inl up_to ↦ laws.write_extends pf.fd pid buffer st.system p writes (ground arith)
        | inr beyond ↦
            laws.write_keeps_pages pf.fd pid buffer st.system pf.fd p writes
              (o.has_pages p (ground (arith, end_after, o.small)))
      ];
      small = ground (arith, end_after, o.small);
    }

    write-here :
        write os pf pid buffer st
        ≡ write_here os pf pid buffer (record st { system = sought os pf.fd pid st.system })
    unfolding write
    write-here =
        let positive : slt pid 0 ≡ false = ground arith in
        rw (seek_page os pf pid st.system small writes.sought_ok, positive)

    write-result : write os pf pid buffer st ≡ record {
      rc = success;
      file = grown;
      store = record st {
        system = after;
        cache = remaining;
        write_count = (st.write_count + 1) % 2 ^ 32;
      };
    }
    unfolding write_here grown after remaining
    write-result = write-here ∙ rw (write_here, writes.written_ok) refl

    write_lem : WritesPage pf pid buffer st (write os pf pid buffer st)
    unfolding grown after
    write_lem = rw write-result (record {
      succeeded = refl;
      page = laws.write_page pf.fd pid buffer st.system writes;
      others_kept =
          λ d p has apart. laws.write_elsewhere pf.fd pid buffer st.system d p writes has apart;
      same_file = refl;
      end_moved = end_after;
      coherent = Coherent-after;
      still_open = IsOpen-after;
    })

  -- If the cache is coherent, the file is open, and the page is whole and at an offset below 2 ^
  -- 31, a write that no system call fails replaces the page and no other page of any file; the end
  -- of the file moves behind the page if it was not behind it; the cache stays coherent and the
  -- file open.
  pub write-WritesPage :
      (pf : PageFile) (pid : ℕ) (buffer : Buffer) (st : Store os)
      → Coherent os laws st
      → IsOpen os laws pf st
      → pid < 2 ^ 21
      → Writes os pf.fd pid buffer st.system
      → WritesPage pf pid buffer st (write os pf pid buffer st)
  write-WritesPage pf pid buffer st c o small writes = write_lem pf pid buffer st c o small writes

  -- If the cache is coherent and the file is open, a whole page that was written at an offset
  -- below 2 ^ 31 is read back into any buffer, if no system call fails.
  pub read-write :
      (pf : PageFile) (pid : ℕ) (buffer other : Buffer) (st : Store os) (bytes : List ℕ)
      → Coherent os laws st
      → IsOpen os laws pf st
      → pid < 2 ^ 21
      → Writes os pf.fd pid buffer st.system
      → Reads os
          (write os pf pid buffer st).file.fd
          pid
          (write os pf pid buffer st).store.system
          bytes
      → let r = write os pf pid buffer st in
        ((read os r.file pid other r.store).rc ≡ success)
        × ((read os r.file pid other r.store).buffer ≡ buffer)
  read-write pf pid buffer other st bytes c o small writes reads =
      let r = write os pf pid buffer st in
      let w = write-WritesPage pf pid buffer st c o small writes in
      let back =
        read-ReadsPage os laws r.file pid other r.store bytes w.coherent w.still_open
          (ground (arith, w.end_moved)) reads in
      (
        back.succeeded,
        back.page ∙ ap (λ (d : ℕ). page_at r.store.system d pid) w.same_file ∙ w.page,
      )
