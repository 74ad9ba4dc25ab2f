-- ===== src/PageFile/Reads.antt =====
-- read: from the cache or from the file, it returns the page of the file.
use cs143_p.Base.{
  ℕ, ◌+◌, ◌*◌, ◌%◌, ◌≤◌, ◌<◌, ◌^◌, ◌≡◌, ◌≢◌, refl, ap, ap₂, sym, ◌∙◌, List, [], ◌∷◌, ◌++◌, length,
  drop, All, arith, some, none, true, false, Bool-cases, inl, inr, ◌||◌, get_elem?, set, length-set,
  append-nil, drop-length, Option-cases,
}
use cs143_p.Memory.{Buffer, page_size, slt, sle}
use cs143_p.Rc.{success}
use cs143_p.PageFile.{
  Slot, PageFile, Store, ReadResult, holds, find_slot, victim, seek, read, read_cached,
  read_missing, read_through,
}
use cs143_p.PageFile.Os.{System, Laws, Reads, sought}
use cs143_p.PageFile.Cache.{
  count_holding, count_holding-set, Avoids, Avoids-count, find_slot-none, find_slot-some, All-set,
  All-get_elem?, victim-IsVictim, IsVictim,
}
use cs143_p.PageFile.Coherence.{IsSlot, Coherent, IsOpen}

module _ (os : System) where
  open os use {State, seek_to, read_bytes}

  -- The offset of a page below 2 ^ 21 is a positive `int`.
  pub seek_page :
      (pf : PageFile) (pid : ℕ) (system : State)
      → pid < 2 ^ 21
      → (seek_to pf.fd (pid * page_size) system).0 ≡ true
      → seek os pf pid system ≡ (success, sought os pf.fd pid system)
  unfolding seek
  seek_page pf pid system h moved =
      let offset : pid * page_size % 2 ^ 32 ≡ pid * page_size = omega arith in rw (offset, moved)

  in_range :
      (pf : PageFile) (pid : ℕ)
      → pid < pf.epid
      → pf.epid ≤ 2 ^ 21
      → (slt pid 0 || sle pf.epid pid) ≡ false
  in_range pf pid h k = ground arith

  pub read-hit :
      (pf : PageFile) (pid : ℕ) (buffer : Buffer) (st : Store os) (i : ℕ) (s : Slot)
      → (slt pid 0 || sle pf.epid pid) ≡ false
      → find_slot pf.fd pid 0 st.cache ≡ some (i, s)
      → read os pf pid buffer st ≡ read_cached os st i s
  unfolding read
  read-hit pf pid buffer st i s valid found = rw (valid, found)

  pub read-miss :
      (pf : PageFile) (pid : ℕ) (buffer : Buffer) (st : Store os)
      → (slt pid 0 || sle pf.epid pid) ≡ false
      → find_slot pf.fd pid 0 st.cache ≡ none
      → pid < 2 ^ 21
      → (seek_to pf.fd (pid * page_size) st.system).0 ≡ true
      → read os pf pid buffer st
        ≡ read_through os pf pid buffer (record st { system = sought os pf.fd pid st.system })
  unfolding read read_missing
  read-miss pf pid buffer st valid missing small moved =
      rw (valid, missing, seek_page pf pid st.system small moved)

  module _ (laws : Laws os) where
    open laws use {page_at, IsPage}

    -- What read promises of the page `pid` of an open file.
    pub record ReadsPage (pf : PageFile) (pid : ℕ) (st : Store os) (r : ReadResult os)
        : Type 0 where
      pub succeeded : r.rc ≡ success
      pub page : r.buffer ≡ page_at st.system pf.fd pid
      pub coherent : Coherent os laws r.store
      pub files_kept : page_at r.store.system ≡ page_at st.system
      pub pages_kept : (d p : ℕ) → IsPage st.system d p → IsPage r.store.system d p

    pub IsSlot-kept :
        (a b : State)
        → page_at b ≡ page_at a
        → ((d p : ℕ) → IsPage a d p → IsPage b d p)
        → (cache : List Slot) → All (IsSlot os laws a) cache
        → All (IsSlot os laws b) cache
    IsSlot-kept a b same pages [] v = tt
    IsSlot-kept a b same pages (s ∷ cache) v = (
      record {
        whole = v.0.whole;
        in_file = λ n. pages s.fd s.pid (v.0.in_file n);
        fresh = λ n. v.0.fresh n ∙ ap (λ (f : ℕ → ℕ → Buffer). f s.fd s.pid) (sym same);
      },
      IsSlot-kept a b same pages cache v.1,
    )

    cached-ReadsPage :
        (pf : PageFile) (pid : ℕ) (st : Store os) (i : ℕ) (s : Slot)
        → Coherent os laws st
        → get_elem? st.cache i ≡ some s
        → holds pf.fd pid s ≡ true
        → ReadsPage pf pid st (read_cached os st i s)
    unfolding read_cached
    cached-ReadsPage pf pid st i s c at held = record {
      succeeded = refl;
      page = slot.fresh used ∙ ap₂ (page_at st.system) same_fd same_pid;
      coherent = record {
        slots = All-set (IsSlot os laws st.system) st.cache i renewed c.slots (record {
          whole = slot.whole;
          in_file = λ n. slot.in_file used;
          fresh = λ n. slot.fresh used;
        });
        once =
            λ d p. ground (arith, c.once d p, count_holding-set d p st.cache i renewed {s = s} at);
        size = length-set st.cache i renewed ∙ c.size;
      };
      files_kept = refl;
      pages_kept = λ d p h. h;
    }
      where
        renewed : Slot
        renewed = record s { last_accessed = (st.clock + 1) % 2 ^ 32 }

        slot : IsSlot os laws st.system s
        slot = All-get_elem? (IsSlot os laws st.system) st.cache i c.slots at

        used : s.last_accessed ≢ 0
        used = λ e. ground arith

        same_fd : s.fd ≡ pf.fd
        same_fd = ground arith

        same_pid : s.pid ≡ pid
        same_pid = ground arith

    through-ReadsPage :
        (pf : PageFile) (pid : ℕ) (buffer : Buffer) (st : Store os) (bytes : List ℕ)
        → Coherent os laws st
        → IsPage st.system pf.fd pid
        → Avoids pf.fd pid st.cache
        → Reads os pf.fd pid st.system bytes
        → ReadsPage pf pid st
            (read_through os pf pid buffer (record st { system = sought os pf.fd pid st.system }))
    unfolding read_through
    through-ReadsPage pf pid buffer st bytes c has missing reads =
        rw (reads.read_ok, read_through)
          (record {
            succeeded = refl;
            page = page_read;
            coherent = record {
              slots =
                  All-set (IsSlot os laws after) st.cache k filled
                    (IsSlot-kept st.system after files_same pages_same st.cache c.slots)
                    (record {
                      whole =
                          ap length whole_page
                          ∙ (laws.read_page pf.fd pid st.system bytes has reads).1;
                      in_file = λ n. pages_same pf.fd pid has;
                      fresh = λ n.
                          page_read ∙ ap (λ (f : ℕ → ℕ → Buffer). f pf.fd pid) (sym files_same);
                    });
              once = once_more;
              size = length-set st.cache k filled ∙ c.size;
            };
            files_kept = files_same;
            pages_kept = pages_same;
          })
      where
        k : ℕ
        k = (victim st.cache).0

        old : Slot
        old = (victim st.cache).1

        chosen : IsVictim st.cache k old
        chosen = victim-IsVictim st.cache (omega (arith, c.size))

        whole_page : bytes ++ drop (length bytes) old.buffer ≡ bytes
        whole_page =
            ap (λ (n : ℕ). bytes ++ drop n old.buffer)
              ((laws.read_page pf.fd pid st.system bytes has reads).1
                ∙ sym
                    (All-get_elem? (IsSlot os laws st.system) st.cache k c.slots
                      chosen.in_cache).whole)
            ∙ ap (λ (b : Buffer). bytes ++ b) (drop-length old.buffer)
            ∙ append-nil bytes

        page_read : bytes ++ drop (length bytes) old.buffer ≡ page_at st.system pf.fd pid
        page_read = whole_page ∙ (laws.read_page pf.fd pid st.system bytes has reads).0

        after : State
        after = (read_bytes pf.fd page_size (sought os pf.fd pid st.system)).1

        files_same : page_at after ≡ page_at st.system
        files_same =
            laws.read_keeps pf.fd page_size (sought os pf.fd pid st.system)
            ∙ laws.seek_keeps pf.fd (pid * page_size) st.system

        pages_same : (d p : ℕ) → IsPage st.system d p → IsPage after d p
        pages_same d p h =
            laws.read_keeps_pages pf.fd page_size (sought os pf.fd pid st.system) d p
              (laws.seek_keeps_pages pf.fd (pid * page_size) st.system d p h)

        filled : Slot
        filled = record {
          fd = pf.fd;
          pid = pid;
          last_accessed = (st.clock + 1) % 2 ^ 32;
          buffer = bytes ++ drop (length bytes) old.buffer;
        }

        once_more : (d p : ℕ) → count_holding d p (set st.cache k filled) ≤ 1
        once_more d p = elim (Bool-cases (holds d p filled)) [
          | inl new ↦
              let none_before : count_holding d p st.cache ≡ 0 =
                ap₂ (λ (a b : ℕ). count_holding a b st.cache) (ground arith) (ground arith)
                ∙ Avoids-count pf.fd pid st.cache missing in
              ground (
                arith,
                none_before,
                count_holding-set d p st.cache k filled {s = old} chosen.in_cache,
              )
          | inr other ↦
              ground (
                arith,
                c.once d p,
                count_holding-set d p st.cache k filled {s = old} chosen.in_cache,
              )
        ]

    -- If the cache is coherent, the file is open, and the page is before the end of the file, a
    -- read that no system call fails returns the content of the page, from the cache or from the
    -- file. It keeps the cache coherent and the content of all files.
    pub read-ReadsPage :
        (pf : PageFile) (pid : ℕ) (buffer : Buffer) (st : Store os) (bytes : List ℕ)
        → Coherent os laws st
        → IsOpen os laws pf st
        → pid < pf.epid
        → Reads os pf.fd pid st.system bytes
        → ReadsPage pf pid st (read os pf pid buffer st)
    read-ReadsPage pf pid buffer st bytes c o h reads =
        elim (Option-cases (find_slot pf.fd pid 0 st.cache)) [
          | inl missing ↦
              rw (read-miss pf pid buffer st valid missing (omega (arith, o.small)) reads.sought_ok)
                (through-ReadsPage pf pid buffer st bytes c (o.has_pages pid h)
                  (find_slot-none pf.fd pid 0 st.cache missing) reads)
          | inr ((i, s), found) ↦
              let (k, e, at, held) = find_slot-some pf.fd pid 0 i st.cache found in
              let same : i ≡ k = omega arith in
              rw (read-hit pf pid buffer st i s valid found)
                (cached-ReadsPage pf pid st i s c (ap (get_elem? st.cache) same ∙ at) held)
        ]
      where
        valid : (slt pid 0 || sle pf.epid pid) ≡ false
        valid = in_range pf pid h o.small
