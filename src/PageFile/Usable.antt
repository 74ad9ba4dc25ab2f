-- ===== src/PageFile/Usable.antt =====
-- read and write on a descriptor on which no system call fails: what they keep.
use cs143_p.Base.{
  ℕ, ◌*◌, ◌%◌, ◌<◌, ◌^◌, ◌≡◌, refl, ap, subst, sym, ◌∙◌, List, length, arith, Bool-cases, inl, inr,
  Option-cases, ◌||◌,
}
use cs143_p.Memory.{Buffer, page_size, slt, sle}
use cs143_p.PageFile.{
  PageFile, Store, ReadResult, FileResult, read, read_cached, read_missing, read_through, write,
  write_here, seek, find_slot,
}
use cs143_p.PageFile.Os.{System, Laws, Reads, Writes}
use cs143_p.PageFile.Coherence.{Coherent, IsOpen}
use cs143_p.PageFile.Reads.{ReadsPage, read-ReadsPage}
use cs143_p.PageFile.Writes.{WritesPage, write-WritesPage}

module _ (os : System) where
  open os use {State, seek_to, read_bytes, write_bytes}

  -- A property of the system's state that seeks and reads keep is kept by the method.
  module _ (P : State → Type 0) (pf : PageFile)
      (seeks : (off : ℕ) (s : State) → P s → P (seek_to pf.fd off s).1) where
    pub read_keeps :
        ((n : ℕ) (s : State) → P s → P (read_bytes pf.fd n s).1)
        → (pid : ℕ) (buffer : Buffer) (st : Store os) → P st.system
        → P (read os pf pid buffer st).store.system
    unfolding read read_cached read_missing read_through seek
    read_keeps reads pid buffer st p = elim (Bool-cases (slt pid 0 || sle pf.epid pid)) [
      | inl invalid ↦ rw invalid p
      | inr valid ↦ elim (Option-cases (find_slot pf.fd pid 0 st.cache)) [
        | inr ((i, s), found) ↦ rw (valid, found) p
        | inl missing ↦ elim (Bool-cases (seek_to pf.fd (pid * page_size % 2 ^ 32) st.system).0) [
          | inr failed ↦ rw (valid, missing, failed) (seeks (pid * page_size % 2 ^ 32) st.system p)
          | inl moved ↦
              let s = (seek_to pf.fd (pid * page_size % 2 ^ 32) st.system).1 in
              let p' = reads page_size s (seeks (pid * page_size % 2 ^ 32) st.system p) in
              elim (Option-cases (read_bytes pf.fd page_size s).0) [
                | inl no_bytes ↦ rw (valid, missing, moved, read_through, no_bytes) p'
                | inr (bytes, got) ↦ rw (valid, missing, moved, read_through, got) p'
              ]
        ]
      ]
    ]

    pub write_keeps :
        ((buffer : Buffer) (s : State) → P s → P (write_bytes pf.fd buffer s).1)
        → (pid : ℕ) (buffer : Buffer) (st : Store os) → P st.system
        → P (write os pf pid buffer st).store.system
    unfolding write write_here seek
    write_keeps writes pid buffer st p = elim (Bool-cases (slt pid 0)) [
      | inl invalid ↦ rw invalid p
      | inr valid ↦ elim (Bool-cases (seek_to pf.fd (pid * page_size % 2 ^ 32) st.system).0) [
        | inr failed ↦ rw (valid, failed) (seeks (pid * page_size % 2 ^ 32) st.system p)
        | inl moved ↦
            let s = (seek_to pf.fd (pid * page_size % 2 ^ 32) st.system).1 in
            let p' = writes buffer s (seeks (pid * page_size % 2 ^ 32) st.system p) in
            elim (Option-cases (write_bytes pf.fd buffer s).0) [
              | inl failed ↦ rw (valid, moved, write_here, failed) p'
              | inr (count, done) ↦ rw (valid, moved, write_here, done) p'
            ]
      ]
    ]

  -- Between these states there were only seeks and reads: what these keep was kept.
  abbrev pub OnlyReads : State → State → Type 1
  OnlyReads s t =
      (P : State → Type 0)
      → ((d off : ℕ) (u : State) → P u → P (seek_to d off u).1)
      → ((d n : ℕ) (u : State) → P u → P (read_bytes d n u).1)
      → P s
      → P t

  pub read-OnlyReads :
      (pf : PageFile) (pid : ℕ) (buffer : Buffer) (st : Store os)
      → OnlyReads st.system (read os pf pid buffer st).store.system
  read-OnlyReads pf pid buffer st P seeks reads p =
      read_keeps P pf (seeks pf.fd) (reads pf.fd) pid buffer st p

  module _ (laws : Laws os) where
    open laws use {page_at, IsPage}

    -- An open descriptor: in the states that are `Ready` no seek or read on it fails at a positive
    -- `int` offset within the file, and, if it is open for writing on a disk with room, no write;
    -- no call on any descriptor ends that.
    pub record Reliable (fd : ℕ) : Type 1 where
      pub Ready : State → Type 0
      pub Writing : Type 0
      pub reads :
          (pid : ℕ) (s : State)
          → Ready s
          → IsPage s fd pid
          → pid < 2 ^ 21
          → (bytes : List ℕ) × Reads os fd pid s bytes
      pub writes :
          (pid : ℕ) (buffer : Buffer) (s : State)
          → Writing
          → Ready s
          → pid < 2 ^ 21
          → length buffer ≡ page_size
          → Writes os fd pid buffer s
      pub seek_ready : (d off : ℕ) (s : State) → Ready s → Ready (seek_to d off s).1
      pub read_ready : (d n : ℕ) (s : State) → Ready s → Ready (read_bytes d n s).1
      pub write_ready :
          (d : ℕ) (buffer : Buffer) (s : State) → Ready s → Ready (write_bytes d buffer s).1

    module _ {fd : ℕ} (rel : Reliable fd) where
      -- The file can be read and written on the descriptor.
      pub record Usable (pf : PageFile) (st : Store os) : Type 0 where
        pub same_fd : pf.fd ≡ fd
        pub coherent : Coherent os laws st
        pub is_open : IsOpen os laws pf st
        pub ready : rel.Ready st.system

      -- What a read of a page leaves on such a file: the page, of full length, and the file as it was.
      pub record ReadsUsable (pf : PageFile) (pid : ℕ) (st : Store os) (r : ReadResult os)
          : Type 0 where
        pub reads_page : ReadsPage os laws pf pid st r
        pub whole : length r.buffer ≡ page_size
        pub usable : Usable pf r.store

      pub read_succeeds :
          (pf : PageFile) (pid : ℕ) (st : Store os)
          → Usable pf st
          → IsPage st.system pf.fd pid
          → pid < 2 ^ 21
          → (bytes : List ℕ) × Reads os pf.fd pid st.system bytes
      read_succeeds pf pid st u =
          subst
            (λ (d : ℕ).
              IsPage st.system d pid
              → pid < 2 ^ 21
              → (bytes : List ℕ) × Reads os d pid st.system bytes)
            (sym u.same_fd) (rel.reads pid st.system u.ready)

      pub read-Usable :
          (pf : PageFile) (pid : ℕ) (buffer : Buffer) (st : Store os)
          → Usable pf st
          → pid < pf.epid
          → ReadsUsable pf pid st (read os pf pid buffer st)
      read-Usable pf pid buffer st u h =
          let has = u.is_open.has_pages pid h in
          let (bytes, reads) = read_succeeds pf pid st u has (omega (arith, h, u.is_open.small)) in
          let r = read-ReadsPage os laws pf pid buffer st bytes u.coherent u.is_open h reads in
          let read = laws.read_page pf.fd pid st.system bytes has reads in
          record {
            reads_page = r;
            whole = ap length (r.page ∙ sym read.0) ∙ read.1;
            usable = record {
              same_fd = u.same_fd;
              coherent = r.coherent;
              is_open = record {
                has_pages = λ p k. r.pages_kept pf.fd p (u.is_open.has_pages p k);
                small = u.is_open.small;
              };
              ready =
                  read_keeps rel.Ready pf (rel.seek_ready pf.fd) (rel.read_ready pf.fd) pid buffer
                    st u.ready;
            };
          }

      pub record WritesUsable (pf : PageFile) (pid : ℕ) (buffer : Buffer) (st : Store os)
          (w : FileResult os) : Type 0 where
        pub writes_page : WritesPage os laws pf pid buffer st w
        pub usable : Usable w.file w.store

      pub write-Usable :
          (pf : PageFile) (pid : ℕ) (buffer : Buffer) (st : Store os)
          → rel.Writing
          → Usable pf st
          → pid < 2 ^ 21
          → length buffer ≡ page_size
          → WritesUsable pf pid buffer st (write os pf pid buffer st)
      write-Usable pf pid buffer st writing u small whole =
          let writes =
            subst (λ (d : ℕ). Writes os d pid buffer st.system) (sym u.same_fd)
              (rel.writes pid buffer st.system writing u.ready small whole) in
          let w = write-WritesPage os laws pf pid buffer st u.coherent u.is_open small writes in
          record {
            writes_page = w;
            usable = record {
              same_fd = w.same_file ∙ u.same_fd;
              coherent = w.coherent;
              is_open = w.still_open;
              ready =
                  write_keeps rel.Ready pf (rel.seek_ready pf.fd) (rel.write_ready pf.fd) pid buffer
                    st u.ready;
            };
          }

    pub OnlyReads-page_at : {s t : State} → OnlyReads s t → laws.page_at t ≡ laws.page_at s
    OnlyReads-page_at {s} kept =
        kept (λ u. laws.page_at u ≡ laws.page_at s) (λ d off u e. laws.seek_keeps d off u ∙ e)
          (λ d n u e. laws.read_keeps d n u ∙ e) refl

    -- Reads on any descriptors leave a file usable.
    pub OnlyReads-Usable :
        {fd : ℕ} (rel : Reliable fd) (pf : PageFile) (st st' : Store os)
        → Usable rel pf st
        → Coherent os laws st'
        → OnlyReads st.system st'.system
        → Usable rel pf st'
    OnlyReads-Usable rel pf st st' u c kept = record {
      same_fd = u.same_fd;
      coherent = c;
      is_open = record {
        has_pages = λ p k.
            kept (λ s. IsPage s pf.fd p) (λ d off s h. laws.seek_keeps_pages d off s pf.fd p h)
              (λ d n s h. laws.read_keeps_pages d n s pf.fd p h) (u.is_open.has_pages p k);
        small = u.is_open.small;
      };
      ready = kept rel.Ready rel.seek_ready rel.read_ready u.ready;
    }
