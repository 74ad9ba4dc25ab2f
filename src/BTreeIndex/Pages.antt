-- ===== src/BTreeIndex/Pages.antt =====
-- The file of an index as the pages that a view sees, and what writes of nodes and new pages do to it.
use cs143_p.Base.{
  ℕ, suc, ◌^◌, ◌≤◌, ◌<◌, ◌≡◌, ◌≢◌, ◌⊎◌, inl, inr, refl, ap, subst, sym, ◌∙◌, arith, length,
  replicate, if◌then◌else◌, ◌==◌, leb,
}
use cs143_p.Memory.{Buffer, page_size}
use cs143_p.PageFile.{PageFile, Store, FileResult, end_pid, read, write}
use cs143_p.PageFile.Os.{System, Laws}
use cs143_p.PageFile.Coherence.{Coherent}
use cs143_p.PageFile.Usable.{
  OnlyReads, OnlyReads-page_at, OnlyReads-Usable, Reliable, Usable, read-Usable, write-Usable,
}
use cs143_p.BTreeIndex.{BTreeIndex, fetch_new_page}
use cs143_p.BTreeIndex.Placed.{View, IsAt}

-- The view with one page more, which gets a place, and with other pages.
abbrev pub add_page : View → (ℕ → Buffer) → ℕ → ℕ → View
add_page v pages height lo = record v {
  pages = pages;
  end_pid = suc v.end_pid;
  height_of = λ q. if q == v.end_pid then height else v.height_of q;
  lower_of = λ q. if q == v.end_pid then lo else v.lower_of q;
}

-- A leaf starts at a bound.
abbrev pub start_leaf : View → ℕ → ℕ → View
start_leaf v lo pid = record v { leaf_from = λ x. if x == lo then pid else v.leaf_from x }

-- A page outside a region is not the one of its top.
pub other_page :
    (v : View) (height lo hi pid q : ℕ)
    → IsAt v height lo pid
    → lo < hi
    → (height < v.height_of q) ⊎ ((v.lower_of q < lo) ⊎ (hi ≤ v.lower_of q))
    → q ≢ pid
other_page v height lo hi pid q at lt outside same = elim outside [
  | inl higher ↦ omega (arith, higher, ap v.height_of same, at.height_at)
  | inr (inl lower) ↦ omega (arith, lower, ap v.lower_of same, at.lower_at)
  | inr (inr upper) ↦ omega (arith, upper, ap v.lower_of same, at.lower_at, lt)
]

module _ (os : System) (laws : Laws os) {fd : ℕ} (rel : Reliable os laws fd) where
  open laws use {page_at}

  -- The open file has the pages of the view.
  pub record Sees (v : View) (pf : PageFile) (st : Store os) : Type 0 where
    pub usable : Usable os laws rel pf st
    pub same_pages : page_at st.system fd ≡ v.pages
    pub same_end : pf.epid ≡ v.end_pid

  -- A read of a page.
  pub record ReadsView (v : View) (pf : PageFile) (pid : ℕ) (buffer : Buffer) (st : Store os)
      : Type 0 where
    pub page : (read os pf pid buffer st).buffer ≡ v.pages pid
    pub sees : Sees v pf (read os pf pid buffer st).store

  -- Reads on any descriptors leave the pages as they were.
  pub OnlyReads-Sees :
      (v : View) (pf : PageFile) (st st' : Store os)
      → Sees v pf st
      → Coherent os laws st'
      → OnlyReads os st.system st'.system
      → Sees v pf st'
  OnlyReads-Sees v pf st st' s c kept = record {
    usable = OnlyReads-Usable os laws rel pf st st' s.usable c kept;
    same_pages = ap (λ (f : ℕ → ℕ → Buffer). f fd) (OnlyReads-page_at os laws kept) ∙ s.same_pages;
    same_end = s.same_end;
  }

  pub read-Sees :
      (v : View) (pf : PageFile) (pid : ℕ) (buffer : Buffer) (st : Store os)
      → Sees v pf st
      → pid < v.end_pid
      → ReadsView v pf pid buffer st
  read-Sees v pf pid buffer st s h =
      let u = read-Usable os laws rel pf pid buffer st s.usable (omega (arith, h, s.same_end)) in
      record {
        page =
            u.reads_page.page
            ∙ ap (λ (d : ℕ). page_at st.system d pid) s.usable.same_fd
            ∙ ap (λ (f : ℕ → Buffer). f pid) s.same_pages;
        sees = record {
          usable = u.usable;
          same_pages = ap (λ (f : ℕ → ℕ → Buffer). f fd) u.reads_page.files_kept ∙ s.same_pages;
          same_end = s.same_end;
        };
      }

  -- What a write of a page leaves.
  record Wrote (pf : PageFile) (pid : ℕ) (buffer : Buffer) (st : Store os) (w : FileResult os)
      : Type 0 where
    usable : Usable os laws rel w.file w.store
    page : page_at w.store.system fd pid ≡ buffer
    others : (q : ℕ) → q < pf.epid → q ≢ pid → page_at w.store.system fd q ≡ page_at st.system fd q
    end_at : w.file.epid ≡ (if leb pf.epid pid then suc pid else pf.epid)

  module _ (writing : rel.Writing) where
    write-Wrote :
        (pf : PageFile) (pid : ℕ) (buffer : Buffer) (st : Store os)
        → Usable os laws rel pf st
        → pid < 2 ^ 21
        → length buffer ≡ page_size
        → Wrote pf pid buffer st (write os pf pid buffer st)
    write-Wrote pf pid buffer st u small whole =
        let w = write-Usable os laws rel pf pid buffer st writing u small whole in
        let r = write os pf pid buffer st in
        record {
          usable = w.usable;
          page = ap (λ (d : ℕ). page_at r.store.system d pid) (sym u.same_fd) ∙ w.writes_page.page;
          others = λ q h apart.
              ap (λ (d : ℕ). page_at r.store.system d q) (sym u.same_fd)
              ∙ w.writes_page.others_kept pf.fd q (u.is_open.has_pages q h) (inr apart)
              ∙ ap (λ (d : ℕ). page_at st.system d q) u.same_fd;
          end_at = w.writes_page.end_moved;
        }

    -- A write over a page of the file.
    pub record Replaced (v : View) (pid : ℕ) (buffer : Buffer) (pf : PageFile) (st : Store os)
        : Type 0 where
      pub usable : Usable os laws rel pf st
      pub same_end : pf.epid ≡ v.end_pid
      pub page : page_at st.system fd pid ≡ buffer
      pub others : (q : ℕ) → q < v.end_pid → q ≢ pid → page_at st.system fd q ≡ v.pages q

    pub write-Replaced :
        (v : View) (pf : PageFile) (pid : ℕ) (buffer : Buffer) (st : Store os)
        → Sees v pf st
        → pid < v.end_pid
        → length buffer ≡ page_size
        → let w = write os pf pid buffer st in Replaced v pid buffer w.file w.store
    write-Replaced v pf pid buffer st s h whole =
        let w =
          write-Wrote pf pid buffer st s.usable
            (omega (arith, h, s.same_end, s.usable.is_open.small)) whole in
        record {
          usable = w.usable;
          same_end = w.end_at ∙ ground (arith, h, s.same_end);
          page = w.page;
          others = λ q k apart.
              w.others q (omega (arith, k, s.same_end)) apart
              ∙ ap (λ (f : ℕ → Buffer). f q) s.same_pages;
        }

    -- A new page at the end of the file.
    pub record Appends (v : View) (buffer : Buffer) (pf : PageFile) (st : Store os) : Type 0 where
      pub usable : Usable os laws rel pf st
      pub same_end : pf.epid ≡ suc v.end_pid
      pub page : page_at st.system fd v.end_pid ≡ buffer
      pub others : (q : ℕ) → q < v.end_pid → page_at st.system fd q ≡ v.pages q

    write-Appends :
        (v : View) (pf : PageFile) (buffer : Buffer) (st : Store os)
        → Sees v pf st
        → v.end_pid < 2 ^ 21
        → length buffer ≡ page_size
        → let w = write os pf v.end_pid buffer st in Appends v buffer w.file w.store
    write-Appends v pf buffer st s room whole =
        let w = write-Wrote pf v.end_pid buffer st s.usable room whole in
        record {
          usable = w.usable;
          same_end = w.end_at ∙ ground (arith, s.same_end);
          page = w.page;
          others = λ q k.
              w.others q (omega (arith, k, s.same_end)) (λ e. omega (arith, k, e))
              ∙ ap (λ (f : ℕ → Buffer). f q) s.same_pages;
        }

    -- fetch_new_page leaves the file with a new page of bytes 255.
    pub record Fetched (v : View) (index : BTreeIndex) (f : ℕ × BTreeIndex × Store os)
        : Type 0 where
      pub new_page : f.0 ≡ v.end_pid
      pub appends : Appends v (replicate page_size 255) f.1.pf f.2
      pub same_root : f.1.root_pid ≡ index.root_pid
      pub same_height : f.1.tree_height ≡ index.tree_height
      pub cleared : f.1.buffer ≡ replicate page_size 255

    pub fetch_new_page-Fetched :
        (v : View) (index : BTreeIndex) (st : Store os)
        → Sees v index.pf st
        → v.end_pid < 2 ^ 21
        → Fetched v index (fetch_new_page os index st)
    unfolding fetch_new_page end_pid
    fetch_new_page-Fetched v index st s room = record {
      new_page = s.same_end;
      appends =
          subst
            (λ (p : ℕ).
              Appends v (replicate page_size 255)
                (write os index.pf p (replicate page_size 255) st).file
                (write os index.pf p (replicate page_size 255) st).store)
            (sym s.same_end) (write-Appends v index.pf (replicate page_size 255) st s room refl);
      same_root = refl;
      same_height = refl;
      cleared = refl;
    }

    -- A page of the file and the new page, written over.
    pub record Halved (v : View) (pid : ℕ) (node sibling : Buffer) (pf : PageFile) (st : Store os)
        : Type 0 where
      pub usable : Usable os laws rel pf st
      pub same_end : pf.epid ≡ suc v.end_pid
      pub page : page_at st.system fd pid ≡ node
      pub new_page : page_at st.system fd v.end_pid ≡ sibling
      pub others : (q : ℕ) → q < v.end_pid → q ≢ pid → page_at st.system fd q ≡ v.pages q

    pub write-Halved :
        (v : View) (pf : PageFile) (st : Store os) (pid : ℕ) (node sibling cleared : Buffer)
        → Appends v cleared pf st
        → pid < v.end_pid
        → length node ≡ page_size
        → length sibling ≡ page_size
        → let w = write os pf v.end_pid sibling st in
          let w' = write os w.file pid node w.store in Halved v pid node sibling w'.file w'.store
    write-Halved v pf st pid node sibling cleared a within whole whole' =
        let v1 : View = record v { pages = page_at st.system fd; end_pid = suc v.end_pid } in
        let w = write os pf v.end_pid sibling st in
        let r =
          write-Replaced v1 pf v.end_pid sibling st
            (record { usable = a.usable; same_pages = refl; same_end = a.same_end }) (omega arith)
            whole' in
        let v2 : View = record v1 { pages = page_at w.store.system fd } in
        let r' =
          write-Replaced v2 w.file pid node w.store
            (record { usable = r.usable; same_pages = refl; same_end = r.same_end })
            (omega (arith, within)) whole in
        record {
          usable = r'.usable;
          same_end = r'.same_end;
          page = r'.page;
          new_page = r'.others v.end_pid (omega arith) (λ e. omega (arith, e, within)) ∙ r.page;
          others = λ q h apart.
              r'.others q (omega (arith, h)) apart
              ∙ r.others q (omega (arith, h)) (λ e. omega (arith, e, h))
              ∙ a.others q h;
        }
