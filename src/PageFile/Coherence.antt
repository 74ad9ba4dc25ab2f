-- ===== src/PageFile/Coherence.antt =====
-- The invariant of the page cache: what it holds is what the files hold.
use cs143_p.Base.{ℕ, ◌≤◌, ◌<◌, ◌^◌, ◌≡◌, ◌≢◌, refl, ap, length, All, arith}
use cs143_p.Memory.{page_size}
use cs143_p.PageFile.{Slot, PageFile, Store, cache_count, clear, empty_slot, empty_cache}
use cs143_p.PageFile.Os.{System, Laws}
use cs143_p.PageFile.Cache.{count_holding}

module _ (os : System) (laws : Laws os) where
  open os use {State}
  open laws use {page_at, IsPage}

  -- A slot that is in use holds a page of a file, with its content.
  pub record IsSlot (system : State) (s : Slot) : Type 0 where
    pub whole : length s.buffer ≡ page_size
    pub in_file : s.last_accessed ≢ 0 → IsPage system s.fd s.pid
    pub fresh : s.last_accessed ≢ 0 → s.buffer ≡ page_at system s.fd s.pid

  -- There are ten slots, no page is in two of them, and each is fresh.
  pub record Coherent (st : Store os) : Type 0 where
    pub slots : All (IsSlot st.system) st.cache
    pub once : (fd pid : ℕ) → count_holding fd pid st.cache ≤ 1
    pub size : length st.cache ≡ cache_count

  -- The file has the pages that the object counts, and their offsets are `int`s.
  pub record IsOpen (pf : PageFile) (st : Store os) : Type 0 where
    pub has_pages : (pid : ℕ) → pid < pf.epid → IsPage st.system pf.fd pid
    pub small : pf.epid ≤ 2 ^ 21

  pub clear-IsSlot : (system : State) (s : Slot) → IsSlot system s → IsSlot system (clear s)
  clear-IsSlot system s h = record {
    whole = h.whole;
    in_file = λ n. absurd (n refl);
    fresh = λ n. absurd (n refl);
  }

  none_held : (fd pid : ℕ) → count_holding fd pid empty_cache ≤ 1
  unfolding count_holding
  none_held fd pid = ground arith

  -- Every store with the empty cache that the program starts with is coherent.
  pub empty_cache-Coherent : (st : Store os) → st.cache ≡ empty_cache → Coherent st
  empty_cache-Coherent st h = record {
    slots = rw h (
      empty,
      (empty, (empty, (empty, (empty, (empty, (empty, (empty, (empty, (empty, tt))))))))),
    );
    once = λ fd pid. rw h (none_held fd pid);
    size = ap length h;
  }
    where
      empty : IsSlot st.system empty_slot
      empty = record { whole = refl; in_file = λ n. absurd (n refl); fresh = λ n. absurd (n refl) }
