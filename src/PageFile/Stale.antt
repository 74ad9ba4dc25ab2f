-- ===== src/PageFile/Stale.antt =====
-- What happens when a system call fails.
use cs143_p.Base.{
  ℕ, zero, suc, ◌+◌, ◌*◌, ◌%◌, ◌<◌, ◌^◌, ◌≡◌, ◌≢◌, refl, ap, ◌∙◌, List, [], ◌∷◌, length, arith,
  some, none, true, false, ◌||◌, get_elem?, set,
}
use cs143_p.Memory.{Buffer, page_size, slt, sle}
use cs143_p.Rc.{success, one, file_read_failed}
use cs143_p.PageFile.{
  Slot, PageFile, Store, find_slot, victim, seek, read, read_cached, read_through, write,
}
use cs143_p.PageFile.Os.{System, sought}
use cs143_p.PageFile.Cache.{find_slot-none, find_slot-set, victim-IsVictim}
use cs143_p.PageFile.Reads.{read-miss, read-hit}

module _ (os : System) where
  open os use {State, seek_to, read_bytes}

  -- When the seek fails, write at a pid that is not negative returns 1, which is not a negative
  -- code, and writes nothing.
  pub write_seek_failed :
      (pf : PageFile) (pid : ℕ) (buffer : Buffer) (st : Store os)
      → slt pid 0 ≡ false
      → (seek_to pf.fd (pid * page_size % 2 ^ 32) st.system).0 ≡ false
      → write os pf pid buffer st ≡ record {
        rc = one;
        file = pf;
        store = record st { system = (seek_to pf.fd (pid * page_size % 2 ^ 32) st.system).1 };
      }
  unfolding write seek
  write_seek_failed pf pid buffer st valid failed = rw (valid, failed)

  module _ (pf : PageFile) (pid : ℕ) (buffer other : Buffer) (st : Store os)
      (some_slots : 0 < length st.cache) (small : pid < 2 ^ 21)
      (valid : (slt pid 0 || sle pf.epid pid) ≡ false)
      (missing : find_slot pf.fd pid 0 st.cache ≡ none)
      (moved : (seek_to pf.fd (pid * page_size) st.system).0 ≡ true)
      (failed : (read_bytes pf.fd page_size (sought os pf.fd pid st.system)).0 ≡ none)
      (ticks : (st.clock + 1) % 2 ^ 32 ≢ 0) where
    k : ℕ
    k = (victim st.cache).0

    old : Slot
    old = (victim st.cache).1

    claimed : Slot
    claimed = record old { fd = pf.fd; pid = pid; last_accessed = (st.clock + 1) % 2 ^ 32 }

    poisoned : Store os
    poisoned = record st {
      system = (read_bytes pf.fd page_size (sought os pf.fd pid st.system)).1;
      clock = (st.clock + 1) % 2 ^ 32;
      cache = set st.cache k claimed;
    }

    first_read :
        read os pf pid buffer st
        ≡ record { rc = file_read_failed; buffer = buffer; store = poisoned }
    unfolding read_through poisoned k old claimed
    first_read = rw (read-miss os pf pid buffer st valid missing small moved, read_through, failed)

    index_in_cache :
        (cache : List Slot) (i : ℕ) {s : Slot} → get_elem? cache i ≡ some s → i < length cache
    index_in_cache [] i h = absurd (cc)
    index_in_cache (x ∷ cache) zero h = omega arith
    index_in_cache (x ∷ cache) (suc i) {s} h = omega (arith, index_in_cache cache i {s = s} h)

    found_again : find_slot pf.fd pid 0 poisoned.cache ≡ some (k, claimed)
    unfolding poisoned k old claimed
    found_again =
        find_slot-set pf.fd pid 0 k st.cache claimed (find_slot-none pf.fd pid 0 st.cache missing)
          (index_in_cache st.cache k {s = old} (victim-IsVictim st.cache some_slots).in_cache)
          (ground arith)
        ∙ ap (λ (i : ℕ). some (i, claimed)) (omega arith)

    second_read : read os pf pid other poisoned ≡ read_cached os poisoned k claimed
    second_read = read-hit os pf pid other poisoned k claimed valid found_again

    stale_lem :
        ((read os pf pid buffer st).rc ≡ file_read_failed)
        × ((read os pf pid other (read os pf pid buffer st).store).rc ≡ success)
        × ((read os pf pid other (read os pf pid buffer st).store).buffer
            ≡ (victim st.cache).1.buffer)
    unfolding read_cached poisoned claimed old
    stale_lem = rw (first_read, second_read) (refl, refl, refl)

  -- If a page of the file is not in the cache, and the seek succeeds but the system call of the
  -- read fails, then read returns an error, but the next read of the page reports success, and
  -- returns what the slot held that was chosen for eviction.
  pub read_failed_then_stale :
      (pf : PageFile) (pid : ℕ) (buffer other : Buffer) (st : Store os)
      → 0 < length st.cache
      → pid < 2 ^ 21
      → (slt pid 0 || sle pf.epid pid) ≡ false
      → find_slot pf.fd pid 0 st.cache ≡ none
      → (seek_to pf.fd (pid * page_size) st.system).0 ≡ true
      → (read_bytes pf.fd page_size (sought os pf.fd pid st.system)).0 ≡ none
      → (st.clock + 1) % 2 ^ 32 ≢ 0
      → ((read os pf pid buffer st).rc ≡ file_read_failed)
        × ((read os pf pid other (read os pf pid buffer st).store).rc ≡ success)
        × ((read os pf pid other (read os pf pid buffer st).store).buffer
            ≡ (victim st.cache).1.buffer)
  read_failed_then_stale pf pid buffer other st some_slots small valid missing moved failed ticks =
      stale_lem pf pid buffer other st some_slots small valid missing moved failed ticks
