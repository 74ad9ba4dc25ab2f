-- ===== src/PageFile/Closed.antt =====
-- close: the slots of the file leave the cache.
use cs143_p.Base.{
  ℕ, ◌+◌, ◌≡◌, ◌≢◌, refl, List, [], ◌∷◌, none, true, false, ◌==◌, ◌&&◌, not, if◌then◌else◌, arith,
  Bool-cases, inl, inr,
}
use cs143_p.Memory.{slt, sle, minus_one}
use cs143_p.Rc.{success}
use cs143_p.PageFile.{PageFile, Slot, Store, holds, clear, find_slot, evict_file, close_page_file}
use cs143_p.PageFile.Os.{System}

-- What the loop of close does to a slot.
abbrev evicted : ℕ → Slot → Slot
evicted fd s = if s.fd == fd && not (s.last_accessed == 0) then clear s else s

evicted-closed : (fd pid : ℕ) (s : Slot) → holds fd pid (evicted fd s) ≡ false
evicted-closed fd pid s = ground arith

evicted-other : (fd d pid : ℕ) (s : Slot) → d ≢ fd → holds d pid (evicted fd s) ≡ holds d pid s
evicted-other fd d pid s apart = ground (arith, apart)

find_slot-closed :
    (fd pid i : ℕ) (cache : List Slot) → find_slot fd pid i (evict_file fd cache) ≡ none
unfolding find_slot evict_file
find_slot-closed fd pid i [] = refl
find_slot-closed fd pid i (s ∷ cache) =
    rw (evicted-closed fd pid s) (find_slot-closed fd pid (i + 1) cache)

evicted-id : (fd d pid : ℕ) (s : Slot) → holds d pid s ≡ true → d ≢ fd → evicted fd s ≡ s
evicted-id fd d pid s h apart = ground (arith, h, apart)

find_slot-other :
    (fd d pid i : ℕ) (cache : List Slot)
    → d ≢ fd
    → find_slot d pid i (evict_file fd cache) ≡ find_slot d pid i cache
unfolding find_slot evict_file
find_slot-other fd d pid i [] apart = refl
find_slot-other fd d pid i (s ∷ cache) apart = elim (Bool-cases (holds d pid s)) [
  | inl hit ↦ rw (evicted-id fd d pid s hit apart, hit) refl
  | inr miss ↦
      rw (evicted-other fd d pid s apart, miss) (find_slot-other fd d pid (i + 1) cache apart)
]

module _ (os : System) where
  -- After a close of an open file that does not fail, the cache holds no page of the file under its
  -- descriptor, which the next open may return for another file; it holds the same pages of the
  -- other files as before, and the object has no descriptor and no pages.
  pub close_page_file_lem :
      (pf : PageFile) (st : Store os)
      → slt 0 pf.fd ≡ true
      → (os.close_file pf.fd st.system).0 ≡ true
      → let r = close_page_file os pf st in
        (r.rc ≡ success)
        × (r.file ≡ record { fd = minus_one; epid = 0 })
        × ((pid : ℕ) → find_slot pf.fd pid 0 r.store.cache ≡ none)
        × ((d pid : ℕ) → d ≢ pf.fd → find_slot d pid 0 r.store.cache ≡ find_slot d pid 0 st.cache)
  unfolding close_page_file
  close_page_file_lem pf st has_fd closed =
      let valid : sle pf.fd 0 ≡ false = ground (arith, has_fd) in
      rw (valid, closed)
        (
          refl,
          refl,
          λ pid. find_slot-closed pf.fd pid 0 st.cache,
          λ d pid apart. find_slot-other pf.fd d pid 0 st.cache apart,
        )
