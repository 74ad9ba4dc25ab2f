-- ===== src/RecordFile/Appending.antt =====
-- append by its parts, and a page of records by its slots.
use cs143_p.Base.{
  ℕ, zero, suc, ◌+◌, ◌≡◌, refl, subst, List, [], ◌∷◌, some, true, false, ◌>>=◌, arith, get_elem?,
  replicate,
}
use cs143_p.Memory.{Buffer, page_size, slt}
use cs143_p.Rc.{success}
use cs143_p.RecordId.{RecordId, next_rid}
use cs143_p.PageFile.{Store, read, write}
use cs143_p.PageFile.Os.{System}
use cs143_p.RecordFile.{RecordFile, append, append_here, append_written, append_to_page}
use cs143_p.RecordFile.Slots.{Record, HasRecord, HasRecords}

pub HasRecords-at :
    (page : Buffer) (n i : ℕ) (rs : List Record) {r : Record}
    → HasRecords page n rs
    → get_elem? rs i ≡ some r
    → HasRecord page (n + i) r
HasRecords-at page n i [] v h = cc
HasRecords-at page n zero (x ∷ rs) {r} v h =
    let same : x ≡ r = ground arith in
    let here : n ≡ n + 0 = omega arith in
    subst (λ (k : ℕ). HasRecord page k r) here (rw (← same) v.0)
HasRecords-at page n (suc i) (x ∷ rs) {r} v h =
    let next : suc n + i ≡ n + suc i = omega arith in
    subst (λ (k : ℕ). HasRecord page k r) next (HasRecords-at page (suc n) i rs {r = r} v.1 h)

pub HasRecords-of :
    (page : Buffer) (n : ℕ) (rs : List Record)
    → ((i : ℕ) (r : Record) → get_elem? rs i ≡ some r → HasRecord page (n + i) r)
    → HasRecords page n rs
HasRecords-of page n [] each = tt
HasRecords-of page n (x ∷ rs) each = (
  subst (λ (k : ℕ). HasRecord page k x) {x = n + 0} {y = n} (omega arith) (each 0 x refl),
  HasRecords-of page (suc n) rs (λ i r h.
      subst (λ (k : ℕ). HasRecord page k r) {x = n + suc i} {y = suc n + i} (omega arith)
        (each (suc i) r h)),
)

-- append, given what its parts return.
module _ (os : System) (rf : RecordFile) (key : ℕ) (value : List ℕ) (rid : RecordId) (page : Buffer)
    (st : Store os) (e : RecordId) (at_end : rf.erid ≡ e) where
  pub append_here-parts :
      {b : Buffer}
      → append_to_page page e.sid key value ≡ some b
      → (write os rf.pf e.pid b st).rc ≡ success
      → append_here os rf key value rid page st
        ≡ some (record {
          rc = success;
          file = record { pf = (write os rf.pf e.pid b st).file; erid = next_rid e };
          rid = e;
          store = (write os rf.pf e.pid b st).store;
        })
  unfolding append_here append_written
  append_here-parts added wrote = rw (at_end, added, ◌>>=◌, wrote) refl

  pub append-fresh :
      slt 0 e.sid ≡ false
      → append os rf key value rid page st
        ≡ append_here os rf key value rid (replicate page_size 0) st
  unfolding append
  append-fresh first = rw (at_end, first) refl

  pub append-more :
      slt 0 e.sid ≡ true
      → (read os rf.pf e.pid page st).rc ≡ success
      → append os rf key value rid page st
        ≡ append_here os rf key value rid
            (read os rf.pf e.pid page st).buffer
            (read os rf.pf e.pid page st).store
  unfolding append
  append-more more got = rw (at_end, more, got) refl
