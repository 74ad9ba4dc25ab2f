-- ===== src/RecordId/Order.antt =====
-- The operators of RecordId, against the place of a record in the file.
use cs143_p.Base.{ℕ, ◌+◌, ◌*◌, ◌<◌, ◌^◌, ◌≡◌, refl, arith, ltb, leb, ◌==◌, not}
use cs143_p.RecordId.{
  RecordId, records_per_page, next_rid, post_increment, rid_lt, rid_gt, rid_le, rid_ge, rid_eq,
  rid_ne,
}

-- A rid that can name a record: its fields are not negative, and there are nine slots to a page.
pub record IsPlace (r : RecordId) : Type 0 where
  pub pid_small : r.pid < 2 ^ 31
  pub sid_small : r.sid < records_per_page

-- The number of slots before the record.
abbrev pub place : RecordId → ℕ
place r = r.pid * records_per_page + r.sid

-- All six comparisons of two rids, with slot numbers below 9 and page numbers that are not
-- negative, are those of the places.
pub rid_comparisons :
    (r1 r2 : RecordId)
    → IsPlace r1
    → IsPlace r2
    → (rid_lt r1 r2 ≡ ltb (place r1) (place r2))
      × (rid_gt r1 r2 ≡ ltb (place r2) (place r1))
      × (rid_le r1 r2 ≡ leb (place r1) (place r2))
      × (rid_ge r1 r2 ≡ leb (place r2) (place r1))
      × (rid_eq r1 r2 ≡ (place r1 == place r2))
      × (rid_ne r1 r2 ≡ not (place r1 == place r2))
unfolding rid_lt rid_gt rid_le rid_ge rid_eq rid_ne
rid_comparisons r1 r2 p q =
    (ground arith, ground arith, ground arith, ground arith, ground arith, ground arith)

-- ++ moves a rid with a slot number below 9 to the next place, also across the end of a page, up
-- to the last page number; the postfix form returns the old rid.
pub next_rid-place :
    (r : RecordId)
    → IsPlace r
    → r.pid + 1 < 2 ^ 31
    → (place (next_rid r) ≡ place r + 1)
      × IsPlace (next_rid r)
      × (post_increment r ≡ (r, next_rid r))
unfolding next_rid post_increment
next_rid-place r p h = (ground arith, ground arith, refl)
