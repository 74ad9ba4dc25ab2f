-- ===== src/RecordId.antt =====
-- RecordId and its operators, of bruinbase/RecordFile.h and bruinbase/RecordFile.cc. The fields
-- are the 32-bit patterns of two `int`s.
pub mod Order
use cs143_p.Base.{
  ℕ, ◌+◌, ◌%◌, ◌^◌, Bool, true, false, Option, some, List, ◌++◌, ◌==◌, if◌then◌else◌, ◌&&◌, ◌||◌,
  not, ◌>>=◌,
}
use cs143_p.Memory.{Buffer, IsInt, slt, sle, int_bytes, load_int}

pub record RecordId : Type 0 where
  pub pid : ℕ
  pub sid : ℕ

-- RecordFile::RECORDS_PER_PAGE = (1024 - 4) / (4 + 100).
abbrev pub records_per_page : ℕ
records_per_page = 9

-- ++rid.
unfoldable pub next_rid : RecordId → RecordId
next_rid r =
    let sid' = (r.sid + 1) % 2 ^ 32 in
    if sle records_per_page sid'
    then record { pid = (r.pid + 1) % 2 ^ 32; sid = 0 }
    else record r { sid = sid' }

-- rid++: the old value, and the new state of the variable.
unfoldable pub post_increment : RecordId → RecordId × RecordId
unfolding next_rid
post_increment r = (r, next_rid r)

unfoldable pub rid_lt : RecordId → RecordId → Bool
rid_lt r1 r2 =
    if slt r1.pid r2.pid then true else if slt r2.pid r1.pid then false else slt r1.sid r2.sid

unfoldable pub rid_gt : RecordId → RecordId → Bool
rid_gt r1 r2 =
    if slt r2.pid r1.pid then true else if slt r1.pid r2.pid then false else slt r2.sid r1.sid

unfoldable pub rid_le : RecordId → RecordId → Bool
rid_le r1 r2 =
    if slt r1.pid r2.pid then true else if slt r2.pid r1.pid then false else sle r1.sid r2.sid

unfoldable pub rid_ge : RecordId → RecordId → Bool
rid_ge r1 r2 =
    if slt r2.pid r1.pid then true else if slt r1.pid r2.pid then false else sle r2.sid r1.sid

unfoldable pub rid_eq : RecordId → RecordId → Bool
rid_eq r1 r2 = r1.pid == r2.pid && r1.sid == r2.sid

unfoldable pub rid_ne : RecordId → RecordId → Bool
rid_ne r1 r2 = not (r1.pid == r2.pid) || not (r1.sid == r2.sid)

-- The eight bytes of the struct.
abbrev pub rid_bytes : RecordId → List ℕ
rid_bytes r = int_bytes r.pid ++ int_bytes r.sid

-- memcpy(&rid, buf + off, sizeof(RecordId)).
unfoldable pub load_rid : Buffer → ℕ → Option RecordId
unfolding load_int
load_rid buf off = do
  p ← load_int buf off
  s ← load_int buf (off + 4)
  some (record { pid = p; sid = s })

abbrev pub IsRid : RecordId → Type 0
IsRid r = IsInt r.pid × IsInt r.sid
