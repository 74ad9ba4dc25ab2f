-- ===== src/Tests/Records.antt =====
-- A page of records with one record on it, rids, and lines of a load file.
use cs143_p.Base.{ℕ, ◌+◌, ◌<◌, ◌≡◌, ◌≢◌, refl, [], ◌∷◌, ◌++◌, arith, replicate, ltb, leb, not, ◌==◌}
use cs143_p.Memory.{Buffer, int_bytes}
use cs143_p.Rc.{success}
use cs143_p.RecordId.{RecordId, rid_lt, rid_gt, rid_le, rid_ge, rid_eq, rid_ne}
use cs143_p.RecordId.Order.{IsPlace, rid_comparisons}
use cs143_p.RecordFile.{until_nul}
use cs143_p.RecordFile.Slots.{Record, HasRecord}
use cs143_p.LoadLine.{parse_load_line}
use cs143_p.LoadLine.Fields.{show_int, show_digits, parse_load_line-quoted}

-- The key 7 and the value "a".
abbrev pub seven : Record
seven = record { key = 7; value = b'a' ∷ [] }

abbrev pub one_record : Buffer
one_record = int_bytes 1 ++ (int_bytes 7 ++ (b'a' ∷ replicate 1015 0))

pub one-HasRecord : HasRecord one_record 0 seven
unfolding until_nul
one-HasRecord = record {
  behind = replicate 98 0;
  slot = refl;
  no_nul = refl;
  key_int = omega arith;
}

abbrev last_on_page : RecordId
last_on_page = record { pid = 1; sid = 8 }

abbrev next_page : RecordId
next_page = record { pid = 2; sid = 0 }

last-IsPlace : IsPlace last_on_page
last-IsPlace = record { pid_small = omega arith; sid_small = omega arith }

next-IsPlace : IsPlace next_page
next-IsPlace = record { pid_small = omega arith; sid_small = omega arith }

rid_comparisons_example :
    (rid_lt last_on_page next_page ≡ ltb 17 18)
    × (rid_gt last_on_page next_page ≡ ltb 18 17)
    × (rid_le last_on_page next_page ≡ leb 17 18)
    × (rid_ge last_on_page next_page ≡ leb 18 17)
    × (rid_eq last_on_page next_page ≡ (17 == 18))
    × (rid_ne last_on_page next_page ≡ not (17 == 18))
rid_comparisons_example = rid_comparisons last_on_page next_page last-IsPlace next-IsPlace

parse_load_line-quoted_example :
    parse_load_line (32 ∷ (show_int 5 ++ (b',' ∷ (9 ∷ (b'"' ∷ (b'a' ∷ (b'"' ∷ (10 ∷ [])))))))) 0 []
    ≡ record { rc = success; key = 5; value = b'a' ∷ [] }
unfolding show_int show_digits
parse_load_line-quoted_example =
    parse_load_line-quoted 5 b'"' (32 ∷ []) (9 ∷ []) (b'a' ∷ []) (10 ∷ []) [] 0 (omega arith) refl
      (refl, tt) (refl, tt) ((λ e. omega (arith, e)), tt)
      (
        clean 32 (omega arith),
        (
          clean (48 + 5) (omega arith),
          (
            clean 44 (omega arith),
            (
              clean 9 (omega arith),
              (
                clean 34 (omega arith),
                (clean 97 (omega arith), (clean 34 (omega arith), (clean 10 (omega arith), tt))),
              ),
            ),
          ),
        ),
      )
  where
    clean : (c : ℕ) → 0 < c → c ≢ 0
    clean c h e = omega (arith, h, e)
