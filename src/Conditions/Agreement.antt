-- ===== src/Conditions/Agreement.antt =====
-- The path with the index and the path without it take the same tuples.
use cs143_p.Base.{ℕ, List, [], ◌∷◌, ◌&&◌, ◌==◌, ◌≡◌, sym, ◌∙◌, arith, All, Bool-cases, inl, inr}
use cs143_p.CString.{Sign, atoi, atoi-lt}
use cs143_p.Memory.{IsInt}
use cs143_p.Conditions.{
  Comparator, eq, ne, lt, gt, le, ge, SelCond, same_comp, merge_by, add_cond, preprocess,
  tuple_step, scan_passes,
}
use cs143_p.Conditions.Meaning.{is_accept, tuple_step-all_hold}
use cs143_p.Conditions.Merge.{IsRange, preprocess-all_meet}
use cs143_p.Conditions.Tuple.{IsScannable, scan_passes-all_meet}

abbrev HasInt : SelCond → Type 0
HasInt c = IsInt c.int_value

merge_by-HasInt :
    (comp : Comparator) (it cond : SelCond)
    → HasInt it
    → HasInt (merge_by comp it cond (atoi cond.value))
unfolding merge_by
merge_by-HasInt eq it cond h = atoi-lt cond.value
merge_by-HasInt ne it cond h = atoi-lt cond.value
merge_by-HasInt lt it cond h = ground (arith, atoi-lt cond.value)
merge_by-HasInt gt it cond h = ground (arith, atoi-lt cond.value)
merge_by-HasInt le it cond h = ground (arith, atoi-lt cond.value)
merge_by-HasInt ge it cond h = ground (arith, atoi-lt cond.value)

add_cond-HasInt :
    (conds : List SelCond) (cond : SelCond)
    → HasInt cond
    → All HasInt conds
    → All HasInt (add_cond conds cond)
unfolding add_cond
add_cond-HasInt [] cond h v = elim (Bool-cases (cond.attr == 1)) [
  | inl on_key ↦ rw on_key (atoi-lt cond.value, tt)
  | inr on_value ↦ rw on_value (h, tt)
]
add_cond-HasInt (it ∷ conds) cond h v =
    elim (Bool-cases (cond.attr == 1 && same_comp it.comp cond.comp)) [
      | inl merged ↦ rw merged (merge_by-HasInt cond.comp it cond v.0, v.1)
      | inr pushed ↦ rw pushed (v.0, add_cond-HasInt conds cond h v.1)
    ]

-- The merged conditions have `int`s, if the uninitialised fields of the given ones have.
pub preprocess-HasInt :
    (new conds : List SelCond)
    → All HasInt new
    → All HasInt conds
    → All HasInt (preprocess new conds)
unfolding preprocess
preprocess-HasInt new [] v w = v
preprocess-HasInt new (c ∷ conds) v w =
    preprocess-HasInt (add_cond new c) conds (add_cond-HasInt new c w.0 v) w.1

-- For conditions that compare the key by <, <=, > or >=, if no difference of the key and a number
-- of theirs overflows, print_tuples takes a tuple behind the merged conditions exactly when the
-- scan of select takes it.
pub index_agrees_with_scan :
    (conds : List SelCond) (d : Sign) (key : ℕ) (value : List ℕ)
    → IsInt key
    → All IsRange conds
    → All (IsScannable key) conds
    → All (λ c. IsInt c.int_value) conds
    → is_accept (tuple_step (preprocess [] conds) key value) ≡ scan_passes conds d key value
index_agrees_with_scan conds d key value h ranges scannable ints =
    tuple_step-all_hold (preprocess [] conds) key value h (preprocess-HasInt [] conds tt ints)
    ∙ preprocess-all_meet conds key value ranges
    ∙ sym (scan_passes-all_meet conds d key value h scannable)
