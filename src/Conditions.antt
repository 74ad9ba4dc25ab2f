-- ===== src/Conditions.antt =====
-- The WHERE conditions of bruinbase/SqlEngine.h and bruinbase/SqlEngine.cc: how select_from_index
-- merges them and finds the key to start from, and how a tuple is tested, with and without an index.
pub mod Meaning
pub mod Merge
pub mod Overwritten
pub mod Start
pub mod Tuple
pub mod Agreement
use cs143_p.Base.{
  ℕ, ◌+◌, ◌-◌, ◌%◌, ◌^◌, List, [], ◌∷◌, ◌++◌, Bool, true, false, ◌==◌, ◌&&◌, not, if◌then◌else◌,
}
use cs143_p.CString.{Sign, negative, null, positive, atoi, strcmp}
use cs143_p.Memory.{slt, sle}

pub data Comparator : Type 0 where
  eq ne lt gt le ge : Comparator

-- `int_value` is set by _preprocess_selcond for a condition on the key, and by nothing else.
pub record SelCond : Type 0 where
  pub attr : ℕ
  pub comp : Comparator
  pub value : List ℕ
  pub int_value : ℕ

abbrev pub same_comp : Comparator → Comparator → Bool
same_comp eq eq = true
same_comp ne ne = true
same_comp lt lt = true
same_comp gt gt = true
same_comp le le = true
same_comp ge ge = true
same_comp _ _ = false

abbrev pub replace : SelCond → SelCond → ℕ → SelCond
replace it cond v = record it { value = cond.value; int_value = v }

-- The `switch` of _preprocess_selcond: `it` takes over the new value, or keeps its own.
unfoldable pub merge_by : Comparator → SelCond → SelCond → ℕ → SelCond
merge_by lt it cond v = if slt v it.int_value then replace it cond v else it
merge_by le it cond v = if slt v it.int_value then replace it cond v else it
merge_by gt it cond v = if slt it.int_value v then replace it cond v else it
merge_by ge it cond v = if slt it.int_value v then replace it cond v else it
merge_by eq it cond v = replace it cond v
merge_by ne it cond v = replace it cond v

-- _preprocess_selcond: a condition on the key is merged into the first condition with its
-- comparator, whatever attribute that one is on; any other is put at the end.
unfoldable pub add_cond : List SelCond → SelCond → List SelCond
add_cond [] cond =
    (if cond.attr == 1 then record cond { int_value = atoi cond.value } else cond) ∷ []
add_cond (it ∷ conds) cond =
    if cond.attr == 1 && same_comp it.comp cond.comp
    then merge_by cond.comp it cond (atoi cond.value) ∷ conds
    else it ∷ add_cond conds cond

-- preprocess_selcond.
unfoldable pub preprocess : List SelCond → List SelCond → List SelCond
preprocess new_cond [] = new_cond
preprocess new_cond (c ∷ conds) = preprocess (add_cond new_cond c) conds

-- One loop of find_key: the value of the last condition on the key with the comparator.
unfoldable pub last_value : Comparator → (ℕ → ℕ) → List SelCond → ℕ → ℕ
last_value comp f [] key = key
last_value comp f (c ∷ conds) key =
    last_value comp f conds (if c.attr == 1 && same_comp c.comp comp then f c.int_value else key)

-- find_key: the new value of `key`.
unfoldable pub find_key : List SelCond → ℕ → ℕ
find_key conds key =
    last_value eq (λ v. v) conds
      (last_value gt (λ v. (v + 1) % 2 ^ 32) conds (last_value ge (λ v. v) conds key))

-- What print_tuples does with a tuple: it goes on to the next condition, to the next tuple
-- (`goto nextIter`), or leaves the loop (`goto out`).
pub data Step : Type 0 where
  accept skip stop : Step

abbrev pub stop_if : Bool → Step
stop_if true = stop
stop_if false = accept

unfoldable pub key_step : Comparator → ℕ → ℕ → Step
key_step lt key v = stop_if (sle v key)
key_step le key v = stop_if (slt v key)
key_step gt key v = stop_if (sle key v)
key_step ge key v = stop_if (slt key v)
key_step eq key v = stop_if (not (key == v))
key_step ne key v = if key == v then skip else accept

abbrev pub skip_unless : Bool → Step
skip_unless true = accept
skip_unless false = skip

abbrev pub sign_lt : Sign → Bool
sign_lt negative = true
sign_lt _ = false

abbrev pub sign_gt : Sign → Bool
sign_gt positive = true
sign_gt _ = false

abbrev pub sign_eq : Sign → Bool
sign_eq null = true
sign_eq _ = false

unfoldable pub value_step : Comparator → Sign → Step
value_step lt diff = skip_unless (sign_lt diff)
value_step le diff = skip_unless (not (sign_gt diff))
value_step gt diff = skip_unless (sign_gt diff)
value_step ge diff = skip_unless (not (sign_lt diff))
value_step eq diff = skip_unless (sign_eq diff)
value_step ne diff = skip_unless (not (sign_eq diff))

unfoldable pub cond_step : SelCond → ℕ → List ℕ → Step
cond_step c key value =
    if c.attr == 1
    then key_step c.comp key c.int_value
    else value_step c.comp (strcmp value c.value)

-- The `for` loop of print_tuples over the conditions.
unfoldable pub tuple_step : List SelCond → ℕ → List ℕ → Step
tuple_step [] key value = accept
tuple_step (c ∷ conds) key value =
    let rest = tuple_step conds key value in
    elim (cond_step c key value) [ accept ↦ rest | skip ↦ skip | stop ↦ stop ]

-- The sign of `key - atoi(value)`, an `int` difference.
unfoldable pub key_diff : ℕ → ℕ → Sign
key_diff key v =
    let d = (key + 2 ^ 32 - v) % 2 ^ 32 in
    if d == 0 then null else if slt d 0 then negative else positive

unfoldable pub sign_passes : Comparator → Sign → Bool
sign_passes eq diff = sign_eq diff
sign_passes ne diff = not (sign_eq diff)
sign_passes gt diff = sign_gt diff
sign_passes lt diff = sign_lt diff
sign_passes ge diff = not (sign_lt diff)
sign_passes le diff = not (sign_gt diff)

-- The test of select without an index; a condition on neither column keeps the old difference.
unfoldable pub scan_passes : List SelCond → Sign → ℕ → List ℕ → Bool
scan_passes [] diff key value = true
scan_passes (c ∷ conds) diff key value =
    let d =
      if c.attr == 1
      then key_diff key (atoi c.value)
      else if c.attr == 2
      then strcmp value c.value
      else diff in
    sign_passes c.comp d && scan_passes conds d key value
