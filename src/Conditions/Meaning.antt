-- ===== src/Conditions/Meaning.antt =====
-- What a condition asks of a tuple, in the order of the `int`s and of the strings.
use cs143_p.Base.{
  ℕ, List, [], ◌∷◌, Bool, true, false, ◌&&◌, not, ltb, leb, ◌==◌, ◌≡◌, refl, arith, if◌then◌else◌,
  All, Bool-cases, inl, inr,
}
use cs143_p.CString.{Sign, strcmp, atoi}
use cs143_p.Memory.{IsInt}
use cs143_p.Ordered.{rank}
use cs143_p.Conditions.{
  Comparator, eq, ne, lt, gt, le, ge, SelCond, Step, accept, sign_eq, sign_lt, sign_gt, tuple_step,
  cond_step, key_step, value_step,
}

-- `key` stands in the relation to `v`.
unfoldable pub key_holds : Comparator → ℕ → ℕ → Bool
key_holds lt key v = ltb (rank key) (rank v)
key_holds le key v = leb (rank key) (rank v)
key_holds gt key v = ltb (rank v) (rank key)
key_holds ge key v = leb (rank v) (rank key)
key_holds eq key v = rank key == rank v
key_holds ne key v = not (rank key == rank v)

-- So does a value, given how it compares with the text of the condition.
unfoldable pub value_holds : Comparator → Sign → Bool
value_holds lt diff = sign_lt diff
value_holds le diff = not (sign_gt diff)
value_holds gt diff = sign_gt diff
value_holds ge diff = not (sign_lt diff)
value_holds eq diff = sign_eq diff
value_holds ne diff = not (sign_eq diff)

unfoldable pub cond_holds : SelCond → ℕ → List ℕ → Bool
cond_holds c key value =
    if c.attr == 1
    then key_holds c.comp key c.int_value
    else value_holds c.comp (strcmp value c.value)

unfoldable pub all_hold : List SelCond → ℕ → List ℕ → Bool
all_hold [] key value = true
all_hold (c ∷ conds) key value = cond_holds c key value && all_hold conds key value

-- The condition as the statement wrote it, its text read as a number if it is on the key.
unfoldable pub cond_meets : SelCond → ℕ → List ℕ → Bool
cond_meets c key value =
    if c.attr == 1
    then key_holds c.comp key (atoi c.value)
    else value_holds c.comp (strcmp value c.value)

unfoldable pub all_meet : List SelCond → ℕ → List ℕ → Bool
all_meet [] key value = true
all_meet (c ∷ conds) key value = cond_meets c key value && all_meet conds key value

abbrev pub is_accept : Step → Bool
is_accept accept = true
is_accept _ = false

key_step-holds :
    (comp : Comparator) (key v : ℕ)
    → IsInt key
    → IsInt v
    → is_accept (key_step comp key v) ≡ key_holds comp key v
unfolding key_step key_holds
key_step-holds eq key v h k = ground arith
key_step-holds ne key v h k = ground arith
key_step-holds lt key v h k = ground arith
key_step-holds gt key v h k = ground arith
key_step-holds le key v h k = ground arith
key_step-holds ge key v h k = ground arith

value_step-holds :
    (comp : Comparator) (d : Sign) → is_accept (value_step comp d) ≡ value_holds comp d
unfolding value_step value_holds
value_step-holds eq d = ground arith
value_step-holds ne d = ground arith
value_step-holds lt d = ground arith
value_step-holds gt d = ground arith
value_step-holds le d = ground arith
value_step-holds ge d = ground arith

pub cond_step-holds :
    (c : SelCond) (key : ℕ) (value : List ℕ)
    → IsInt key
    → IsInt c.int_value
    → is_accept (cond_step c key value) ≡ cond_holds c key value
unfolding cond_step cond_holds
cond_step-holds c key value h k = elim (Bool-cases (c.attr == 1)) [
  | inl on_key ↦ rw on_key (key_step-holds c.comp key c.int_value h k)
  | inr on_value ↦ rw on_value (value_step-holds c.comp (strcmp value c.value))
]

-- print_tuples takes a tuple exactly when all its conditions hold, for a key and numbers that are
-- `int`s.
pub tuple_step-all_hold :
    (conds : List SelCond) (key : ℕ) (value : List ℕ)
    → IsInt key
    → All (λ c. IsInt c.int_value) conds
    → is_accept (tuple_step conds key value) ≡ all_hold conds key value
unfolding tuple_step all_hold
tuple_step-all_hold [] key value h v = refl
tuple_step-all_hold (c ∷ conds) key value h v =
    ground (arith, cond_step-holds c key value h v.0, tuple_step-all_hold conds key value h v.1)
