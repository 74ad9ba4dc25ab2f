-- ===== src/Conditions/Tuple.antt =====
-- The two tests of a tuple, with and without the index, are the same test.
use cs143_p.Base.{ℕ, ◌+◌, ◌≤◌, ◌<◌, ◌^◌, List, [], ◌∷◌, ◌≡◌, ◌⊎◌, inl, inr, refl, arith, All}
use cs143_p.CString.{Sign, strcmp, atoi, atoi-lt}
use cs143_p.Memory.{IsInt}
use cs143_p.Ordered.{rank}
use cs143_p.Conditions.{
  Comparator, eq, ne, lt, gt, le, ge, SelCond, key_diff, sign_passes, scan_passes,
}
use cs143_p.Conditions.Meaning.{key_holds, value_holds, cond_meets, all_meet}

-- The difference of the two `int`s is an `int`.
abbrev pub FitsInt : ℕ → ℕ → Type 0
FitsInt key v = (rank key < rank v + 2 ^ 31) × (rank v ≤ rank key + 2 ^ 31)

key_diff-holds :
    (comp : Comparator) (key v : ℕ)
    → IsInt key
    → IsInt v
    → FitsInt key v
    → sign_passes comp (key_diff key v) ≡ key_holds comp key v
unfolding sign_passes key_diff key_holds
key_diff-holds eq key v h k f = ground arith
key_diff-holds ne key v h k f = ground arith
key_diff-holds lt key v h k f = ground arith
key_diff-holds gt key v h k f = ground arith
key_diff-holds le key v h k f = ground arith
key_diff-holds ge key v h k f = ground arith

sign_passes-value_holds : (comp : Comparator) (d : Sign) → sign_passes comp d ≡ value_holds comp d
unfolding sign_passes value_holds
sign_passes-value_holds eq d = refl
sign_passes-value_holds _ d = refl

-- A condition of a statement: on the key, with a difference that fits, or on the value.
pub record IsScannable (key : ℕ) (c : SelCond) : Type 0 where
  pub column : (c.attr ≡ 1) ⊎ (c.attr ≡ 2)
  pub fits : c.attr ≡ 1 → FitsInt key (atoi c.value)

-- Without the index, a tuple passes exactly when it meets all the conditions of the statement, if
-- each is on one of the two columns, and no difference of its key and a number overflows.
pub scan_passes-all_meet :
    (conds : List SelCond) (d : Sign) (key : ℕ) (value : List ℕ)
    → IsInt key
    → All (IsScannable key) conds
    → scan_passes conds d key value ≡ all_meet conds key value
unfolding scan_passes all_meet cond_meets
scan_passes-all_meet [] d key value h v = refl
scan_passes-all_meet (c ∷ conds) d key value h v = elim (v.0.column) [
  | inl on_key ↦ ground (
    arith,
    key_diff-holds c.comp key (atoi c.value) h (atoi-lt c.value) (v.0.fits on_key),
    scan_passes-all_meet conds (key_diff key (atoi c.value)) key value h v.1,
  )
  | inr on_value ↦ ground (
    arith,
    sign_passes-value_holds c.comp (strcmp value c.value),
    scan_passes-all_meet conds (strcmp value c.value) key value h v.1,
  )
]
