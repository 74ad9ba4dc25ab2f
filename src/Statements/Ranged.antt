-- ===== src/Statements/Ranged.antt =====
-- What the loop of print_tuples takes for conditions that bound the key.
use cs143_p.Base.{
  ℕ, ◌≤◌, ◌≡◌, ◌≢◌, inl, inr, refl, sym, subst, ap, ◌∙◌, List, [], ◌∷◌, ◌++◌, append-nil, Bool,
  true, false, ◌&&◌, ◌||◌, not, if◌then◌else◌, arith, All, Bool-cases,
}
use cs143_p.CString.{atoi}
use cs143_p.Memory.{IsInt}
use cs143_p.Ordered.{rank, IsSorted}
use cs143_p.Conditions.{
  Comparator, eq, ne, lt, gt, le, ge, SelCond, accept, skip, stop, add_cond, preprocess, tuple_step,
  cond_step, key_step,
}
use cs143_p.Conditions.Meaning.{key_holds, cond_meets, all_meet, is_accept, tuple_step-all_hold}
use cs143_p.Conditions.Merge.{is_range, IsRange, add_cond-IsRange, preprocess-all_meet}
use cs143_p.LeafNode.Layout.{Entry, entry_key}
use cs143_p.RecordFile.Slots.{Record}
use cs143_p.Statements.Walked.{taken, taken-cons, Step-cases}

-- The records that meet the conditions of the statement.
unfoldable pub selected : List SelCond → List Record → List Record
selected conds [] = []
selected conds (r ∷ rs) =
    let rest = selected conds rs in if all_meet conds r.key r.value then r ∷ rest else rest

abbrev pub is_lower : Comparator → Bool
is_lower gt = true
is_lower ge = true
is_lower _ = false

-- The key meets the lower bounds of the conditions.
unfoldable pub meets_lower : List SelCond → ℕ → Bool
meets_lower [] key = true
meets_lower (c ∷ conds) key =
    (not (is_lower c.comp) || key_holds c.comp key (atoi c.value)) && meets_lower conds key

unfoldable meets_upper : List SelCond → ℕ → Bool
meets_upper [] key = true
meets_upper (c ∷ conds) key =
    (is_lower c.comp || key_holds c.comp key (atoi c.value)) && meets_upper conds key

all_meet-bounds :
    (conds : List SelCond) (key : ℕ) (value : List ℕ)
    → All IsRange conds
    → all_meet conds key value ≡ (meets_lower conds key && meets_upper conds key)
unfolding all_meet meets_lower meets_upper cond_meets
all_meet-bounds [] key value v = refl
all_meet-bounds (c ∷ conds) key value v =
    rw (v.0.on_key, all_meet-bounds conds key value v.1) (ground arith)

holds_above :
    (comp : Comparator) (key other v : ℕ)
    → is_lower comp ≡ true
    → rank key ≤ rank other
    → key_holds comp key v ≡ true
    → key_holds comp other v ≡ true
unfolding key_holds
holds_above eq key other v l h k = absurd (ground (arith, l))
holds_above ne key other v l h k = absurd (ground (arith, l))
holds_above lt key other v l h k = absurd (ground (arith, l))
holds_above le key other v l h k = absurd (ground (arith, l))
holds_above gt key other v l h k = ground arith
holds_above ge key other v l h k = ground arith

fails_above :
    (comp : Comparator) (key other v : ℕ)
    → is_range comp ≡ true
    → is_lower comp ≡ false
    → rank key ≤ rank other
    → key_holds comp key v ≡ false
    → key_holds comp other v ≡ false
unfolding key_holds
fails_above eq key other v r l h k = absurd (ground (arith, r))
fails_above ne key other v r l h k = absurd (ground (arith, r))
fails_above lt key other v r l h k = ground arith
fails_above le key other v r l h k = ground arith
fails_above gt key other v r l h k = absurd (ground (arith, l))
fails_above ge key other v r l h k = absurd (ground (arith, l))

meets_lower-above :
    (conds : List SelCond) (key other : ℕ)
    → rank key ≤ rank other
    → meets_lower conds key ≡ true
    → meets_lower conds other ≡ true
unfolding meets_lower
meets_lower-above [] key other h m = refl
meets_lower-above (c ∷ conds) key other h m =
    let rest = meets_lower-above conds key other h (ground (arith, m)) in
    elim (Bool-cases (is_lower c.comp)) [
      | inl lower ↦
          let here =
            holds_above c.comp key other (atoi c.value) lower h (ground (arith, m, lower)) in
          ground (arith, here, rest)
      | inr upper ↦ ground (arith, upper, rest)
    ]

meets_upper-above :
    (conds : List SelCond) (key other : ℕ)
    → All IsRange conds
    → rank key ≤ rank other
    → meets_upper conds key ≡ false
    → meets_upper conds other ≡ false
unfolding meets_upper
meets_upper-above [] key other v h m = absurd (ground (arith, m))
meets_upper-above (c ∷ conds) key other v h m = elim (Bool-cases (meets_upper conds key)) [
  | inr later ↦ let rest = meets_upper-above conds key other v.1 h later in ground (arith, rest)
  | inl others ↦ elim (Bool-cases (is_lower c.comp)) [
    | inl lower ↦ absurd (ground (arith, m, others, lower))
    | inr upper ↦
        let here =
          fails_above c.comp key other (atoi c.value) v.0.ordered upper h
            (ground (arith, m, others, upper)) in
        ground (arith, here, upper)
  ]
]

preprocess-IsRange :
    (new conds : List SelCond)
    → All IsRange new
    → All IsRange conds
    → All IsRange (preprocess new conds)
unfolding preprocess
preprocess-IsRange new [] v w = v
preprocess-IsRange new (c ∷ conds) v w =
    preprocess-IsRange (add_cond new c) conds (add_cond-IsRange new c v w.0) w.1

range_step : (comp : Comparator) (key v : ℕ) → is_range comp ≡ true → key_step comp key v ≢ skip
unfolding key_step
range_step eq key v r h = absurd (ground (arith, r))
range_step ne key v r h = absurd (ground (arith, r))
range_step lt key v r h = ground (arith, h)
range_step le key v r h = ground (arith, h)
range_step gt key v r h = ground (arith, h)
range_step ge key v r h = ground (arith, h)

cond_step-range :
    (c : SelCond) (key : ℕ) (value : List ℕ)
    → IsRange c
    → cond_step c key value ≡ key_step c.comp key c.int_value
unfolding cond_step
cond_step-range c key value h = rw h.on_key refl

-- A tuple is not gone over by such conditions.
range_tuple :
    (conds : List SelCond) (key : ℕ) (value : List ℕ)
    → All IsRange conds
    → tuple_step conds key value ≢ skip
unfolding tuple_step
range_tuple [] key value v h = ground (arith, h)
range_tuple (c ∷ conds) key value v h =
    let here = range_step c.comp key c.int_value v.0.ordered in
    let same = cond_step-range c key value v.0 in
    let later = range_tuple conds key value v.1 in ground (arith, h, here, same, later)

-- The entries and their records have the same keys.
abbrev pub SameKeys : List Entry → List Record → Type 0
SameKeys [] [] = Unit
SameKeys (e ∷ es) (r ∷ rs) = (r.key ≡ e.key) × IsInt e.key × SameKeys es rs
SameKeys _ _ = ⊥

-- No record with the key of one of the entries meets the conditions.
abbrev pub NoneMeets : List SelCond → List Entry → Type 0
NoneMeets conds = All (λ e. (value : List ℕ) → all_meet conds e.key value ≡ false)

pub selected-behind :
    (conds : List SelCond) (skipped : List Entry) (first records : List Record)
    → SameKeys skipped first
    → NoneMeets conds skipped
    → selected conds (first ++ records) ≡ selected conds records
unfolding selected
selected-behind conds [] [] records k v = refl
selected-behind conds [] (r ∷ first) records k v = absurd k
selected-behind conds (e ∷ skipped) [] records k v = absurd k
selected-behind conds (e ∷ skipped) (r ∷ first) records (same, int, k) v =
    let fails : all_meet conds r.key r.value ≡ false =
      ap (λ (key : ℕ). all_meet conds key r.value) same ∙ v.0 r.value in
    rw fails (selected-behind conds skipped first records k v.1)

fails_later :
    (conds : List SelCond) (key : ℕ) (es : List Entry)
    → All IsRange conds
    → meets_upper conds key ≡ false
    → All (λ e. rank key ≤ rank e.key) es
    → NoneMeets conds es
fails_later conds key [] v h above = tt
fails_later conds key (e ∷ es) v h above = (
  (λ value.
      let fails = meets_upper-above conds key e.key v above.0 h in
      all_meet-bounds conds e.key value v ∙ ground (arith, fails)),
  fails_later conds key es v h above.1,
)

All-above :
    (a b : ℕ) (es : List Entry)
    → a ≤ b
    → All (λ e. b ≤ rank e.key) es
    → All (λ e. a ≤ rank e.key) es
All-above a b [] h v = tt
All-above a b (e ∷ es) h v = (omega (arith, h, v.0), All-above a b es h v.1)

selected-cons :
    (conds : List SelCond) (r : Record) (rs : List Record) (b : Bool)
    → all_meet conds r.key r.value ≡ b
    → selected conds (r ∷ rs) ≡ (if b then r ∷ selected conds rs else selected conds rs)
unfolding selected
selected-cons conds r rs b e = rw (selected, e) refl

-- From a key on that meets the lower bounds the loop takes exactly the records that meet the
-- conditions.
pub taken-selected :
    (conds : List SelCond) (key : ℕ) (es : List Entry) (rs : List Record)
    → All IsRange conds
    → All (λ c. IsInt c.int_value) (preprocess [] conds)
    → meets_lower conds key ≡ true
    → All (λ e. rank key ≤ rank e.key) es
    → IsSorted entry_key es
    → SameKeys es rs
    → taken (preprocess [] conds) rs ≡ selected conds rs
unfolding taken selected
taken-selected conds key [] [] v ints low above sorted same = refl
taken-selected conds key [] (r ∷ rs) v ints low above sorted same = absurd same
taken-selected conds key (e ∷ es) [] v ints low above sorted same = absurd same
taken-selected conds key (e ∷ es) (r ∷ rs) v ints low above sorted (here, int, same) =
    let merged = preprocess [] conds in
    let rest = taken-selected conds key es rs v ints low above.1 sorted.1 same in
    let accepts : is_accept (tuple_step merged r.key r.value) ≡ all_meet conds r.key r.value =
      tuple_step-all_hold merged r.key r.value (subst IsInt (sym here) int) ints
      ∙ preprocess-all_meet conds r.key r.value v in
    elim (Step-cases (tuple_step merged r.key r.value)) [
      | inl pass ↦
          taken-cons merged r rs accept pass
          ∙ ap (◌∷◌ r) rest
          ∙ sym (selected-cons conds r rs true (sym accepts ∙ ap is_accept pass))
      | inr (inl skipped) ↦
          absurd (range_tuple merged r.key r.value (preprocess-IsRange [] conds tt v) skipped)
      | inr (inr ended) ↦
          let fails : all_meet conds r.key r.value ≡ false = sym accepts ∙ ap is_accept ended in
          taken-cons merged r rs stop ended
          ∙ sym (
              selected-cons conds r rs false fails
              ∙ ap (selected conds) (sym (append-nil rs))
              ∙ selected-behind conds es rs [] same
                  (fails_later conds e.key es v (upper_fails fails) sorted.0))
    ]
  where
    upper_fails : all_meet conds r.key r.value ≡ false → meets_upper conds e.key ≡ false
    upper_fails fails =
        let split = all_meet-bounds conds r.key r.value v in
        let reached : meets_lower conds r.key ≡ true =
          ap (meets_lower conds) here ∙ meets_lower-above conds key e.key above.0 low in
        sym (ap (meets_upper conds) here) ∙ ground (arith, split, reached, fails)
